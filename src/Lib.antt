-- ===== src/Lib.antt =====
-- Models and proofs for the parts of this repository: the controller of the rover
-- (arduino/slcan_controller) and its remote control (controlstream), the FPGA programmer
-- (papilio-prog), the SVF loader (svfload) and the loggers (boilermon, pulsemeter).
--
-- The controller. CAN frames arrive on a serial line as text. `SLCan` collects a line and decodes it,
-- and calls `UpdateServoSetpoint` of the sketch, which sets the speed of `IBT2Motor` and the
-- position of `IBT2Servo`, enables both bridges and restarts the deadline. `loop` polls the line,
-- switches the bridges off when the deadline has passed, runs both control loops at their period and
-- sends telemetry.
--   Controller/Board        the calls of the Arduino core, and the pins that they write
--   Controller/Cut          limits on the two sides of 0, which Motor and Servo share
--   Controller/Motor        IBT2Motor.cpp; Motor/Bounds its ranges, Motor/Bridge what it drives
--   Controller/Servo        IBT2Servo.cpp; Servo/Bounds its ranges, Servo/Loop its control law
--   Controller/Timer        MTimer.cpp
--   Controller/LimitSwitch  LimitSwitch.cpp
--   Controller/Can          SLCan.cpp: `hex_to_dec`, `handle`, `input`, `send`. Can/Line is the
--                           receiver as it is meant, which Can/Receive shows it to be; Can/Decode,
--                           Digits, Text and Complete lead to Can/RoundTrip
--   Controller/Sketch       slcan_controller.ino: `construct`, `setup`, `loop` and the callback
--                           `update_setpoints`; Sketch/Guard is about all runs,
--                           Sketch/Command about the callback
-- Each read of the outside, such as a byte, a reading of the converter or the value of `millis()`, is
-- an argument; each write is a value that the operation returns. An `int16_t` is an integer with its
-- cast written out, and `unsigned long` is taken modulo 2 ^ 32. `none` is a write outside an array.
--
-- The programmer. `IOBase` steers the TAP controllers of a JTAG chain by a buffer of TMS bits, and
-- `BitFile` reads what is to be programmed.
--   Papilio/Tap      the states of iobase.h, and `route`, the table of `IOBase::setTapState`;
--                    Tap/Standard is the controller of IEEE 1149.1
--   Papilio/IoBase   iobase.cpp. IoBase/Buffer and Steps say which bits each operation adds, Walk
--                    and SetState follow a route, InStep and Cycle compare with the device
--   Papilio/BitFile  bitfile.cpp, and the table of tools.cpp in BitFile/Flip
--   Papilio/Chain    jtag.cpp; Chain/Find is about `getChain`, Chain/Align and
--                    Chain/Shift about `shiftDR`
--   Papilio/Spi      progalgspi.cpp: `spi_command` and the checks. Spi/Identify, Erase, Write, Verify
--                    and Program hold `Spi_Identify`, `Spi_Erase` and `Spi_PartialErase`,
--                    `Spi_Write`, `Spi_Verify`, `EraseSpi` and `ProgramSpi`; Spi/Frame is about
--                    commands, Verify/Compare and Program/Verified about comparisons,
--                    Write/Flash and Write/Stores about writing
--   Papilio/DeviceDb devicedb.cpp and `get_id` of butterfly.cpp; DeviceDb/Synced is about the lengths
--                    that `get_id` sets
--   Papilio/Xc3s     progalgxc3s.cpp, as steps of the chain; Xc3s/Status is what it prints of a device,
--                    Xc3s/Configures what the FPGA gets
--   Papilio/Butterfly  `append_data` of butterfly.cpp; Butterfly/Append is about where the file goes,
--                    Butterfly/Main is `main`, over an interface of the parts that it calls, and
--                    Butterfly/Outcome is about its exit status
--   Papilio/Ftdi     ioftdi.cpp: the buffer of commands, `readusb`, `tx_tms` and `cycleTCK`;
--                    Ftdi/Block holds `txrx_block`. Ftdi/Engine is the engine of the chip by its
--                    documentation, and Ftdi/Emits says what the calls make it clock out
-- The cable's virtual functions are events, in order. `fault` is a write outside the buffer.
-- `setTapState` has fuel 10: no route has more than nine rounds, and Walk proves that it is enough.
-- `readFile` has fuel for one round more than the file has bytes, and each round reads one; that it
-- is enough is part of the theorem on well-formed files. `stuck` is the lack of fuel and no outcome
-- of the code.
--
-- The loop of `shiftDR` has fuel for two rounds more than the bits behind the device, and Align proves
-- that it is enough; `getChain` counts its rounds down from 1000, as the code counts them up.
--
-- The flash is reached by `shift`, a parameter: the bytes that the chain shifts out for those shifted
-- in. Laws say what a flash answers to a read
-- command, and what a page program command stores. A loop of retries makes as many rounds as
-- the code makes at most. libftdi is a parameter too, a record of two calls. The loops of `tx_tms` and
-- `txrx_block` have fuel for as many rounds as there are bits, or full chunks and one, and
-- Ftdi/Emits shows that it is enough. Counters of calls, waiting and messages are left out.
--
-- The SVF loader. libxsvf reads an SVF file and makes callbacks, which clock the JTAG lines by calls of
-- the kernel. `main_play` runs it twice: once to check the file and count the clocks, once to play.
--   Svf/Gpio      `svfctl` of svfload/svfload.c, and the calls that it makes
--   Svf/Player    the callbacks; Svf/Program is `main_analyze`, `main_idcode` and `main_play`, and
--                 Svf/Main is `main`
--   Svf/Library   what the program relies on of libxsvf
--   Svf/Wave      what a log of calls does to the lines; Edges, Delay, Pulse and Rounds say how often
--                 TCK rises in each operation, and Device in a whole play
--   Svf/Count     how the callbacks count; Aligned and Passes compare the two passes
--   Svf/Working   a kernel without errors, and Svf/Failure one with errors
-- The kernel is a function of the calls made before, so that any call may fail; libxsvf is a `Script`,
-- the tree of the callbacks that it makes for each result. A delay has fuel for its rounds, and `none`
-- is a delay that has not ended; Working says how much is enough.
--
-- The remote control. The joystick program sends its positions by datagrams, and the gateway makes CAN
-- frames of them, which the sketch gets.
--   Stream/Joystick  controlstream/joystick-input.c
--   Stream/Gateway   controlstream/rover-stick-ctl.c; Stream/EndToEnd joins both with the sketch
--
-- The loggers. Each turn of a loop is given what it reads and yields what it logs.
--   Loggers/Valve  boilermon/valvelog/valvelog.c; Loggers/Replay reads its log again
--   Loggers/Water  pulsemeter/waterlog/waterlog-ekm.c; Loggers/Flow sums its log up
--
-- Base holds the shared names: tests, lists, integers, machine words and bits.
--
-- Not modelled: of ioftdi.cpp of papilio-prog the opening and closing of the device and the branch for
-- FTD2XX; controlstream/read-max31865.c, which computes with floating point numbers; the FreeBSD
-- driver of svfload and the parts of svfload.c for it; pulsemeter's Verilog; videostream, which joins
-- V4L2 and SDL to an RTP library; and the copies of other projects' libraries, uvgrtp-2.0.0 and
-- svfload/libxsvf.
pub mod Base
pub mod Controller
pub mod Papilio
pub mod Svf
pub mod Stream
pub mod Loggers
