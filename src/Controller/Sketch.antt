-- ===== src/Controller/Sketch.antt =====
-- arduino/slcan_controller/slcan_controller.ino: the sketch that joins the parts. Each value of
-- `millis()`, the reading of the converter and the bytes on the serial port are arguments.
pub mod Deadline
pub mod Same
pub mod Guard
pub mod Command
mod Tests
use pi_industrial_robottools.Base.{
  ℕ, ◌+◌, ◌*◌, ◌/◌, ◌%◌, Bool, true, false, List, [], ◌∷◌, ◌++◌, Option, none, some, ◌==◌,
  if◌then◌else◌, get_or, bit_or, replicate,
}
use pi_industrial_robottools.Base.Int.{ℤ, pos, negsuc}
use pi_industrial_robottools.Base.Word.{signed16, bits16}
use pi_industrial_robottools.Controller.Board.{
  Board, Call, digital_write, pin_mode, output, low, high, perform_all,
}
use pi_industrial_robottools.Controller.Timer.{Timer}
use pi_industrial_robottools.Controller.Timer
use pi_industrial_robottools.Controller.Motor.{Motor}
use pi_industrial_robottools.Controller.Motor
use pi_industrial_robottools.Controller.Servo.{Servo}
use pi_industrial_robottools.Controller.Servo
use pi_industrial_robottools.Controller.Can.{
  SlCan, CanRxTab, Received, Outcome, ignored, called, overrun, input_byte, begin, send, slc_mtu,
}

-- `LED_BUILTIN` of the board.
abbrev pub led_builtin : ℕ
led_builtin = 13

-- The one callback of the table.
pub data Handler : Type 0 where
  update_servo_setpoint : Handler

-- The global objects of the sketch, and what was written to the pins.
pub record Sketch : Type 0 where
  pub can : SlCan Handler
  pub tsend : Timer
  pub servo : Timer
  pub drives_off : Timer
  pub ibt2s : Servo
  pub ibt2m : Motor
  pub board : Board

-- The calls of the Arduino core, carried out.
abbrev pub does : List Call → Sketch → Sketch
does cs k = record k { board = perform_all k.board cs }

-- `(int16_t)(((uint16_t)(data[i] << 8)) | (uint16_t)data[i + 1])`
unfoldable pub word_at : List ℕ → ℕ → ℤ
word_at bytes i = signed16 (bit_or (get_or bytes i 0 * 256) (get_or bytes (i + 1) 0))

-- `UpdateServoSetpoint`, at the time `now` of its `reset`.
unfoldable pub update_setpoints : ℕ → List ℕ → ℕ → Sketch → Sketch
update_setpoints now bytes len k =
    if len == 4
    then (let m = Motor.update (word_at bytes 0) k.ibt2m in
        let s = Servo.update (word_at bytes 2) k.ibt2s in
        record k {
          ibt2m = m;
          ibt2s = s;
          drives_off = Timer.reset now k.drives_off;
          board =
              perform_all k.board
                (Servo.enable s ++ (Motor.enable m ++ digital_write led_builtin low ∷ []));
        })
    else k

-- `item->cb(data, len)`
abbrev pub call : ℕ → Received Handler → Sketch → Sketch
call now r k = elim r.cb [ update_servo_setpoint ↦ update_setpoints now r.bytes r.len k ]

-- `CanRxTab`
abbrev pub can_rx_tab : List (CanRxTab Handler)
can_rx_tab = record { can_id = b'0' ∷ b'1' ∷ b'4' ∷ 0 ∷ []; cb = update_servo_setpoint } ∷ []

-- A byte on the serial port, the time at which it is read, and what the array on the stack holds.
pub record Arrival : Type 0 where
  pub byte : ℕ
  pub time : ℕ
  pub stack : List ℕ

abbrev pub react : ℕ → Outcome Handler → Sketch → Option Sketch
react now ignored k = some k
react now (called r) k = some (call now r k)
react now overrun k = none

-- `can.input()`: the callback runs as soon as its frame is complete. `none` is the overrun of
-- `SLCan::handle`, after which nothing is known.
unfoldable pub poll_can : List Arrival → Sketch → Option Sketch
poll_can [] k = some k
poll_can (a ∷ rest) k =
    let step = input_byte a.stack a.byte k.can in
    let next = react a.time step.1 (record k { can = step.0 }) in
    elim next [ none ↦ none | some k' ↦ poll_can rest k' ]

-- The part of `loop` after `drivesOff.timedout()`.
unfoldable pub check_deadline : ℕ → Sketch → Sketch
check_deadline now k =
    let r = Timer.timedout now k.drives_off in
    let k' = record k { drives_off = r.0 } in
    if r.1
    then does
        (Motor.disable k.ibt2m ++ (Servo.disable k.ibt2s ++ digital_write led_builtin high ∷ [])) k'
    else k'

-- The part of `loop` after `servo.timedout()`.
unfoldable pub run_servo : ℕ → ℕ → Sketch → Sketch
run_servo now adc k =
    let r = Timer.timedout now k.servo in
    let s = Servo.tick adc k.ibt2s in
    let m = Motor.tick k.ibt2m in
    if r.1
    then does (s.1 ++ m.1) (record k { servo = r.0; ibt2s = s.0; ibt2m = m.0 })
    else record k { servo = r.0 }

-- `data[i] = (uint8_t)(val >> 8); data[i + 1] = (uint8_t)(val);`
abbrev pub two_bytes : ℤ → List ℕ → List ℕ
two_bytes val rest = bits16 val / 256 % 256 ∷ bits16 val % 256 ∷ rest

-- The bytes of the telemetry frame.
unfoldable pub telemetry : Sketch → List ℕ
telemetry k =
    two_bytes k.ibt2m.setpoint (
      two_bytes k.ibt2m.error (two_bytes k.ibt2s.computed_setpoint (two_bytes k.ibt2s.position [])))

-- The part of `loop` after `tsend.timedout()`, with the bytes written to the serial port.
unfoldable pub send_telemetry : ℕ → ℕ → Sketch → Sketch × List ℕ
unfolding telemetry
send_telemetry now space k =
    let r = Timer.timedout now k.tsend in
    let k' = record k { tsend = r.0 } in
    if r.1 then (k', (send (b'0' ∷ b'0' ∷ b'8' ∷ []) (telemetry k) 8 space).1) else (k', [])

-- What one call of `loop` is given: the bytes that arrive, the times at which the three timers are
-- asked, the reading of the converter, and the space of the serial port.
pub record Turn : Type 0 where
  pub arrivals : List Arrival
  pub deadline_time : ℕ
  pub servo_time : ℕ
  pub adc : ℕ
  pub send_time : ℕ
  pub space : ℕ

-- The parts of `loop` after `can.input()`.
unfoldable pub finish_turn : Turn → Sketch → Sketch × List ℕ
finish_turn t k =
    send_telemetry t.send_time t.space
      (run_servo t.servo_time t.adc (check_deadline t.deadline_time k))

abbrev pub finish : Turn → Option Sketch → Option (Sketch × List ℕ)
finish t none = none
finish t (some k) = some (finish_turn t k)

-- `loop`
unfoldable pub loop : Turn → Sketch → Option (Sketch × List ℕ)
loop t k = finish t (poll_can t.arrivals k)

-- The global objects as their constructors leave them, at the time `now`.
unfoldable pub construct : ℕ → Board → Sketch
construct now b =
    let s = Servo.init 8 7 5 6 3 1 in
    let m = Motor.init 4 2 9 10 1 in
    record {
      can = record { rptr = 0; rxbuf = replicate slc_mtu 0; tab = [] };
      tsend = Timer.init 1000 now;
      servo = Timer.init 10 now;
      drives_off = Timer.init 200 now;
      ibt2s = s;
      ibt2m = m;
      board = perform_all b (Servo.init_pins s ++ Motor.init_pins m);
    }

-- `setup`
unfoldable pub setup : Sketch → Sketch
setup k = does (pin_mode led_builtin output ∷ []) (record k {
  ibt2s = Servo.set_trim (pos 50) (Servo.clamp (negsuc 57) (pos 166) k.ibt2s);
  ibt2m = Motor.clamp (negsuc 510) (pos 511) k.ibt2m;
  can = begin can_rx_tab k.can;
})
