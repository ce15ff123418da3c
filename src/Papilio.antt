-- ===== src/Papilio.antt =====
-- The FPGA programmer: papilio-prog.
pub mod Tap
pub mod IoBase
pub mod BitFile
pub mod Chain
pub mod Spi
pub mod Ftdi
pub mod Butterfly
pub mod DeviceDb
pub mod Xc3s
mod Tests
