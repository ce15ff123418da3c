-- ===== src/Controller.antt =====
-- The Arduino controller of the rover: arduino/slcan_controller.
pub mod Board
pub mod Cut
pub mod Can
pub mod Sketch
pub mod Motor
pub mod Timer
pub mod LimitSwitch
pub mod Servo
mod Tests
