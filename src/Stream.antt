-- ===== src/Stream.antt =====
-- The remote control's programs: controlstream/joystick-input.c and controlstream/rover-stick-ctl.c.
pub mod Joystick
pub mod Gateway
pub mod EndToEnd
mod Tests
