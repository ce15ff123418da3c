-- ===== src/Svf.antt =====
-- The SVF loader: svfload/svfload.c, as it is built for Linux.
pub mod Gpio
pub mod Wave
pub mod Edges
pub mod Delay
pub mod Pulse
pub mod Player
pub mod Program
pub mod Main
pub mod Library
pub mod Count
pub mod Aligned
pub mod Passes
pub mod Failure
pub mod Rounds
pub mod Working
pub mod Device
mod Tests
