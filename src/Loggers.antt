-- ===== src/Loggers.antt =====
-- The data loggers: boilermon/valvelog and pulsemeter/waterlog.
pub mod Valve
pub mod Water
pub mod Flow
pub mod Replay
mod Tests
