-- ===== src/Timer.antt =====
-- timer.h and timer.c: the three root counters.
pub mod State
pub mod Registers
pub mod Count
pub mod Tick
pub mod Advance
pub mod Period
pub mod OneShot
pub mod Divider
pub mod Bounds
