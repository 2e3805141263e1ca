-- ===== src/Schedule.antt =====
-- The scheduler: which run is next, and one tick.
pub mod Oldest
pub mod Tick
