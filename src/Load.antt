-- ===== src/Load.antt =====
-- src/load: arrival schedules.
pub mod Time
pub mod Schedule
