-- ===== src/Scheduling.antt =====
-- scheduler/src: the schedule of passes.
pub mod Schedule
mod Tests
