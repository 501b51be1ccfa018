-- ===== src/Uplink.antt =====
-- The uplink crate (uplink/src): commands, the command queue, the tracking of
-- confirmations, the schedule of transmissions.
pub mod Command
pub mod Queue
pub mod Confirmation
pub mod Scheduler
mod Tests
