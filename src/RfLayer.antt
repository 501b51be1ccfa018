-- ===== src/RfLayer.antt =====
-- The rf-layer crate (rf-layer/src): samples and their ring buffer, snapshots of the demodulator,
-- and the failover to a shadow SDR.
pub mod Sdr
pub mod Floats
pub mod Demodulator
pub mod Shadow
pub mod Tracker
mod Tests
