-- ===== src/Bitemporal.antt =====
-- The bi-temporal crate (bitemporal/src): timestamps, and the log that is chained by hashes.
pub mod Timestamp
pub mod Log
pub mod Provenance
mod Tests
