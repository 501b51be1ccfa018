-- ===== src/Regulatory.antt =====
-- regulatory/src: licences, frequencies and coordination proofs of a band, transmission with them,
-- and the check of compliance at run time.
pub mod Types
pub mod License
pub mod Transmit
pub mod Enforcement
pub mod Agreement
pub mod Held
pub mod Report
mod Tests
