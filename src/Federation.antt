-- ===== src/Federation.antt =====
-- federation/src: peers with their trust, their challenge schedules, and the coordination of
-- spectrum between them.
pub mod Floats
pub mod Challenge
pub mod Peer
pub mod Spectrum
pub mod Coordinator
mod Tests
