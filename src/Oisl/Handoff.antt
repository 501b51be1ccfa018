-- ===== src/Oisl/Handoff.antt =====
-- The handoff of satellites between control nodes.
pub mod State
pub mod Manager
pub mod Cases
pub mod Find
pub mod Chains
pub mod Single
pub mod Stuck
pub mod Steps
