-- ===== src/Oisl.antt =====
-- The optical inter-satellite link crate (oisl/src): the handoff of satellites between control
-- nodes.
pub mod Handoff
pub mod Window
pub mod Resource
pub mod Plane
mod Tests
