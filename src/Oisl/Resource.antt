-- ===== src/Oisl/Resource.antt =====
-- Resources of satellites (oisl/src/resource): the allocator for tenants, and the resources of one
-- satellite.
pub mod Allocator
pub mod Parts
pub mod Manager
