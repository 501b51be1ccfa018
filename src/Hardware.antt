-- ===== src/Hardware.antt =====
-- The hardware crate (hardware/src): circuit breakers, devices, the device pool, emergency shards.
pub mod Breaker
pub mod Device
pub mod Pool
pub mod Emergency
pub mod Shard
mod Tests
