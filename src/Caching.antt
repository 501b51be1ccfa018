-- ===== src/Caching.antt =====
-- The caching crate (caching/src): the LRU cache, the cache with a time to live,
-- and the cache of schedule fragments.
pub mod Entry
pub mod Lru
pub mod Ttl
pub mod Fragments
mod Tests
