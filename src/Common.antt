-- ===== src/Common.antt =====
-- The names that the other modules share: the libraries', passed on, and those of the children:
-- Boolean tests, lists over native numbers, signed numbers, maps and clock readings.
pub mod Tests
pub mod Lists
pub mod Int
pub mod Clock
pub mod Result
pub mod Maps
pub mod Values
pub mod Text
pub mod Select
pub mod Ring
pub mod Partial
pub mod Index
pub mod Fifo
pub mod Search
pub mod Ends
