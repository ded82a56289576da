-- ===== src/Time.antt =====
-- futures/futures/await/time: timers.
pub mod TimeKeeper
pub mod Keeper
pub mod Grab
pub mod Tests
