-- ===== src/Futures.antt =====
-- futures/futures/await/futures: shared states, promises and futures, combinators.
pub mod State
pub mod Contract
pub mod Combine
pub mod Async
pub mod Tests
pub mod Transform
