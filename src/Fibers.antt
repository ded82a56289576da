-- ===== src/Fibers.antt =====
-- fibers/coroutine/mtf: stackful coroutines, and fibers on a thread pool.
pub mod Coroutine
pub mod Runtime
pub mod Pool
pub mod Allocator
pub mod Tests
