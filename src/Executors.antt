-- ===== src/Executors.antt =====
-- futures/futures/await/executors: the executors, and the queue and counter that they share.
pub mod BlockingQueue
pub mod Manual
pub mod Priority
pub mod LockFreeStack
pub mod Strand
pub mod Workers
pub mod ThreadPool
pub mod Tests
