-- ===== src/Sync.antt =====
-- condvar, mutex and fibers/coroutine/mtf/fibers: the synchronisation primitives.
pub mod Semaphore
pub mod BoundedQueue
pub mod Mutex
pub mod TicketLock
pub mod SpinLock
pub mod Barrier
pub mod ConditionVariable
pub mod Tests
