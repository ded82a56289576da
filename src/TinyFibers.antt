-- ===== src/TinyFibers.antt =====
-- tinyfibers/echo/tinyfibers: cooperative fibers on one thread.
pub mod Scheduler
pub mod Join
pub mod Stacks
pub mod Tests
