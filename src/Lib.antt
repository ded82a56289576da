-- ===== src/Lib.antt =====
-- The concurrency code of the repository: futures and executors, synchronisation primitives, cooperative
-- and multithreaded fibers, and two echo servers. Source paths are relative to the repository's root.
--
-- The parts, and the files that model them.
--
-- Prelude: helpers that are not code of the repository: Boolean tests, lists, words of 32 and 64
--   bits (Prelude/Words), and families of threads, with a weight summed over them (Prelude/Families).
--   Heap states what is relied on of std::priority_queue, as an interface over its comparator, and has a
--   list that fills it.
--
-- Executors: futures/futures/await/executors. BlockingQueue is blocking_queue.hpp, where every method
--   holds the mutex, so that a method is one step. Workers is helpers.hpp and helpers.cpp, the count of
--   outstanding tasks; ThreadPool is static_thread_pool.hpp and static_thread_pool.cpp, with workers and
--   clients interleaved, on the two. Manual is manual.cpp: a task is a value, and a parameter says which
--   tasks it spawns when it is run. Priority is priority.cpp, on an executor that runs what it has been
--   given in any order. Strand is strand.cpp: every access to is_scheduled_ and to the lock-free stack is
--   a step, and the stack is a list at the steps where its operations take effect. LockFreeStack is the
--   stack of futures/executors/await/executors/strand.cpp on a heap of nodes, with the operations of
--   Strand on lists as its specification, and its destructor.
--
-- Futures: futures/futures/await/futures. State is core/state.hpp, the cell that a promise and a future
--   share; State/Protocol interleaves SetResult with Subscribe or with GetResult of core/future.ipp.
--   Contract is core/promise.hpp, core/future.hpp and the part of core/future.ipp that has one cell.
--   Transform is the rest of core/future.ipp, on a store of such cells with the calls of callbacks that
--   are pending: Transform, Then and Recover. Async is util/async.hpp, with executors/inline.cpp, among
--   the tasks that it makes. Combine is combine/all.hpp and combine/first_of.hpp: the
--   callbacks of the inputs run one after the other, as their mutex makes them, in any order of
--   completion.
--
-- Sync: Semaphore and BoundedQueue are condvar/semaphore; Barrier is condvar/barrier;
--   ConditionVariable is condvar/condvar; Mutex is mutex/mutex/mutex.hpp, SpinLock
--   mutex/spinlock/spinlock.hpp and TicketLock mutex/try-lock/ticket_lock.hpp. Any number of threads are
--   interleaved; an access to an atomic, or a critical section, is a step.
--
-- Time: futures/futures/await/time/time_keeper.hpp. TimeKeeper has its queue of timers; Keeper has the
--   keeper with its thread and the contracts of its timers, among callers of After and a clock.
--
-- TinyFibers: tinyfibers/echo/tinyfibers/runtime. Scheduler is scheduler.cpp with fiber.hpp and
--   wait_queue.cpp; the steps of it with Resume are those of a caller that holds the fiber itself, so
--   that no timer and no wait queue holds it, as a parking lot does. Join is join_handle.cpp, parking_lot.cpp and future.hpp on it; Stacks
--   is stacks.cpp, with the scheduler's steps.
--
-- Net: tinyfibers/echo and asio/echo. Transport is what is relied on of asio's sockets, as an interface;
--   Socket is tinyfibers/net/socket.cpp, Acceptor tinyfibers/net/acceptor.cpp, Echo the server of the
--   fibers, and Session with Server the one of asio, with a completion handler as a step.
--
-- Fibers: fibers/coroutine/mtf. Coroutine is coroutine/impl.cpp, with nested Resume calls on one thread;
--   Runtime is fibers/fiber.cpp with fibers/stacks.cpp, on a pool that runs tasks in any order; Pool is
--   thread_pool/static_thread_pool.cpp with these fibers on it. Allocator has the calls of the allocator
--   on threads, access by access, under the lock of fibers/spinlock.cpp.
--
-- Intro: Dining is intro/dining/philosopher.cpp, over the table with its forks as an interface; Guarded
--   is intro/guarded/guarded.hpp.
--
-- How code is modelled. A struct is a record and an operation a function on it; an Option result is none
-- where a WHEELS_VERIFY, WHEELS_ASSERT or WHEELS_PANIC stops the program, where it is undefined (a null or
-- a deleted pointer), or, for a step of a thread, where the thread cannot go on. A thread in a method is a
-- program counter with its live locals, a system is the shared record with a function from thread numbers
-- to program counters, and Reach holds of the states that sequences of steps lead to. The memory model is
-- sequential consistency, which is the order that the code asks of its atomics by default; an atomic
-- pointer starts as null. size_t, and uint32_t in the mutex and the condition variable, wrap around where
-- they are added to; a theorem that needs a bound to exclude that says so. RunAtMost, Drain,
-- GrabReadyTimers, the destructor of the stack, the loops of the sockets and the runs of pending callbacks
-- take the number of rounds as fuel; a theorem says that so many rounds are enough.
--
-- What is not modelled. Allocation that fails, exceptions thrown by tasks, by callbacks of futures but
-- the inner one of the asynchronous Transform, thread labels and the timing of
-- sleeps. Pieces that are only called are abstract: an executor is a value that an invocation carries, a
-- callback and a task are values, the event loop of asio may run any posted handler at any moment, and a
-- context switch does what its name says. Of the futures, util/after only calls the keeper and is left
-- out; so are the other exercises under intro. A routine of a multithreaded fiber throws
-- nothing. Directories that hold another copy of a modelled file (futures/executors, tinyfibers/sleep) are
-- not modelled again, nor is condvar/thread-pool, the first form of the pool under futures.
pub mod Prelude
pub mod Executors
pub mod Fibers
pub mod Futures
pub mod Heap
pub mod Intro
pub mod Net
pub mod Sync
pub mod Time
pub mod TinyFibers
