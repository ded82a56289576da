-- ===== src/Fibers/Tests.antt =====
-- The coroutines and the fibers at concrete inputs.
use tpcc.Prelude.{update, none, count, Option}
use tpcc.Fibers.Pool as Pool
use tpcc.Fibers.Allocator as Allocator
use tpcc.Fibers.Allocator.Atomic.{IsAtomicAt, Reach-IsAtomicAt}
use tpcc.Fibers.Pool.{
  StaticThreadPool, start_worker_threads, run, join, join_next, end_join, end_work,
}
use tpcc.Fibers.Pool.Shutdown.{Reach-joined}
use tpcc.Prelude.{ℕ, ◌<◌, ◌≡◌, refl, some, [], ◌∷◌, arith, ℕ_discrete}
use tpcc.Fibers.Coroutine.{Thread, new_thread, resume, complete, is_completed}
use tpcc.Fibers.Runtime.{
  Runtime, new_runtime, plan_task, spawn, begin_task, end_unfinished, end_finished, Step, spawns,
  takes, yields, ends, Fiber, absent, unstarted, started, coroutine_factory, factory_for, allocate,
  allocate_from, get_new_stack, release, released_by,
}
use tpcc.Fibers.Runtime.Places.{Reach-owned}
use tpcc.Fibers.Coroutine.Nesting.{Reach-refines}
use tpcc.Fibers.Coroutine.Nesting as Nesting
use tpcc.Fibers.Runtime as Runtime

-- Coroutine 0 has been resumed, and has resumed coroutine 1.
abbrev two_resumed : Thread ℕ
unfolding resume
two_resumed = resume 1 (resume 0 new_thread)

two_reached : Nesting.Reach two_resumed (1 ∷ 0 ∷ [])
unfolding resume is_completed ℕ_discrete
two_reached =
    Nesting.next (Nesting.next Nesting.here (Nesting.resumes 0 tt refl))
      (Nesting.resumes 1 (λ e. ground (arith, e), tt) refl)

-- The routine of coroutine 1 throws 7.
Reach-refines_example :
    (two_resumed.running ≡ some 1)
    × ((complete 1 (some 7) two_resumed).0.running ≡ some 0)
    × ((complete 1 (some 7) two_resumed).1 ≡ some 7)
Reach-refines_example =
    let (running, current, left) = Reach-refines two_reached in
    let (suspended, completed) = left 1 (0 ∷ []) refl in
    let (below, current_below, thrown, over) = completed (some 7) in (running, below, thrown)

-- Two fibers; the first has yielded on worker 1, and the second runs on worker 0.
abbrev one_yielded : Runtime
unfolding spawn plan_task begin_task coroutine_factory allocate get_new_stack end_unfinished
    ℕ_discrete
one_yielded =
    let first = begin_task 1 0 (record (spawn (spawn new_runtime)) { tasks = 1 ∷ [] }) in
    begin_task 0 1 (record (end_unfinished 1 0 first) { tasks = 0 ∷ [] })

one_yielded_reached : Runtime.Reach 2 one_yielded
unfolding spawn plan_task begin_task coroutine_factory allocate get_new_stack end_unfinished
    ℕ_discrete
one_yielded_reached =
    let first = begin_task 1 0 (record (spawn (spawn new_runtime)) { tasks = 1 ∷ [] }) in
    let spawned = Runtime.next (Runtime.next Runtime.here spawns) spawns in
    let running : Runtime.Reach 2 first =
      Runtime.next spawned (takes 1 (omega arith) refl [] (1 ∷ []) 0 refl) in
    let yielded : Runtime.Reach 2 (end_unfinished 1 0 first) =
      Runtime.next running (yields 1 (omega arith) 0 refl) in
    Runtime.next yielded (takes 0 (omega arith) refl [] (0 ∷ []) 1 refl)

Reach-owned_example :
    (1 < one_yielded.allocator.next_stack)
    × ((other : ℕ) → one_yielded.fibers other ≡ started 1 → other ≡ 1)
unfolding one_yielded
Reach-owned_example =
    let (made, free, alone) = (Reach-owned 2 one_yielded_reached).0 1 1 refl in (made, alone)

-- One worker: a fiber is spawned, `Join` begins, the fiber runs and ends, and the worker returns.
abbrev joined_pool : StaticThreadPool
unfolding spawn plan_task begin_task coroutine_factory allocate get_new_stack end_finished join
    end_work join_next end_join ℕ_discrete
joined_pool =
    let spawned = join (run start_worker_threads (spawn new_runtime)) in
    let running = run spawned (begin_task 0 0 (record spawned.runtime { tasks = [] })) in
    let over = run running (end_finished 0 0 running.runtime) in
    end_join (join_next 0 (end_work 0 over))

joined_pool_reached : Pool.Reach 1 joined_pool
unfolding spawn plan_task begin_task coroutine_factory allocate get_new_stack end_finished join
    end_work join_next end_join ℕ_discrete
joined_pool_reached =
    let spawned = join (run start_worker_threads (spawn new_runtime)) in
    let running = run spawned (begin_task 0 0 (record spawned.runtime { tasks = [] })) in
    let over = run running (end_finished 0 0 running.runtime) in
    let r₁ : Pool.Reach 1 spawned =
      Pool.next (Pool.next Pool.here (Pool.owner_spawns refl)) (Pool.joins refl) in
    let r₂ : Pool.Reach 1 running =
      Pool.next r₁ (Pool.takes 0 (omega arith) refl refl [] [] 0 refl) in
    let r₃ : Pool.Reach 1 over = Pool.next r₂ (Pool.ends 0 (omega arith) 0 refl) in
    let r₄ : Pool.Reach 1 (end_work 0 over) =
      Pool.next r₃ (Pool.stops 0 (omega arith) (refl, refl, idle)) in
    Pool.next (Pool.next r₄ (Pool.waits 0 (omega arith) refl refl)) (Pool.finishes refl)
  where
    idle :
        (worker : ℕ)
        → worker < 1
        → update (update {A = Option ℕ} (λ _. none) 0 (some 0)) 0 none worker ≡ none
    idle worker lt = ground (arith, lt)

Reach-joined_example :
    (joined_pool.runtime.fibers 0 ≡ absent) × (count 0 joined_pool.runtime.allocator.pool ≡ 1)
unfolding joined_pool
Reach-joined_example =
    let (tasks, idle, gone, stacks) = Reach-joined 1 joined_pool_reached (omega arith) refl in
    (gone 0, stacks 0 (omega arith))

-- Two threads call `Allocate`: one has the lock and has made a stack, the other has found the lock taken.
abbrev contended : Allocator.System
contended = record {
  shared = record { locked = 1; allocator = record { pool = []; next_stack = 1 } };
  threads =
      update
        (update
          (update
            (update
              (update (update (λ _. Allocator.outside) 0 (Allocator.exchanging Allocator.allocates))
                1 (Allocator.exchanging Allocator.allocates))
              0 Allocator.testing)
            1 (Allocator.loading Allocator.allocates))
          0 Allocator.making)
        0 (Allocator.unlocking (some 0));
  held = [];
}

contended_reached : Allocator.Reach 2 contended
unfolding Allocator.advance get_new_stack ℕ_discrete
contended_reached =
    let r₁ : Allocator.Reach 2
        (Allocator.go 0 (Allocator.exchanging Allocator.allocates) Allocator.init) =
      Allocator.next Allocator.here (Allocator.calls_allocate 0 (omega arith) refl) in
    Allocator.next
      (Allocator.next
        (Allocator.next
          (Allocator.next (Allocator.next r₁ (Allocator.calls_allocate 1 (omega arith) refl))
            (Allocator.moves 0 (omega arith) refl))
          (Allocator.moves 1 (omega arith) refl))
        (Allocator.moves 0 (omega arith) refl))
      (Allocator.moves 0 (omega arith) refl)

Reach-IsAtomicAt_example : IsAtomicAt 2 contended
Reach-IsAtomicAt_example = Reach-IsAtomicAt 2 contended_reached
