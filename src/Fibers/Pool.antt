-- ===== src/Fibers/Pool.antt =====
-- fibers/coroutine/mtf/thread_pool/static_thread_pool.cpp: `StaticThreadPool`, with the fibers that run
-- on it. asio's `io_context` is not code of the repository: `run` returns on a worker when there is no
-- work guard, no submitted task and no task that runs; from then on it runs nothing more. `Spawn` is
-- called by routines on the workers, and by the owner of the pool until it calls `Join`.
pub mod Shutdown
use tpcc.Prelude.{
  ℕ, zero, suc, ◌<◌, ◌≤◌, ◌++◌, List, [], ◌∷◌, Bool, true, false, Option, none, some, ◌≡◌, ◌⊎◌,
  update,
}
use tpcc.Fibers.Runtime.{Runtime, new_runtime, spawn, begin_task, end_unfinished, end_finished}

-- The owner of the pool: outside of `Join`, or before it joins a worker.
pub data Owner : Type 0 where
  outside : Owner
  joining : ℕ → Owner

-- `returned` holds for the workers whose `Work` has returned; `work_guard` while the guard is there.
pub record StaticThreadPool : Type 0 where
  pub runtime : Runtime
  pub work_guard : Bool
  pub returned : ℕ → Bool
  pub joined : Bool
  pub owner : Owner

-- A new pool, its workers started.
abbrev pub start_worker_threads : StaticThreadPool
start_worker_threads = record {
  runtime = new_runtime;
  work_guard = true;
  returned = λ _. false;
  joined = false;
  owner = outside;
}

-- `Join`, up to the first `worker.join()`, by whether the pool has been joined.
abbrev pub join_from : Bool → StaticThreadPool → StaticThreadPool
join_from true p = p
join_from false p = record p { work_guard = false; owner = joining 0 }

unfoldable pub join : StaticThreadPool → StaticThreadPool
join p = join_from p.joined p

-- The worker has been joined.
unfoldable pub join_next : ℕ → StaticThreadPool → StaticThreadPool
join_next worker p = record p { owner = joining (suc worker) }

unfoldable pub end_join : StaticThreadPool → StaticThreadPool
end_join p = record p { joined = true; owner = outside }

-- `Work` returns.
unfoldable pub end_work : ℕ → StaticThreadPool → StaticThreadPool
end_work worker p = record p { returned = update p.returned worker true }

abbrev pub run : StaticThreadPool → Runtime → StaticThreadPool
run p runtime = record p { runtime = runtime }

-- There is no work left, and `io_context::run` returns.
abbrev pub IsOutOfWork : ℕ → StaticThreadPool → Type 0
IsOutOfWork n p =
    (p.work_guard ≡ false)
    × (p.runtime.tasks ≡ [])
    × ((worker : ℕ) → worker < n → p.runtime.workers worker ≡ none)

pub data Step (n : ℕ) (p : StaticThreadPool) : StaticThreadPool → Type 0 where
  owner_spawns : p.work_guard ≡ true → Step n p (run p (spawn p.runtime))
  routine_spawns :
      (worker fiber : ℕ)
      → worker < n
      → p.runtime.workers worker ≡ some fiber
      → Step n p (run p (spawn p.runtime))
  takes :
      (worker : ℕ)
      → worker < n
      → p.returned worker ≡ false
      → p.runtime.workers worker ≡ none
      → (xs ys : List ℕ) (fiber : ℕ) → p.runtime.tasks ≡ xs ++ fiber ∷ ys
      → Step n p (run p (begin_task worker fiber (record p.runtime { tasks = xs ++ ys })))
  yields :
      (worker : ℕ)
      → worker < n
      → (fiber : ℕ) → p.runtime.workers worker ≡ some fiber
      → Step n p (run p (end_unfinished worker fiber p.runtime))
  ends :
      (worker : ℕ)
      → worker < n
      → (fiber : ℕ) → p.runtime.workers worker ≡ some fiber
      → Step n p (run p (end_finished worker fiber p.runtime))
  stops : (worker : ℕ) → worker < n → IsOutOfWork n p → Step n p (end_work worker p)
  joins : p.owner ≡ outside → Step n p (join p)
  waits :
      (worker : ℕ)
      → worker < n
      → p.owner ≡ joining worker
      → p.returned worker ≡ true
      → Step n p (join_next worker p)
  finishes : p.owner ≡ joining n → Step n p (end_join p)

pub data Reach (n : ℕ) : StaticThreadPool → Type 0 where
  here : Reach n start_worker_threads
  next : {p q : StaticThreadPool} → Reach n p → Step n p q → Reach n q
