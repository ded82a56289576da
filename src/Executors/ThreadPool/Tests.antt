-- ===== src/Executors/ThreadPool/Tests.antt =====
-- Runs of a pool with one worker and one client, and the theorems on the pool at them.
use tpcc.Prelude.{ℕ, ◌<◌, [], ◌≡◌, refl, ℕ_discrete, arith, total}
use tpcc.Executors.ThreadPool.{
  closing, cancelling, work, serve, begin_execute, System, shuts_down, worker, client, execute,
  enter, init, Reach, here, next,
}
use tpcc.Executors.ThreadPool.Counting.{busy, claims}
use tpcc.Executors.ThreadPool.Join.{serve-homing}

abbrev one : 0 < 1
one = omega arith

-- The client submits a task, the worker runs it, and the client is about to call `Join`.
one_done : (s : System ℕ) × Reach 1 1 (init 1 1) s
unfolding work serve begin_execute ℕ_discrete
one_done = (
  _,
  next
      (next
        (next
          (next (next (next here (execute 0 one 7 refl)) (client 0 one refl)) (worker 0 one refl))
          (worker 0 one refl))
        (worker 0 one refl))
      (worker 0 one refl),
)

-- The client submits a task and shuts the pool down before the worker has taken it.
one_dropped : (s : System ℕ) × Reach 1 1 (init 1 1) s
unfolding work serve begin_execute ℕ_discrete
one_dropped = (
  _,
  next
      (next (next (next here (execute 0 one 7 refl)) (client 0 one refl))
        (enter 0 one cancelling shuts_down refl))
      (client 0 one refl),
)

serve-homing_example :
    (one_done.0.pool.task_queue.buffer ≡ [])
    × ((i : ℕ) → i < 1 → busy (one_done.0.workers i) ≡ 0)
    × (total claims 1 one_done.0.clients ≡ 0)
    × (one_done.0.executed ≡ one_done.0.accepted)
unfolding one_done total work serve begin_execute ℕ_discrete
serve-homing_example = serve-homing one_done.1 closing one_done.0.pool (omega arith) refl
