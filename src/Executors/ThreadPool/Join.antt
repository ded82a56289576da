-- ===== src/Executors/ThreadPool/Join.antt =====
-- What `Join` waits for, and what `Shutdown` does to it.
use tpcc.Prelude.{ℕ, ◌^◌, ◌<◌, ◌≤◌, none, some, [], ◌≡◌, total, le-total, arith, total-le-total}
use tpcc.Executors.ThreadPool.{
  StaticThreadPool, Worker, taking, Client, homing, serve, System, init, Reach,
}
use tpcc.Executors.ThreadPool.Counting.{busy, uncounted, claims, outstanding, Reach-IsCounted}

uncounted-le : {Task : Type 0} (w : Worker Task) → uncounted w ≤ busy w
uncounted-le taking = omega arith
uncounted-le _ = omega arith

module _ {Task : Type 0} {n m : ℕ} {s : System Task} where
  -- `Join` gets past `EverybodyHome` only when there is nothing left to do: if fewer than 2^64 tasks
  -- are outstanding, then at that moment the queue is empty, no worker has a task, no call of `Execute`
  -- is unfinished, and every task ever accepted has been executed.
  pub serve-homing :
      Reach n m (init n m) s
      → (c : Client Task) (p : StaticThreadPool Task) → outstanding n m s < 2 ^ 64
      → serve n s.workers homing s.pool ≡ some (p, c)
      → (s.pool.task_queue.buffer ≡ [])
        × ((i : ℕ) → i < n → busy (s.workers i) ≡ 0)
        × (total claims m s.clients ≡ 0)
        × (s.executed ≡ s.accepted)
  unfolding serve
  serve-homing a c p small q =
      let v = Reach-IsCounted n m a in
      let z : outstanding n m s ≡ 0 = ground (arith, v.current) in
      (
        ground arith,
        λ i lt. omega (arith, le-total busy n s.workers i lt),
        omega arith,
        omega (arith, v.conserved, total-le-total uncounted busy n s.workers uncounted-le),
      )

  -- Dropped tasks are never released: in a state in which `Cancel` has dropped a task, and fewer than
  -- 2^64 tasks are outstanding, a call of `Join` is blocked in `EverybodyHome`.
  pub serve-homing-dropped :
      Reach n m (init n m) s
      → 0 < s.dropped
      → outstanding n m s < 2 ^ 64
      → serve n s.workers homing s.pool ≡ none
  unfolding serve
  serve-homing-dropped a lost small = let v = Reach-IsCounted n m a in ground (arith, v.current)
