-- ===== src/Executors/ThreadPool/Counting.antt =====
-- The counters of the pool against the tasks: `current_number_` counts the tasks that are queued, being
-- executed, on their way into the queue, or dropped.
use tpcc.Prelude.{
  ℕ, ◌+◌, ◌%◌, ◌^◌, Bool, true, false, some, List, [], ◌∷◌, ◌≡◌, refl, length, total, total-update,
  total-eq-zero, length-append, arith, ◌-◌, le-total, ◌∙◌,
}
use tpcc.Executors.Workers.{WorkersHandler}
use tpcc.Executors.ThreadPool.{
  StaticThreadPool, Worker, taking, executing, counting, releasing, exited, Client, outside,
  acquired, rejected, homing, closing, cancelling, destroying, joining, work, serve, begin_execute,
  accepts, drops, finishes, System, joins, shuts_down, destroys, Step, worker, client, execute,
  enter, init, Reach, here, next,
}

module _ {Task : Type 0} where
  -- A worker between taking a task and `ReleaseWorker`; one whose task is not counted yet.
  abbrev pub busy : Worker Task → ℕ
  busy taking = 0
  busy exited = 0
  busy _ = 1

  abbrev pub uncounted : Worker Task → ℕ
  uncounted (executing t) = 1
  uncounted counting = 1
  uncounted _ = 0

  -- A client between `AcquireWorker` and the end of `Execute`.
  abbrev pub claims : Client Task → ℕ
  claims (acquired t) = 1
  claims rejected = 1
  claims _ = 0

  -- What a step of a worker does to the numbers.
  record Worked (p : StaticThreadPool Task) (w : Worker Task) (p' : StaticThreadPool Task)
      (w' : Worker Task) : Type 0 where
    current :
        (k : ℕ)
        → p.workers_manager.current_number ≡ (length p.task_queue.buffer + busy w + k) % 2 ^ 64
        → p'.workers_manager.current_number ≡ (length p'.task_queue.buffer + busy w' + k) % 2 ^ 64
    conserved :
        length p'.task_queue.buffer + uncounted w' + finishes w
        ≡ length p.task_queue.buffer + uncounted w
    counted :
        (k : ℕ) → p.executed_counter ≡ k % 2 ^ 64 → p'.executed_counter ≡ (k + finishes w) % 2 ^ 64

  abbrev pool : Bool → List Task → WorkersHandler → ℕ → StaticThreadPool Task
  pool b buf h e = record {
    task_queue = record { closed = b; buffer = buf };
    workers_manager = h;
    executed_counter = e;
  }

  work-Worked :
      (w : Worker Task) (b : Bool) (buf : List Task) (h : WorkersHandler) (e : ℕ)
      (p' : StaticThreadPool Task) (w' : Worker Task)
      → work w (pool b buf h e) ≡ some (p', w')
      → Worked (pool b buf h e) w p' w'
  unfolding work
  work-Worked taking true [] h e p' w' q = ground arith
  work-Worked taking false [] h e p' w' q = ground arith
  work-Worked taking true (t ∷ buf) h e p' w' q = ground arith
  work-Worked taking false (t ∷ buf) h e p' w' q = ground arith
  work-Worked (executing t) b buf h e p' w' q = ground arith
  work-Worked counting b buf h e p' w' q = ground arith
  work-Worked releasing b buf h e p' w' q = ground arith
  work-Worked exited b buf h e p' w' q = ground arith

  -- What a step of a client does to the numbers.
  record Served (p : StaticThreadPool Task) (c : Client Task) (p' : StaticThreadPool Task)
      (c' : Client Task) : Type 0 where
    current :
        (k : ℕ)
        → p.workers_manager.current_number ≡ (length p.task_queue.buffer + claims c + k) % 2 ^ 64
        → p'.workers_manager.current_number
          ≡ (length p'.task_queue.buffer + claims c' + drops c p + k) % 2 ^ 64
    conserved : length p'.task_queue.buffer + drops c p ≡ length p.task_queue.buffer + accepts c p
    kept : p'.executed_counter ≡ p.executed_counter

  serve-Served :
      (n : ℕ) (ws : ℕ → Worker Task) (c : Client Task) (b : Bool) (buf : List Task)
      (h : WorkersHandler) (e : ℕ) (p' : StaticThreadPool Task) (c' : Client Task)
      → serve n ws c (pool b buf h e) ≡ some (p', c')
      → Served (pool b buf h e) c p' c'
  unfolding serve
  serve-Served n ws outside b buf h e p' c' q = ground arith
  serve-Served n ws (acquired t) true buf h e p' c' q = ground arith
  serve-Served n ws (acquired t) false buf h e p' c' q = ground (arith, length-append buf (t ∷ []))
  serve-Served n ws rejected b buf h e p' c' q = ground arith
  serve-Served n ws homing b buf h e p' c' q = ground arith
  serve-Served n ws closing b buf h e p' c' q = ground arith
  serve-Served n ws cancelling b buf h e p' c' q = ground arith
  serve-Served n ws destroying true buf h e p' c' q = ground arith
  serve-Served n ws destroying false buf h e p' c' q = ground arith
  serve-Served n ws (joining k) b buf h e p' c' q = ground arith

-- The tasks that the pool has not finished with, for `n` workers and `m` clients: queued, dropped from
-- the queue, being executed, or in a call of `Execute` that has not returned.
abbrev pub outstanding : {Task : Type 0} → ℕ → ℕ → System Task → ℕ
outstanding n m s =
    length s.pool.task_queue.buffer + total busy n s.workers + total claims m s.clients + s.dropped

pub record IsCounted {Task : Type 0} (n m : ℕ) (s : System Task) : Type 0 where
  pub current : s.pool.workers_manager.current_number ≡ outstanding n m s % 2 ^ 64
  pub conserved :
      length s.pool.task_queue.buffer + total uncounted n s.workers + s.executed + s.dropped
      ≡ s.accepted
  pub counted : s.pool.executed_counter ≡ s.executed % 2 ^ 64

module _ {Task : Type 0} (n m : ℕ) where
  Step-IsCounted : {s t : System Task} → Step n m s t → IsCounted n m s → IsCounted n m t
  unfolding begin_execute
  Step-IsCounted {s} (worker i lt {p} {w} q) v =
      let f =
        work-Worked (s.workers i) s.pool.task_queue.closed s.pool.task_queue.buffer
          s.pool.workers_manager s.pool.executed_counter p w q in
      let b = total-update busy n s.workers i w lt in
      let u = total-update uncounted n s.workers i w lt in
      let others =
        total busy n s.workers - busy (s.workers i) + total claims m s.clients + s.dropped in
      let here_le = le-total busy n s.workers i lt in
      let now = f.current others (omega (arith, v.current)) in
      record {
        current = omega (arith, now, b, here_le);
        conserved = omega (arith, v.conserved, f.conserved, u);
        counted = f.counted s.executed v.counted;
      }
  Step-IsCounted {s} (client i lt {p} {c} q) v =
      let f =
        serve-Served n s.workers (s.clients i) s.pool.task_queue.closed s.pool.task_queue.buffer
          s.pool.workers_manager s.pool.executed_counter p c q in
      let b = total-update claims m s.clients i c lt in
      let others =
        total busy n s.workers + (total claims m s.clients - claims (s.clients i)) + s.dropped in
      let here_le = le-total claims m s.clients i lt in
      let now = f.current others (omega (arith, v.current)) in
      record {
        current = omega (arith, now, b, here_le);
        conserved = omega (arith, v.conserved, f.conserved);
        counted = f.kept ∙ v.counted;
      }
  Step-IsCounted {s} (execute i lt t e) v =
      let b = total-update claims m s.clients i (acquired t) lt in ground arith
  Step-IsCounted {s} (enter i lt c joins e) v =
      let b = total-update claims m s.clients i homing lt in ground arith
  Step-IsCounted {s} (enter i lt c shuts_down e) v =
      let b = total-update claims m s.clients i cancelling lt in ground arith
  Step-IsCounted {s} (enter i lt c destroys e) v =
      let b = total-update claims m s.clients i destroying lt in ground arith

  init-IsCounted : IsCounted {Task = Task} n m (init n m)
  init-IsCounted = record {
    current = omega (
      arith,
      total-eq-zero (busy {Task = Task}) n (λ _. taking) (λ _. refl),
      total-eq-zero (claims {Task = Task}) m (λ _. outside) (λ _. refl),
    );
    conserved = omega (arith, total-eq-zero (uncounted {Task = Task}) n (λ _. taking) (λ _. refl));
    counted = refl;
  }

  -- In every state that a new pool with `n` workers and `m` clients can reach, modulo 2^64:
  -- `current_number_` is the number of tasks that are queued or dropped, of workers that have not
  -- released their task, and of calls of `Execute` that have not ended; every accepted task is queued,
  -- dropped, with a worker, or executed; and `ExecutedTaskCount` is the number of tasks executed.
  pub Reach-IsCounted : {s : System Task} → Reach n m (init n m) s → IsCounted n m s
  Reach-IsCounted here = init-IsCounted
  Reach-IsCounted (next a st) = Step-IsCounted st (Reach-IsCounted a)
