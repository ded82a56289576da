-- ===== src/Executors/ThreadPool.antt =====
-- futures/futures/await/executors/static_thread_pool.cpp: `StaticThreadPool`. The pool's worker
-- threads, and any client threads that call `Execute`, `Join`, `Shutdown` or the destructor, are
-- interleaved; each operation on the queue, the counters and a worker's end is a step of its own.
-- Labels of threads are not modelled, nor is the use of a joined `std::thread`.
pub mod Counting
pub mod Join
pub mod Tests
use tpcc.Prelude.{
  ℕ, zero, suc, ◌+◌, ◌<◌, Bool, true, false, Option, none, some, List, [], ◌∷◌, ◌≡◌, if◌then◌else◌,
  ◌==◌, length, update, inc64, ◌>>=◌, ltb,
}
use tpcc.Executors.BlockingQueue.{BlockingQueue, put, take, close, cancel, is_closed}
use tpcc.Executors.BlockingQueue
use tpcc.Executors.Workers.{WorkersHandler, release_worker, acquire_worker, everybody_home}

-- `task_queue_`, `workers_manager_` and `executed_counter_`.
pub record StaticThreadPool (Task : Type 0) : Type 0 where
  pub task_queue : BlockingQueue Task
  pub workers_manager : WorkersHandler
  pub executed_counter : ℕ  -- size_t

-- Where a worker stands in the loop of `TurnOnBrains`.
pub data Worker (Task : Type 0) : Type 0 where
  taking : Worker Task
  executing : Task → Worker Task
  counting : Worker Task  -- before `++executed_counter_`
  releasing : Worker Task  -- before `ReleaseWorker()`
  exited : Worker Task

-- Where a client stands.
pub data Client (Task : Type 0) : Type 0 where
  outside : Client Task
  acquired : Task → Client Task  -- in `Execute`, before `Put`
  rejected : Client Task  -- in `Execute`, the queue was closed
  homing : Client Task  -- in `Join`, before or in `EverybodyHome()`
  closing : Client Task  -- in `Join`, before `Close()`
  cancelling : Client Task  -- in `Shutdown`, before `Cancel()`
  destroying : Client Task  -- at the start of the destructor
  joining : ℕ → Client Task  -- before `join()` of this worker

module _ {Task : Type 0} where
  after_take :
      StaticThreadPool Task → BlockingQueue Task × Option Task → StaticThreadPool Task × Worker Task
  after_take p (q, none) = (record p { task_queue = q }, exited)
  after_take p (q, some t) = (record p { task_queue = q }, executing t)

  -- The next step of a worker; `none` when it is blocked or has returned.
  unfoldable pub work :
      Worker Task → StaticThreadPool Task → Option (StaticThreadPool Task × Worker Task)
  unfolding after_take take release_worker
  work taking p = do r ← take p.task_queue; some (after_take p r)
  work (executing t) p = some (p, counting)
  work counting p = some (record p { executed_counter = inc64 p.executed_counter }, releasing)
  work releasing p = some (record p { workers_manager = release_worker p.workers_manager }, taking)
  work exited p = none

  after_put :
      StaticThreadPool Task → BlockingQueue Task × Bool → StaticThreadPool Task × Client Task
  after_put p (q, true) = (record p { task_queue = q }, outside)
  after_put p (q, false) = (record p { task_queue = q }, rejected)

  abbrev pub has_exited : Worker Task → Bool
  has_exited exited = true
  has_exited _ = false

  -- The start of `Execute(task)`.
  unfoldable pub begin_execute : Task → StaticThreadPool Task → StaticThreadPool Task × Client Task
  unfolding acquire_worker
  begin_execute t p = (record p { workers_manager = acquire_worker p.workers_manager }, acquired t)

  -- The next step of a client of a pool with `n` workers; `none` when it is blocked or outside.
  unfoldable pub serve :
      ℕ
      → (ℕ → Worker Task)
      → Client Task
      → StaticThreadPool Task
      → Option (StaticThreadPool Task × Client Task)
  unfolding after_put put release_worker everybody_home close cancel is_closed
  serve n workers outside p = none
  serve n workers (acquired t) p = some (after_put p (put t p.task_queue))
  serve n workers rejected p =
      some (record p { workers_manager = release_worker p.workers_manager }, outside)
  serve n workers homing p = if everybody_home p.workers_manager then some (p, closing) else none
  serve n workers closing p = some (record p { task_queue = close p.task_queue }, joining 0)
  serve n workers cancelling p = some (record p { task_queue = cancel p.task_queue }, joining 0)
  serve n workers destroying p =
      if is_closed p.task_queue
      then some (p, outside)
      else some (record p { task_queue = cancel p.task_queue }, joining 0)
  serve n workers (joining k) p =
      if ltb k n
      then (if has_exited (workers k) then some (p, joining (suc k)) else none)
      else some (p, outside)

  unfoldable pub executed_task_count : StaticThreadPool Task → ℕ
  executed_task_count p = p.executed_counter

  -- How many tasks a step of a client puts into the queue, and drops from it.
  abbrev pub accepts : Client Task → StaticThreadPool Task → ℕ
  accepts (acquired t) p = if p.task_queue.closed then 0 else 1
  accepts _ p = 0

  abbrev pub drops : Client Task → StaticThreadPool Task → ℕ
  drops cancelling p = length p.task_queue.buffer
  drops destroying p = if p.task_queue.closed then 0 else length p.task_queue.buffer
  drops _ p = 0

  abbrev pub finishes : Worker Task → ℕ
  finishes counting = 1
  finishes _ = 0

-- A pool with its threads, and the numbers of tasks accepted, executed, and dropped by `Cancel`.
pub record System (Task : Type 0) : Type 0 where
  pub pool : StaticThreadPool Task
  pub workers : ℕ → Worker Task
  pub clients : ℕ → Client Task
  pub accepted : ℕ
  pub executed : ℕ
  pub dropped : ℕ

module _ {Task : Type 0} (n m : ℕ) where
  -- What a client that is outside may call.
  pub data IsEntry : Client Task → Type 0 where
    joins : IsEntry homing
    shuts_down : IsEntry cancelling
    destroys : IsEntry destroying

  -- One step of `n` workers and `m` clients.
  pub data Step (s : System Task) : System Task → Type 0 where
    worker :
        (i : ℕ)
        → i < n
        → {p : StaticThreadPool Task} {w : Worker Task} → work (s.workers i) s.pool ≡ some (p, w)
        → Step s (record s {
          pool = p;
          workers = update s.workers i w;
          executed = s.executed + finishes (s.workers i);
        })
    client :
        (i : ℕ)
        → i < m
        → {p : StaticThreadPool Task} {c : Client Task}
        → serve n s.workers (s.clients i) s.pool ≡ some (p, c)
        → Step s (record s {
          pool = p;
          clients = update s.clients i c;
          accepted = s.accepted + accepts (s.clients i) s.pool;
          dropped = s.dropped + drops (s.clients i) s.pool;
        })
    execute :
        (i : ℕ)
        → i < m
        → (t : Task) → s.clients i ≡ outside
        → Step s (record s {
          pool = (begin_execute t s.pool).0;
          clients = update s.clients i (begin_execute t s.pool).1;
        })
    enter :
        (i : ℕ)
        → i < m
        → (c : Client Task) → IsEntry c
        → s.clients i ≡ outside
        → Step s (record s { clients = update s.clients i c })

  abbrev pub init : System Task
  init = record {
    pool = record {
      task_queue = BlockingQueue.init;
      workers_manager = record { current_number = 0 };
      executed_counter = 0;
    };
    workers = λ _. taking;
    clients = λ _. outside;
    accepted = 0;
    executed = 0;
    dropped = 0;
  }

  pub data Reach (s : System Task) : System Task → Type 0 where
    here : Reach s s
    next : {t u : System Task} → Reach s t → Step t u → Reach s u
