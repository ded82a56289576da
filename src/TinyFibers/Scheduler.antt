-- ===== src/TinyFibers/Scheduler.antt =====
-- tinyfibers/echo/tinyfibers/runtime: the scheduler, its fibers, wait queues and timers. One thread runs
-- everything, so a fiber's work between two system calls has no step. The event loop may run any
-- handler that has been posted to it, and a timer's handler at any time: nothing is assumed of the
-- order. A context switch to the scheduler returns from `SwitchToFiber`, so that `running_ = nullptr`
-- and `Reschedule` follow.
pub mod Placement
pub mod Liveness
use tpcc.Prelude.{
  ℕ, suc, ◌<◌, ◌++◌, List, [], ◌∷◌, Bool, true, false, Option, none, some, ◌≡◌, update,
  if◌then◌else◌, ◌>>=◌, count,
}

-- `FiberState`, and a fiber that is not there: not created yet, or deleted.
pub data FiberState : Type 0 where
  absent : FiberState
  starting : FiberState
  runnable : FiberState
  running : FiberState
  suspended : FiberState
  terminated : FiberState

-- Fibers go by their ids. `posted` holds the fibers that the handlers posted to `io_context_` are to
-- step, `timers` those that the handlers of timers are to resume, and `wait_queues` those parked.
pub record Scheduler : Type 0 where
  pub fibers : ℕ → FiberState
  pub current : Option ℕ
  pub next_id : ℕ
  pub posted : List ℕ
  pub timers : List ℕ
  pub wait_queues : ℕ → List ℕ

abbrev pub new_scheduler : Scheduler
new_scheduler = record {
  fibers = λ _. absent;
  current = none;
  next_id = 0;
  posted = [];
  timers = [];
  wait_queues = λ _. [];
}

abbrev pub set_state : ℕ → FiberState → Scheduler → Scheduler
set_state fiber target s = record s { fibers = update s.fibers fiber target }

unfoldable pub schedule : ℕ → Scheduler → Scheduler
schedule fiber s = record s { posted = s.posted ++ fiber ∷ [] }

-- `CreateFiber` gives the fiber the next id.
unfoldable pub spawn : Scheduler → Scheduler
unfolding schedule
spawn s = schedule s.next_id (record (set_state s.next_id starting s) { next_id = suc s.next_id })

abbrev pub is_suspended : FiberState → Bool
is_suspended suspended = true
is_suspended _ = false

-- `none`: a check fails.
unfoldable pub resume : ℕ → Scheduler → Option Scheduler
unfolding schedule
resume fiber s =
    if is_suspended (s.fibers fiber)
    then some (schedule fiber (set_state fiber runnable s))
    else none

unfoldable pub destroy : ℕ → Scheduler → Scheduler
destroy fiber s = set_state fiber absent s

unfoldable pub reschedule_from : FiberState → ℕ → Scheduler → Option Scheduler
unfolding schedule destroy
reschedule_from runnable fiber s = some (schedule fiber s)
reschedule_from suspended fiber s = some s
reschedule_from terminated fiber s = some (destroy fiber s)
reschedule_from _ fiber s = none

unfoldable pub reschedule : ℕ → Scheduler → Option Scheduler
unfolding reschedule_from
reschedule fiber s = reschedule_from (s.fibers fiber) fiber s

-- What follows `SwitchToScheduler(fiber)` in the handler that has called `Step(fiber)`.
unfoldable pub switch_to_scheduler : ℕ → Scheduler → Option Scheduler
unfolding reschedule
switch_to_scheduler fiber s = reschedule fiber (record s { current = none })

-- The start of `Step`.
unfoldable pub step : ℕ → Scheduler → Scheduler
step fiber s = record (set_state fiber running s) { current = some fiber }

unfoldable pub yield : Scheduler → Option Scheduler
unfolding switch_to_scheduler
yield s = do caller ← s.current; switch_to_scheduler caller (set_state caller runnable s)

unfoldable pub suspend : Scheduler → Option Scheduler
unfolding switch_to_scheduler
suspend s = do caller ← s.current; switch_to_scheduler caller (set_state caller suspended s)

unfoldable pub terminate : Scheduler → Option Scheduler
unfolding switch_to_scheduler
terminate s = do caller ← s.current; switch_to_scheduler caller (set_state caller terminated s)

unfoldable pub sleep_for : Scheduler → Option Scheduler
unfolding suspend
sleep_for s = do
  current_fiber ← s.current
  suspend (record s { timers = s.timers ++ current_fiber ∷ [] })

unfoldable pub park : ℕ → Scheduler → Option Scheduler
unfolding suspend
park q s = do
  caller ← s.current
  suspend (record s { wait_queues = update s.wait_queues q (s.wait_queues q ++ caller ∷ []) })

-- `PopFront` and `Resume`, for the first of the fibers that the queue is known to hold, or for all.
unfoldable pub wake_front : List ℕ → ℕ → Scheduler → Option Scheduler
unfolding resume
wake_front [] q s = some s
wake_front (fiber ∷ rest) q s =
    resume fiber (record s { wait_queues = update s.wait_queues q rest })

unfoldable pub wake_one : ℕ → Scheduler → Option Scheduler
unfolding wake_front
wake_one q s = wake_front (s.wait_queues q) q s

unfoldable pub wake_loop : List ℕ → ℕ → Scheduler → Option Scheduler
unfolding resume
wake_loop [] q s = some s
wake_loop (fiber ∷ rest) q s =
    resume fiber (record s { wait_queues = update s.wait_queues q rest }) >>= wake_loop rest q

unfoldable pub wake_all : ℕ → Scheduler → Option Scheduler
unfolding wake_loop
wake_all q s = wake_loop (s.wait_queues q) q s

-- The system calls that a fiber makes, with `m` wait queues.
pub data Call (m : ℕ) : Type 0 where
  spawns : Call m
  yields : Call m
  suspends : Call m
  resumes : ℕ → Call m
  sleeps : Call m
  terminates : Call m
  parks : (q : ℕ) → q < m → Call m
  wakes_one : (q : ℕ) → q < m → Call m
  wakes_all : (q : ℕ) → q < m → Call m

unfoldable pub perform : {m : ℕ} → Call m → Scheduler → Option Scheduler
unfolding spawn yield suspend resume sleep_for terminate park wake_one wake_all
perform spawns s = some (spawn s)
perform yields s = yield s
perform suspends s = suspend s
perform (resumes fiber) s = resume fiber s
perform sleeps s = sleep_for s
perform terminates s = terminate s
perform (parks q h) s = park q s
perform (wakes_one q h) s = wake_one q s
perform (wakes_all q h) s = wake_all q s

-- Who calls `Resume` holds the fiber itself, as a `ParkingLot` does, and not through a timer or a wait
-- queue, which resume the fibers that they hold.
abbrev pub IsAside : ℕ → ℕ → Scheduler → Type 0
IsAside m fiber s =
    (count fiber s.timers ≡ 0) × ((q : ℕ) → q < m → count fiber (s.wait_queues q) ≡ 0)

abbrev pub IsFit : {m : ℕ} → Call m → Scheduler → Type 0
IsFit {m} (resumes fiber) s = IsAside m fiber s
IsFit _ s = Unit {0}

-- `Run` spawns the first fiber and runs the loop: a handler is run when no fiber is, a fiber makes
-- a system call, and a handler or the destructor of a fiber may resume a fiber that is held aside.
pub data Reach (m : ℕ) : Scheduler → Type 0 where
  runs : Reach m (spawn new_scheduler)
  handles :
      {s : Scheduler}
      → Reach m s
      → s.current ≡ none
      → (xs ys : List ℕ) (fiber : ℕ) → s.posted ≡ xs ++ fiber ∷ ys
      → Reach m (step fiber (record s { posted = xs ++ ys }))
  fires :
      {s t : Scheduler}
      → Reach m s
      → s.current ≡ none
      → (xs ys : List ℕ) (fiber : ℕ) → s.timers ≡ xs ++ fiber ∷ ys
      → resume fiber (record s { timers = xs ++ ys }) ≡ some t
      → Reach m t
  calls :
      {s t : Scheduler}
      → Reach m s
      → (fiber : ℕ) → s.current ≡ some fiber
      → (c : Call m) → IsFit c s
      → perform c s ≡ some t
      → Reach m t
  wakes :
      {s t : Scheduler}
      → Reach m s
      → s.current ≡ none
      → (fiber : ℕ) → IsAside m fiber s
      → resume fiber s ≡ some t
      → Reach m t
