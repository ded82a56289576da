-- ===== src/Executors/Strand.antt =====
-- futures/futures/await/executors/strand.cpp: `StrandExecutor`, which runs its tasks one at a time on
-- another executor. `Shared` holds the two atomics. An activity is one call of `Execute`, and after it
-- the jobs that the call hands to the other executor, which starts them when it likes; each access to
-- an atomic is a step of its own. `LockFreeStack` is a list, its head first: a successful
-- compare-exchange of `Push` or `Pop` is one step, and a failed one changes nothing. The tags that
-- `AddToTag` is to put on the pointers have no counterpart, since the function changes a copy of its
-- argument.
pub mod Order
pub mod Stranded
use tpcc.Prelude.{
  ℕ, Bool, true, false, Option, none, some, List, [], ◌∷◌, ◌++◌, ◌≡◌, if◌then◌else◌, is_empty,
  update,
}

-- `stack_` and `is_scheduled_`.
pub record Shared (Task : Type 0) : Type 0 where
  pub is_scheduled : Bool
  pub stack : List Task

pub data Activity (Task : Type 0) : Type 0 where
  idle : Activity Task
  pushed : Activity Task  -- in `Execute`, before the compare-exchange of `is_scheduled_`
  grabbing : Activity Task  -- at the start of `ExecuteFirstStack`
  looping : List Task → Activity Task  -- at the head of the job's loop over `tasks`
  running : Task → List Task → Activity Task  -- in `ExecuteHere`
  probing : Activity Task  -- before `stack_.IsEmpty()`
  clearing : Activity Task  -- before `is_scheduled_.store(false)`

module _ {Task : Type 0} where
  unfoldable pub push : Task → List Task → List Task
  push t stack = t ∷ stack

  unfoldable pub pop : List Task → Option (Task × List Task)
  pop [] = none
  pop (t ∷ stack) = some (t, stack)

  -- `this->ExchangeWithAnother(another)`, as the new contents of both.
  unfoldable pub exchange_with_another : List Task → List Task → List Task × List Task
  exchange_with_another this another = (another, this)

  -- The loop that pops all of `tasks_to_run` onto the back of `tasks`. The vector is written with its
  -- back in front, where the job takes its tasks from.
  unfoldable pub collect : List Task → List Task → List Task
  collect [] tasks = tasks
  collect (t ∷ rest) tasks = collect rest (t ∷ tasks)

  -- `ExecuteFirstStack`, up to the hand-over to the other executor.
  unfoldable pub grab : Shared Task → Shared Task × Activity Task
  unfolding exchange_with_another collect
  grab s =
      let (tasks_to_run, stack) = exchange_with_another [] s.stack in
      (record s { stack = stack }, looping (collect tasks_to_run []))

  -- The next step of an activity that has begun.
  unfoldable pub advance : Activity Task → Shared Task → Option (Shared Task × Activity Task)
  unfolding grab
  advance idle s = none
  advance pushed s =
      if s.is_scheduled then some (s, idle) else some (record s { is_scheduled = true }, grabbing)
  advance grabbing s = some (grab s)
  advance (looping []) s = some (s, probing)
  advance (looping (t ∷ tasks)) s = some (s, running t tasks)
  advance (running t tasks) s = some (s, looping tasks)
  advance probing s = some (s, if is_empty s.stack then clearing else grabbing)
  advance clearing s = some (record s { is_scheduled = false }, idle)

  -- The task that an activity starts with its next step.
  abbrev pub starts : Activity Task → List Task
  starts (looping (t ∷ tasks)) = t ∷ []
  starts _ = []

-- The strand, its activities, the tasks pushed and the tasks started, oldest first.
pub record System (Task : Type 0) : Type 0 where
  pub shared : Shared Task
  pub acts : ℕ → Activity Task
  pub accepted : List Task
  pub started : List Task

module _ {Task : Type 0} where
  -- A call of `Execute` pushes its task, or an activity goes on.
  pub data Step (s : System Task) : System Task → Type 0 where
    call :
        (i : ℕ) (t : Task)
        → s.acts i ≡ idle
        → Step s (record {
          shared = record s.shared { stack = push t s.shared.stack };
          acts = update s.acts i pushed;
          accepted = s.accepted ++ t ∷ [];
          started = s.started;
        })
    move :
        (i : ℕ) {shared : Shared Task} {a : Activity Task}
        → advance (s.acts i) s.shared ≡ some (shared, a)
        → Step s (record {
          shared = shared;
          acts = update s.acts i a;
          accepted = s.accepted;
          started = s.started ++ starts (s.acts i);
        })

  abbrev pub init : System Task
  init = record {
    shared = record { is_scheduled = false; stack = [] };
    acts = λ _. idle;
    accepted = [];
    started = [];
  }

  pub data Reach : System Task → Type 0 where
    here : Reach init
    next : {s t : System Task} → Reach s → Step s t → Reach t
