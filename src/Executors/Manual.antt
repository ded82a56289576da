-- ===== src/Executors/Manual.antt =====
-- futures/futures/await/executors/manual.cpp: `ManualExecutor`, the executor that runs its tasks when
-- it is told to. A task is a value of the type `Task`; what a task does to the executor that runs it
-- is `spawns`, the tasks that it hands to `Execute`, in order. Exceptions are swallowed by
-- `ExecuteHere`, so a task that throws differs only in what it had spawned before. A task that calls
-- `RunAtMost`, `Drain` or `Clear` of its own executor is not modelled.
pub mod Runs
use tpcc.Prelude.{inc64}
use tpcc.Prelude.{
  ℕ, zero, suc, ◌+◌, ◌≤◌, ◌<◌, ◌≡◌, refl, List, [], ◌∷◌, ◌++◌, Bool, Option, none, some, length,
  ◌==◌, if◌then◌else◌, arith, length-append, append_assoc, append-nil, ap, sym, ◌∙◌, is_empty, true,
}

-- `tasks_`, and the tasks that have been run, oldest first.
pub record ManualExecutor (Task : Type 0) : Type 0 where
  pub tasks : List Task
  pub ran : List Task

module _ {Task : Type 0} where
  unfoldable pub execute : Task → ManualExecutor Task → ManualExecutor Task
  execute task e = record e { tasks = e.tasks ++ task ∷ [] }

  unfoldable pub execute_all : List Task → ManualExecutor Task → ManualExecutor Task
  unfolding execute
  execute_all [] e = e
  execute_all (t ∷ ts) e = execute_all ts (execute t e)

  unfoldable pub clear : ManualExecutor Task → ManualExecutor Task
  clear e = record e { tasks = [] }

module _ {Task : Type 0} (spawns : Task → List Task) where
  -- `PopTask` and `ExecuteHere`, on a queue of front `task` and tail `rest`.
  unfoldable pub run_front : Task → List Task → ManualExecutor Task → ManualExecutor Task
  unfolding execute_all
  run_front task rest e =
      execute_all (spawns task) (record { tasks = rest; ran = e.ran ++ task ∷ [] })

  -- The loop of `RunAtMost`, from `i` with `left` rounds to go.
  unfoldable pub run_rounds : ℕ → ℕ → ManualExecutor Task → ManualExecutor Task × ℕ
  unfolding run_front
  run_rounds zero i e = (e, i)
  run_rounds (suc left) i e = elim e.tasks [
    | [] ↦ (e, i)
    | task ∷ rest ↦ run_rounds left (suc i) (run_front task rest e)
  ]

  unfoldable pub run_at_most : ℕ → ManualExecutor Task → ManualExecutor Task × ℕ
  unfolding run_rounds
  run_at_most limit e = run_rounds limit 0 e

  unfoldable pub run_at_most_one : ManualExecutor Task → ManualExecutor Task × Bool
  unfolding run_at_most
  run_at_most_one e = let (e', n) = run_at_most 1 e in (e', n == 1)

  unfoldable pub run_all_scheduled : ManualExecutor Task → ManualExecutor Task × ℕ
  unfolding run_at_most
  run_all_scheduled e = run_at_most (length e.tasks) e

  -- The loop of `Drain`, whose count has 64 bits; `none` when the fuel runs out. The count of
  -- `RunAtMost` stays below its limit, which has 64 bits too.
  unfoldable pub drain_loop : ℕ → ℕ → ManualExecutor Task → Option (ManualExecutor Task × ℕ)
  unfolding run_front
  drain_loop zero count e = none
  drain_loop (suc fuel) count e = elim e.tasks [
    | [] ↦ some (e, count)
    | task ∷ rest ↦ drain_loop fuel (inc64 count) (run_front task rest e)
  ]

  unfoldable pub drain : ℕ → ManualExecutor Task → Option (ManualExecutor Task × ℕ)
  unfolding drain_loop
  drain fuel e = drain_loop fuel 0 e
