-- ===== src/Executors/Priority.antt =====
-- futures/futures/await/executors/priority.cpp: `PriorityExecutorImpl`, on `std::priority_queue`. The
-- executor below it, `hood_ptr_`, may run the tasks that it has been given in any order. What holds the
-- mutex is a step. An `int` priority goes by the number that is 2^31 higher, which keeps the order.
pub mod Urgency
use tpcc.Prelude.{ℕ, suc, zero, Bool, Option, none, some, List, [], ◌∷◌, ◌++◌, ◌≡◌, ◌>>=◌, ltb}
use tpcc.Heap.{PriorityQueue}

pub record TaskNode (T : Type 0) : Type 0 where
  pub task : T
  pub priority : ℕ

-- `TaskNodeComparator`.
abbrev pub less : {T : Type 0} → TaskNode T → TaskNode T → Bool
less first second = ltb first.priority second.priority

module _ {T : Type 0} (heap : PriorityQueue (TaskNode T) less) where
  -- `queue_`; the calls of `Execute` between their two parts; the tasks of ours that `hood_ptr_` has not
  -- begun; the tasks accepted and those started, in these orders.
  pub record PriorityExecutor : Type 0 where
    pub queue : heap.Queue
    pub entered : ℕ
    pub scheduled : ℕ
    pub accepted : List (TaskNode T)
    pub started : List (TaskNode T)

  -- `Execute`, up to `unlock`.
  unfoldable pub emplace : ℕ → T → PriorityExecutor → PriorityExecutor
  emplace priority task e =
      let node : TaskNode T = record { task = task; priority = priority } in
      record e {
        queue = heap.push node e.queue;
        entered = suc e.entered;
        accepted = e.accepted ++ node ∷ [];
      }

  -- The rest of `Execute`, in one of the calls that have come so far.
  unfoldable pub submit : PriorityExecutor → Option PriorityExecutor
  submit e = elim e.entered [
    | zero ↦ none
    | suc others ↦ some (record e { entered = others; scheduled = suc e.scheduled })
  ]

  -- The task that is given to `hood_ptr_`, up to the call of the node's task. `none`: `top` of an empty
  -- queue, which is undefined.
  unfoldable pub run_top : PriorityExecutor → Option PriorityExecutor
  run_top e = do
    (node, rest) ← heap.pop e.queue
    some (record e { queue = rest; started = e.started ++ node ∷ [] })

  -- `hood_ptr_` begins one of the tasks that it has.
  unfoldable pub begin : PriorityExecutor → Option PriorityExecutor
  unfolding run_top
  begin e = elim e.scheduled [
    | zero ↦ none
    | suc others ↦ run_top (record e { scheduled = others })
  ]

  -- `PriorityExecutorImplFixed::Execute`.
  unfoldable pub execute_fixed : ℕ → T → PriorityExecutor → PriorityExecutor
  unfolding emplace
  execute_fixed fixed_priority task e = emplace fixed_priority task e

  pub data Step (e : PriorityExecutor) : PriorityExecutor → Type 0 where
    emplaces : (priority : ℕ) (task : T) → Step e (emplace priority task e)
    submits : {e' : PriorityExecutor} → submit e ≡ some e' → Step e e'
    begins : {e' : PriorityExecutor} → begin e ≡ some e' → Step e e'

  -- A new executor is one with an empty queue.
  pub data Reach (empty : heap.Queue) : PriorityExecutor → Type 0 where
    here :
        Reach empty
          (record { queue = empty; entered = 0; scheduled = 0; accepted = []; started = [] })
    next : {e e' : PriorityExecutor} → Reach empty e → Step e e' → Reach empty e'
