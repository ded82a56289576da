-- ===== src/Executors/Tests.antt =====
-- The theorems on the executors at concrete inputs, and runs of the definitions.
use tpcc.Prelude.{
  ◌⊎◌, ℕ, zero, suc, ◌<◌, true, false, none, some, List, [], ◌∷◌, ◌++◌, ◌≡◌, refl, ℕ_discrete,
  arith, reverse, ◌%◌, ◌≤◌, ◌^◌,
}
use tpcc.Executors.BlockingQueue.{BlockingQueue, put, take, close}
use tpcc.Executors.BlockingQueue.Order.{Call, puts, takes, closes, History, run, step, start}
use tpcc.Executors.Manual.{ManualExecutor, run_at_most, drain}
use tpcc.Executors.Manual.Runs.{Runs, drain_total, load}
use tpcc.Executors.Strand.{
  running, idle, push, advance, init, Reach, here, next, call, move, System,
}
use tpcc.Executors.Strand
use tpcc.Executors.Strand.Order.{mutual_exclusion, started-IsPrefix}
use tpcc.Executors.Strand.Stranded.{stranded}
use tpcc.Heap.{PriorityQueue, weigh_list}
use tpcc.Heap.ListQueue.{list_queue}
use tpcc.Executors.Priority.{
  TaskNode, less, PriorityExecutor, emplace, submit, begin, emplaces, submits,
}
use tpcc.Executors.Priority as Priority
use tpcc.Executors.Priority.Urgency.{Reach-urgent, above}

abbrev calls : List (Call ℕ)
calls = puts 1 ∷ puts 2 ∷ takes ∷ closes ∷ puts 3 ∷ takes ∷ takes ∷ []

calls_taken : (run start calls).taken ≡ 1 ∷ 2 ∷ []
unfolding run step put take close
calls_taken = refl

abbrev closed_two : BlockingQueue ℕ
closed_two = record { closed = true; buffer = 4 ∷ 5 ∷ [] }

abbrev closed_history : History ℕ
closed_history = record { queue = closed_two; accepted = 4 ∷ 5 ∷ []; taken = [] }

-- Task `n` spawns the task `n - 1`, down to 0.
abbrev countdown : ℕ → List ℕ
countdown zero = []
countdown (suc n) = n ∷ []

abbrev two_tasks : ManualExecutor ℕ
two_tasks = record { tasks = 2 ∷ 0 ∷ []; ran = [] }

run_at_most_two :
    run_at_most countdown 3 two_tasks ≡ (record { tasks = 0 ∷ []; ran = 2 ∷ 0 ∷ 1 ∷ [] }, 3)
unfolding run_at_most
run_at_most_two = refl

countdown_lighter : (t : ℕ) → load countdown suc (countdown t) < suc t
countdown_lighter zero = omega arith
countdown_lighter (suc t) = omega arith

drain_total_example :
    (e' : ManualExecutor ℕ) × (n : ℕ) × (drain countdown 10 two_tasks ≡ some (e', n % 2 ^ 64))
    × Runs countdown two_tasks e' n
    × (e'.tasks ≡ [])
drain_total_example = drain_total countdown suc countdown_lighter two_tasks 10 (omega arith)

drain_two : drain countdown 10 two_tasks ≡ some (record { tasks = []; ran = 2 ∷ 0 ∷ 1 ∷ 0 ∷ [] }, 4)
unfolding drain
drain_two = refl

-- One call of `Execute(7)`, up to the run of its task.
one_running : (s : Strand.System ℕ) × Strand.Reach s
unfolding push advance ℕ_discrete
one_running =
    (_, next (next (next (next here (call 0 7 refl)) (move 0 refl)) (move 0 refl)) (move 0 refl))

mutual_exclusion_example : ◌≡◌ {A = ℕ} 0 0
unfolding one_running push advance ℕ_discrete
mutual_exclusion_example = mutual_exclusion one_running.1 0 0 7 7 [] [] refl refl

started-IsPrefix_example :
    ((rest : List ℕ) × (7 ∷ rest ≡ 7 ∷ []))
    × (((i : ℕ) → one_running.0.acts i ≡ idle)
        → 7 ∷ [] ++ reverse one_running.0.shared.stack ≡ 7 ∷ [])
unfolding one_running push advance ℕ_discrete
started-IsPrefix_example = started-IsPrefix one_running.1

stranded_example :
    (s : Strand.System ℕ) × Strand.Reach s
    × ((i : ℕ) → s.acts i ≡ idle)
    × (s.accepted ≡ 1 ∷ 2 ∷ [])
    × (s.started ≡ 1 ∷ [])
    × (s.shared ≡ record { is_scheduled = false; stack = 2 ∷ [] })
    × ((i : ℕ) → advance (s.acts i) s.shared ≡ none)
stranded_example = stranded 1 2

-- Two tasks with priorities 1 and 5 are accepted, and one of the calls below is made.
less_asym : (a b : TaskNode ℕ) → less a b ≡ true → less b a ≡ false
less_asym a b e = ground (arith, e)

less_split : (a b c : TaskNode ℕ) → less a c ≡ true → (less a b ≡ true) ⊎ (less b c ≡ true)
less_split a b c e = ground (arith, e)

abbrev nodes : PriorityQueue (TaskNode ℕ) less
nodes = list_queue less less_asym less_split

abbrev two_prioritized : PriorityExecutor nodes
two_prioritized =
    let low : TaskNode ℕ = record { task = 10; priority = 1 } in
    let high : TaskNode ℕ = record { task = 20; priority = 5 } in
    record {
      queue = high ∷ low ∷ [];
      entered = 1;
      scheduled = 1;
      accepted = low ∷ high ∷ [];
      started = [];
    }

two_prioritized_reached : Priority.Reach nodes [] two_prioritized
unfolding emplace submit
two_prioritized_reached =
    Priority.next (Priority.next (Priority.next Priority.here (emplaces 1 10)) (emplaces 5 20))
      (submits refl)

Reach-urgent_example :
    (e' : PriorityExecutor nodes) × (node : TaskNode ℕ) × (begin nodes two_prioritized ≡ some e')
    × (e'.started ≡ node ∷ [])
    × (e'.accepted ≡ two_prioritized.accepted)
    × ((w : TaskNode ℕ → ℕ) → w node ≤ nodes.weigh w two_prioritized.queue)
    × (weigh_list (above node.priority) e'.started
        ≡ weigh_list (above node.priority) two_prioritized.accepted)
Reach-urgent_example =
    let (kept, urgent) = Reach-urgent nodes [] (λ w. refl) two_prioritized_reached in urgent 0 refl
