-- ===== src/Executors/LockFreeStack/Tests.antt =====
-- The lock-free stack at a concrete schedule.
use tpcc.Prelude.{◌<◌, ◌≡◌, ℕ, true, false, none, some, [], refl, update, arith, ℕ_discrete}
use tpcc.Executors.LockFreeStack as LockFreeStack
use tpcc.Executors.LockFreeStack.{
  StackNode, Thread, idle, entering, filled, linked, grabbing, taking, advance, allocate,
  compare_exchange, pushes, advances,
}
use tpcc.Executors.LockFreeStack.Freed.{Reach-freed}

-- Thread 0 has pushed a task, on a node at the address 5, and thread 1 has taken the stack.
abbrev one_taken : LockFreeStack.System ℕ
unfolding advance allocate compare_exchange
one_taken =
    let cells : ℕ → StackNode ℕ = λ _. record { datum = 0; next = none } in
    let filled_cells : ℕ → StackNode ℕ = update cells 5 (record { datum = 8; next = none }) in
    record {
      shared = record {
        head = none;
        pool = [];
        cells = update filled_cells 5 (record { datum = (filled_cells 5).datum; next = none });
        allocated = update (λ _. false) 5 true;
      };
      threads =
          update
            (update
              (update
                (update (update (update (λ _. idle) 0 (entering 8)) 0 (filled 5)) 0 (linked 5)) 0
                idle)
              1 grabbing)
            1 (taking (some 5) []);
    }

-- Thread 0 has pushed a task, and the stack is destroyed.
abbrev one_pushed : LockFreeStack.System ℕ
one_pushed =
    let cells : ℕ → StackNode ℕ = λ _. record { datum = 0; next = none } in
    let filled_cells : ℕ → StackNode ℕ = update cells 5 (record { datum = 8; next = none }) in
    record {
      shared = record {
        head = some 5;
        pool = [];
        cells = update filled_cells 5 (record { datum = (filled_cells 5).datum; next = none });
        allocated = update (λ _. false) 5 true;
      };
      threads =
          update (update (update (update (λ _. idle) 0 (entering 8)) 0 (filled 5)) 0 (linked 5)) 0
            idle;
    }

one_pushed_reached : LockFreeStack.Reach 2 (λ _. record { datum = 0; next = none }) one_pushed
unfolding advance allocate compare_exchange ℕ_discrete
one_pushed_reached =
    LockFreeStack.next
      (LockFreeStack.next
        (LockFreeStack.next (LockFreeStack.next LockFreeStack.here (pushes 0 (omega arith) 8 refl))
          (advances 0 (omega arith) 5 refl))
        (advances 0 (omega arith) 5 refl))
      (advances 0 (omega arith) 5 refl)

one_pushed_idle : (i : ℕ) → i < 2 → one_pushed.threads i ≡ idle
one_pushed_idle i lt = ground (arith, lt)

Reach-freed_example :
    (rounds : ℕ) × (s' : LockFreeStack.Shared ℕ) × (LockFreeStack.destroy rounds one_pushed.shared
      ≡ some s')
    × (s'.head ≡ none)
    × ((x : ℕ) → s'.allocated x ≡ false)
Reach-freed_example = Reach-freed 2 one_pushed_reached one_pushed_idle
