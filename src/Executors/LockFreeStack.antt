-- ===== src/Executors/LockFreeStack.antt =====
-- futures/executors/await/executors/strand.cpp: `LockFreeStack` as the strand uses it, on a heap of nodes.
-- Threads call `Push` on `stack_`, and `ExecuteFirstStack` takes all of it into its own `tasks_to_run` and
-- pops that. Nodes go by their addresses, and `new` may return any address that is not allocated, also
-- one that was before. A step is an access to an atomic of `stack_`, with what the thread does up to
-- the next; a failed compare-exchange writes the head to `new_node->next`. A pool is the list of its
-- nodes, whose links nobody else reads.
pub mod Chains
pub mod Moves
pub mod Pushing
pub mod Popping
pub mod Refinement
pub mod Freed
pub mod Tests
use tpcc.Prelude.{
  ℕ, zero, suc, ◌<◌, Bool, true, false, Option, none, some, List, [], ◌∷◌, ◌≡◌, if◌then◌else◌,
  is_empty, update, ◌==◌,
}

pub record StackNode (T : Type 0) : Type 0 where
  pub datum : T
  pub next : Option ℕ

-- `stack_`: its `head_` and the nodes of its `pool_`, and the heap.
pub record Shared (T : Type 0) : Type 0 where
  pub head : Option ℕ
  pub pool : List ℕ
  pub cells : ℕ → StackNode T
  pub allocated : ℕ → Bool

-- Where a thread is. `taking` has the head and the pool of `tasks_to_run`.
pub data Thread (T : Type 0) : Type 0 where
  idle : Thread T
  entering : T → Thread T  -- in `Push`, before `pool_.IsEmpty()`
  recycling : T → Thread T  -- before `pool_.Pop()`
  filled : ℕ → Thread T  -- before `head_` is read
  linked : ℕ → Thread T  -- before the compare-exchange
  grabbing : Thread T  -- before `another.head_.exchange`
  taking : Option ℕ → List ℕ → Thread T

pub record System (T : Type 0) : Type 0 where
  pub shared : Shared T
  pub threads : ℕ → Thread T

abbrev pub same_pointer : Option ℕ → Option ℕ → Bool
same_pointer none none = true
same_pointer (some a) (some b) = a == b
same_pointer _ _ = false

module _ {T : Type 0} where
  abbrev pub set_next : ℕ → Option ℕ → Shared T → Shared T
  set_next node next s = record s {
    cells = update s.cells node (record (s.cells node) { next = next });
  }

  -- `new`, with the address that it returns: not one that is allocated.
  unfoldable pub allocate : ℕ → T → Shared T → Option (Shared T × Thread T)
  allocate address t s =
      if s.allocated address
      then none
      else some (
        record s {
          cells = update s.cells address (record { datum = t; next = none });
          allocated = update s.allocated address true;
        },
        filled address,
      )

  -- `pool_.Pop()`; when it returns null, the store to the node is undefined.
  unfoldable pub recycle : List ℕ → T → Shared T → Option (Shared T × Thread T)
  recycle [] t s = none
  recycle (node ∷ rest) t s = some (
    record s { pool = rest; cells = update s.cells node (record (s.cells node) { datum = t }) },
    filled node,
  )

  -- `head_.compare_exchange_strong(new_node->next, new_node)`.
  unfoldable pub compare_exchange : ℕ → Shared T → Shared T × Thread T
  compare_exchange node s =
      if same_pointer s.head (s.cells node).next
      then (record s { head = some node }, idle)
      else (set_next node s.head s, filled node)

  -- `Pop` on `tasks_to_run`, which only this thread has; when it is empty, the destructor of its pool.
  unfoldable pub take_next : Option ℕ → List ℕ → Shared T → Shared T × Thread T
  take_next (some node) pool s = (s, taking (s.cells node).next (node ∷ pool))
  take_next none (node ∷ pool) s =
      (record s { allocated = update s.allocated node false }, taking none pool)
  take_next none [] s = (s, idle)

  unfoldable pub advance : ℕ → Thread T → Shared T → Option (Shared T × Thread T)
  unfolding allocate recycle compare_exchange take_next
  advance address idle s = none
  advance address (entering t) s =
      if is_empty s.pool then allocate address t s else some (s, recycling t)
  advance address (recycling t) s = recycle s.pool t s
  advance address (filled node) s = some (set_next node s.head s, linked node)
  advance address (linked node) s = some (compare_exchange node s)
  advance address grabbing s = some (record s { head = none }, taking s.head [])
  advance address (taking head pool) s = some (take_next head pool s)

  -- The loop of `~LockFreeStack`, for at most so many rounds; `none`: these are not enough, or a node is
  -- read that is not allocated.
  unfoldable pub destroy : ℕ → Shared T → Option (Shared T)
  destroy zero s = none
  destroy (suc rounds) s = elim s.head [
    | none ↦ some s
    | some node ↦
        let rest =
          destroy rounds
            (record s { head = (s.cells node).next; allocated = update s.allocated node false }) in
        if s.allocated node then rest else none
  ]

  -- `n` threads.
  pub data Step (n : ℕ) (s : System T) : System T → Type 0 where
    pushes :
        (i : ℕ)
        → i < n
        → (t : T) → s.threads i ≡ idle
        → Step n s (record s { threads = update s.threads i (entering t) })
    grabs :
        (i : ℕ)
        → i < n
        → s.threads i ≡ idle
        → Step n s (record s { threads = update s.threads i grabbing })
    advances :
        (i : ℕ)
        → i < n
        → (address : ℕ) {shared : Shared T} {thread : Thread T}
        → advance address (s.threads i) s.shared ≡ some (shared, thread)
        → Step n s (record { shared = shared; threads = update s.threads i thread })

  -- A new stack is empty, and so is its pool.
  pub data Reach (n : ℕ) (cells : ℕ → StackNode T) : System T → Type 0 where
    here : Reach n cells (record {
      shared = record { head = none; pool = []; cells = cells; allocated = λ _. false };
      threads = λ _. idle;
    })
    next : {s s' : System T} → Reach n cells s → Step n s s' → Reach n cells s'
