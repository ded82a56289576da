-- ===== src/Fibers/Allocator.antt =====
-- fibers/coroutine/mtf/fibers/stacks.cpp and spinlock.cpp: `StackAllocator` on threads, with its
-- `Spinlock`. An access to the flag of the lock is a step, and so is each piece of the critical sections.
-- `std::vector` is a list whose first member is the vector's last.
pub mod Steps
pub mod Atomic
use tpcc.Prelude.{
  ℕ, suc, ◌<◌, Option, none, some, List, [], ◌∷◌, ◌++◌, ◌≡◌, if◌then◌else◌, ◌==◌, update, ◌>>=◌,
}
use tpcc.Fibers.Runtime.{StackAllocator, get_new_stack, release}

pub data Call : Type 0 where
  allocates : Call
  releases : ℕ → Call

-- A thread outside of the allocator, or in a call. `returning` has the stack that `Allocate` returns.
pub data Thread : Type 0 where
  outside : Thread
  exchanging : Call → Thread  -- before `locked_.exchange(1)`
  loading : Call → Thread  -- before `locked_.load()`
  testing : Thread  -- before `pool_.empty()`
  taking : Thread  -- before `pool_.back()`
  popping : ℕ → Thread  -- before `pool_.pop_back()`
  making : Thread  -- before `GetNewStack()`
  pushing : ℕ → Thread  -- before `pool_.push_back()`
  unlocking : Option ℕ → Thread  -- before `locked_.store(0)`
  returning : Option ℕ → Thread

pub record Shared : Type 0 where
  pub locked : ℕ
  pub allocator : StackAllocator

abbrev pub enter : Call → Thread
enter allocates = testing
enter (releases stack) = pushing stack

abbrev pub back : List ℕ → Option Thread
back [] = none
back (stack ∷ rest) = some (popping stack)

abbrev pub pop_back : List ℕ → Option (List ℕ)
pop_back [] = none
pop_back (stack ∷ rest) = some rest

abbrev pub is_empty_then : List ℕ → Thread
is_empty_then [] = making
is_empty_then (stack ∷ rest) = taking

abbrev pub with_new : Shared → ℕ × StackAllocator → Shared × Thread
with_new m (stack, a) = (record m { allocator = a }, unlocking (some stack))

-- The next step of a thread in a call; `none`: it is not in one, or the vector is used while it is empty.
unfoldable pub advance : Thread → Shared → Option (Shared × Thread)
unfolding get_new_stack release
advance outside m = none
advance (exchanging call) m =
    some (record m { locked = 1 }, if m.locked == 0 then enter call else loading call)
advance (loading call) m = some (m, if m.locked == 0 then exchanging call else loading call)
advance testing m = some (m, is_empty_then m.allocator.pool)
advance taking m = do thread ← back m.allocator.pool; some (m, thread)
advance (popping stack) m = do
  pool ← pop_back m.allocator.pool
  some (record m { allocator = record m.allocator { pool = pool } }, unlocking (some stack))
advance making m = some (with_new m (get_new_stack m.allocator))
advance (pushing stack) m =
    some (record m { allocator = release stack m.allocator }, unlocking none)
advance (unlocking result) m = some (record m { locked = 0 }, returning result)
advance (returning result) m = none

-- `held` are the stacks that have been allocated and not been given back.
pub record System : Type 0 where
  pub shared : Shared
  pub threads : ℕ → Thread
  pub held : List ℕ

abbrev pub init : System
init = record {
  shared = record { locked = 0; allocator = record { pool = []; next_stack = 0 } };
  threads = λ _. outside;
  held = [];
}

abbrev pub go : ℕ → Thread → System → System
go i thread s = record s { threads = update s.threads i thread }

abbrev pub hold : Option ℕ → List ℕ → List ℕ
hold none stacks = stacks
hold (some stack) stacks = stack ∷ stacks

pub data Step (n : ℕ) (s : System) : System → Type 0 where
  calls_allocate :
      (i : ℕ) → i < n → s.threads i ≡ outside → Step n s (go i (exchanging allocates) s)
  calls_release :
      (i : ℕ)
      → i < n
      → s.threads i ≡ outside
      → (xs ys : List ℕ) (stack : ℕ) → s.held ≡ xs ++ stack ∷ ys
      → Step n s (go i (exchanging (releases stack)) (record s { held = xs ++ ys }))
  moves :
      (i : ℕ)
      → i < n
      → {m : Shared} {thread : Thread} → advance (s.threads i) s.shared ≡ some (m, thread)
      → Step n s (go i thread (record s { shared = m }))
  returns :
      (i : ℕ)
      → i < n
      → (result : Option ℕ) → s.threads i ≡ returning result
      → Step n s (go i outside (record s { held = hold result s.held }))

pub data Reach (n : ℕ) : System → Type 0 where
  here : Reach n init
  next : {s t : System} → Reach n s → Step n s t → Reach n t
