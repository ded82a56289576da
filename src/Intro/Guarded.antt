-- ===== src/Intro/Guarded.antt =====
-- intro/guarded/guarded.hpp: `Guarded<T>`. A call `object->Method(...)` of a thread makes a
-- `GuardedReference`, which holds the mutex until the end of the expression. A method is the list of its
-- accesses to the object, each a step. `std::lock_guard` and the mutex are not code of the repository: the
-- one locks in its constructor and unlocks in its destructor, the other has one holder at most.
pub mod Serial
use tpcc.Prelude.{ℕ, ◌<◌, Option, none, some, List, [], ◌∷◌, ◌++◌, ◌≡◌, update}

-- The accesses of a call that are still to come follow all of them.
pub data Thread (T : Type 0) : Type 0 where
  outside : Thread T
  locking : List (T → T) → Thread T
  accessing : List (T → T) → List (T → T) → Thread T
  destroying : List (T → T) → Thread T  -- before the destructor of the reference

-- `calls` are the calls that have ended, in order.
pub record Guarded (T : Type 0) : Type 0 where
  pub object : T
  pub mutex : Option ℕ
  pub threads : ℕ → Thread T
  pub calls : List (List (T → T))

module _ {T : Type 0} where
  abbrev pub make_guarded : T → Guarded T
  make_guarded object = record { object = object; mutex = none; threads = λ _. outside; calls = [] }

  abbrev pub go : ℕ → Thread T → Guarded T → Guarded T
  go i thread g = record g { threads = update g.threads i thread }

  -- `GuardedReference(&object_, mutex_)`, by the holder of the mutex.
  unfoldable pub reference_by : Option ℕ → ℕ → List (T → T) → Guarded T → Option (Guarded T)
  reference_by none i method g = some (go i (accessing method method) (record g { mutex = some i }))
  reference_by (some holder) i method g = none

  unfoldable pub access : (T → T) → Guarded T → Guarded T
  access f g = record g { object = f g.object }

  -- `~GuardedReference`.
  unfoldable pub destroy_reference : List (T → T) → Guarded T → Guarded T
  destroy_reference method g = record g { mutex = none; calls = g.calls ++ method ∷ [] }

  -- The next step of a thread at such a place; `none`: it waits, or is in no call.
  unfoldable pub advance : ℕ → Thread T → Guarded T → Option (Guarded T)
  unfolding reference_by access destroy_reference
  advance i outside g = none
  advance i (locking method) g = reference_by g.mutex i method g
  advance i (accessing method (f ∷ rest)) g = some (go i (accessing method rest) (access f g))
  advance i (accessing method []) g = some (go i (destroying method) g)
  advance i (destroying method) g = some (go i outside (destroy_reference method g))

  pub data Step (n : ℕ) (g : Guarded T) : Guarded T → Type 0 where
    calls_method :
        (i : ℕ)
        → i < n
        → g.threads i ≡ outside
        → (method : List (T → T)) → Step n g (go i (locking method) g)
    moves : (i : ℕ) → i < n → {g' : Guarded T} → advance i (g.threads i) g ≡ some g' → Step n g g'

  pub data Reach (n : ℕ) (object : T) : Guarded T → Type 0 where
    here : Reach n object (make_guarded object)
    next : {g g' : Guarded T} → Reach n object g → Step n g g' → Reach n object g'
