-- ===== src/Sync/SpinLock.antt =====
-- mutex/spinlock/spinlock.hpp: `TASSpinLock`. Any number of threads call `Lock`, `TryLock` and
-- `Unlock`; each access to the atomic is a step.
use tpcc.Prelude.{
  ℕ, ◌+◌, ◌<◌, ◌≤◌, Option, none, some, ◌≡◌, if◌then◌else◌, ◌==◌, update, total, total-update,
  total_two, total-eq-zero, arith, ℕ_discrete, refl,
}

pub record TasSpinLock : Type 0 where
  pub locked : ℕ

pub data Thread : Type 0 where
  outside : Thread
  locking : Thread  -- before an exchange of the loop in `Lock`
  trying : Thread  -- before the exchange in `TryLock`
  critical : Thread
  unlocking : Thread  -- before the store

-- The next step of a thread on the lock.
unfoldable pub advance : Thread → TasSpinLock → Option (TasSpinLock × Thread)
advance outside l = none
advance locking l = some (record { locked = 1 }, if l.locked == 0 then critical else locking)
advance trying l = some (record { locked = 1 }, if l.locked == 0 then critical else outside)
advance critical l = none
advance unlocking l = some (record { locked = 0 }, outside)

pub record System : Type 0 where
  pub spin_lock : TasSpinLock
  pub threads : ℕ → Thread

-- The calls: from where to where.
pub data IsCall : Thread → Thread → Type 0 where
  calls_lock : IsCall outside locking
  calls_try_lock : IsCall outside trying
  calls_unlock : IsCall critical unlocking

pub data Step (n : ℕ) (s : System) : System → Type 0 where
  enter :
      (i : ℕ)
      → i < n
      → {t : Thread} → IsCall (s.threads i) t
      → Step n s (record s { threads = update s.threads i t })
  move :
      (i : ℕ)
      → i < n
      → {l : TasSpinLock} {t : Thread} → advance (s.threads i) s.spin_lock ≡ some (l, t)
      → Step n s (record { spin_lock = l; threads = update s.threads i t })

abbrev pub init : System
init = record { spin_lock = record { locked = 0 }; threads = λ _. outside }

pub data Reach (n : ℕ) : System → Type 0 where
  here : Reach n init
  next : {s t : System} → Reach n s → Step n s t → Reach n t

-- A thread that has the lock.
abbrev pub owns : Thread → ℕ
owns critical = 1
owns unlocking = 1
owns _ = 0

-- The lock is set exactly while a thread has it, and then one has.
record IsHeld (l : TasSpinLock) (owners : ℕ) : Type 0 where
  flag : owners ≡ l.locked
  binary : l.locked ≤ 1

advance-IsHeld :
    (c : Thread) (l l' : TasSpinLock) (c' : Thread) (others : ℕ)
    → IsHeld l (owns c + others)
    → advance c l ≡ some (l', c')
    → IsHeld l' (owns c' + others)
unfolding advance
advance-IsHeld outside l l' c' others v q = ground arith
advance-IsHeld _ l l' c' others v q = ground arith

call-owns : {c c' : Thread} → IsCall c c' → owns c' ≡ owns c
call-owns calls_lock = refl
call-owns calls_try_lock = refl
call-owns calls_unlock = refl

module _ (n : ℕ) where
  Step-IsHeld :
      {s t : System}
      → Step n s t
      → IsHeld s.spin_lock (total owns n s.threads)
      → IsHeld t.spin_lock (total owns n t.threads)
  Step-IsHeld {s} (enter i lt {t} c) v = record {
    flag = omega (arith, v.flag, total-update owns n s.threads i t lt, call-owns c);
    binary = v.binary;
  }
  Step-IsHeld {s} (move i lt {l} {t} q) v =
      let others = total owns n (update s.threads i outside) in
      let before : owns (s.threads i) + others ≡ total owns n s.threads =
        omega (arith, total-update owns n s.threads i outside lt) in
      let after : owns t + others ≡ total owns n (update s.threads i t) =
        omega (arith, before, total-update owns n s.threads i t lt) in
      rw (← after) (advance-IsHeld (s.threads i) s.spin_lock l t others (rw before v) q)

  Reach-IsHeld : {s : System} → Reach n s → IsHeld s.spin_lock (total owns n s.threads)
  Reach-IsHeld here = record {
    flag = total-eq-zero owns n (λ _. outside) (λ _. refl);
    binary = omega arith;
  }
  Reach-IsHeld (next a e) = Step-IsHeld e (Reach-IsHeld a)

  -- In every reachable state at most one thread has the lock, and an exchange, of `Lock` or of
  -- `TryLock`, gives it to its thread exactly when no thread has it.
  pub Reach-excludes :
      {s : System}
      → Reach n s
      → ((i j : ℕ) → i < n → j < n → owns (s.threads i) ≡ 1 → owns (s.threads j) ≡ 1 → i ≡ j)
        × ((l : TasSpinLock) (t : Thread)
            → advance trying s.spin_lock ≡ some (l, t)
            → (t ≡ critical → total owns n s.threads ≡ 0)
              × (total owns n s.threads ≡ 0 → t ≡ critical))
        × ((l : TasSpinLock) (t : Thread)
            → advance locking s.spin_lock ≡ some (l, t)
            → (t ≡ critical → total owns n s.threads ≡ 0)
              × (total owns n s.threads ≡ 0 → t ≡ critical))
  unfolding advance
  Reach-excludes {s} a =
      let v = Reach-IsHeld a in
      let h = v.flag in
      (
        λ i j p q x y. elim (ℕ_discrete i j) [
          | yes e ↦ e
          | no ne ↦ absurd (omega (arith, h, v.binary, total_two owns n s.threads i j p q ne))
        ],
        λ l t q. (λ e. ground arith, λ e. ground arith),
        λ l t q. (λ e. ground arith, λ e. ground arith),
      )
