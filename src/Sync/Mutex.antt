-- ===== src/Sync/Mutex.antt =====
-- mutex/mutex/mutex.hpp: `Mutex`, over two atomics with `wait` and `notify_one`. Any number of threads
-- call `Lock` and `Unlock`; each access to an atomic is a step. `wait(old)` is a test that falls asleep
-- while the value is `old`, and tests again when it is woken; `notify_one` wakes one of the sleepers,
-- if there are any.
pub mod Wakeups
use tpcc.Prelude.{
  ℕ, ◌<◌, Bool, true, false, Option, none, some, ◌≡◌, ◌≢◌, update, if◌then◌else◌, ◌==◌, ltb, inc32,
  dec32,
}

-- `state_` (0 is `UNLOCKED`, 1 is `LOCKED`) and `waiting_counter_`, both of 32 bits.
pub record Mutex : Type 0 where
  pub state : ℕ
  pub waiting_counter : ℕ

abbrev pub unlocked : ℕ
unlocked = 0

abbrev pub locked : ℕ
locked = 1

pub data Thread : Type 0 where
  outside : Thread
  locking : Thread  -- in `Lock`, before the first exchange
  announcing : Thread  -- before `waiting_counter_.fetch_add(1)`
  testing : Thread  -- in `state_.wait(LOCKED)`, before its test
  asleep : Thread  -- in `state_.wait(LOCKED)`
  retrying : Thread  -- before the exchange of the loop
  departing : Thread  -- before `waiting_counter_.fetch_sub(1)`
  critical : Thread  -- after `Lock`
  unlocking : Thread  -- in `Unlock`, before the store
  checking : Thread  -- before the test of `waiting_counter_`
  notifying : Thread  -- before `state_.notify_one()`

-- The next step of a thread but for the caller's own moves, sleep and `notify_one`.
unfoldable pub advance : Thread → Mutex → Option (Mutex × Thread)
advance outside m = none
advance locking m =
    some (record m { state = locked }, if m.state == 0 then critical else announcing)
advance announcing m = some (record m { waiting_counter = inc32 m.waiting_counter }, testing)
advance testing m = some (m, if m.state == locked then asleep else retrying)
advance asleep m = none
advance retrying m = some (record m { state = locked }, if m.state == 0 then departing else testing)
advance departing m = some (record m { waiting_counter = dec32 m.waiting_counter }, critical)
advance critical m = none
advance unlocking m = some (record m { state = unlocked }, checking)
advance checking m = some (m, if ltb 0 m.waiting_counter then notifying else outside)
advance notifying m = none

pub record System : Type 0 where
  pub mutex : Mutex
  pub threads : ℕ → Thread

pub data Step (n : ℕ) (s : System) : System → Type 0 where
  lock :
      (i : ℕ)
      → i < n
      → s.threads i ≡ outside
      → Step n s (record s { threads = update s.threads i locking })
  unlock :
      (i : ℕ)
      → i < n
      → s.threads i ≡ critical
      → Step n s (record s { threads = update s.threads i unlocking })
  move :
      (i : ℕ)
      → i < n
      → {m : Mutex} {t : Thread} → advance (s.threads i) s.mutex ≡ some (m, t)
      → Step n s (record { mutex = m; threads = update s.threads i t })
  wake :
      (i j : ℕ)
      → i < n
      → j < n
      → s.threads i ≡ notifying
      → s.threads j ≡ asleep
      → Step n s (record s { threads = update (update s.threads i outside) j testing })
  wake_nobody :
      (i : ℕ)
      → i < n
      → s.threads i ≡ notifying
      → ((j : ℕ) → j < n → s.threads j ≢ asleep)
      → Step n s (record s { threads = update s.threads i outside })

abbrev pub init : System
init = record { mutex = record { state = 0; waiting_counter = 0 }; threads = λ _. outside }

pub data Reach (n : ℕ) : System → Type 0 where
  here : Reach n init
  next : {s t : System} → Reach n s → Step n s t → Reach n t
