-- ===== src/Sync/Barrier.antt =====
-- condvar/barrier/cyclic_barrier.hpp: `CyclicBarrier`. `Arrive` holds the mutex but for its wait on the
-- condition variable, so the part before the wait is one step, and so is each test of the predicate. A
-- sleeper is woken by `notify_all`, or for no reason.
pub mod Rounds
pub mod Turns
use tpcc.Prelude.{
  ℕ, suc, ◌%◌, ◌^◌, ◌+◌, ◌<◌, Bool, true, false, ◌≡◌, update, if◌then◌else◌, ◌==◌, inc64,
}

-- `to_wait_counter_` is an array of two numbers.
pub record CyclicBarrier : Type 0 where
  pub index : ℕ
  pub participants : ℕ
  pub to_wait_counter : ℕ → ℕ

abbrev pub cyclic_barrier : ℕ → CyclicBarrier
cyclic_barrier participants = record {
  index = 0;
  participants = participants;
  to_wait_counter = λ _. 0;
}

abbrev pub other_index : ℕ → ℕ
other_index index = if index == 0 then 1 else 0

-- `Arrive` up to its wait; whether the thread has been the last one, which does not wait.
unfoldable pub arrive : CyclicBarrier → CyclicBarrier × Bool
arrive b =
    let current_counter = inc64 (b.to_wait_counter b.index) in
    let counted = update b.to_wait_counter b.index current_counter in
    let next_index = other_index b.index in
    if current_counter == b.participants
    then (record b { index = next_index; to_wait_counter = update counted next_index 0 }, true)
    else (record b { to_wait_counter = counted }, false)

-- The predicate of the wait, on the counter to which the thread keeps a reference.
unfoldable pub may_leave : CyclicBarrier → ℕ → Bool
may_leave b slot = b.to_wait_counter slot == b.participants

pub data Place : Type 0 where
  outside : Place
  asleep : ℕ → Place
  woken : ℕ → Place  -- before a test of the predicate

-- Where a thread stands, how often it has arrived and how often it has come out of `Arrive`.
pub record Member : Type 0 where
  pub place : Place
  pub arrived : ℕ
  pub left : ℕ

abbrev pub wake : Place → Place
wake (asleep slot) = woken slot
wake outside = outside
wake (woken slot) = woken slot

abbrev pub wake_member : Member → Member
wake_member m = record m { place = wake m.place }

-- A thread after its part of `Arrive` before the wait.
abbrev pub arrived_member : Member → ℕ → Bool → Member
arrived_member m slot true = record { place = outside; arrived = suc m.arrived; left = suc m.left }
arrived_member m slot false = record m { place = asleep slot; arrived = suc m.arrived }

-- A thread after a test of the predicate.
abbrev pub tested_member : Member → ℕ → Bool → Member
tested_member m slot true = record m { place = outside; left = suc m.left }
tested_member m slot false = record m { place = asleep slot }

abbrev pub notify_all : Bool → (ℕ → Member) → ℕ → Member
notify_all true threads = λ j. wake_member (threads j)
notify_all false threads = threads

pub record System : Type 0 where
  pub barrier : CyclicBarrier
  pub threads : ℕ → Member

-- `n` threads, one for each participant.
pub data Step (n : ℕ) (s : System) : System → Type 0 where
  arrives :
      (i : ℕ)
      → i < n
      → (s.threads i).place ≡ outside
      → {b : CyclicBarrier} {last : Bool} → arrive s.barrier ≡ (b, last)
      → Step n s (record {
        barrier = b;
        threads =
            notify_all last
              (update s.threads i (arrived_member (s.threads i) s.barrier.index last));
      })
  tests :
      (i : ℕ)
      → i < n
      → {slot : ℕ} → (s.threads i).place ≡ woken slot
      → Step n s (record s {
        threads = update s.threads i (tested_member (s.threads i) slot (may_leave s.barrier slot));
      })
  wakes :
      (i : ℕ)
      → i < n
      → {slot : ℕ} → (s.threads i).place ≡ asleep slot
      → Step n s (record s { threads = update s.threads i (wake_member (s.threads i)) })

abbrev pub init : ℕ → System
init n = record {
  barrier = cyclic_barrier n;
  threads = λ _. record { place = outside; arrived = 0; left = 0 };
}

pub data Reach (n : ℕ) : System → Type 0 where
  here : Reach n (init n)
  next : {s t : System} → Reach n s → Step n s t → Reach n t
