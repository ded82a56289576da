-- ===== src/Sync/ConditionVariable.antt =====
-- condvar/condvar/condvar.hpp: `ConditionVariable`. Waiters and calls of `NotifyOne` and `NotifyAll` are
-- interleaved; an access to the ticket, or to the mutex, is a step. `ticket_.wait` sleeps only if the
-- ticket is the one given, and looks again whenever it is woken, which also happens without a notify.
pub mod Wakeup
pub mod Tests
use tpcc.Prelude.{
  inc32, ◌≢◌, ℕ, zero, suc, ◌+◌, ◌%◌, ◌^◌, Bool, true, false, Option, none, some, List, [], ◌∷◌,
  ◌++◌, ◌≡◌, ◌==◌, ltb, if◌then◌else◌, update,
}

pub data Thread : Type 0 where
  outside : Thread
  holding : Thread  -- has the mutex
  loaded : ℕ → Thread  -- in `Wait`, has the mutex and `current_ticket`
  released : ℕ → Thread  -- before `ticket_.wait` compares
  sleeping : ℕ → Thread
  relocking : Thread  -- before `mutex.lock()`

-- A call of `NotifyAll`, or of `NotifyOne`, after its `fetch_add`. The `fetch_add`s are numbered from 1.
pub record Notice : Type 0 where
  pub all : Bool
  pub number : ℕ

-- `issued` is how many `fetch_add`s there have been, `epochs` how many when a thread has last loaded the
-- ticket, and `finished` the greatest number of a `NotifyAll` that has returned.
pub record System : Type 0 where
  pub ticket : ℕ
  pub mutex : Option ℕ
  pub threads : ℕ → Thread
  pub notices : List Notice
  pub issued : ℕ
  pub epochs : ℕ → ℕ
  pub finished : ℕ

abbrev pub init : System
init = record {
  ticket = 0;
  mutex = none;
  threads = λ _. outside;
  notices = [];
  issued = 0;
  epochs = λ _. 0;
  finished = 0;
}

-- The beginning of `Wait`.
unfoldable pub load_ticket : ℕ → System → System
load_ticket i s = record s {
  threads = update s.threads i (loaded s.ticket);
  epochs = update s.epochs i s.issued;
}

unfoldable pub unlock : ℕ → Thread → System → System
unlock i thread s = record s { mutex = none; threads = update s.threads i thread }

unfoldable pub lock : ℕ → System → System
lock i s = record s { mutex = some i; threads = update s.threads i holding }

-- The comparison of `ticket_.wait(current_ticket)`.
unfoldable pub compare_ticket : ℕ → System → Thread
compare_ticket current_ticket s =
    if s.ticket == current_ticket then sleeping current_ticket else relocking

unfoldable pub wait : ℕ → ℕ → System → System
unfolding compare_ticket
wait i current_ticket s = record s {
  threads = update s.threads i (compare_ticket current_ticket s);
}

-- The first half of `NotifyOne` and `NotifyAll`.
unfoldable pub fetch_add : Bool → System → System
fetch_add all s = record s {
  ticket = inc32 s.ticket;
  issued = suc s.issued;
  notices = s.notices ++ record { all = all; number = suc s.issued } ∷ [];
}

abbrev pub woken : Thread → Thread
woken (sleeping t) = released t
woken thread = thread

-- The second half of `NotifyAll`; the number of its `fetch_add` is noted.
unfoldable pub notify_all : ℕ → System → System
notify_all number s = record s {
  threads = λ i. woken (s.threads i);
  finished = if ltb s.finished number then number else s.finished;
}

-- The second half of `NotifyOne`, with the sleeper that it wakes.
unfoldable pub notify_one : ℕ → System → System
notify_one i s = record s { threads = update s.threads i (woken (s.threads i)) }

pub data Step (s : System) : System → Type 0 where
  locks : (i : ℕ) → s.threads i ≡ outside → s.mutex ≡ none → Step s (lock i s)
  leaves : (i : ℕ) → s.threads i ≡ holding → Step s (unlock i outside s)
  loads : (i : ℕ) → s.threads i ≡ holding → Step s (load_ticket i s)
  unlocks : (i t : ℕ) → s.threads i ≡ loaded t → Step s (unlock i (released t) s)
  waits : (i t : ℕ) → s.threads i ≡ released t → Step s (wait i t s)
  wakes : (i t : ℕ) → s.threads i ≡ sleeping t → Step s (notify_one i s)  -- without a notify
  relocks : (i : ℕ) → s.threads i ≡ relocking → s.mutex ≡ none → Step s (lock i s)
  adds : (all : Bool) → Step s (fetch_add all s)
  notifies_all :
      (xs ys : List Notice) (number : ℕ)
      → s.notices ≡ xs ++ record { all = true; number = number } ∷ ys
      → Step s (notify_all number (record s { notices = xs ++ ys }))
  notifies_one :
      (xs ys : List Notice) (number i t : ℕ)
      → s.notices ≡ xs ++ record { all = false; number = number } ∷ ys
      → s.threads i ≡ sleeping t
      → Step s (notify_one i (record s { notices = xs ++ ys }))
  notifies_nobody :
      (xs ys : List Notice) (number : ℕ)
      → s.notices ≡ xs ++ record { all = false; number = number } ∷ ys
      → ((i t : ℕ) → s.threads i ≢ sleeping t)
      → Step s (record s { notices = xs ++ ys })

pub data Reach : System → Type 0 where
  here : Reach init
  next : {s s' : System} → Reach s → Step s s' → Reach s'
