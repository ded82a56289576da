-- ===== src/Sync/TicketLock.antt =====
-- mutex/try-lock/ticket_lock.hpp: `TicketLock`. Any number of threads call `Lock`, `TryLock` and
-- `Unlock`; each access to an atomic is a step. A thread that has a ticket carries it along, also
-- where the code has no more use for it.
pub mod Handover
use tpcc.Prelude.{
  ℕ, suc, ◌%◌, ◌^◌, ◌+◌, ◌<◌, Option, none, some, ◌≡◌, update, if◌then◌else◌, ◌==◌, inc64,
}

pub record TicketLock : Type 0 where
  pub next_free_ticket : ℕ
  pub owner_ticket : ℕ

pub data Thread : Type 0 where
  outside : Thread
  arriving : Thread  -- in `Lock`, before `next_free_ticket_.fetch_add(1)`
  waiting : ℕ → Thread  -- before a load of `owner_ticket_` in the loop
  trying : Thread  -- in `TryLock`, before the load of `owner_ticket_`
  claiming : ℕ → Thread  -- before the compare-exchange, with `current`
  critical : ℕ → Thread
  unlocking : ℕ → Thread  -- in `Unlock`, before the load of `owner_ticket_`
  storing : ℕ → ℕ → Thread  -- before the store, with the value to store

-- A step on the lock: the lock after it, where the thread stands then, and how many tickets it took.
unfoldable pub advance : Thread → TicketLock → Option (TicketLock × Thread × ℕ)
advance outside l = none
advance arriving l =
    some (record l { next_free_ticket = inc64 l.next_free_ticket }, waiting l.next_free_ticket, 1)
advance (waiting t) l = some (l, if t == l.owner_ticket then critical t else waiting t, 0)
advance trying l = some (l, claiming l.owner_ticket, 0)
advance (claiming current) l =
    if l.next_free_ticket == current
    then some (record l { next_free_ticket = inc64 current }, critical current, 1)
    else some (l, outside, 0)
advance (critical t) l = none
advance (unlocking t) l = some (l, storing t (inc64 l.owner_ticket), 0)
advance (storing t v) l = some (record l { owner_ticket = v }, outside, 0)

-- The lock, its threads, and the number of tickets taken.
pub record System : Type 0 where
  pub ticket_lock : TicketLock
  pub threads : ℕ → Thread
  pub issued : ℕ

-- The calls: from where to where.
pub data IsCall : Thread → Thread → Type 0 where
  calls_lock : IsCall outside arriving
  calls_try_lock : IsCall outside trying
  calls_unlock : (t : ℕ) → IsCall (critical t) (unlocking t)

pub data Step (n : ℕ) (s : System) : System → Type 0 where
  enter :
      (i : ℕ)
      → i < n
      → {t : Thread} → IsCall (s.threads i) t
      → Step n s (record s { threads = update s.threads i t })
  move :
      (i : ℕ)
      → i < n
      → {l : TicketLock} {t : Thread} {k : ℕ} → advance (s.threads i) s.ticket_lock ≡ some (l, t, k)
      → Step n s (record { ticket_lock = l; threads = update s.threads i t; issued = s.issued + k })

abbrev pub init : System
init = record {
  ticket_lock = record { next_free_ticket = 0; owner_ticket = 0 };
  threads = λ _. outside;
  issued = 0;
}

pub data Reach (n : ℕ) : System → Type 0 where
  here : Reach n init
  next : {s t : System} → Reach n s → Step n s t → Reach n t
