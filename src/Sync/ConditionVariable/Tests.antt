-- ===== src/Sync/ConditionVariable/Tests.antt =====
-- The condition variable at a concrete schedule.
use tpcc.Prelude.{◌≡◌, refl, arith, ℕ_discrete, true}
use tpcc.Sync.ConditionVariable as ConditionVariable
use tpcc.Sync.ConditionVariable.{
  loaded, released, holding, outside, relocking, System, init, load_ticket, unlock, lock,
  compare_ticket, fetch_add, locks, loads, unlocks, adds,
}
use tpcc.Sync.ConditionVariable.Wakeup.{Reach-notified}

-- Thread 0 has loaded its ticket and released the mutex when `NotifyAll` increments the ticket.
abbrev notified : System
unfolding lock load_ticket unlock fetch_add
notified = fetch_add true (unlock 0 (released 0) (load_ticket 0 (lock 0 init)))

notified_reached : ConditionVariable.Reach notified
unfolding lock load_ticket unlock fetch_add ℕ_discrete
notified_reached =
    ConditionVariable.next
      (ConditionVariable.next
        (ConditionVariable.next (ConditionVariable.next ConditionVariable.here (locks 0 refl refl))
          (loads 0 refl))
        (unlocks 0 0 refl))
      (adds true)

Reach-notified_example : compare_ticket 0 notified ≡ relocking
unfolding lock load_ticket unlock fetch_add ℕ_discrete notified
Reach-notified_example = (Reach-notified notified_reached 0 (omega arith)).1 0 refl (omega arith)
