-- ===== src/Sync/Tests.antt =====
-- Runs of the synchronisation primitives, and the theorems on them at these runs.
use tpcc.Prelude.{
  sym, ◌∙◌, true, ℕ, zero, suc, ◌<◌, ◌≤◌, ◌≡◌, ◌≢◌, refl, ◌++◌, ◌⊎◌, inl, ℕ_discrete, arith, length,
}
use tpcc.Sync.Semaphore.{acquire, release}
use tpcc.Sync.BoundedQueue.Safety.{Reach-safe}
use tpcc.Sync.BoundedQueue.Tokens.{inside}
use tpcc.Sync.BoundedQueue as Bounded
use tpcc.Sync.Mutex as Mutex
use tpcc.Sync.TicketLock as TicketLock
use tpcc.Sync.SpinLock as SpinLock
use tpcc.Sync.Barrier as Barrier
use tpcc.Sync.TicketLock.Handover.{ticket_exclusion, ticket_progress}
use tpcc.Sync.Barrier.Turns.{left-le-arrived, arrived-leave}
use tpcc.Sync.Mutex.Wakeups.{Reach-exclusive, Reach-remembers}

abbrev one : 0 < 1
one = omega arith

below_one : (P : ℕ → Type 0) → P 0 → (i : ℕ) → i < 1 → P i
below_one P p zero h = p
below_one P p (suc i) h = absurd (omega arith)

-- A thread puts 7 into a queue for one value, and calls `Put` again.
abbrev full : (s : Bounded.System ℕ) × Bounded.Reach 1 1 s
unfolding Bounded.advance Bounded.pop Bounded.init Bounded.new_queue acquire release ℕ_discrete
full = (
  _,
  Bounded.next
      (Bounded.next
        (Bounded.next
          (Bounded.next
            (Bounded.next
              (Bounded.next
                (Bounded.next Bounded.here
                  (Bounded.enter 0 one (Bounded.put_top 7) (Bounded.calls_put 7) refl))
                (Bounded.move 0 one refl))
              (Bounded.move 0 one refl))
            (Bounded.move 0 one refl))
          (Bounded.move 0 one refl))
        (Bounded.move 0 one refl))
      (Bounded.enter 0 one (Bounded.put_top 8) (Bounded.calls_put 8) refl),
)

Reach-safe_example :
    (length full.0.queue.buffer ≤ 1)
    × ((i : ℕ) → full.0.threads i ≢ Bounded.broken)
    × ((i j : ℕ)
        → i < 1
        → j < 1
        → inside (full.0.threads i) ≡ 1
        → inside (full.0.threads j) ≡ 1
        → i ≡ j)
    × (full.0.taken ++ full.0.queue.buffer ≡ full.0.accepted)
Reach-safe_example = Reach-safe 1 1 (omega arith) full.1

-- A thread takes the mutex.
abbrev taken : (s : Mutex.System) × Mutex.Reach 1 s
unfolding Mutex.advance ℕ_discrete
taken = (_, Mutex.next (Mutex.next Mutex.here (Mutex.lock 0 one refl)) (Mutex.move 0 one refl))

-- It gives the mutex back.
abbrev given_back : (s : Mutex.System) × Mutex.Reach 1 s
unfolding Mutex.advance ℕ_discrete
given_back = (
  _,
  Mutex.next (Mutex.next (Mutex.next taken.1 (Mutex.unlock 0 one refl)) (Mutex.move 0 one refl))
      (Mutex.move 0 one refl),
)

Reach-exclusive_example : ◌≡◌ {A = ℕ} 0 0
unfolding Mutex.advance ℕ_discrete
Reach-exclusive_example = Reach-exclusive 1 (omega arith) taken.1 0 0 one one refl refl

Reach-remembers_example : given_back.0.threads 0 ≡ Mutex.outside
unfolding Mutex.advance ℕ_discrete
Reach-remembers_example =
    Reach-remembers 1 (omega arith) given_back.1
      (below_one
        (λ i. (given_back.0.threads i ≡ Mutex.outside) ⊎ (given_back.0.threads i ≡ Mutex.asleep))
        (inl refl))
      0 one

-- A thread takes a ticket and the lock, and gives it back.
abbrev ticket_taken : (s : TicketLock.System) × TicketLock.Reach 1 s
unfolding TicketLock.advance ℕ_discrete
ticket_taken = (
  _,
  TicketLock.next
      (TicketLock.next
        (TicketLock.next TicketLock.here (TicketLock.enter 0 one TicketLock.calls_lock))
        (TicketLock.move 0 one refl))
      (TicketLock.move 0 one refl),
)

abbrev ticket_returned : (s : TicketLock.System) × TicketLock.Reach 1 s
unfolding TicketLock.advance ℕ_discrete
ticket_returned = (
  _,
  TicketLock.next
      (TicketLock.next
        (TicketLock.next ticket_taken.1 (TicketLock.enter 0 one (TicketLock.calls_unlock 0)))
        (TicketLock.move 0 one refl))
      (TicketLock.move 0 one refl),
)

ticket_exclusion_example : ◌≡◌ {A = ℕ} 0 0
unfolding TicketLock.advance ℕ_discrete
ticket_exclusion_example = ticket_exclusion 1 ticket_taken.1 (omega arith) 0 0 one one refl refl

ticket_progress_example : ticket_returned.0.threads 0 ≡ TicketLock.outside
unfolding TicketLock.advance ℕ_discrete
ticket_progress_example =
    ticket_progress 1 ticket_returned.1 (omega arith)
      (below_one
        (λ i.
          (ticket_returned.0.threads i ≡ TicketLock.outside)
          ⊎ ((t : ℕ) × (ticket_returned.0.threads i ≡ TicketLock.waiting t)
              × (t ≢ ticket_returned.0.ticket_lock.owner_ticket)))
        (inl refl))
      0 one

-- A thread is in `TryLock`, and nobody has the lock.
abbrev tries : (s : SpinLock.System) × SpinLock.Reach 1 s
tries = (_, SpinLock.next SpinLock.here (SpinLock.enter 0 one SpinLock.calls_try_lock))

-- Two threads come to a barrier for two; the first sleeps until the second has come.
abbrev zero_of_two : 0 < 2
zero_of_two = omega arith

abbrev one_of_two : 1 < 2
one_of_two = omega arith

abbrev met : (s : Barrier.System) × Barrier.Reach 2 s
unfolding Barrier.arrive Barrier.may_leave ℕ_discrete
met = (
  _,
  Barrier.next (Barrier.next Barrier.here (Barrier.arrives 0 zero_of_two refl refl))
      (Barrier.arrives 1 one_of_two refl refl),
)

left-le-arrived_example :
    ((i j : ℕ) → i < 2 → j < 2 → (met.0.threads i).left ≤ (met.0.threads j).arrived)
    × ((i : ℕ)
        → i < 2
        → (met.0.threads i).place ≡ Barrier.outside
        → (met.0.threads i).left ≡ (met.0.threads i).arrived)
left-le-arrived_example = left-le-arrived 2 (omega arith) (omega arith) met.1

below_two : (P : ℕ → Type 0) → P 0 → P 1 → (i : ℕ) → i < 2 → P i
below_two P p q zero h = p
below_two P p q (suc zero) h = q
below_two P p q (suc (suc i)) h = absurd (omega arith)

all_arrived : (i : ℕ) → i < 2 → (met.0.threads i).arrived ≡ 1
unfolding Barrier.arrive Barrier.may_leave ℕ_discrete
all_arrived = below_two (λ i. (met.0.threads i).arrived ≡ 1) refl refl

arrived-leave_example :
    ((slot : ℕ) → (met.0.threads 0).place ≢ Barrier.asleep slot)
    × ((slot : ℕ)
        → (met.0.threads 0).place ≡ Barrier.woken slot
        → Barrier.may_leave met.0.barrier slot ≡ true)
arrived-leave_example =
    arrived-leave 2 (omega arith) (omega arith) met.1
      (λ i j p q. all_arrived i p ∙ sym (all_arrived j q)) 0 zero_of_two
