-- ===== src/Time/TimeKeeper.antt =====
-- futures/futures/await/time/time_keeper.hpp: the timers of `TimeKeeper`. Time is a number, a promise is
-- whatever stands for it. The keeper's methods hold the mutex throughout.
use tpcc.Prelude.{Bool, ℕ, zero, suc, ◌+◌, ◌≤◌, ◌≡◌, none, some, List, [], ◌∷◌, if◌then◌else◌, ltb}
use tpcc.Heap.{PriorityQueue, below, weigh_list}

pub record Timer (P : Type 0) : Type 0 where
  pub deadline : ℕ
  pub promise : P

-- `operator<`: the later a deadline, the less its timer.
abbrev pub less : {P : Type 0} → Timer P → Timer P → Bool
less first second = ltb second.deadline first.deadline

-- Nobody in the list has a lower deadline, and each is at most the next.
pub data IsOrdered {P : Type 0} : ℕ → List (Timer P) → Type 0 where
  nil : {low : ℕ} → IsOrdered low []
  cons :
      {low : ℕ} {t : Timer P} {ts : List (Timer P)}
      → low ≤ t.deadline
      → IsOrdered t.deadline ts
      → IsOrdered low (t ∷ ts)

module _ {P : Type 0} (heap : PriorityQueue (Timer P) less) where
  unfoldable pub add_timer : ℕ → P → heap.Queue → heap.Queue
  add_timer deadline p q = heap.push (record { deadline = deadline; promise = p }) q

  -- `After` called at the time `now`.
  unfoldable pub after : ℕ → ℕ → P → heap.Queue → heap.Queue
  unfolding add_timer
  after now d p q = add_timer (now + d) p q

  abbrev pub put_front : Timer P → List (Timer P) × heap.Queue → List (Timer P) × heap.Queue
  put_front t (ts, q) = (t ∷ ts, q)

  -- The loop of `GrabReadyTimers`, for at most so many rounds: the timers whose promises it grabs, and
  -- the queue that it leaves.
  unfoldable pub grab_loop : ℕ → ℕ → heap.Queue → List (Timer P) × heap.Queue
  grab_loop zero now q = ([], q)
  grab_loop (suc rounds) now q = elim (heap.pop q) [
    | none ↦ ([], q)
    | some (t, rest) ↦
        let more = grab_loop rounds now rest in
        if ltb now t.deadline then ([], q) else put_front t more
  ]

  abbrev pub size : heap.Queue → ℕ
  size q = heap.weigh (λ _. 1) q

  unfoldable pub grab_ready_timers : ℕ → heap.Queue → List (Timer P) × heap.Queue
  unfolding grab_loop
  grab_ready_timers now q = grab_loop (size q) now q

  -- What a grab at the time `now` promises.
  pub record IsGrab (now low : ℕ) (q : heap.Queue) (r : List (Timer P) × heap.Queue) : Type 0 where
    pub conserved : (w : Timer P → ℕ) → weigh_list w r.0 + heap.weigh w r.1 ≡ heap.weigh w q
    pub due : weigh_list (below (λ t. t.deadline) (suc now)) r.0 ≡ weigh_list (λ _. 1) r.0
    pub left : heap.weigh (below (λ t. t.deadline) (suc now)) r.1 ≡ 0
    pub ordered : IsOrdered low r.0
