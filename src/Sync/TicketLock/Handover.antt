-- ===== src/Sync/TicketLock/Handover.antt =====
-- Every ticket from the owner's to the next free one is with exactly one thread.
use tpcc.Prelude.{
  ℕ, suc, ◌+◌, ◌^◌, ◌<◌, ◌≤◌, some, ◌≡◌, refl, ◌≢◌, if◌then◌else◌, ◌==◌, ltb, inl, inr, ◌⊎◌,
  total_two, total-eq-zero_below, update, update_cases, total, total-update, le-total, arith,
  total-eq-zero, ap, sym, ◌∙◌, ℕ_discrete, subst,
}
use tpcc.Sync.TicketLock.{
  TicketLock, Thread, outside, arriving, waiting, trying, claiming, critical, unlocking, storing,
  advance, System, IsCall, calls_lock, calls_try_lock, calls_unlock, enter, move, Reach, here, next,
}

-- Whether a thread has the ticket `k`.
abbrev has : ℕ → Thread → ℕ
has k (waiting t) = if t == k then 1 else 0
has k (critical t) = if t == k then 1 else 0
has k (unlocking t) = if t == k then 1 else 0
has k (storing t v) = if t == k then 1 else 0
has k _ = 0

-- A thread that has the lock.
abbrev pub owns : Thread → ℕ
owns (critical t) = 1
owns (unlocking t) = 1
owns (storing t v) = 1
owns _ = 0

-- What a thread knows of the owner's ticket.
abbrev Knows : ℕ → Thread → Type 0
Knows owner (claiming c) = c ≤ owner
Knows owner (critical t) = t ≡ owner
Knows owner (unlocking t) = t ≡ owner
Knows owner (storing t v) = (t ≡ owner) × (v ≡ suc owner)
Knows owner _ = 0 ≤ owner

abbrev issued_once : ℕ → ℕ → ℕ → ℕ
issued_once owner free k = if ltb k owner then 0 else if ltb k free then 1 else 0

-- A step of a thread, for the ticket `k`, where `rest` is the number of other threads that have it.
advance-once :
    (c : Thread) (owner free k rest : ℕ) (l' : TicketLock) (c' : Thread) (d : ℕ)
    → owner ≤ free
    → Knows owner c
    → free + d < 2 ^ 64
    → has k c + rest ≡ issued_once owner free k
    → advance c (record { next_free_ticket = free; owner_ticket = owner }) ≡ some (l', c', d)
    → has k c' + rest ≡ issued_once l'.owner_ticket l'.next_free_ticket k
unfolding advance
advance-once outside owner free k rest l' c' d o w b h q = ground arith
advance-once _ owner free k rest l' c' d o w b h q = ground arith

advance-Knows :
    (c : Thread) (owner free : ℕ) (l' : TicketLock) (c' : Thread) (d : ℕ)
    → owner ≤ free
    → Knows owner c
    → free + d < 2 ^ 64
    → (owns c ≡ 1 → owner < free)
    → advance c (record { next_free_ticket = free; owner_ticket = owner }) ≡ some (l', c', d)
    → Knows l'.owner_ticket c'
      × (l'.owner_ticket ≤ l'.next_free_ticket)
      × (l'.next_free_ticket ≡ free + d)
unfolding advance
advance-Knows outside owner free l' c' d o w b h q = ground arith
advance-Knows _ owner free l' c' d o w b h q = ground arith

owner-has : (owner : ℕ) (c : Thread) → owns c ≡ 1 → Knows owner c → has owner c ≡ 1
owner-has owner outside o w = absurd (omega (arith, o))
owner-has owner arriving o w = absurd (omega (arith, o))
owner-has owner (waiting t) o w = absurd (omega (arith, o))
owner-has owner trying o w = absurd (omega (arith, o))
owner-has owner (claiming t) o w = absurd (omega (arith, o))
owner-has owner (critical t) o w = ground arith
owner-has owner (unlocking t) o w = ground arith
owner-has owner (storing t v) o w = ground arith

-- What a thread that is not the owner knows stays true when the lock is handed over.
Knows-handover :
    (c : Thread) (owner later : ℕ) → owner ≤ later → owns c ≡ 0 → Knows owner c → Knows later c
Knows-handover (claiming t) owner later o z w = omega (arith, w, o)
Knows-handover (critical t) owner later o z w = absurd (omega (arith, z))
Knows-handover (unlocking t) owner later o z w = absurd (omega (arith, z))
Knows-handover (storing t v) owner later o z w = absurd (omega (arith, z))
Knows-handover _ owner later o z w = omega arith

owns-cases : (c : Thread) → (owns c ≡ 0) ⊎ (owns c ≡ 1)
owns-cases (critical t) = inr refl
owns-cases (unlocking t) = inr refl
owns-cases (storing t v) = inr refl
owns-cases _ = inl refl

-- Only the owner moves the owner's ticket, and that by one.
advance-owner :
    (c : Thread) (l l' : TicketLock) (c' : Thread) (d : ℕ)
    → Knows l.owner_ticket c
    → advance c l ≡ some (l', c', d)
    → (l'.owner_ticket ≡ l.owner_ticket) ⊎ ((owns c ≡ 1) × (l.owner_ticket ≤ l'.owner_ticket))
unfolding advance
advance-owner outside l l' c' d w q = ground arith
advance-owner _ l l' c' d w q = ground arith

module _ (n : ℕ) where
  record Inv (s : System) : Type 0 where
    count : s.ticket_lock.next_free_ticket ≡ s.issued
    order : s.ticket_lock.owner_ticket ≤ s.issued
    knows : (i : ℕ) → i < n → Knows s.ticket_lock.owner_ticket (s.threads i)
    once : (k : ℕ) → total (has k) n s.threads ≡ issued_once s.ticket_lock.owner_ticket s.issued k

  once-owner :
      (s : System) (i j : ℕ)
      → Inv s
      → i < n
      → j < n
      → owns (s.threads i) ≡ 1
      → owns (s.threads j) ≡ 1
      → i ≡ j
  once-owner s i j v p q x y = elim (ℕ_discrete i j) [
    | yes e ↦ e
    | no ne ↦
        let o = s.ticket_lock.owner_ticket in
        let hi = owner-has o (s.threads i) x (v.knows i p) in
        let hj = owner-has o (s.threads j) y (v.knows j q) in
        let two = total_two (has o) n s.threads i j p q ne in
        let sum = v.once o in absurd (ground (arith, hi, hj, two, sum))
  ]

  enter-Inv :
      (s : System) (i : ℕ) (t : Thread)
      → i < n
      → IsCall (s.threads i) t
      → Inv s
      → Inv (record s { threads = update s.threads i t })
  enter-Inv s i t lt c v = record {
    count = v.count;
    order = v.order;
    knows = λ j lj.
        update_cases (λ u. Knows s.ticket_lock.owner_ticket u) s.threads i t j
          (λ e. call-Knows c (v.knows i lt)) (λ _. v.knows j lj);
    once = λ k. omega (arith, v.once k, total-update (has k) n s.threads i t lt, call-has k c);
  }
    where
      call-Knows :
          {c t : Thread}
          → IsCall c t
          → Knows s.ticket_lock.owner_ticket c
          → Knows s.ticket_lock.owner_ticket t
      call-Knows calls_lock w = omega arith
      call-Knows calls_try_lock w = omega arith
      call-Knows (calls_unlock t) w = w

      call-has : (k : ℕ) {c t : Thread} → IsCall c t → has k t ≡ has k c
      call-has k calls_lock = refl
      call-has k calls_try_lock = refl
      call-has k (calls_unlock t) = refl

  move-Inv :
      (s : System) (i : ℕ) (l : TicketLock) (t : Thread) (d : ℕ)
      → i < n
      → s.issued + d < 2 ^ 64
      → advance (s.threads i) s.ticket_lock ≡ some (l, t, d)
      → Inv s
      → Inv (record { ticket_lock = l; threads = update s.threads i t; issued = s.issued + d })
  move-Inv s i l t d lt small q v =
      let owner = s.ticket_lock.owner_ticket in
      let free = s.ticket_lock.next_free_ticket in
      let behind : owns (s.threads i) ≡ 1 → owner < free = λ o. ground (
        arith,
        v.count,
        v.once owner,
        le-total (has owner) n s.threads i lt,
        owner-has owner (s.threads i) o (v.knows i lt),
      ) in
      let (w, below, grown) =
        advance-Knows (s.threads i) owner free l t d (omega (arith, v.order, v.count))
          (v.knows i lt) (omega (arith, small, v.count)) behind q in
      record {
        count = omega (arith, grown, v.count);
        order = omega (arith, below, grown, v.count);
        knows = λ j lj.
            update_cases (λ u. Knows l.owner_ticket u) s.threads i t j (λ e. w)
              (λ ne. others j lj ne);
        once = λ k.
            let rest = total (has k) n (update s.threads i outside) in
            let before : has k (s.threads i) + rest ≡ issued_once owner free k = omega (
              arith,
              total-update (has k) n s.threads i outside lt,
              v.once k ∙ ap (λ x. issued_once owner x k) (sym v.count),
            ) in
            let after =
              advance-once (s.threads i) owner free k rest l t d (omega (arith, v.order, v.count))
                (v.knows i lt) (omega (arith, small, v.count)) before q in
            let later : l.next_free_ticket ≡ s.issued + d = omega (arith, grown, v.count) in
            omega (
              arith,
              total-update (has k) n s.threads i outside lt,
              total-update (has k) n s.threads i t lt,
              after ∙ ap (λ x. issued_once l.owner_ticket x k) later,
            );
      }
    where
      others : (j : ℕ) → j < n → i ≢ j → Knows l.owner_ticket (s.threads j)
      others j lj ne = elim (advance-owner (s.threads i) s.ticket_lock l t d (v.knows i lt) q) [
        | inl e ↦ subst (λ x. Knows x (s.threads j)) (sym e) (v.knows j lj)
        | inr (o, le) ↦ elim (owns-cases (s.threads j)) [
          | inl z ↦
              Knows-handover (s.threads j) s.ticket_lock.owner_ticket l.owner_ticket le z
                (v.knows j lj)
          | inr o' ↦ absurd (ne (once-owner s i j v lt lj o o'))
        ]
      ]

  Reach-Inv : {s : System} → Reach n s → s.issued < 2 ^ 64 → Inv s
  Reach-Inv here small = record {
    count = refl;
    order = omega arith;
    knows = λ i lt. omega arith;
    once = λ k. ground (arith, total-eq-zero (has k) n (λ _. outside) (λ _. refl));
  }
  Reach-Inv (next a (enter i lt c)) small = enter-Inv _ i _ lt c (Reach-Inv a small)
  Reach-Inv (next a (move i lt {k = d} q)) small =
      move-Inv _ i _ _ d lt small q (Reach-Inv a (omega (arith, small)))

  -- While fewer than 2^64 tickets have been taken, in every reachable state at most one thread has the
  -- lock.
  pub ticket_exclusion :
      {s : System}
      → Reach n s
      → s.issued < 2 ^ 64
      → (i j : ℕ) → i < n
      → j < n
      → owns (s.threads i) ≡ 1
      → owns (s.threads j) ≡ 1
      → i ≡ j
  ticket_exclusion {s} a small i j p q x y = once-owner s i j (Reach-Inv a small) p q x y

  -- Nobody waits for nothing: while fewer than 2^64 tickets have been taken, in a reachable state in
  -- which every thread is outside, or waits in `Lock` for a ticket that is not the owner's, every thread
  -- is outside.
  pub ticket_progress :
      {s : System}
      → Reach n s
      → s.issued < 2 ^ 64
      → ((i : ℕ)
          → i < n
          → (s.threads i ≡ outside)
            ⊎ ((t : ℕ) × (s.threads i ≡ waiting t) × (t ≢ s.ticket_lock.owner_ticket)))
      → (i : ℕ) → i < n
      → s.threads i ≡ outside
  ticket_progress {s} a small resting i lt =
      let v = Reach-Inv a small in
      let owner = s.ticket_lock.owner_ticket in
      let nobody =
        total-eq-zero_below (has owner) n s.threads
          (λ j q. away owner (s.threads j) (resting j q)) in
      elim (resting i lt) [
        | inl out ↦ out
        | inr (t, e, ne) ↦
            let mine : has t (s.threads i) ≡ 1 = ap (has t) e ∙ same t in
            absurd (
              ground (
                arith,
                nobody,
                v.once owner,
                v.once t,
                mine,
                le-total (has t) n s.threads i lt,
                ne,
              ))
      ]
    where
      same : (t : ℕ) → has t (waiting t) ≡ 1
      same t = ground arith

      away :
          (k : ℕ) (c : Thread) → (c ≡ outside) ⊎ ((t : ℕ) × (c ≡ waiting t) × (t ≢ k)) → has k c ≡ 0
      away k c (inl e) = ap (has k) e
      away k c (inr (t, e, ne)) = ap (has k) e ∙ ground (arith, ne)
