-- ===== src/Sync/ConditionVariable/Wakeup.antt =====
-- No wake-up is lost between the load of the ticket and the sleep.
use tpcc.Prelude.{
  ℕ, suc, ◌+◌, ◌%◌, ◌^◌, ◌≤◌, ◌<◌, Bool, true, false, Option, none, some, List, [], ◌∷◌, ◌++◌, ◌≡◌,
  refl, sym, ◌∙◌, ◌==◌, ltb, if◌then◌else◌, update, update_cases, update_self, update_other, arith,
  subst, ◌⊎◌, inl, inr, ℕ_discrete,
}
use tpcc.Sync.ConditionVariable.{
  Thread, outside, holding, loaded, released, sleeping, relocking, Notice, System, load_ticket,
  unlock, lock, compare_ticket, wait, fetch_add, woken, notify_all, notify_one, Step, locks, leaves,
  loads, unlocks, waits, wakes, relocks, adds, notifies_all, notifies_one, notifies_nobody, Reach,
  here, next,
}

-- A thread that has a ticket has the one of its epoch. One that sleeps has loaded it no earlier than
-- the last `NotifyAll` that has returned, or a full turn of the ticket ago.
abbrev Fits : ℕ → ℕ → ℕ → Thread → Type 0
Fits issued finished epoch (loaded t) = t ≡ epoch % 2 ^ 32
Fits issued finished epoch (released t) = t ≡ epoch % 2 ^ 32
Fits issued finished epoch (sleeping t) =
    (t ≡ epoch % 2 ^ 32) × ((finished ≤ epoch) ⊎ (epoch + 2 ^ 32 ≤ issued))
Fits issued finished epoch _ = Unit {0}

abbrev Bounded : ℕ → List Notice → Type 0
Bounded issued [] = Unit {0}
Bounded issued (x ∷ xs) = (x.number ≤ issued) × Bounded issued xs

Bounded-snoc :
    (issued : ℕ) (xs : List Notice) (x : Notice)
    → x.number ≤ suc issued
    → Bounded issued xs
    → Bounded (suc issued) (xs ++ x ∷ [])
Bounded-snoc issued [] x h b = (h, tt)
Bounded-snoc issued (y ∷ ys) x h (a, b) = (omega (arith, a), Bounded-snoc issued ys x h b)

Bounded-remove :
    (issued : ℕ) (xs ys : List Notice) (x : Notice)
    → Bounded issued (xs ++ x ∷ ys)
    → (x.number ≤ issued) × Bounded issued (xs ++ ys)
Bounded-remove issued [] ys x (a, b) = (a, b)
Bounded-remove issued (z ∷ xs) ys x (a, b) =
    let (c, d) = Bounded-remove issued xs ys x b in (c, (a, d))

record Inv (s : System) : Type 0 where
  counts : s.ticket ≡ s.issued % 2 ^ 32
  before : (i : ℕ) → s.epochs i ≤ s.issued
  returned : s.finished ≤ s.issued
  bounded : Bounded s.issued s.notices
  fits : (i : ℕ) → Fits s.issued s.finished (s.epochs i) (s.threads i)

-- Thread `i` goes to another place; the ticket stays.
goes-Inv :
    (s : System) (i : ℕ) (thread : Thread) (mutex : Option ℕ)
    → Inv s
    → Fits s.issued s.finished (s.epochs i) thread
    → Inv (record s { mutex = mutex; threads = update s.threads i thread })
goes-Inv s i thread mutex v fit = record {
  counts = v.counts;
  before = v.before;
  returned = v.returned;
  bounded = v.bounded;
  fits = λ j.
      update_cases (λ th. Fits s.issued s.finished (s.epochs j) th) s.threads i thread j
        (λ e. subst (λ k. Fits s.issued s.finished (s.epochs k) thread) e fit) (λ ne. v.fits j);
}

notices-Inv :
    (s : System) (xs ys : List Notice) (x : Notice)
    → s.notices ≡ xs ++ x ∷ ys
    → Inv s
    → (x.number ≤ s.issued) × Inv (record s { notices = xs ++ ys })
notices-Inv s xs ys x e v =
    let (bound, rest) = Bounded-remove s.issued xs ys x (subst (Bounded s.issued) e v.bounded) in
    (
      bound,
      record {
        counts = v.counts;
        before = v.before;
        returned = v.returned;
        bounded = rest;
        fits = v.fits;
      },
    )

loads-Inv : (s : System) (i : ℕ) → Inv s → Inv (load_ticket i s)
unfolding load_ticket
loads-Inv s i v = record {
  counts = v.counts;
  before = λ j.
      update_cases (λ e. e ≤ s.issued) s.epochs i s.issued j (λ e. omega arith) (λ ne. v.before j);
  returned = v.returned;
  bounded = v.bounded;
  fits = λ j. elim (ℕ_discrete i j) [
    | yes e ↦
        subst
          (λ k.
            Fits s.issued s.finished (update s.epochs i s.issued k)
              (update s.threads i (loaded s.ticket) k))
          e
          (rw (update_self s.epochs i s.issued, update_self s.threads i (loaded s.ticket)) v.counts)
    | no ne ↦
        rw (update_other s.epochs i s.issued j ne, update_other s.threads i (loaded s.ticket) j ne)
          (v.fits j)
  ];
}

-- When the ticket is that of an earlier epoch, none has been issued since, or a full turn.
same_ticket :
    (issued epoch : ℕ)
    → epoch ≤ issued
    → issued % 2 ^ 32 ≡ epoch % 2 ^ 32
    → (issued ≡ epoch) ⊎ (epoch + 2 ^ 32 ≤ issued)
same_ticket issued epoch h e = elim (ℕ_discrete issued epoch) [
  | yes same ↦ inl same
  | no ne ↦ inr (omega (arith, h, e, ne))
]

compare_ticket-Fits :
    (s : System) (i t : ℕ)
    → Inv s
    → t ≡ s.epochs i % 2 ^ 32
    → Fits s.issued s.finished (s.epochs i) (compare_ticket t s)
unfolding compare_ticket
compare_ticket-Fits s i t v e = choose (s.ticket == t) refl
  where
    choose :
        (b : Bool)
        → (s.ticket == t) ≡ b
        → Fits s.issued s.finished (s.epochs i) (if b then sleeping t else relocking)
    choose false q = tt
    choose true q =
        let same : s.ticket ≡ t = ground (arith, q) in
        (
          e,
          elim (same_ticket s.issued (s.epochs i) (v.before i) (sym v.counts ∙ same ∙ e)) [
            | inl now ↦ inl (omega (arith, v.returned, now))
            | inr turn ↦ inr turn
          ],
        )

later-Fits :
    (issued finished epoch : ℕ) (thread : Thread)
    → Fits issued finished epoch thread
    → Fits (suc issued) finished epoch thread
later-Fits issued finished epoch (sleeping t) (e, inl h) = (e, inl h)
later-Fits issued finished epoch (sleeping t) (e, inr h) = (e, inr (omega (arith, h)))
later-Fits issued finished epoch (loaded t) e = e
later-Fits issued finished epoch (released t) e = e
later-Fits issued finished epoch outside e = tt
later-Fits issued finished epoch holding e = tt
later-Fits issued finished epoch relocking e = tt

woken-Fits :
    (issued finished finished' epoch : ℕ) (thread : Thread)
    → Fits issued finished epoch thread
    → Fits issued finished' epoch (woken thread)
woken-Fits issued finished finished' epoch (sleeping t) (e, h) = e
woken-Fits issued finished finished' epoch (loaded t) e = e
woken-Fits issued finished finished' epoch (released t) e = e
woken-Fits issued finished finished' epoch outside e = tt
woken-Fits issued finished finished' epoch holding e = tt
woken-Fits issued finished finished' epoch relocking e = tt

step-Inv : {s s' : System} → Step s s' → Inv s → Inv s'
unfolding lock unlock wait fetch_add notify_all notify_one
step-Inv {s} (locks i at free) v = goes-Inv s i holding (some i) v tt
step-Inv {s} (leaves i at) v = goes-Inv s i outside none v tt
step-Inv {s} (loads i at) v = loads-Inv s i v
step-Inv {s} (unlocks i t at) v =
    goes-Inv s i (released t) none v (subst (Fits s.issued s.finished (s.epochs i)) at (v.fits i))
step-Inv {s} (waits i t at) v =
    goes-Inv s i (compare_ticket t s) s.mutex v
      (compare_ticket-Fits s i t v (subst (Fits s.issued s.finished (s.epochs i)) at (v.fits i)))
step-Inv {s} (wakes i t at) v =
    goes-Inv s i (woken (s.threads i)) s.mutex v
      (woken-Fits s.issued s.finished s.finished (s.epochs i) (s.threads i) (v.fits i))
step-Inv {s} (relocks i at free) v = goes-Inv s i holding (some i) v tt
step-Inv {s} (adds all) v = record {
  counts = omega (arith, v.counts);
  before = λ i. omega (arith, v.before i);
  returned = omega (arith, v.returned);
  bounded =
      Bounded-snoc s.issued s.notices (record { all = all; number = suc s.issued }) (omega arith)
        v.bounded;
  fits = λ i. later-Fits s.issued s.finished (s.epochs i) (s.threads i) (v.fits i);
}
step-Inv {s} (notifies_all xs ys number e) v =
    let (bound, w) = notices-Inv s xs ys (record { all = true; number = number }) e v in
    record {
      counts = w.counts;
      before = w.before;
      returned = ground (arith, w.returned, bound);
      bounded = w.bounded;
      fits = λ i.
          woken-Fits s.issued s.finished (if ltb s.finished number then number else s.finished)
            (s.epochs i) (s.threads i) (v.fits i);
    }
step-Inv {s} (notifies_one xs ys number i t e at) v =
    let (bound, w) = notices-Inv s xs ys (record { all = false; number = number }) e v in
    goes-Inv (record s { notices = xs ++ ys }) i (woken (s.threads i)) s.mutex w
      (woken-Fits s.issued s.finished s.finished (s.epochs i) (s.threads i) (v.fits i))
step-Inv {s} (notifies_nobody xs ys number e quiet) v =
    (notices-Inv s xs ys (record { all = false; number = number }) e v).1

Reach-Inv : {s : System} → Reach s → Inv s
Reach-Inv here = record {
  counts = refl;
  before = λ i. omega arith;
  returned = omega arith;
  bounded = tt;
  fits = λ i. tt;
}
Reach-Inv (next r h) = step-Inv h (Reach-Inv r)

-- No wake-up is lost. In every reachable state, if fewer than 2^32 notifications have been issued since
-- a thread has loaded its ticket in `Wait`: the thread does not sleep if a `NotifyAll` that was issued
-- since then has returned; and where it is about to sleep, and any notification has been issued since
-- then, it goes on to lock the mutex.
pub Reach-notified :
    {s : System}
    → Reach s
    → (i : ℕ) → s.issued < s.epochs i + 2 ^ 32
    → ((t : ℕ) → s.threads i ≡ sleeping t → s.finished ≤ s.epochs i)
      × ((t : ℕ)
          → s.threads i ≡ released t
          → s.epochs i < s.issued
          → compare_ticket t s ≡ relocking)
unfolding compare_ticket
Reach-notified {s} r i recent =
    let v = Reach-Inv r in
    (
      λ t at.
          let (e, since) = subst (Fits s.issued s.finished (s.epochs i)) at (v.fits i) in
          elim since [ inl h ↦ h | inr turn ↦ absurd (omega (arith, turn, recent)) ],
      λ t at later.
          choose t (s.ticket == t) refl
            (subst (Fits s.issued s.finished (s.epochs i)) at (v.fits i)) later,
    )
  where
    choose :
        (t : ℕ) (b : Bool)
        → (s.ticket == t) ≡ b
        → t ≡ s.epochs i % 2 ^ 32
        → s.epochs i < s.issued
        → (if b then sleeping t else relocking) ≡ relocking
    choose t false q e later = refl
    choose t true q e later =
        let v = Reach-Inv r in
        let same : s.ticket ≡ t = ground (arith, q) in
        elim (same_ticket s.issued (s.epochs i) (v.before i) (sym v.counts ∙ same ∙ e)) [
          | inl now ↦ absurd (omega (arith, now, later))
          | inr turn ↦ absurd (omega (arith, turn, recent))
        ]
