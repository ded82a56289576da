-- ===== src/Intro/Dining/Progress.antt =====
-- No two philosophers have the same plate, and somebody can always go on.
use tpcc.Prelude.{
  ℕ, suc, ◌%◌, ◌<◌, Option, none, some, ◌≡◌, ◌≢◌, ◌⊎◌, inl, inr, refl, ap, sym, ◌∙◌, subst, update,
  arith, ℕ_discrete, of_some,
}
use tpcc.Intro.Dining.{
  Table, Philosopher, thinking, acquiring, waiting, eating, releasing, leaving, Dinner, first_fork,
  second_fork, go, lock, unlock, eat, then_go, advance, Reach, here, next,
}
use tpcc.Intro.Dining.Order.{first_fork_even, second_fork_cases, first_fork_zero, forks_differ}
use tpcc.Intro.Dining.Forks.{Holds, Inv, take-Inv, release-Inv, move-Inv}

locked :
    (d d' : Dinner) (seat fork : ℕ) (place : Philosopher)
    → then_go seat place (lock seat fork d) ≡ some d'
    → (d.forks fork ≡ none)
      × (go seat place (record d { forks = update d.forks fork (some seat) }) ≡ d')
unfolding lock
locked d d' seat fork place e = cases (d.forks fork) refl e
  where
    cases :
        (o : Option ℕ)
        → d.forks fork ≡ o
        → then_go seat place (elim o [
          | none ↦ some (record d { forks = update d.forks fork (some seat) })
          | some holder ↦ none
        ])
          ≡ some d'
        → (d.forks fork ≡ none)
          × (go seat place (record d { forks = update d.forks fork (some seat) }) ≡ d')
    cases none free q = (free, of_some q)
    cases (some holder) taken q = absurd (ground (arith, q))

lock_free :
    (d : Dinner) (seat fork : ℕ) (place : Philosopher)
    → d.forks fork ≡ none
    → then_go seat place (lock seat fork d)
      ≡ some (go seat place (record d { forks = update d.forks fork (some seat) }))
unfolding lock
lock_free d seat fork place free = rw (free, then_go) refl

module _ (table : Table) (two : 1 < table.seats) where
  advance-Inv :
      (d d' : Dinner) (seat : ℕ) (place : Philosopher)
      → seat < table.seats
      → d.philosophers seat ≡ place
      → Inv table d
      → advance table seat place d ≡ some d'
      → Inv table d'
  unfolding advance unlock eat
  advance-Inv d d' seat thinking lt at v e =
      subst (Inv table) (of_some e)
        (move-Inv table d seat thinking acquiring d.meals lt at v (λ g h. h) (λ g h. h))
  advance-Inv d d' seat acquiring lt at v e =
      let (free, same) = locked d d' seat (first_fork table seat) waiting e in
      subst (Inv table) same (
        take-Inv table d seat (first_fork table seat) acquiring waiting lt at free v (λ g h. inr h)
          (λ g h. absurd h) refl)
  advance-Inv d d' seat waiting lt at v e =
      let (free, same) = locked d d' seat (second_fork table seat) eating e in
      subst (Inv table) same (
        take-Inv table d seat (second_fork table seat) waiting eating lt at free v (λ g h. h)
          (λ g h. inl h) (inr refl))
  advance-Inv d d' seat eating lt at v e = subst (Inv table) (of_some e) (
      move-Inv table d seat eating releasing (update d.meals seat (suc (d.meals seat))) lt at v
        (λ g h. h) (λ g h. h))
  advance-Inv d d' seat releasing lt at v e =
      let differ = forks_differ table seat lt two in
      subst (Inv table) (of_some e) (
        release-Inv table d seat (first_fork table seat) releasing leaving lt at v (inl refl)
          (λ g h. (inr h, λ q. differ (q ∙ h)))
          (λ g h ne. elim h [ inl same ↦ absurd (ne (sym same)) | inr same ↦ same ]))
  advance-Inv d d' seat leaving lt at v e = subst (Inv table) (of_some e) (
      release-Inv table d seat (second_fork table seat) leaving thinking lt at v refl
        (λ g h. absurd h) (λ g h ne. absurd (ne (sym h))))

  Reach-Inv : {d : Dinner} → Reach table d → Inv table d
  Reach-Inv here = record {
    held = λ seat fork lt h. absurd h;
    holder = λ seat fork e. absurd (ground (arith, e));
  }
  Reach-Inv (next {d} {d'} r seat lt e) =
      advance-Inv d d' seat (d.philosophers seat) lt refl (Reach-Inv r) e

  -- A philosopher who has begun to acquire his forks, and not yet put both back, can make a step.
  abbrev pub CanGoOn : Dinner → Type 0
  CanGoOn d =
      (seat : ℕ) × (seat < table.seats)
      × (d.philosophers seat ≢ thinking)
      × (d' : Dinner) × (advance table seat (d.philosophers seat) d ≡ some d')

  goes :
      (d d' : Dinner) (seat : ℕ) (place : Philosopher)
      → seat < table.seats
      → d.philosophers seat ≡ place
      → place ≢ thinking
      → advance table seat place d ≡ some d'
      → CanGoOn d
  goes d d' seat place lt at busy e =
      (seat, lt, λ q. busy (sym at ∙ q), d', ap (λ p. advance table seat p d) at ∙ e)

  -- The holder of a fork goes on, unless he waits for his second one.
  holder_goes :
      (d : Dinner) (seat fork : ℕ) (place : Philosopher)
      → seat < table.seats
      → d.philosophers seat ≡ place
      → Holds table seat place fork
      → (fork ≡ first_fork table seat → place ≡ waiting → CanGoOn d)
      → CanGoOn d
  unfolding advance
  holder_goes d seat fork thinking lt at h rest = absurd h
  holder_goes d seat fork acquiring lt at h rest = absurd h
  holder_goes d seat fork waiting lt at h rest = rest h refl
  holder_goes d seat fork eating lt at h rest =
      goes d (go seat releasing (eat seat d)) seat eating lt at (λ q. ground (arith, q)) refl
  holder_goes d seat fork releasing lt at h rest =
      goes d (go seat leaving (unlock (first_fork table seat) d)) seat releasing lt at
        (λ q. ground (arith, q)) refl
  holder_goes d seat fork leaving lt at h rest =
      goes d (go seat thinking (unlock (second_fork table seat) d)) seat leaving lt at
        (λ q. ground (arith, q)) refl

  -- One who waits for his second fork goes on, or its holder does.
  waiting_goes :
      (d : Dinner) (seat : ℕ)
      → Inv table d
      → seat < table.seats
      → d.philosophers seat ≡ waiting
      → ((k : ℕ)
          → k < table.seats
          → second_fork table seat ≡ first_fork table k
          → d.philosophers k ≡ waiting
          → CanGoOn d)
      → CanGoOn d
  unfolding advance
  waiting_goes d seat v lt at rest = cases (d.forks (second_fork table seat)) refl
    where
      cases : (o : Option ℕ) → d.forks (second_fork table seat) ≡ o → CanGoOn d
      cases none free =
          goes d
            (go seat eating
              (record d { forks = update d.forks (second_fork table seat) (some seat) }))
            seat waiting lt at (λ q. ground (arith, q))
            (lock_free d seat (second_fork table seat) eating free)
      cases (some k) taken =
          let (below, h) = v.holder k (second_fork table seat) taken in
          holder_goes d k (second_fork table seat) (d.philosophers k) below refl h
            (λ e w. rest k below e w)

  -- Where the second fork is odd, its holder does not wait for another.
  odd_goes :
      (d : Dinner) (seat : ℕ)
      → Inv table d
      → seat < table.seats
      → d.philosophers seat ≡ waiting
      → second_fork table seat % 2 ≡ 1
      → CanGoOn d
  odd_goes d seat v lt at odd =
      waiting_goes d seat v lt at
        (λ k below e w. absurd (omega (arith, odd, e, first_fork_even table k below)))

  -- Otherwise it is fork 0, and its holder sits at seat 0 and waits for fork 1.
  second_goes :
      (d : Dinner) (seat : ℕ)
      → Inv table d
      → seat < table.seats
      → d.philosophers seat ≡ waiting
      → CanGoOn d
  second_goes d seat v lt at = elim (second_fork_cases table seat lt) [
    | inl odd ↦ odd_goes d seat v lt at odd
    | inr (zeroth, last, even) ↦ waiting_goes d seat v lt at (λ k below e w.
        elim (first_fork_zero table k below (sym e ∙ zeroth)) [
          | inl first ↦ elim (second_fork_cases table k below) [
            | inl odd ↦ odd_goes d k v below w odd
            | inr (again, end, parity) ↦ absurd (omega (arith, first, end, two))
          ]
          | inr (end, odd) ↦ absurd (omega (arith, end, odd, last, even))
        ])
  ]

  -- No deadlock. In every reachable state of a dinner with at least two seats, if some philosopher is not
  -- thinking, then one who is not thinking can make his next step.
  pub Reach-CanGoOn :
      {d : Dinner} (seat : ℕ)
      → Reach table d
      → seat < table.seats
      → d.philosophers seat ≢ thinking
      → CanGoOn d
  unfolding advance
  Reach-CanGoOn {d} seat r lt busy = cases (d.philosophers seat) refl
    where
      first :
          (o : Option ℕ)
          → d.forks (first_fork table seat) ≡ o
          → d.philosophers seat ≡ acquiring
          → CanGoOn d
      first none free at =
          goes d
            (go seat waiting
              (record d { forks = update d.forks (first_fork table seat) (some seat) }))
            seat acquiring lt at (λ q. ground (arith, q))
            (lock_free d seat (first_fork table seat) waiting free)
      first (some k) taken at =
          let v = Reach-Inv r in
          let (below, h) = v.holder k (first_fork table seat) taken in
          holder_goes d k (first_fork table seat) (d.philosophers k) below refl h
            (λ e w. second_goes d k v below w)

      cases : (place : Philosopher) → d.philosophers seat ≡ place → CanGoOn d
      cases thinking at = absurd (busy at)
      cases acquiring at = first (d.forks (first_fork table seat)) refl at
      cases waiting at = second_goes d seat (Reach-Inv r) lt at
      cases eating at =
          holder_goes d seat (first_fork table seat) eating lt at (inl refl)
            (λ e w. absurd (ground (arith, w)))
      cases releasing at =
          holder_goes d seat (first_fork table seat) releasing lt at (inl refl)
            (λ e w. absurd (ground (arith, w)))
      cases leaving at =
          holder_goes d seat (second_fork table seat) leaving lt at refl
            (λ e w. absurd (ground (arith, w)))

  -- The plates that `Eat` accesses: one's own, and the one to the right.
  abbrev pub Accesses : ℕ → ℕ → Type 0
  Accesses seat plate = (plate ≡ seat) ⊎ (plate ≡ table.to_right seat)

  eating-Holds :
      (seat plate : ℕ) → seat < table.seats → Accesses seat plate → Holds table seat eating plate
  unfolding first_fork second_fork
  eating-Holds seat plate lt (inl e) = elim (ℕ_discrete (seat % 2) 0) [
    | yes even ↦ inl (ground (arith, e, even, table.left_fork-seat seat lt))
    | no odd ↦ inr (ground (arith, e, odd, table.left_fork-seat seat lt))
  ]
  eating-Holds seat plate lt (inr e) = elim (ℕ_discrete (seat % 2) 0) [
    | yes even ↦ inr (ground (arith, e, even, table.right_fork-to_right seat lt))
    | no odd ↦ inl (ground (arith, e, odd, table.right_fork-to_right seat lt))
  ]

  -- No data race on the plates. In every reachable state of a dinner with at least two seats, two
  -- philosophers who eat at the same time access different plates.
  pub Reach-plates :
      {d : Dinner} (i j p q : ℕ)
      → Reach table d
      → i < table.seats
      → j < table.seats
      → d.philosophers i ≡ eating
      → d.philosophers j ≡ eating
      → i ≢ j
      → Accesses i p
      → Accesses j q
      → p ≢ q
  Reach-plates {d} i j p q r lt below at there differ a b same =
      let v = Reach-Inv r in
      let his : d.forks p ≡ some i =
        v.held i p lt (subst (λ h. Holds table i h p) (sym at) (eating-Holds i p lt a)) in
      let hers : d.forks q ≡ some j =
        v.held j q below (subst (λ h. Holds table j h q) (sym there) (eating-Holds j q below b)) in
      differ (of_some (sym his ∙ ap d.forks same ∙ hers))
