-- ===== src/Intro/Dining/Forks.antt =====
-- Who holds the forks.
use tpcc.Prelude.{
  ℕ, ◌<◌, Option, none, some, ◌≡◌, ◌≢◌, ◌⊎◌, inl, inr, refl, ap, sym, ◌∙◌, subst, update,
  update_cases, update_self, update_other, arith, ℕ_discrete, of_some,
}
use tpcc.Intro.Dining.{
  Table, Philosopher, thinking, acquiring, waiting, eating, releasing, leaving, Dinner, first_fork,
  second_fork, go,
}

module _ (table : Table) where
  -- What a philosopher at such a place holds.
  abbrev pub Holds : ℕ → Philosopher → ℕ → Type 0
  Holds seat thinking fork = ⊥
  Holds seat acquiring fork = ⊥
  Holds seat waiting fork = fork ≡ first_fork table seat
  Holds seat eating fork = (fork ≡ first_fork table seat) ⊎ (fork ≡ second_fork table seat)
  Holds seat releasing fork = (fork ≡ first_fork table seat) ⊎ (fork ≡ second_fork table seat)
  Holds seat leaving fork = fork ≡ second_fork table seat

  -- A fork is held by the philosopher who is at a place where he holds it.
  pub record Inv (d : Dinner) : Type 0 where
    pub held :
        (seat fork : ℕ)
        → seat < table.seats
        → Holds seat (d.philosophers seat) fork
        → d.forks fork ≡ some seat
    pub holder :
        (seat fork : ℕ)
        → d.forks fork ≡ some seat
        → (seat < table.seats) × Holds seat (d.philosophers seat) fork

  -- One philosopher goes to another place, and the forks change as the places say.
  module _ (d : Dinner) (seat : ℕ) (place : Philosopher) (forks : ℕ → Option ℕ) (v : Inv d)
      (lt : seat < table.seats) (his : (fork : ℕ) → Holds seat place fork → forks fork ≡ some seat)
      (others : (other fork : ℕ)
        → other ≢ seat
        → d.forks fork ≡ some other
        → forks fork ≡ some other)
      (back : (other fork : ℕ)
        → forks fork ≡ some other
        → ((other ≡ seat) × Holds seat place fork)
          ⊎ ((other ≢ seat) × (d.forks fork ≡ some other))) where
    change-Inv : Inv (go seat place (record d { forks = forks }))
    change-Inv = record {
      held = λ other fork below.
          update_cases (λ p. Holds other p fork → forks fork ≡ some other) d.philosophers seat place
            other
            (λ e h.
              subst (λ k. forks fork ≡ some k) e
                (his fork (subst (λ k. Holds k place fork) (sym e) h)))
            (λ ne h. others other fork (λ e. ne (sym e)) (v.held other fork below h));
      holder = λ other fork e. elim (back other fork e) [
        | inl (same, h) ↦ (
          subst (λ k. k < table.seats) (sym same) lt,
          subst (λ k. Holds k (update d.philosophers seat place k) fork) (sym same)
              (subst (λ p. Holds seat p fork) (sym (update_self d.philosophers seat place)) h),
        )
        | inr (ne, was) ↦
            let (below, h) = v.holder other fork was in
            (
              below,
              subst (λ p. Holds other p fork)
                  (sym (update_other d.philosophers seat place other (λ e. ne (sym e)))) h,
            )
      ];
    }

  -- A philosopher at a place holds what the place says.
  now-Holds :
      (d : Dinner) (seat fork : ℕ) (place : Philosopher)
      → d.philosophers seat ≡ place
      → Inv d
      → d.forks fork ≡ some seat
      → Holds seat place fork
  now-Holds d seat fork place at v e = subst (λ p. Holds seat p fork) at (v.holder seat fork e).1

  -- A fork that nobody holds is taken.
  pub take-Inv :
      (d : Dinner) (seat fork : ℕ) (before after : Philosopher)
      → seat < table.seats
      → d.philosophers seat ≡ before
      → d.forks fork ≡ none
      → Inv d
      → ((g : ℕ) → Holds seat after g → Holds seat before g ⊎ (g ≡ fork))
      → ((g : ℕ) → Holds seat before g → Holds seat after g)
      → Holds seat after fork
      → Inv (go seat after (record d { forks = update d.forks fork (some seat) }))
  take-Inv d seat fork before after lt at free v split keep gets =
      change-Inv d seat after (update d.forks fork (some seat)) v lt
        (λ g h. elim (split g h) [
          | inl was ↦
              let old = v.held seat g lt (subst (λ p. Holds seat p g) (sym at) was) in
              update_cases (λ o. o ≡ some seat) d.forks fork (some seat) g (λ e. refl) (λ ne. old)
          | inr e ↦ ap (update d.forks fork (some seat)) e ∙ update_self d.forks fork (some seat)
        ])
        (λ other g ne e.
          update_other d.forks fork (some seat) g (λ q. ground (arith, free, e, ap d.forks q)) ∙ e)
        (λ other g. back other g)
    where
      back :
          (other g : ℕ)
          → update d.forks fork (some seat) g ≡ some other
          → ((other ≡ seat) × Holds seat after g) ⊎ ((other ≢ seat) × (d.forks g ≡ some other))
      back other g =
          update_cases
            (λ o.
              o ≡ some other
              → ((other ≡ seat) × Holds seat after g) ⊎ ((other ≢ seat) × (d.forks g ≡ some other)))
            d.forks fork (some seat) g
            (λ e h. inl (sym (of_some h), subst (Holds seat after) e gets))
            (λ ne h. elim (ℕ_discrete other seat) [
              | yes same ↦ inl (same, keep g (now-Holds d seat g before at v (h ∙ ap some same)))
              | no differ ↦ inr (differ, h)
            ])

  -- A fork is put back.
  pub release-Inv :
      (d : Dinner) (seat fork : ℕ) (before after : Philosopher)
      → seat < table.seats
      → d.philosophers seat ≡ before
      → Inv d
      → Holds seat before fork
      → ((g : ℕ) → Holds seat after g → Holds seat before g × (fork ≢ g))
      → ((g : ℕ) → Holds seat before g → fork ≢ g → Holds seat after g)
      → Inv (go seat after (record d { forks = update d.forks fork none }))
  release-Inv d seat fork before after lt at v had keeps rest =
      let mine : d.forks fork ≡ some seat =
        v.held seat fork lt (subst (λ p. Holds seat p fork) (sym at) had) in
      change-Inv d seat after (update d.forks fork none) v lt
        (λ g h.
          let (was, ne) = keeps g h in
          update_other d.forks fork none g ne
          ∙ v.held seat g lt (subst (λ p. Holds seat p g) (sym at) was))
        (λ other g ne e.
          update_other d.forks fork none g (λ q. ground (arith, mine, e, ap d.forks q, ne)) ∙ e)
        (λ other g. back other g)
    where
      back :
          (other g : ℕ)
          → update d.forks fork none g ≡ some other
          → ((other ≡ seat) × Holds seat after g) ⊎ ((other ≢ seat) × (d.forks g ≡ some other))
      back other g =
          update_cases
            (λ o.
              o ≡ some other
              → ((other ≡ seat) × Holds seat after g) ⊎ ((other ≢ seat) × (d.forks g ≡ some other)))
            d.forks fork none g (λ e h. absurd (ground (arith, h)))
            (λ ne h. elim (ℕ_discrete other seat) [
              | yes same ↦ inl (same, rest g (now-Holds d seat g before at v (h ∙ ap some same)) ne)
              | no differ ↦ inr (differ, h)
            ])

  -- The forks stay.
  pub move-Inv :
      (d : Dinner) (seat : ℕ) (before after : Philosopher) (meals : ℕ → ℕ)
      → seat < table.seats
      → d.philosophers seat ≡ before
      → Inv d
      → ((g : ℕ) → Holds seat after g → Holds seat before g)
      → ((g : ℕ) → Holds seat before g → Holds seat after g)
      → Inv (go seat after (record d { meals = meals }))
  move-Inv d seat before after meals lt at v down up =
      let w : Inv (go seat after d) =
        change-Inv d seat after d.forks v lt
          (λ g h. v.held seat g lt (subst (λ p. Holds seat p g) (sym at) (down g h)))
          (λ other g ne e. e)
          (λ other g h. elim (ℕ_discrete other seat) [
            | yes same ↦ inl (same, up g (now-Holds d seat g before at v (h ∙ ap some same)))
            | no differ ↦ inr (differ, h)
          ]) in
      record { held = w.held; holder = w.holder }
