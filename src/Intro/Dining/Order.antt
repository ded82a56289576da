-- ===== src/Intro/Dining/Order.antt =====
-- The order in which the forks are taken.
use tpcc.Prelude.{ℕ, suc, ◌%◌, ◌<◌, ◌≡◌, ◌≢◌, ◌⊎◌, inl, inr, ◌∙◌, arith, ℕ_discrete, dec_lt}
use tpcc.Intro.Dining.{Table, first_fork, second_fork}

module _ (table : Table) where
  -- The fork after the seat, and around the table.
  pub right_cases :
      (seat : ℕ)
      → seat < table.seats
      → (table.right_fork seat ≡ suc seat)
        ⊎ ((suc seat ≡ table.seats) × (table.right_fork seat ≡ 0))
  right_cases seat lt = elim (dec_lt (suc seat) table.seats) [
    | yes inside ↦ inl (table.right_fork-to_right seat lt ∙ table.to_right_next seat inside)
    | no last ↦
        let end : suc seat ≡ table.seats = omega (arith, lt, last) in
        inr (end, table.right_fork-to_right seat lt ∙ table.to_right_last seat end)
  ]

  -- The first fork has an even number.
  pub first_fork_even : (seat : ℕ) → seat < table.seats → first_fork table seat % 2 ≡ 0
  unfolding first_fork
  first_fork_even seat lt = elim (right_cases seat lt) [
    | inl e ↦ ground (arith, e, table.left_fork-seat seat lt)
    | inr (last, e) ↦ ground (arith, e, table.left_fork-seat seat lt)
  ]

  -- The second fork has an odd number, but for the last of an odd number of philosophers.
  pub second_fork_cases :
      (seat : ℕ)
      → seat < table.seats
      → (second_fork table seat % 2 ≡ 1)
        ⊎ ((second_fork table seat ≡ 0) × (suc seat ≡ table.seats) × (seat % 2 ≡ 0))
  unfolding second_fork
  second_fork_cases seat lt = elim (ℕ_discrete (seat % 2) 0) [
    | yes even ↦ elim (right_cases seat lt) [
      | inl e ↦ inl (ground (arith, e, even))
      | inr (last, e) ↦ inr (ground (arith, e, even), last, even)
    ]
    | no odd ↦ inl (ground (arith, odd, table.left_fork-seat seat lt))
  ]

  -- Who begins with fork 0.
  pub first_fork_zero :
      (seat : ℕ)
      → seat < table.seats
      → first_fork table seat ≡ 0
      → (seat ≡ 0) ⊎ ((suc seat ≡ table.seats) × (seat % 2 ≡ 1))
  unfolding first_fork
  first_fork_zero seat lt e = elim (ℕ_discrete (seat % 2) 0) [
    | yes even ↦ inl (ground (arith, e, even, table.left_fork-seat seat lt))
    | no odd ↦ elim (right_cases seat lt) [
      | inl r ↦ absurd (ground (arith, e, odd, r))
      | inr (last, r) ↦ inr (last, omega (arith, odd))
    ]
  ]

  pub forks_differ :
      (seat : ℕ)
      → seat < table.seats
      → 1 < table.seats
      → first_fork table seat ≢ second_fork table seat
  forks_differ seat lt two e = elim (second_fork_cases seat lt) [
    | inl odd ↦ absurd (omega (arith, odd, e, first_fork_even seat lt))
    | inr (zeroth, last, even) ↦ elim (first_fork_zero seat lt (e ∙ zeroth)) [
      | inl z ↦ omega (arith, z, last, two)
      | inr (end, odd) ↦ omega (arith, even, odd)
    ]
  ]
