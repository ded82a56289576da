-- ===== src/Executors/Strand/Stranded.antt =====
-- The race at the end of a job of the strand: `stack_.IsEmpty()` and `is_scheduled_.store(false)` are
-- two accesses, and a call of `Execute` that comes between them is lost until the next call.
use tpcc.Prelude.{ℕ, false, none, [], ◌∷◌, ◌≡◌, refl, arith, ℕ_discrete}
use tpcc.Executors.Strand.{idle, push, advance, System, call, move, Reach, here, next}

module _ {Task : Type 0} where
  -- A first call runs its task and finds the stack empty; a second call pushes and finds the strand
  -- still scheduled; then the first job clears the flag.
  stranded_run : (t u : Task) → (s : System Task) × Reach s
  unfolding push advance ℕ_discrete
  stranded_run t u = (
    _,
    next
        (next
          (next
            (next
              (next
                (next
                  (next (next (next (next here (call 0 t refl)) (move 0 refl)) (move 0 refl))
                    (move 0 refl))
                  (move 0 refl))
                (move 0 refl))
              (move 0 refl))
            (call 1 u refl))
          (move 1 refl))
        (move 0 refl),
  )

  -- A task can be stranded: for any two tasks there is a reachable state in which both calls of
  -- `Execute` have returned and all jobs are over, the first task has run, and the second lies on the
  -- stack, not started, while `is_scheduled_` is false; nothing but another call of `Execute` can
  -- change that state.
  pub stranded :
      (t u : Task)
      → (s : System Task) × Reach s
        × ((i : ℕ) → s.acts i ≡ idle)
        × (s.accepted ≡ t ∷ u ∷ [])
        × (s.started ≡ t ∷ [])
        × (s.shared ≡ record { is_scheduled = false; stack = u ∷ [] })
        × ((i : ℕ) → advance (s.acts i) s.shared ≡ none)
  unfolding stranded_run push advance ℕ_discrete
  stranded t u = let r = stranded_run t u in (r.0, r.1, quiet, refl, refl, refl, λ i. rw (quiet i))
    where
      quiet : (i : ℕ) → (stranded_run t u).0.acts i ≡ idle
      quiet i = ground arith
