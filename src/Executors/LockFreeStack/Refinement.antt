-- ===== src/Executors/LockFreeStack/Refinement.antt =====
-- The heap of nodes behaves as the lists of the strand's model.
use tpcc.Prelude.{
  ℕ, ◌<◌, some, [], ◌≡◌, refl, sym, ap, ◌∙◌, update, count, total-update, total-eq-zero, arith,
  subst, of_some,
}
use tpcc.Executors.LockFreeStack.{
  StackNode, Shared, Thread, idle, entering, recycling, filled, linked, grabbing, taking, System,
  recycle, advance, Step, pushes, grabs, advances, Reach, here, next,
}
use tpcc.Executors.LockFreeStack.Chains.{own, Taken, weight, Lists, Represents}
use tpcc.Executors.LockFreeStack.Moves.{ListStep, stays, Simulated, chainless, idle-Represents}
use tpcc.Executors.LockFreeStack.Pushing.{filled-Simulated, linked-Simulated, entering-Simulated}
use tpcc.Executors.LockFreeStack.Popping.{grabbing-Simulated, taking-Simulated}

module _ {T : Type 0} (n : ℕ) where
  advance-Simulated :
      (s : System T) (a : Lists T) (v : Represents n s a) (i address : ℕ)
      → i < n
      → {r : Shared T × Thread T} → advance address (s.threads i) s.shared ≡ some r
      → Simulated n s a i r
  unfolding advance recycle
  advance-Simulated s a v i address lt {r} e = go (s.threads i) refl e
    where
      go :
          (thread : Thread T)
          → s.threads i ≡ thread
          → advance address thread s.shared ≡ some r
          → Simulated n s a i r
      go idle at q = absurd (ground (arith, q))
      go (entering t) at q = entering-Simulated n s a v i address t lt at q
      go (recycling t) at q =
          absurd (ground (arith, sym (ap (λ l. recycle l t s.shared) v.no_pool) ∙ q))
      go (filled x) at q =
          subst (λ p. Simulated n s a i p) (of_some q) (filled-Simulated n s a v i x lt at)
      go (linked x) at q =
          subst (λ p. Simulated n s a i p) (of_some q) (linked-Simulated n s a v i x lt at)
      go grabbing at q =
          subst (λ p. Simulated n s a i p) (of_some q) (grabbing-Simulated n s a v i lt at)
      go (taking head pool) at q =
          let here_now : (v.places i).0 ≡ taking head pool = sym (v.agree i lt) ∙ at in
          subst (λ p. Simulated n s a i p) (of_some q)
            (taking-Simulated n s a v i lt head pool (v.places i).1
              (ap (λ thread. (thread, (v.places i).1)) here_now)
              (chainless n s.shared.cells (v.places i) (taking head pool) here_now (v.taken i lt)))

  -- A call of `Push` or of `ExecuteFirstStack` begins.
  begins-Represents :
      (s : System T) (a : Lists T) (v : Represents n s a) (i : ℕ)
      → i < n
      → s.threads i ≡ idle
      → (thread : Thread T) → own thread ≡ []
      → Taken s.shared.cells thread []
      → Represents n (record s { threads = update s.threads i thread }) a
  unfolding count
  begins-Represents s a v i lt at thread nothing free =
      let here_now : (v.places i).0 ≡ idle = sym (v.agree i lt) ∙ at in
      let empty : (v.places i).1 ≡ [] =
        chainless n s.shared.cells (v.places i) idle here_now (v.taken i lt) in
      idle-Represents n s a v i lt thread s.shared.allocated empty free (λ z. omega (
        arith,
        v.single z,
        total-update (weight z) n v.places i (thread, []) lt,
        ap (λ p. count z (own p)) here_now,
        ap (count z) empty,
        ap (count z) nothing,
      ))

  -- The states of the lists that the model of the strand can reach.
  pub data ListReach : Lists T → Type 0 where
    empty : ListReach (record { stack = []; chains = λ _. [] })
    follow : {a b : Lists T} → ListReach a → ListStep a b → ListReach b

  step-Simulated :
      {s s' : System T} {a : Lists T}
      → Represents n s a
      → Step n s s'
      → (b : Lists T) × ListStep a b × Represents n s' b
  step-Simulated {s} {s'} {a} v (pushes i lt t at) =
      (a, stays, begins-Represents s a v i lt at (entering t) refl refl)
  step-Simulated {s} {s'} {a} v (grabs i lt at) =
      (a, stays, begins-Represents s a v i lt at grabbing refl refl)
  step-Simulated {s} {s'} {a} v (advances i lt address e) = advance-Simulated s a v i address lt e

  pub Reach-Represents :
      {cells : ℕ → StackNode T} {s : System T}
      → Reach n cells s
      → (a : Lists T) × ListReach a × Represents n s a
  unfolding count
  Reach-Represents here = (
    record { stack = []; chains = λ _. [] },
    empty,
    record {
      addresses = [];
      places = λ _. (idle, []);
      agree = λ i lt. refl;
      reached = refl;
      listed = refl;
      taken = λ i lt. refl;
      owed = λ i lt. refl;
      single = λ x. omega (arith, total-eq-zero (weight x) n (λ _. (idle, [])) (λ _. refl));
      no_pool = refl;
    },
  )
  Reach-Represents (next r h) =
      let (a, reached, v) = Reach-Represents r in
      let (b, step, w) = step-Simulated v h in (b, follow reached step, w)
