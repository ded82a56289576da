-- ===== src/Executors/LockFreeStack/Popping.antt =====
-- `ExecuteFirstStack` on the heap of nodes does what it does to the lists of the strand's model.
use tpcc.Prelude.{
  ℕ, ◌<◌, false, Option, none, some, List, [], ◌∷◌, ◌≡◌, refl, sym, ap, ◌∙◌, update, update_other,
  update_cases, count, total-update, le-total, arith, subst, of_some, ℕ_discrete,
}
use tpcc.Executors.Strand.{pop, exchange_with_another}
use tpcc.Executors.LockFreeStack.{idle, grabbing, taking, System, take_next}
use tpcc.Executors.LockFreeStack.Chains.{Chain, contents, own, Taken, weight, Lists, Represents}
use tpcc.Executors.LockFreeStack.Moves.{
  stays, exchanges, pops, Simulated, agree_still, chainless, place-Represents, idle-Represents,
}

module _ {T : Type 0} (n : ℕ) where
  pub grabbing-Simulated :
      (s : System T) (a : Lists T) (v : Represents n s a) (i : ℕ)
      → i < n
      → s.threads i ≡ grabbing
      → Simulated n s a i (record s.shared { head = none }, taking s.shared.head [])
  unfolding exchange_with_another count
  grabbing-Simulated s a v i lt at =
      let here_now : (v.places i).0 ≡ grabbing = sym (v.agree i lt) ∙ at in
      let empty : (v.places i).1 ≡ [] =
        chainless n s.shared.cells (v.places i) grabbing here_now (v.taken i lt) in
      (
        record { stack = []; chains = update a.chains i a.stack },
        exchanges i (v.owed i lt ∙ ap (contents s.shared.cells) empty),
        record {
          addresses = [];
          places = update v.places i (taking s.shared.head [], v.addresses);
          agree = agree_still n s a v i (taking s.shared.head []) v.addresses;
          reached = refl;
          listed = refl;
          taken = λ j below.
              update_cases (λ g. Taken s.shared.cells g.0 g.1) v.places i
                (taking s.shared.head [], v.addresses) j (λ e. v.reached) (λ ne. v.taken j below);
          owed = λ j below. elim (ℕ_discrete i j) [
            | yes e ↦ ground (arith, e, v.listed)
            | no ne ↦
                update_other a.chains i a.stack j ne
                ∙ v.owed j below
                ∙ ap (λ g. contents s.shared.cells g.1)
                    (sym (update_other v.places i (taking s.shared.head [], v.addresses) j ne))
          ];
          single = λ y. omega (
            arith,
            v.single y,
            total-update (weight y) n v.places i (taking s.shared.head [], v.addresses) lt,
            ap (λ p. count y (own p)) here_now,
            ap (count y) empty,
          );
          no_pool = v.no_pool;
        },
      )

  -- `Pop` of the thread's own stack, and the destructor of its pool.
  pub taking-Simulated :
      (s : System T) (a : Lists T) (v : Represents n s a) (i : ℕ)
      → i < n
      → (head : Option ℕ) (pool xs : List ℕ) → v.places i ≡ (taking head pool, xs)
      → Chain s.shared.cells head xs
      → Simulated n s a i (take_next head pool s.shared)
  unfolding take_next pop count
  taking-Simulated s a v i lt (some x) pool (y ∷ xs) at (e, more) =
      let same : x ≡ y = of_some e in
      (
        record a { chains = update a.chains i (contents s.shared.cells xs) },
        pops i (s.shared.cells y).datum (contents s.shared.cells xs)
            (ap pop (v.owed i lt ∙ ap (λ g. contents s.shared.cells g.1) at)),
        place-Represents n s a v i lt (taking (s.shared.cells x).next (x ∷ pool)) xs
            s.shared.allocated (contents s.shared.cells xs)
            (subst (λ k. Chain s.shared.cells (s.shared.cells k).next xs) (sym same) more) refl
            (λ z. ground (
              arith,
              v.single z,
              total-update (weight z) n v.places i (taking (s.shared.cells x).next (x ∷ pool), xs)
                  lt,
              ap (weight z) at,
              same,
            )),
      )
  taking-Simulated s a v i lt (some x) pool [] at e = absurd (ground (arith, e))
  taking-Simulated s a v i lt none pool (y ∷ xs) at (e, more) = absurd (ground (arith, e))
  taking-Simulated s a v i lt none (x ∷ pool) [] at e = (
    a,
    stays,
    idle-Represents n s a v i lt (taking none pool) (update s.shared.allocated x false)
        (ap (λ g. g.1) at) refl
        (λ z. ground (
          arith,
          v.single z,
          total-update (weight z) n v.places i (taking none pool, []) lt,
          ap (weight z) at,
          le-total (weight z) n v.places i lt,
        )),
  )
  taking-Simulated s a v i lt none [] [] at e = (
    a,
    stays,
    idle-Represents n s a v i lt idle s.shared.allocated (ap (λ g. g.1) at) refl (λ z.
        omega (
          arith,
          v.single z,
          total-update (weight z) n v.places i (idle, []) lt,
          ap (weight z) at,
        )),
  )
