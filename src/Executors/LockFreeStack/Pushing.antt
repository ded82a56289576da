-- ===== src/Executors/LockFreeStack/Pushing.antt =====
-- `Push` on the heap of nodes does what it does to the lists of the strand's model.
use tpcc.Prelude.{
  ℕ, ◌<◌, Bool, true, false, none, some, [], ◌∷◌, ◌≡◌, refl, sym, ap, ◌∙◌, if◌then◌else◌, is_empty,
  update, update_cases, count, total-update, arith, subst, of_some,
}
use tpcc.Executors.Strand.{push}
use tpcc.Executors.LockFreeStack.{
  Shared, Thread, idle, entering, recycling, filled, linked, System, same_pointer, set_next,
  allocate, compare_exchange,
}
use tpcc.Executors.LockFreeStack.Chains.{
  Chain, contents, own, Taken, weight, Lists, Represents, unused-apart, same_pointer_lem,
}
use tpcc.Executors.LockFreeStack.Moves.{
  stays, puts, Simulated, agree_still, write-Represents, chainless, private-Represents,
}

module _ {T : Type 0} (n : ℕ) where
  pub filled-Simulated :
      (s : System T) (a : Lists T) (v : Represents n s a) (i x : ℕ)
      → i < n
      → s.threads i ≡ filled x
      → Simulated n s a i (set_next x s.shared.head s.shared, linked x)
  filled-Simulated s a v i x lt at = (
    a,
    stays,
    private-Represents n s a v i x (record (s.shared.cells x) { next = s.shared.head }) (filled x)
        (linked x) lt at refl refl (λ xs h. h) refl,
  )

  pub linked-Simulated :
      (s : System T) (a : Lists T) (v : Represents n s a) (i x : ℕ)
      → i < n
      → s.threads i ≡ linked x
      → Simulated n s a i (compare_exchange x s.shared)
  unfolding compare_exchange push count
  linked-Simulated s a v i x lt at =
      choose (same_pointer s.shared.head (s.shared.cells x).next) refl
    where
      choose :
          (b : Bool)
          → same_pointer s.shared.head (s.shared.cells x).next ≡ b
          → Simulated n s a i (
              if b
              then (record s.shared { head = some x }, idle)
              else (set_next x s.shared.head s.shared, filled x))
      choose false differ = (
        a,
        stays,
        private-Represents n s a v i x (record (s.shared.cells x) { next = s.shared.head })
            (linked x) (filled x) lt at refl refl (λ xs h. h) refl,
      )
      choose true same =
          let here_now : (v.places i).0 ≡ linked x = sym (v.agree i lt) ∙ at in
          let empty : (v.places i).1 ≡ [] =
            chainless n s.shared.cells (v.places i) (linked x) here_now (v.taken i lt) in
          let mine : own (v.places i).0 ≡ x ∷ [] = ap own here_now in
          (
            record a { stack = push (s.shared.cells x).datum a.stack },
            puts (s.shared.cells x).datum,
            record {
              addresses = x ∷ v.addresses;
              places = update v.places i (idle, []);
              agree = agree_still n s a v i idle [];
              reached = (
                refl,
                subst (λ p. Chain s.shared.cells p v.addresses)
                    (same_pointer_lem s.shared.head (s.shared.cells x).next same) v.reached,
              );
              listed = ap (λ l. (s.shared.cells x).datum ∷ l) v.listed;
              taken = λ j below.
                  update_cases (λ g. Taken s.shared.cells g.0 g.1) v.places i (idle, []) j
                    (λ e. refl) (λ ne. v.taken j below);
              owed = λ j below.
                  update_cases (λ g. a.chains j ≡ contents s.shared.cells g.1) v.places i (idle, [])
                    j (λ e. ap a.chains (sym e) ∙ v.owed i lt ∙ ap (contents s.shared.cells) empty)
                    (λ ne. v.owed j below);
              single = λ y. omega (
                arith,
                v.single y,
                total-update (weight y) n v.places i (idle, []) lt,
                ap (count y) mine,
                ap (count y) empty,
              );
              no_pool = v.no_pool;
            },
          )

  -- `new` returns a node that is not allocated; `pool_` is always empty.
  pub entering-Simulated :
      (s : System T) (a : Lists T) (v : Represents n s a) (i address : ℕ) (t : T)
      → i < n
      → s.threads i ≡ entering t
      → {r : Shared T × Thread T}
      → (if is_empty s.shared.pool
          then allocate address t s.shared
          else some (s.shared, recycling t))
        ≡ some r
      → Simulated n s a i r
  unfolding allocate count
  entering-Simulated s a v i address t lt at {r} e = choose (s.shared.allocated address) refl (
      sym (
        ap (λ l. if is_empty l then allocate address t s.shared else some (s.shared, recycling t))
          v.no_pool)
      ∙ e)
    where
      new : Shared T × Thread T
      new = (
        record s.shared {
          cells = update s.shared.cells address (record { datum = t; next = none });
          allocated = update s.shared.allocated address true;
        },
        filled address,
      )

      choose :
          (b : Bool)
          → s.shared.allocated address ≡ b
          → (if b then none else some new) ≡ some r
          → Simulated n s a i r
      choose true used q = absurd (ground (arith, q))
      choose false free q =
          let here_now : (v.places i).0 ≡ entering t = sym (v.agree i lt) ∙ at in
          let empty : (v.places i).1 ≡ [] =
            chainless n s.shared.cells (v.places i) (entering t) here_now (v.taken i lt) in
          subst (λ p. Simulated n s a i p) (of_some q)
            (
              a,
              stays,
              write-Represents n s a v i lt address (record { datum = t; next = none })
                  (filled address) (update s.shared.allocated address true)
                  (unused-apart n s a v address free) empty refl
                  (λ y. ground (
                    arith,
                    v.single y,
                    total-update (weight y) n v.places i (filled address, []) lt,
                    ap (λ p. count y (own p)) here_now,
                    ap (count y) empty,
                    free,
                  )),
            )
