-- ===== src/Futures/Transform/Chain.antt =====
-- A chain of continuations and error handlers, built first and fulfilled afterwards.
use tpcc.Prelude.{
  ℕ, suc, ◌<◌, ◌≡◌, refl, ap, ◌∙◌, Option, some, List, [], ◌∷◌, ◌++◌, length, update, update_self,
  update_other, ◌>>=◌, arith,
}
use tpcc.Futures.Contract.{Contract, Result, ok, fail}
use tpcc.Futures.Contract.OneShot.{fresh}
use tpcc.Futures.Transform.Cells.{
  waiting, ready, settled, fulfil, target-fresh, subscribe-fresh, fulfil-fresh, fulfil-waiting,
  fired, call_of, finish-fulfil,
}
use tpcc.Futures.Transform.{
  Returned, returns, throws, Transformer, Callback, transform_into, Store, put, transform,
  run_callback, run_next, settle, then_transformer, recover_transformer, then_sync, recover,
}

-- A stage of a chain: `Then` or `Recover`, each with what `make_result::Invoke` makes of its function.
pub data Stage (E T : Type 0) : Type 0 where
  continues : (T → Result E T) → Stage E T
  recovers : (E → Result E T) → Stage E T

module _ {E T : Type 0} where
  -- What a chain means: a value goes through the continuations, an error to the next handler.
  pub railway : List (Stage E T) → Result E T → Result E T
  railway [] r = r
  railway (continues f ∷ rest) (ok v) = railway rest (f v)
  railway (continues f ∷ rest) (fail e) = railway rest (fail e)
  railway (recovers h ∷ rest) (ok v) = railway rest (ok v)
  railway (recovers h ∷ rest) (fail e) = railway rest (h e)

  abbrev transformer_of : Stage E T → Transformer E T
  transformer_of (continues f) = then_transformer f
  transformer_of (recovers h) = recover_transformer h

  railway_cons :
      (g : Stage E T) (rest : List (Stage E T)) (r : Result E T)
      → railway rest (settled (transformer_of g r)) ≡ railway (g ∷ rest) r
  unfolding railway then_transformer recover_transformer
  railway_cons (continues f) rest (ok v) = refl
  railway_cons (continues f) rest (fail e) = refl
  railway_cons (recovers h) rest (ok v) = refl
  railway_cons (recovers h) rest (fail e) = refl

module _ {E T X : Type 0} where
  -- A chain in the store, from its first future to its last.
  data Chained (k : ℕ → Contract (Callback E T) (Result E T) X) (x : Option X)
      : ℕ → List (Stage E T) → ℕ → Type 0 where
    end : {id : ℕ} → k id ≡ fresh x → Chained k x id [] id
    link :
        {id target last : ℕ} {g : Stage E T} {rest : List (Stage E T)}
        → k id ≡ waiting (transform_into (transformer_of g) target) x
        → id < target
        → Chained k x target rest last
        → Chained k x id (g ∷ rest) last

  Chained-update :
      {k : ℕ → Contract (Callback E T) (Result E T) X} {x : Option X} {id last : ℕ}
      {stages : List (Stage E T)} (j : ℕ) (c : Contract (Callback E T) (Result E T) X)
      → j < id
      → Chained k x id stages last
      → Chained (update k j c) x id stages last
  Chained-update {k} {id} j c below (end e) =
      end (update_other k j c id (λ q. omega (arith, q, below)) ∙ e)
  Chained-update {k} {id} j c below (link e up rest) =
      link (update_other k j c id (λ q. omega (arith, q, below)) ∙ e) up
        (Chained-update j c (omega (arith, below, up)) rest)

  module _ (convert : Result E T → Returned E T) where
    abbrev pub extend : Stage E T → ℕ → Store E T X → Option (ℕ × Store E T X)
    extend (continues f) source s = then_sync convert f source s
    extend (recovers h) source s = recover convert h source s

    -- `std::move(f).Then(…).Recover(…)…`: the last future.
    pub build : List (Stage E T) → ℕ → Store E T X → Option (ℕ × Store E T X)
    build [] id s = some (id, s)
    build (g ∷ rest) id s = extend g id s >>= (λ p. build rest p.0 p.1)

    abbrev linked : Stage E T → ℕ → Option X → Store E T X → Store E T X
    linked g id x s = record s {
      contracts =
          update (update s.contracts s.next_id (fresh x)) id
            (waiting (transform_into (transformer_of g) s.next_id) x);
      next_id = suc s.next_id;
    }

    transform-fresh :
        (g : Stage E T) (id : ℕ) (x : Option X) (s : Store E T X)
        → s.contracts id ≡ fresh x
        → id < s.next_id
        → transform convert (transformer_of g) id s ≡ some (s.next_id, linked g id x s)
    unfolding transform
    transform-fresh g id x s e below =
        let s₁ = record (put convert s.next_id (fresh x) s) { next_id = suc s.next_id } in
        let there : s₁.contracts id ≡ fresh x =
          update_other s.contracts s.next_id (fresh x) id (λ q. omega (arith, q, below)) ∙ e in
        rw (target-fresh convert id x s e) (
          rw (subscribe-fresh convert (transform_into (transformer_of g) s.next_id) id x s₁ there)
            refl)

    extend-fresh :
        (g : Stage E T) (id : ℕ) (x : Option X) (s : Store E T X)
        → s.contracts id ≡ fresh x
        → id < s.next_id
        → extend g id s ≡ some (s.next_id, linked g id x s)
    unfolding then_sync recover
    extend-fresh (continues f) id x s e below = transform-fresh (continues f) id x s e below
    extend-fresh (recovers h) id x s e below = transform-fresh (recovers h) id x s e below

    -- Building a chain touches no contract below its first future, and makes no call.
    build-Chained :
        (stages : List (Stage E T)) (id : ℕ) (x : Option X) (s : Store E T X)
        → s.contracts id ≡ fresh x
        → id < s.next_id
        → (last : ℕ) × (t : Store E T X) × (build stages id s ≡ some (last, t))
          × Chained t.contracts x id stages last
          × (t.calls ≡ s.calls)
          × ((j : ℕ) → j < id → t.contracts j ≡ s.contracts j)
    unfolding build
    build-Chained [] id x s e below = (id, s, refl, end e, refl, λ j h. refl)
    build-Chained (g ∷ rest) id x s e below =
        let s₁ = linked g id x s in
        let first : s₁.contracts s.next_id ≡ fresh x =
          update_other (update s.contracts s.next_id (fresh x)) id
            (waiting (transform_into (transformer_of g) s.next_id) x) s.next_id
            (λ q. omega (arith, q, below))
          ∙ update_self s.contracts s.next_id (fresh x) in
        let (last, t, r, chain, same, old) =
          build-Chained rest s.next_id x s₁ first (omega arith) in
        (
          last,
          t,
          ap (λ m. m >>= (λ p. build rest p.0 p.1)) (extend-fresh g id x s e below) ∙ r,
          link
              (old id below
                ∙ update_self (update s.contracts s.next_id (fresh x)) id
                    (waiting (transform_into (transformer_of g) s.next_id) x))
              below chain,
          same,
          λ j h.
              old j (omega (arith, h, below))
              ∙ update_other (update s.contracts s.next_id (fresh x)) id
                  (waiting (transform_into (transformer_of g) s.next_id) x) j
                  (λ q. omega (arith, q, h))
              ∙ update_other s.contracts s.next_id (fresh x) j (λ q. omega (arith, q, h, below)),
        )

    module _ (ok_converts : (v : T) → convert (ok v) ≡ returns v)
        (fail_throws : (e : E) → convert (fail e) ≡ throws e) where
      fire-Chained :
          (stages : List (Stage E T)) (r : Result E T) (id last : ℕ) (x : Option X)
          (s : Store E T X)
          → Chained s.contracts x id stages last
          → s.calls ≡ []
          → (t : Store E T X) × ((fulfil convert r id s >>= settle convert (length stages))
              ≡ some t)
            × (t.contracts last ≡ ready (railway stages r) x)
            × (t.calls ≡ [])
      unfolding settle run_next run_callback railway
      fire-Chained [] r id last x s (end e) idle = (
        put convert id (ready r x) s,
        ap (λ m. m >>= settle convert 0) (fulfil-fresh convert r id x s e),
        update_self s.contracts id (ready r x),
        idle,
      )
      fire-Chained (g ∷ rest) r id last x s (link {target} e up chain) idle =
          let f = transformer_of g in
          let s₁ = record (put convert id (fired convert (transform_into f target) x r) s) {
            calls = [];
          } in
          let (t, ran, result, quiet_end) =
            fire-Chained rest (settled (f r)) target last x s₁
              (Chained-update id (fired convert (transform_into f target) x r) up chain) refl in
          (
            t,
            ap (λ m. m >>= settle convert (suc (length rest)))
                  (fulfil-waiting convert r (transform_into f target) id x s e)
                ∙ ap
                    (λ c.
                      settle convert (suc (length rest))
                        (record (put convert id (fired convert (transform_into f target) x r) s) {
                          calls = c ++ call_of convert (transform_into f target) x r ∷ [];
                        }))
                    idle
                ∙ ap (λ m. m >>= settle convert (length rest))
                    (finish-fulfil convert ok_converts fail_throws (f r) target s₁)
                ∙ ran,
            result ∙ ap (λ y. ready y x) (railway_cons g rest r),
            quiet_end,
          )

      -- A chain of `Then` and `Recover` on a future that is not fulfilled yet, with the executor `x`, and
      -- then a result for that future: once as many calls of callbacks have been run as the chain has
      -- stages, none is pending, and the last future holds what the chain means at that result, and has
      -- the executor `x` too. The conversion of a `wheels::Result` is to return its value or throw its
      -- error.
      pub build-fulfil :
          (stages : List (Stage E T)) (r : Result E T) (id : ℕ) (x : Option X) (s : Store E T X)
          → s.contracts id ≡ fresh x
          → id < s.next_id
          → s.calls ≡ []
          → (last : ℕ) × (t u : Store E T X) × (build stages id s ≡ some (last, t))
            × ((fulfil convert r id t >>= settle convert (length stages)) ≡ some u)
            × (u.contracts last ≡ ready (railway stages r) x)
            × (u.calls ≡ [])
      build-fulfil stages r id x s e below idle =
          let (last, t, built, chain, same, old) = build-Chained stages id x s e below in
          let (u, ran, result, over) = fire-Chained stages r id last x t chain (same ∙ idle) in
          (last, t, u, built, ran, result, over)
