-- ===== src/Futures/Transform/Async.antt =====
-- The asynchronous `Then`, where the future that the continuation returns is already fulfilled.
use tpcc.Prelude.{
  subst, sym, none, ℕ, suc, ◌<◌, ◌≡◌, ◌≢◌, refl, ap, ◌∙◌, Option, some, [], ◌∷◌, ◌++◌, update,
  update_self, update_other, ◌>>=◌, arith,
}
use tpcc.Futures.Contract.{Contract, Result, ok, fail, subscribe}
use tpcc.Futures.Contract.OneShot.{fresh}
use tpcc.Futures.Transform.{
  Returned, returns, throws, NewFuture, Callback, Store, put, run_callback, run_next, settle, false,
}
use tpcc.Futures.Transform.{
  async_into, forward_into, existing, async_transform, then_async_transformer, then_async, caught,
  finish_async, finish_forward,
}
use tpcc.Futures.State.{invoked}
use tpcc.Futures.Contract.{set_value, set_error}
use tpcc.Futures.Transform.{
  set_value_of, set_error_of, forward_here, call_inner, subscribe_inner, drop_promise,
}
use tpcc.Futures.Transform.Cells.{
  waiting, ready, fulfil, target-fresh, subscribe-fresh, fulfil-waiting, fired, call_of, spent,
  set_value-fresh,
}

module _ {E T X : Type 0} (convert : Result E T → Returned E T)
    (ok_converts : (v : T) → convert (ok v) ≡ returns v)
    (fail_throws : (e : E) → convert (fail e) ≡ throws e) where
  -- A future whose promise is destroyed before it is fulfilled.
  abbrev pub abandoned : Option X → Contract (Callback E T) (Result E T) X
  abandoned x = record (fresh x) { promise_held = false }

  -- What becomes of the future `target` that `Then` has returned, by the result and the executor of the
  -- inner one: a value arrives; an error stops the program where the inner future has no executor, and
  -- otherwise never arrives, since there is no promise to fulfil the future.
  abbrev pub Ends : Result E T → Option X → Option X → ℕ → Option (Store E T X) → Type 0
  Ends (ok w) y x target run =
      (u : Store E T X) × (run ≡ some u) × (u.calls ≡ []) × (u.contracts target ≡ ready (ok w) x)
  Ends (fail e) (some z) x target run =
      (u : Store E T X) × (run ≡ some u)
      × (u.calls ≡ [])
      × (u.contracts target ≡ abandoned x)
      × ((w : T) (c : E)
          → (set_value_of convert w target u ≡ none) × (set_error_of convert c target u ≡ none))
  Ends (fail e) none x target run = run ≡ none

  async-fresh :
      (cont : T → Returned E (NewFuture E)) (id : ℕ) (x : Option X) (s : Store E T X)
      → s.contracts id ≡ fresh x
      → id < s.next_id
      → then_async convert cont id s
        ≡ some (
          s.next_id,
          record s {
            contracts =
                update
                  (update s.contracts s.next_id (fresh x))
                  id
                  (waiting (async_into (then_async_transformer cont) s.next_id) x);
            next_id = suc s.next_id;
          },
        )
  unfolding then_async async_transform
  async-fresh cont id x s e below =
      let s₁ = record (put convert s.next_id (fresh x) s) { next_id = suc s.next_id } in
      let there : s₁.contracts id ≡ fresh x =
        update_other s.contracts s.next_id (fresh x) id (λ q. omega (arith, q, below)) ∙ e in
      rw (target-fresh convert id x s e) (
        rw
          (subscribe-fresh convert (async_into (then_async_transformer cont) s.next_id) id x s₁
            there)
          refl)

  dropped :
      (target : ℕ) (x : Option X) (s : Store E T X) (w : T) (c : E)
      → s.contracts target ≡ abandoned x
      → (set_value_of convert w target s ≡ none) × (set_error_of convert c target s ≡ none)
  unfolding set_value_of set_error_of set_value set_error
  dropped target x s w c e = (rw e refl, rw e refl)

  -- The inner lambda, called with the result of the inner future, and run.
  inner-Ends :
      (r : Result E T) (y : Option X) (target : ℕ) (x : Option X) (s : Store E T X)
      → s.contracts target ≡ fresh x
      → Ends r y x target (
          call_inner convert
            (invoked (call_of convert (forward_into target) y r))
            target
            (record s { calls = [] })
          >>= settle convert 1)
  unfolding call_inner forward_here settle run_next run_callback finish_forward drop_promise
  inner-Ends (ok w) none target x s e =
      let here : Store E T X = record s { calls = [] } in
      (
        put convert target (ready (ok w) x) here,
        ap (λ q. forward_here convert q target here >>= settle convert 1) (ok_converts w)
            ∙ ap (λ m. m >>= settle convert 1) (set_value-fresh convert w target x here e),
        refl,
        update_self s.contracts target (ready (ok w) x),
      )
  inner-Ends (ok w) (some z) target x s e =
      let here : Store E T X = record s { calls = [] } in
      (
        put convert target (ready (ok w) x) here,
        ap (λ q. finish_forward convert q target here >>= settle convert 0) (ok_converts w)
            ∙ ap (λ m. m >>= settle convert 0) (set_value-fresh convert w target x here e),
        refl,
        update_self s.contracts target (ready (ok w) x),
      )
  inner-Ends (fail c) none target x s e =
      let here : Store E T X = record s { calls = [] } in
      ap (λ q. forward_here convert q target here >>= settle convert 1) (fail_throws c)
  inner-Ends (fail c) (some z) target x s e =
      let here : Store E T X = record s { calls = [] } in
      let gone : (drop_promise convert target here).contracts target ≡ abandoned x =
        update_self s.contracts target (record (s.contracts target) { promise_held = false })
        ∙ ap {A = Contract (Callback E T) (Result E T) X} (λ k. record k { promise_held = false })
            e in
      (
        drop_promise convert target here,
        ap (λ q. finish_forward convert q target here >>= settle convert 0) (fail_throws c),
        refl,
        gone,
        λ w d. dropped target x (drop_promise convert target here) w d gone,
      )

  subscribe_inner-ready :
      (target : ℕ) (r : Result E T) (id : ℕ) (y : Option X) (s : Store E T X)
      → s.contracts id ≡ ready r y
      → subscribe_inner convert target id s
        ≡ call_inner convert
            (invoked (call_of convert (forward_into target) y r))
            target
            (put convert id (spent r y) s)
  unfolding subscribe_inner subscribe
  subscribe_inner-ready target r id y s e = rw e refl

  -- The asynchronous `Then` on a future with the executor `x`, whose continuation returns a future with
  -- the executor `y` that is fulfilled with `inner_result`, once the first future has its value and the
  -- callbacks have been run. If `inner_result` is a value, no call is pending and the future that `Then`
  -- has returned holds it. If it is an error and there is no `y`, the check of `ReleaseState` fails. If it
  -- is an error and there is a `y`, no call is pending and that future is not fulfilled, and never will
  -- be: its promise is destroyed, and neither a value nor an error can be set. The conversion of a
  -- `wheels::Result` is to return its value or throw its error.
  pub then_async-arrived :
      (cont : T → Returned E (NewFuture E)) (v : T) (inner_result : Result E T) (id inner : ℕ)
      (x y : Option X) (s : Store E T X)
      → s.contracts id ≡ fresh x
      → s.contracts inner ≡ ready inner_result y
      → id < s.next_id
      → inner < s.next_id
      → id ≢ inner
      → cont v ≡ returns (existing inner)
      → s.calls ≡ []
      → (target : ℕ) × (t : Store E T X) × (then_async convert cont id s ≡ some (target, t))
        × Ends inner_result y x target (fulfil convert (ok v) id t >>= settle convert 2)
  unfolding settle run_next run_callback finish_async then_async_transformer
  then_async-arrived cont v inner_result id inner x y s e i below under differ returned idle =
      let target = s.next_id in
      let callback = async_into (then_async_transformer cont) target in
      let k₁ = update (update s.contracts target (fresh x)) id (waiting callback x) in
      let s₁ : Store E T X = record s { contracts = k₁; next_id = suc target } in
      let s₂ : Store E T X = record (put convert id (fired convert callback x (ok v)) s₁) {
        calls = [];
      } in
      let is_inner : s₂.contracts inner ≡ ready inner_result y =
        update_other k₁ id (fired convert callback x (ok v)) inner differ
        ∙ update_other (update s.contracts target (fresh x)) id (waiting callback x) inner differ
        ∙ update_other s.contracts target (fresh x) inner (λ q. omega (arith, q, under))
        ∙ i in
      let is_target : s₂.contracts target ≡ fresh x =
        update_other k₁ id (fired convert callback x (ok v)) target (λ q. omega (arith, q, below))
        ∙ update_other (update s.contracts target (fresh x)) id (waiting callback x) target
            (λ q. omega (arith, q, below))
        ∙ update_self s.contracts target (fresh x) in
      let s₃ : Store E T X = put convert inner (spent inner_result y) s₂ in
      let still_target : s₃.contracts target ≡ fresh x =
        update_other s₂.contracts inner (spent inner_result y) target (λ q. omega (arith, q, under))
        ∙ is_target in
      (
        target,
        s₁,
        async-fresh cont id x s e below,
        subst (Ends inner_result y x target)
            (sym (
              ap (λ m. m >>= settle convert 2)
                (fulfil-waiting convert (ok v) callback id x s₁
                  (update_self (update s.contracts target (fresh x)) id (waiting callback x)))
              ∙ ap
                  (λ c.
                    settle convert 2 (record (put convert id (fired convert callback x (ok v)) s₁) {
                      calls = c ++ call_of convert callback x (ok v) ∷ [];
                    }))
                  idle
              ∙ ap (λ f. finish_async convert (caught f) target s₂ >>= settle convert 1) returned
              ∙ ap (λ m. m >>= settle convert 1)
                  (subscribe_inner-ready target inner_result inner y s₂ is_inner)))
            (inner-Ends inner_result y target x s₃ still_target),
      )
