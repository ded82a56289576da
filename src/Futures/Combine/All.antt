-- ===== src/Futures/Combine/All.antt =====
-- What `All` promises, by the order in which its inputs complete.
use tpcc.Prelude.{
  ℕ, suc, ◌+◌, ◌<◌, true, false, Option, none, some, List, [], ◌∷◌, ◌++◌, ◌≡◌, refl, inl, inr,
  arith, length, set, replicate, ◌>>=◌, append_assoc, append-nil, ap, sym, ◌∙◌, length-append,
  length-replicate, snoc_cases, replicate-add,
}
use tpcc.Futures.State.{only_result, make_shared_state}
use tpcc.Futures.Contract.{Contract, Result, ok, fail}
use tpcc.Futures.Combine.{AllCombinator, all_callback, all_run, all_combine}

set-append {ℓ} :
    {T : Type ℓ} (xs ys : List T) (y v : T) → set (xs ++ y ∷ ys) (length xs) v ≡ xs ++ v ∷ ys
set-append [] ys y v = refl
set-append (x ∷ xs) ys y v = ap (λ l. x ∷ l) (set-append xs ys y v)

-- The results of inputs that all yield a value.
abbrev pub oks : {E T : Type 0} → List T → List (Result E T)
oks [] = []
oks (v ∷ vs) = ok v ∷ oks vs

length-oks : (E : Type 0) {T : Type 0} (vs : List T) → length (oks {E = E} vs) ≡ length vs
length-oks E [] = refl
length-oks E (v ∷ vs) = ap suc (length-oks E vs)

oks-append :
    (E : Type 0) {T : Type 0} (vs ws : List T)
    → oks {E = E} (vs ++ ws) ≡ oks {E = E} vs ++ oks {E = E} ws
oks-append E [] ws = refl
oks-append E (v ∷ vs) ws = ap (λ l. ok v ∷ l) (oks-append E vs ws)

module _ {C E T X : Type 0} where
  abbrev waiting : Contract C (Result E (List T)) X
  waiting = record {
    cell = make_shared_state;
    promise_held = true;
    future_extracted = true;
    future_held = true;
  }

  -- The contract once its promise has been given `r`.
  abbrev pub settled : Result E (List T) → Contract C (Result E (List T)) X
  settled r = record {
    cell = record make_shared_state { state = only_result; result = some r };
    promise_held = false;
    future_extracted = true;
    future_held = true;
  }

  -- After the values `done`, with the places `rest` still to be filled.
  abbrev collecting : List T → List T → AllCombinator C E T X
  collecting done rest = record {
    error = false;
    v_promise = waiting;
    results = done ++ rest;
    counter = length done;
  }

  value_step :
      (n : ℕ) (done : List T) (y : T) (rest : List T) (v : T)
      → suc (length done) < n
      → all_callback n (ok v) (collecting done (y ∷ rest)) ≡ some (collecting (done ++ v ∷ []) rest)
  unfolding all_callback
  value_step n done y rest v h =
      rw (set-append done rest y v, length-append done (v ∷ []), append_assoc done (v ∷ []) rest)
        (ground arith)

  last_step :
      (n : ℕ) (done : List T) (y v : T)
      → suc (length done) ≡ n
      → all_callback n (ok v) (collecting done (y ∷ []))
        ≡ some (record {
          error = false;
          v_promise = settled (ok (done ++ v ∷ []));
          results = done ++ v ∷ [];
          counter = n;
        })
  unfolding all_callback
  last_step n done y v h = rw (set-append done [] y v) (ground arith)

  error_step :
      (n : ℕ) (done rest : List T) (e : E)
      → suc (length done) < n
      → all_callback n (fail e) (collecting done rest)
        ≡ some (record {
          error = true;
          v_promise = settled (fail e);
          results = done ++ rest;
          counter = suc (length done);
        })
  unfolding all_callback
  error_step n done rest e h = ground arith

  error_last_step :
      (n : ℕ) (done rest : List T) (e : E)
      → suc (length done) ≡ n
      → all_callback n (fail e) (collecting done rest) ≡ none
  unfolding all_callback
  error_last_step n done rest e h = ground arith

  all_run-erred :
      (n : ℕ) (rs : List (Result E T)) (a : AllCombinator C E T X)
      → a.error ≡ true
      → all_run n rs a ≡ some a
  unfolding all_run
  all_run-erred n [] a h = refl
  all_run-erred n (r ∷ rs) a h = simp h (all_run-erred n rs a h)

  -- The first values, with more results to come.
  all_run-values :
      (n : ℕ) (vs done places more : List T) (rs : List (Result E T))
      → length places ≡ length vs
      → length done + length vs < n
      → all_run n (oks vs ++ rs) (collecting done (places ++ more))
        ≡ all_run n rs (collecting (done ++ vs) more)
  unfolding all_run
  all_run-values n [] done [] more rs h lt = rw (append-nil done)
  all_run-values n [] done (y ∷ places) more rs h lt = absurd (omega arith)
  all_run-values n (v ∷ vs) done [] more rs h lt = absurd (omega arith)
  all_run-values n (v ∷ vs) done (y ∷ places) more rs h lt =
      rw (value_step n done y (places ++ more) v (omega arith)) (
        all_run-values n vs (done ++ v ∷ []) places more rs (omega arith)
          (omega (arith, length-append done (v ∷ [])))
        ∙ ap (λ l. all_run n rs (collecting l more)) (append_assoc done (v ∷ []) vs))

  all_combine-suc :
      (blank : T) (m : ℕ)
      → all_combine blank (suc m) ≡ some (collecting [] (replicate (suc m) blank))
  unfolding all_combine
  all_combine-suc blank m = ground arith

  -- `All` over the inputs whose results arrive as `rs`.
  abbrev pub all_of : T → List (Result E T) → Option (AllCombinator C E T X)
  all_of blank rs = all_combine blank (length rs) >>= all_run (length rs) rs

  -- A run of `All` whose first inputs yield the values `vs`: the results `rs` that come after.
  all_of-values :
      (blank : T) (vs : List T) (r : Result E T) (rs : List (Result E T))
      → all_of blank (oks vs ++ r ∷ rs)
        ≡ all_run
            (length vs + suc (length rs))
            (r ∷ rs)
            (collecting vs (replicate (suc (length rs)) blank))
  all_of-values blank vs r rs =
      let n = length vs + suc (length rs) in
      let e : length (oks {E = E} vs ++ r ∷ rs) ≡ n =
        omega (arith, length-append (oks {E = E} vs) (r ∷ rs), length-oks E vs) in
      let e' : n ≡ suc (length vs + length rs) = omega arith in
      rw e (
        ap (λ (o : Option (AllCombinator C E T X)). o >>= all_run n (oks vs ++ r ∷ rs))
          (ap (all_combine blank) e'
            ∙ all_combine-suc blank (length vs + length rs)
            ∙ ap (λ k. some (collecting [] (replicate k blank))) (sym e'))
        ∙ ap (λ l. all_run n (oks vs ++ r ∷ rs) (collecting [] l))
            (replicate-add (length vs) (suc (length rs)) blank)
        ∙ all_run-values n vs [] (replicate (length vs) blank) (replicate (suc (length rs)) blank)
            (r ∷ rs) (length-replicate (length vs) blank) (omega arith))

  -- When every input of `All` yields a value, the promise is fulfilled once, with all the values in
  -- the order in which the inputs have completed; with no input, with the empty list.
  pub all-values :
      (blank : T) (vs : List T)
      → (a : AllCombinator C E T X) × (all_of blank (oks vs) ≡ some a)
        × (a.v_promise ≡ settled (ok vs))
        × (a.error ≡ false)
  unfolding all_combine all_run
  all-values blank vs = elim (snoc_cases vs) [
    | inl e ↦ rw e (_, refl, refl, refl)
    | inr (us, u, e) ↦
        rw (e, oks-append E us (u ∷ []))
          (
            _,
            all_of-values blank us (ok u) []
                ∙ ap (λ (o : Option (AllCombinator C E T X)). o >>= all_run (length us + 1) [])
                    (last_step (length us + 1) us blank u (omega arith)),
            refl,
            refl,
          )
  ]

  -- When the first error of an input of `All` arrives before the last input has completed, the promise
  -- is fulfilled once, with that error, and the results after it are ignored.
  pub all-first-error :
      (blank : T) (vs : List T) (e : E) (r : Result E T) (rs : List (Result E T))
      → (a : AllCombinator C E T X) × (all_of blank (oks vs ++ fail e ∷ r ∷ rs) ≡ some a)
        × (a.v_promise ≡ settled (fail e))
        × (a.error ≡ true)
  unfolding all_run
  all-first-error blank vs e r rs =
      let n = length vs + suc (suc (length rs)) in
      (
        _,
        all_of-values blank vs (fail e) (r ∷ rs)
            ∙ ap (λ (o : Option (AllCombinator C E T X)). o >>= all_run n (r ∷ rs))
                (error_step n vs (replicate (suc (suc (length rs))) blank) e (omega arith))
            ∙ all_run-erred n (r ∷ rs) _ refl,
        refl,
        refl,
      )

  -- When every input of `All` but the last to complete yields a value and that one fails, the callback
  -- uses the promise twice: after `SetError` the count is complete, and `SetValue` fails the check of
  -- `ReleaseState`.
  pub all-last-error :
      (blank : T) (vs : List T) (e : E) → all_of blank (oks vs ++ fail e ∷ []) ≡ none
  unfolding all_run
  all-last-error blank vs e =
      all_of-values blank vs (fail e) []
      ∙ ap (λ (o : Option (AllCombinator C E T X)). o >>= all_run (length vs + 1) [])
          (error_last_step (length vs + 1) vs (blank ∷ []) e (omega arith))
