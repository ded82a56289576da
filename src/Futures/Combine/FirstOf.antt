-- ===== src/Futures/Combine/FirstOf.antt =====
-- What `FirstOf` promises, by the order in which its inputs complete.
use tpcc.Prelude.{
  ℕ, suc, ◌+◌, true, false, Option, some, List, [], ◌∷◌, ◌++◌, ◌≡◌, refl, arith, length, ◌>>=◌,
  length-append, ap, sym, ◌∙◌, append-nil,
}
use tpcc.Futures.State.{only_result, make_shared_state}
use tpcc.Futures.Contract.{Contract, Result, ok, fail}
use tpcc.Futures.Combine.{FirstOfCombinator, first_of_run, first_of_combine}

-- The results of inputs that all fail.
abbrev pub fails : {E T : Type 0} → List E → List (Result E T)
fails [] = []
fails (e ∷ es) = fail e ∷ fails es

module _ {C E T X : Type 0} where
  -- `FirstOf` over the inputs whose results arrive as `rs`.
  abbrev pub first_of : T → List (Result E T) → Option (FirstOfCombinator C E T X)
  first_of zero_value rs = first_of_combine zero_value (length rs) >>= first_of_run rs

  -- The contract while nothing has been set, and once it has been given `r`.
  abbrev pub unsettled : Contract C (Result E T) X
  unsettled = record {
    cell = make_shared_state;
    promise_held = true;
    future_extracted = true;
    future_held = true;
  }

  abbrev pub settled : Result E T → Contract C (Result E T) X
  settled r = record {
    cell = record make_shared_state { state = only_result; result = some r };
    promise_held = false;
    future_extracted = true;
    future_held = true;
  }

  run-fails :
      (es : List E) (rs : List (Result E T)) (f : FirstOfCombinator C E T X)
      → first_of_run (fails es ++ rs) f ≡ first_of_run rs f
  unfolding first_of_run
  run-fails [] rs f = refl
  run-fails (e ∷ es) rs f = run-fails es rs f

  run-released :
      (rs : List (Result E T)) (k : Contract C (Result E T) X)
      → first_of_run rs (record { released = true; v_promise = k })
        ≡ some (record { released = true; v_promise = k })
  unfolding first_of_run
  run-released [] k = refl
  run-released (fail e ∷ rs) k = run-released rs k
  run-released (ok v ∷ rs) k = run-released rs k

  abbrev pending : FirstOfCombinator C E T X
  pending = record { released = false; v_promise = unsettled }

  first_of_combine-suc :
      (zero_value : T) (n : ℕ) → first_of_combine zero_value (suc n) ≡ some pending
  unfolding first_of_combine
  first_of_combine-suc zero_value n = ground arith

  -- The first value of an input of `FirstOf` fulfils the promise, whatever errors came before it; what
  -- comes after it changes nothing, and no callback uses the promise again.
  pub first_of-value :
      (zero_value : T) (es : List E) (v : T) (rs : List (Result E T))
      → first_of zero_value (fails es ++ ok v ∷ rs)
        ≡ some (record { released = true; v_promise = settled (ok v) })
  unfolding first_of_run
  first_of-value zero_value es v rs =
      let e : length (fails es ++ ok v ∷ rs) ≡ suc (length (fails {T = T} es) + length rs) =
        omega (arith, length-append (fails es) (ok v ∷ rs)) in
      rw (e, first_of_combine-suc zero_value (length (fails {T = T} es) + length rs))
        (run-fails es (ok v ∷ rs) pending ∙ run-released rs (settled (ok v)))

  -- When all inputs of `FirstOf` fail, its future never gets a result, not even the last error: after
  -- the last callback the promise has not been used and the future is still waiting.
  pub first_of-errors :
      (zero_value : T) (e : E) (es : List E)
      → first_of zero_value (fails (e ∷ es))
        ≡ some (record { released = false; v_promise = unsettled })
  unfolding first_of_run
  first_of-errors zero_value e es =
      rw (first_of_combine-suc zero_value (length (fails {T = T} es)))
        (ap (λ l. first_of_run l pending) (sym (append-nil (fails es))) ∙ run-fails es [] pending)
