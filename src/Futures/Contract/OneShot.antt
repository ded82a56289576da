-- ===== src/Futures/Contract/OneShot.antt =====
-- The handles are one-shot, and the order in which the two sides come does not matter.
use tpcc.Prelude.{true, Option, none, some, ◌≡◌, refl, ◌>>=◌}
use tpcc.Futures.State.{Outcome, quiet, invoked, Invocation, make_shared_state}
use tpcc.Futures.Contract.{
  Contract, make_contract, promise_set, subscribe, via, future_get_ready_result,
}

module _ {C R X : Type 0} where
  -- The contract that `MakeContract` returns, with the executor that `Via` has set.
  abbrev pub fresh : Option X → Contract C R X
  fresh x = record {
    cell = record make_shared_state { executor = x };
    promise_held = true;
    future_extracted = true;
    future_held = true;
  }

  -- What two operations do, one after the other.
  abbrev pub both :
      (Contract C R X → Option (Contract C R X × Outcome C R X))
      → (Contract C R X → Option (Contract C R X × Outcome C R X))
      → Contract C R X
      → Option (Contract C R X × Outcome C R X × Outcome C R X)
  both f g k = do (k₁, o₁) ← f k; (k₂, o₂) ← g k₁; some (k₂, o₁, o₂)

  -- `MakeContract`, then `Via(x)`, a result `r` and a callback `c`: whichever of `Set` and `Subscribe`
  -- comes first does not call `c`, and the second calls it with `r`, through `x`. Either way both
  -- handles are then empty, and a further `Set`, `Subscribe` or `GetReadyResult` fails its check.
  pub set-subscribe :
      (x : Option X) (r : R) (c : C)
      → let i : Invocation C R X = record { via = x; callback = c; result = r } in
        (k k' : Contract C R X) × ((make_contract >>= via x) ≡ some (fresh x))
        × (both (promise_set r) (subscribe c) (fresh x) ≡ some (k, quiet, invoked i))
        × (both (subscribe c) (promise_set r) (fresh x) ≡ some (k', quiet, invoked i))
        × ((r' : R) (c' : C)
            → (promise_set r' k ≡ none)
              × (subscribe c' k ≡ none)
              × (future_get_ready_result k ≡ none)
              × (promise_set r' k' ≡ none)
              × (subscribe c' k' ≡ none)
              × (future_get_ready_result k' ≡ none))
  unfolding make_contract promise_set subscribe via future_get_ready_result
  set-subscribe x r c = (_, _, refl, refl, refl, λ r' c'. (refl, refl, refl, refl, refl, refl))
