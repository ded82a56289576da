-- ===== src/Futures/Combine.antt =====
-- futures/futures/await/futures/combine: the combinators `All` and `FirstOf`. An input is consumed by
-- the callback that `Combine` subscribes to it, so a run of a combinator is the list of the results of
-- the inputs in the order in which these callbacks run; the callback of `All` holds `mutex_`
-- throughout, and that of `FirstOf` takes the exchange of `released_` as its one shared access before
-- the promise. `none` is a failed check: a promise that was already used.
pub mod All
pub mod FirstOf
use tpcc.Prelude.{
  ℕ, suc, ◌+◌, Bool, true, false, Option, none, some, List, [], ◌∷◌, if◌then◌else◌, ◌==◌, length,
  set, replicate, ◌>>=◌,
}
use tpcc.Futures.Contract.{
  Contract, Result, ok, fail, set_value, set_error, make_contract, future_get_ready_result,
}

-- `AllCombinator<T>`; the shared state of `v_promise_` comes with it.
pub record AllCombinator (C E T X : Type 0) : Type 0 where
  pub error : Bool
  pub v_promise : Contract C (Result E (List T)) X
  pub results : List T
  pub counter : ℕ

-- `FirstOfCombinator<T>`.
pub record FirstOfCombinator (C E T X : Type 0) : Type 0 where
  pub released : Bool
  pub v_promise : Contract C (Result E T) X

module _ {C E T X : Type 0} where
  -- `std::move(v_promise_).SetValue(…)` and `SetError(…)`.
  unfoldable pub all_set_value : List T → AllCombinator C E T X → Option (AllCombinator C E T X)
  unfolding set_value
  all_set_value vs a = do (k, o) ← set_value vs a.v_promise; some (record a { v_promise = k })

  unfoldable pub all_set_error : E → AllCombinator C E T X → Option (AllCombinator C E T X)
  unfolding set_error
  all_set_error e a = do (k, o) ← set_error e a.v_promise; some (record a { v_promise = k })

  -- The branch on `result.HasError()`.
  unfoldable pub all_store : Result E T → AllCombinator C E T X → Option (AllCombinator C E T X)
  unfolding all_set_error
  all_store (fail e) a = all_set_error e (record a { error = true })
  all_store (ok v) a = some (record a { results = set a.results a.counter v })

  -- `++counter_`, and the promise is fulfilled by the last of `n` results.
  unfoldable pub all_count : ℕ → AllCombinator C E T X → Option (AllCombinator C E T X)
  unfolding all_set_value
  all_count n a =
      let a' = record a { counter = suc a.counter } in
      if a'.counter == n then all_set_value a'.results a' else some a'

  -- The callback of `All`, for `n` inputs.
  unfoldable pub all_callback :
      ℕ → Result E T → AllCombinator C E T X → Option (AllCombinator C E T X)
  unfolding all_store all_count
  all_callback n result a = if a.error then some a else (do a' ← all_store result a; all_count n a')

  unfoldable pub all_run :
      ℕ → List (Result E T) → AllCombinator C E T X → Option (AllCombinator C E T X)
  unfolding all_callback
  all_run n [] a = some a
  all_run n (r ∷ rs) a = all_callback n r a >>= all_run n rs

  -- With no input the promise is fulfilled at once.
  unfoldable pub all_begin : ℕ → AllCombinator C E T X → Option (AllCombinator C E T X)
  unfolding all_set_value
  all_begin n a = if n == 0 then all_set_value [] a else some a

  -- `Combine` for `n` inputs, up to its loop of subscriptions. `resize` fills with `blank`, the value
  -- of `T()`.
  unfoldable pub all_combine : T → ℕ → Option (AllCombinator C E T X)
  unfolding make_contract all_begin
  all_combine blank n = do
    k ← make_contract
    all_begin n (record { error = false; v_promise = k; results = replicate n blank; counter = 0 })

  -- The callback of `FirstOf`.
  unfoldable pub first_of_callback :
      Result E T → FirstOfCombinator C E T X → Option (FirstOfCombinator C E T X)
  unfolding set_value
  first_of_callback (fail e) f = some f
  first_of_callback (ok v) f =
      if f.released
      then some f
      else (do (k, o) ← set_value v f.v_promise; some (record { released = true; v_promise = k }))

  unfoldable pub first_of_run :
      List (Result E T) → FirstOfCombinator C E T X → Option (FirstOfCombinator C E T X)
  unfolding first_of_callback
  first_of_run [] f = some f
  first_of_run (r ∷ rs) f = first_of_callback r f >>= first_of_run rs

  -- `Combine` for `n` inputs, up to its loop of subscriptions; with no input the future is fulfilled
  -- with `zero_value`, the value that 0 converts to, and consumed at once.
  unfoldable pub first_of_empty : T → Contract C (Result E T) X → Option (FirstOfCombinator C E T X)
  unfolding set_value future_get_ready_result
  first_of_empty zero_value k = do
    (k₁, o) ← set_value zero_value k
    (k₂, r) ← future_get_ready_result k₁
    some (record { released = false; v_promise = k₂ })

  unfoldable pub first_of_combine : T → ℕ → Option (FirstOfCombinator C E T X)
  unfolding make_contract first_of_empty
  first_of_combine zero_value n = do
    k ← make_contract
    if n == 0
        then first_of_empty zero_value k
        else some (record { released = false; v_promise = k })
