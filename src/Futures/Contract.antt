-- ===== src/Futures/Contract.antt =====
-- futures/futures/await/futures/core/promise.hpp, future.hpp and future.ipp, and `HoldState` of
-- core/state.hpp: the two handles of one shared state, used by one thread after another. A failed
-- `WHEELS_VERIFY`, or the use of an empty handle, is `none`. What two threads do at once is modelled
-- in `State.Protocol`.
pub mod OneShot
use tpcc.Prelude.{Bool, true, false, not, Option, none, some, if◌then◌else◌, ◌>>=◌}
use tpcc.Futures.State.{
  SharedState, Outcome, quiet, make_shared_state, has_result, get_ready_result, execute, call_with,
  set_result, pass_callback, set_executor, get_executor, unblocked,
}

-- `wheels::Result<T>`: a value or an error.
pub data Result (E T : Type 0) : Type 0 where
  ok : T → Result E T
  fail : E → Result E T

-- A shared state, with whether the promise and the future still hold it.
pub record Contract (C R X : Type 0) : Type 0 where
  pub cell : SharedState C R X
  pub promise_held : Bool
  pub future_extracted : Bool
  pub future_held : Bool

module _ {C R X : Type 0} where
  -- `ReleaseState` of the promise and of the future: `CheckState`, then the handle is emptied.
  unfoldable pub release_promise : Contract C R X → Option (Contract C R X)
  release_promise k = if k.promise_held then some (record k { promise_held = false }) else none

  unfoldable pub release_future : Contract C R X → Option (Contract C R X)
  release_future k = if k.future_held then some (record k { future_held = false }) else none

  -- `Promise()`.
  abbrev pub new_promise : Contract C R X
  new_promise = record {
    cell = make_shared_state;
    promise_held = true;
    future_extracted = false;
    future_held = false;
  }

  unfoldable pub make_future : Contract C R X → Option (Contract C R X)
  make_future k =
      if not k.future_extracted
      then some (record k { future_extracted = true; future_held = k.promise_held })
      else none

  unfoldable pub make_contract : Option (Contract C R X)
  unfolding make_future
  make_contract = make_future new_promise

  abbrev with_outcome :
      Contract C R X → SharedState C R X × Outcome C R X → Contract C R X × Outcome C R X
  with_outcome k (cell, o) = (record k { cell = cell }, o)

  -- `Promise::Set`; `SetValue` and `SetError` are this at a value and at an error.
  unfoldable pub promise_set : R → Contract C R X → Option (Contract C R X × Outcome C R X)
  unfolding release_promise set_result
  promise_set r k = do k' ← release_promise k; some (with_outcome k' (set_result r k'.cell))

  -- `IsValid`, and `IsReady` with its `CheckState`.
  unfoldable pub is_valid : Contract C R X → Bool
  is_valid k = k.future_held

  unfoldable pub is_ready : Contract C R X → Option Bool
  unfolding has_result
  is_ready k = if k.future_held then some (has_result k.cell) else none

  -- The result of an empty optional is not defined: `none` too.
  abbrev with_result : Contract C R X → SharedState C R X × Option R → Option (Contract C R X × R)
  with_result k (cell, r) = do v ← r; some (record k { cell = cell }, v)

  unfoldable pub future_get_ready_result : Contract C R X → Option (Contract C R X × R)
  unfolding release_future get_ready_result
  future_get_ready_result k = do k' ← release_future k; with_result k' (get_ready_result k'.cell)

  unfoldable pub via : Option X → Contract C R X → Option (Contract C R X)
  unfolding set_executor
  via e k = if k.future_held then some (record k { cell = set_executor e k.cell }) else none

  unfoldable pub future_get_executor : Contract C R X → Option (Option X)
  unfolding get_executor
  future_get_executor k = if k.future_held then some (get_executor k.cell) else none

  -- `Subscribe`, below `ReleaseState`.
  unfoldable pub subscribe_cell : C → SharedState C R X → SharedState C R X × Outcome C R X
  unfolding has_result get_ready_result call_with pass_callback
  subscribe_cell c s =
      if has_result s
      then (let (s', r) = get_ready_result s in (s', call_with (some c) r s'))
      else pass_callback c s

  unfoldable pub subscribe : C → Contract C R X → Option (Contract C R X × Outcome C R X)
  unfolding release_future subscribe_cell
  subscribe c k = do k' ← release_future k; some (with_outcome k' (subscribe_cell c k'.cell))

module _ {C E T X : Type 0} where
  unfoldable pub set_value :
      T → Contract C (Result E T) X → Option (Contract C (Result E T) X × Outcome C (Result E T) X)
  unfolding promise_set
  set_value v k = promise_set (ok v) k

  unfoldable pub set_error :
      E → Contract C (Result E T) X → Option (Contract C (Result E T) X × Outcome C (Result E T) X)
  unfolding promise_set
  set_error e k = promise_set (fail e) k

  -- `Future::Completed` and `Future::Failed`: a future with no promise, its result set.
  unfoldable pub completed : T → Contract C (Result E T) X
  unfolding set_result
  completed v = record {
    cell = (set_result (ok v) make_shared_state).0;
    promise_held = false;
    future_extracted = true;
    future_held = true;
  }

  unfoldable pub failed : E → Contract C (Result E T) X
  unfolding set_result
  failed e = record {
    cell = (set_result (fail e) make_shared_state).0;
    promise_held = false;
    future_extracted = true;
    future_held = true;
  }
