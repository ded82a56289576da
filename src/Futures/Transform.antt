-- ===== src/Futures/Transform.antt =====
-- futures/futures/await/futures/core/future.ipp: `Transform`, `Then` and `Recover`, on a store of shared
-- states. A future or a promise is the number of its contract, and a callback is what the code's lambda
-- has captured. A call of a callback is pending until its executor, or the caller, runs it; but the call
-- that the asynchronous `Transform` makes in its own `try` is run there. An exception that leaves another
-- callback ends at its caller.
pub mod Cells
pub mod Chain
pub mod Async
pub mod Tests
use tpcc.Prelude.{ℕ, zero, suc, ◌+◌, Option, none, some, List, [], ◌∷◌, ◌++◌, update, ◌>>=◌, false}
use tpcc.Futures.State.{Invocation, Outcome, quiet, invoked, panicked}
use tpcc.Futures.Contract.{
  Contract, Result, ok, fail, new_promise, make_future, via, future_get_executor, subscribe,
  set_value, set_error, failed,
}

-- What a function of the user comes to: it returns or throws.
pub data Returned (E A : Type 0) : Type 0 where
  returns : A → Returned E A
  throws : E → Returned E A

abbrev pub Transformer : Type 0 → Type 0 → Type 0
Transformer E T = Result E T → Returned E (Result E T)

-- A future that an asynchronous function returns: one of the store, or a new one that has failed.
pub data NewFuture (E : Type 0) : Type 0 where
  existing : ℕ → NewFuture E
  failed_with : E → NewFuture E

abbrev pub AsyncTransformer : Type 0 → Type 0 → Type 0
AsyncTransformer E T = Result E T → Returned E (NewFuture E)

-- The lambdas that `Transform` subscribes, with the promise that they hold, and any other callback.
pub data Callback (E T : Type 0) : Type 0 where
  transform_into : Transformer E T → ℕ → Callback E T
  async_into : AsyncTransformer E T → ℕ → Callback E T
  forward_into : ℕ → Callback E T
  user : ℕ → Callback E T

-- The contracts, the number of the next one, and the calls of callbacks that are still to be run.
pub record Store (E T X : Type 0) : Type 0 where
  pub contracts : ℕ → Contract (Callback E T) (Result E T) X
  pub next_id : ℕ
  pub calls : List (Invocation (Callback E T) (Result E T) X)

-- `convert` is the conversion of a `wheels::Result` to its value, which `SetValue` is called with.
module _ {E T X : Type 0} (convert : Result E T → Returned E T) where
  abbrev pub put : ℕ → Contract (Callback E T) (Result E T) X → Store E T X → Store E T X
  put id k s = record s { contracts = update s.contracts id k }

  -- A call that an operation has made joins the pending ones; a failed check is none.
  abbrev pub record_call :
      Outcome (Callback E T) (Result E T) X → Store E T X → Option (Store E T X)
  record_call quiet s = some s
  record_call (invoked i) s = some (record s { calls = s.calls ++ i ∷ [] })
  record_call panicked s = none

  unfoldable pub subscribe_to : Callback E T → ℕ → Store E T X → Option (Store E T X)
  unfolding subscribe
  subscribe_to callback id s = do
    (k, o) ← subscribe callback (s.contracts id)
    record_call o (put id k s)

  unfoldable pub set_value_of : T → ℕ → Store E T X → Option (Store E T X)
  unfolding set_value
  set_value_of v id s = do (k, o) ← set_value v (s.contracts id); record_call o (put id k s)

  unfoldable pub set_error_of : E → ℕ → Store E T X → Option (Store E T X)
  unfolding set_error
  set_error_of e id s = do (k, o) ← set_error e (s.contracts id); record_call o (put id k s)

  -- The first lines of `Transform`: the executor, the new promise and its future.
  unfoldable pub make_target : ℕ → Store E T X → Option (ℕ × Store E T X)
  unfolding future_get_executor make_future via
  make_target source s = do
    executor ← future_get_executor (s.contracts source)
    t_promise ← make_future new_promise
    t_future ← via executor t_promise
    some (s.next_id, record (put s.next_id t_future s) { next_id = suc s.next_id })

  unfoldable pub transform : Transformer E T → ℕ → Store E T X → Option (ℕ × Store E T X)
  unfolding make_target subscribe_to
  transform transformer source s = do
    (target, s') ← make_target source s
    s'' ← subscribe_to (transform_into transformer target) source s'
    some (target, s'')

  unfoldable pub async_transform : AsyncTransformer E T → ℕ → Store E T X → Option (ℕ × Store E T X)
  unfolding make_target subscribe_to
  async_transform transformer source s = do
    (target, s') ← make_target source s
    s'' ← subscribe_to (async_into transformer target) source s'
    some (target, s'')

  -- The body of the lambda of the synchronous `Transform`: the conversion throws inside the `try` too.
  abbrev pub set_converted : Returned E T → ℕ → Store E T X → Option (Store E T X)
  unfolding set_value_of set_error_of
  set_converted (returns v) target s = set_value_of v target s
  set_converted (throws e) target s = set_error_of e target s

  unfoldable pub finish_transform : Returned E (Result E T) → ℕ → Store E T X → Option (Store E T X)
  unfolding set_converted set_error_of
  finish_transform (returns new_result) target s = set_converted (convert new_result) target s
  finish_transform (throws e) target s = set_error_of e target s

  -- The inner lambda of the asynchronous `Transform`, called on the spot by `Subscribe`, within the outer
  -- `try`. Where the conversion throws, the `catch` uses the promise that the lambda has been given.
  unfoldable pub forward_here : Returned E T → ℕ → Store E T X → Option (Store E T X)
  unfolding set_value_of
  forward_here (returns v) target s = set_value_of v target s
  forward_here (throws e) target s = none

  abbrev pub call_inner_by :
      Option X → Invocation (Callback E T) (Result E T) X → ℕ → Store E T X → Option (Store E T X)
  unfolding forward_here
  call_inner_by none i target s = forward_here (convert i.result) target s
  call_inner_by (some executor) i target s = some (record s { calls = s.calls ++ i ∷ [] })

  abbrev pub call_inner :
      Outcome (Callback E T) (Result E T) X → ℕ → Store E T X → Option (Store E T X)
  unfolding call_inner_by
  call_inner quiet target s = some s
  call_inner (invoked i) target s = call_inner_by i.via i target s
  call_inner panicked target s = none

  unfoldable pub subscribe_inner : ℕ → ℕ → Store E T X → Option (Store E T X)
  unfolding subscribe call_inner
  subscribe_inner target id s = do
    (k, o) ← subscribe (forward_into target) (s.contracts id)
    call_inner o target (put id k s)

  -- The body of the lambda of the asynchronous `Transform`.
  unfoldable pub finish_async : Returned E (NewFuture E) → ℕ → Store E T X → Option (Store E T X)
  unfolding subscribe_inner set_error_of failed
  finish_async (returns (existing id)) target s = subscribe_inner target id s
  finish_async (returns (failed_with e)) target s =
      subscribe_inner target s.next_id
        (record (put s.next_id (failed e) s) { next_id = suc s.next_id })
  finish_async (throws e) target s = set_error_of e target s

  -- A promise is destroyed with the lambda that holds it.
  unfoldable pub drop_promise : ℕ → Store E T X → Store E T X
  drop_promise target s = put target (record (s.contracts target) { promise_held = false }) s

  -- The body of the inner lambda, called by an executor or by who fulfils the inner future. It has no
  -- `try`: where the conversion throws, the exception leaves the lambda, and the caller takes it.
  unfoldable pub finish_forward : Returned E T → ℕ → Store E T X → Option (Store E T X)
  unfolding set_value_of drop_promise
  finish_forward (returns v) target s = set_value_of v target s
  finish_forward (throws e) target s = some (drop_promise target s)

  unfoldable pub run_callback : Callback E T → Result E T → Store E T X → Option (Store E T X)
  unfolding finish_transform finish_async finish_forward
  run_callback (transform_into transformer target) r s = finish_transform (transformer r) target s
  run_callback (async_into transformer target) r s = finish_async (transformer r) target s
  run_callback (forward_into target) r s = finish_forward (convert r) target s
  run_callback (user name) r s = some s

  -- The pending calls are run, oldest first, for so many rounds.
  unfoldable pub run_next :
      List (Invocation (Callback E T) (Result E T) X) → Store E T X → Option (Store E T X)
  unfolding run_callback
  run_next [] s = some s
  run_next (i ∷ rest) s = run_callback i.callback i.result (record s { calls = rest })

  unfoldable pub settle : ℕ → Store E T X → Option (Store E T X)
  unfolding run_next
  settle zero s = some s
  settle (suc rounds) s = run_next s.calls s >>= settle rounds

abbrev pub caught : {E : Type 0} → Returned E (NewFuture E) → Returned E (NewFuture E)
caught (returns f) = returns f
caught (throws e) = returns (failed_with e)

module _ {E T : Type 0} where
  -- The transformer of the synchronous `Then`; `invoke` is `make_result::Invoke(cont, ·)`.
  unfoldable pub then_transformer : (T → Result E T) → Transformer E T
  then_transformer invoke (fail e) = returns (fail e)
  then_transformer invoke (ok v) = returns (invoke v)

  -- The transformer of the asynchronous `Then`.
  unfoldable pub then_async_transformer : (T → Returned E (NewFuture E)) → AsyncTransformer E T
  then_async_transformer cont (fail e) = returns (failed_with e)
  then_async_transformer cont (ok v) = caught (cont v)

  -- The transformer of `Recover`; `invoke` is `make_result::Invoke(handler, ·)`.
  unfoldable pub recover_transformer : (E → Result E T) → Transformer E T
  recover_transformer invoke (ok v) = returns (ok v)
  recover_transformer invoke (fail e) = returns (invoke e)

module _ {E T X : Type 0} (convert : Result E T → Returned E T) where
  unfoldable pub then_sync : (T → Result E T) → ℕ → Store E T X → Option (ℕ × Store E T X)
  unfolding transform then_transformer
  then_sync invoke source s = transform convert (then_transformer invoke) source s

  unfoldable pub then_async :
      (T → Returned E (NewFuture E)) → ℕ → Store E T X → Option (ℕ × Store E T X)
  unfolding async_transform then_async_transformer
  then_async cont source s = async_transform convert (then_async_transformer cont) source s

  unfoldable pub recover : (E → Result E T) → ℕ → Store E T X → Option (ℕ × Store E T X)
  unfolding transform recover_transformer
  recover invoke source s = transform convert (recover_transformer invoke) source s
