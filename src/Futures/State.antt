-- ===== src/Futures/State.antt =====
-- futures/futures/await/futures/core/state.hpp: `SharedState<T>`, the one-shot channel between a
-- promise and a future. A callback is a value of the type `C`, a `wheels::Result<T>` one of the type
-- `R`, an executor one of the type `X`. An operation that touches `state_` more than once is cut into
-- pieces, one for each access, which `Protocol` interleaves; the pieces are composed here as the code
-- composes them.
pub mod Protocol
pub mod Delivery
pub mod Waiting
use tpcc.Prelude.{Bool, true, false, Option, none, some}

-- `SubscriptionState`, `state_` of a shared state.
pub data SubscriptionState : Type 0 where
  start only_result only_callback done : SubscriptionState

pub record SharedState (C R X : Type 0) : Type 0 where
  pub state : SubscriptionState
  pub callback : Option C
  pub result : Option R
  pub executor : Option X

-- A call of a callback: through an executor, or on the spot where there is none.
pub record Invocation (C R X : Type 0) : Type 0 where
  pub via : Option X
  pub callback : C
  pub result : R

-- How `SetResult` and `PassCallback` go on after their compare-exchange.
pub data Next : Type 0 where
  returns notifies delivers panics : Next

-- What an operation has done to the callback: nothing yet, called it, or failed a `WHEELS_VERIFY`
-- or the access to an empty optional.
pub data Outcome (C R X : Type 0) : Type 0 where
  quiet : Outcome C R X
  invoked : Invocation C R X → Outcome C R X
  panicked : Outcome C R X

module _ {C R X : Type 0} where
  abbrev pub make_shared_state : SharedState C R X
  make_shared_state = record { state = start; callback = none; result = none; executor = none }

  unfoldable pub execute : C → R → SharedState C R X → Invocation C R X
  execute callback result s = record { via = s.executor; callback = callback; result = result }

  unfoldable pub has_result : SharedState C R X → Bool
  has_result s = elim s.state [ only_result ↦ true | _ ↦ false ]

  -- `none`: `result_` was empty.
  unfoldable pub get_ready_result : SharedState C R X → SharedState C R X × Option R
  get_ready_result s = (record s { state = done }, s.result)

  -- `Execute(std::move(callback_.value()), std::move(GetReadyResult()))`
  unfoldable pub call_with : Option C → Option R → SharedState C R X → Outcome C R X
  unfolding execute
  call_with (some c) (some r) s = invoked (execute c r s)
  call_with (some c) none s = panicked
  call_with none r s = panicked

  unfoldable pub deliver : SharedState C R X → SharedState C R X × Outcome C R X
  unfolding get_ready_result call_with
  deliver s = let (s', r) = get_ready_result s in (s', call_with s.callback r s')

  unfoldable pub emplace_result : R → SharedState C R X → SharedState C R X
  emplace_result r s = record s { result = some r }

  -- The compare-exchange of `SetResult`, and its test of the value that it observed. Where it goes on to
  -- `notify_one()`, this wakes a thread that sleeps in `wait`, which is in `Protocol`.
  unfoldable pub publish : SharedState C R X → SharedState C R X × Next
  publish s = elim s.state [
    | start ↦ (record s { state = only_result }, notifies)
    | only_callback ↦ (s, delivers)
    | _ ↦ (s, panics)
  ]

  unfoldable pub finish : SharedState C R X × Next → SharedState C R X × Outcome C R X
  unfolding deliver
  finish (s, returns) = (s, quiet)
  finish (s, notifies) = (s, quiet)
  finish (s, delivers) = deliver s
  finish (s, panics) = (s, panicked)

  unfoldable pub set_result : R → SharedState C R X → SharedState C R X × Outcome C R X
  unfolding emplace_result publish finish
  set_result r s = finish (publish (emplace_result r s))

  unfoldable pub store_callback : C → SharedState C R X → SharedState C R X
  store_callback c s = record s { callback = some c }

  -- The compare-exchange of `PassCallback`, and its test of the value that it observed.
  unfoldable pub offer : SharedState C R X → SharedState C R X × Next
  offer s = elim s.state [
    | start ↦ (record s { state = only_callback }, returns)
    | only_result ↦ (s, delivers)
    | _ ↦ (s, panics)
  ]

  unfoldable pub pass_callback : C → SharedState C R X → SharedState C R X × Outcome C R X
  unfolding store_callback offer finish
  pass_callback c s = finish (offer (store_callback c s))

  -- The test of `BlockForResult`, in `state_.wait(Start)`: whether the state is not `Start`.
  unfoldable pub unblocked : SharedState C R X → Bool
  unblocked s = elim s.state [ start ↦ false | _ ↦ true ]

  unfoldable pub set_executor : Option X → SharedState C R X → SharedState C R X
  set_executor e s = record s { executor = e }

  unfoldable pub get_executor : SharedState C R X → Option X
  get_executor s = s.executor
