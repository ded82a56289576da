-- ===== src/Futures/State/Protocol.antt =====
-- The two parties of a shared state, interleaved in any order: a producer in `SetResult`
-- (state.hpp) and a consumer in `Future::Subscribe` or `Future::GetResult` (future.ipp). Each access
-- to `state_` is a step of its own.
use tpcc.Prelude.{Option, none, some, List, [], ◌∷◌, ◌++◌, ◌≡◌, if◌then◌else◌}
use tpcc.Futures.State.{
  SharedState, Invocation, Next, returns, notifies, delivers, panics, Outcome, invoked,
  make_shared_state, execute, has_result, get_ready_result, deliver, emplace_result, publish,
  store_callback, offer, unblocked,
}

-- Where a call of `SetResult` stands.
pub data Producer (R : Type 0) : Type 0 where
  setting : R → Producer R  -- before `result_.emplace`
  publishing : Producer R  -- before the compare-exchange
  notifying : Producer R  -- before `state_.notify_one()`
  delivering : Producer R  -- before `Execute(…, GetReadyResult())`
  returned : Producer R
  failed : Producer R

-- Where the consumer stands: in `Subscribe` up to `done`, or in `GetResult` from `blocking`.
pub data Consumer (C R : Type 0) : Type 0 where
  checking : C → Consumer C R  -- before `HasResult`
  consuming : C → Consumer C R  -- `HasResult` was true
  storing : C → Consumer C R  -- before `callback_ = …` in `PassCallback`
  offering : Consumer C R  -- before the compare-exchange
  handing : Consumer C R  -- before `Execute(…, GetReadyResult())`
  subscribed : Consumer C R
  blocking : Consumer C R  -- in `BlockForResult`, before `wait` tests the state
  sleeping : Consumer C R  -- in `wait`, until it is notified
  collecting : Consumer C R  -- before `GetReadyResult`
  got : R → Consumer C R
  faulted : Consumer C R

pub record System (C R X : Type 0) : Type 0 where
  pub cell : SharedState C R X
  pub producer : Producer R
  pub consumer : Consumer C R
  pub calls : List (Invocation C R X)

abbrev after_publish : {R : Type 0} → Next → Producer R
after_publish returns = returned
after_publish notifies = notifying
after_publish delivers = delivering
after_publish panics = failed

abbrev after_offer : {C R : Type 0} → Next → Consumer C R
after_offer returns = subscribed
after_offer notifies = subscribed
after_offer delivers = handing
after_offer panics = faulted

abbrev after_collect : {C R : Type 0} → Option R → Consumer C R
after_collect (some r) = got r
after_collect none = faulted

-- What `notify_one` does to the consumer.
unfoldable pub notify_one : {C R : Type 0} → Consumer C R → Consumer C R
notify_one sleeping = blocking
notify_one c = c

module _ {C R X : Type 0} where
  abbrev log : Outcome C R X → List (Invocation C R X) → List (Invocation C R X)
  log (invoked i) calls = calls ++ i ∷ []
  log _ calls = calls

  abbrev after_deliver : Outcome C R X → Producer R
  after_deliver (invoked i) = returned
  after_deliver _ = failed

  -- The next step of `SetResult`; `none` when the call is over.
  unfoldable pub produce : Producer R → System C R X → Option (System C R X)
  unfolding emplace_result publish deliver notify_one
  produce (setting r) s = some (record s { cell = emplace_result r s.cell; producer = publishing })
  produce publishing s =
      let (cell, next) = publish s.cell in
      some (record s { cell = cell; producer = after_publish next })
  produce notifying s = some (record s { producer = returned; consumer = notify_one s.consumer })
  produce delivering s =
      let (cell, outcome) = deliver s.cell in
      some (record s { cell = cell; producer = after_deliver outcome; calls = log outcome s.calls })
  produce returned s = none
  produce failed s = none

  abbrev after_hand : Outcome C R X → Consumer C R
  after_hand (invoked i) = subscribed
  after_hand _ = faulted

  abbrev consume_ready : C → SharedState C R X → Option R → System C R X → System C R X
  consume_ready c cell (some r) s = record s {
    cell = cell;
    consumer = subscribed;
    calls = s.calls ++ execute c r cell ∷ [];
  }
  consume_ready c cell none s = record s { cell = cell; consumer = faulted }

  -- The next step of `Subscribe` or `GetResult`; `none` when the call is over or sleeps.
  unfoldable pub consume : Consumer C R → System C R X → Option (System C R X)
  unfolding has_result get_ready_result execute store_callback offer deliver unblocked
  consume (checking c) s =
      some (record s { consumer = if has_result s.cell then consuming c else storing c })
  consume (consuming c) s =
      let (cell, r) = get_ready_result s.cell in some (consume_ready c cell r s)
  consume (storing c) s = some (record s { cell = store_callback c s.cell; consumer = offering })
  consume offering s =
      let (cell, next) = offer s.cell in
      some (record s { cell = cell; consumer = after_offer next })
  consume handing s =
      let (cell, outcome) = deliver s.cell in
      some (record s { cell = cell; consumer = after_hand outcome; calls = log outcome s.calls })
  consume subscribed s = none
  consume blocking s =
      some (record s { consumer = if unblocked s.cell then collecting else sleeping })
  consume sleeping s = none
  consume collecting s =
      let (cell, r) = get_ready_result s.cell in
      some (record s { cell = cell; consumer = after_collect r })
  consume (got r) s = none
  consume faulted s = none

  -- Either party moves, or the system wakes a thread that sleeps in `wait` for no reason.
  pub data Step (s t : System C R X) : Type 0 where
    by_producer : produce s.producer s ≡ some t → Step s t
    by_consumer : consume s.consumer s ≡ some t → Step s t
    spurious : s.consumer ≡ sleeping → t ≡ record s { consumer = blocking } → Step s t

  -- A new shared state with executor `x`, about to be given `r` and used by `c`.
  abbrev pub begin : Option X → R → Consumer C R → System C R X
  begin x r c = record {
    cell = record make_shared_state { executor = x };
    producer = setting r;
    consumer = c;
    calls = [];
  }

  pub data Reach (s : System C R X) : System C R X → Type 0 where
    here : Reach s s
    next : {t u : System C R X} → Reach s t → Step t u → Reach s u
