-- ===== src/Futures/Transform/Cells.antt =====
-- Contracts of a store in the states that a chain of futures takes them through.
use tpcc.Prelude.{ℕ, suc, ◌≡◌, refl, Option, none, some, [], ◌∷◌, ◌++◌, true, false}
use tpcc.Futures.State.{only_callback, only_result, done, Invocation}
use tpcc.Futures.Contract.{
  Contract, Result, ok, fail, subscribe, set_value, set_error, make_future, via,
  future_get_executor,
}
use tpcc.Futures.Contract.OneShot.{fresh}
use tpcc.Futures.Transform.{
  Returned, returns, throws, Callback, Store, put, set_value_of, set_error_of, make_target,
  subscribe_to, set_converted, finish_transform,
}

-- The result that a function's outcome stands for.
abbrev pub settled : {E T : Type 0} → Returned E (Result E T) → Result E T
settled (returns r) = r
settled (throws e) = fail e

module _ {E T X : Type 0} where
  -- The contract of a future that has been consumed by a callback, before it is fulfilled.
  abbrev pub waiting : Callback E T → Option X → Contract (Callback E T) (Result E T) X
  waiting callback x = record {
    cell = record { state = only_callback; callback = some callback; result = none; executor = x };
    promise_held = true;
    future_extracted = true;
    future_held = false;
  }

  -- A fulfilled future.
  abbrev pub ready : Result E T → Option X → Contract (Callback E T) (Result E T) X
  ready r x = record {
    cell = record { state = only_result; callback = none; result = some r; executor = x };
    promise_held = false;
    future_extracted = true;
    future_held = true;
  }

  -- A future that was fulfilled before a callback consumed it.
  abbrev pub spent : Result E T → Option X → Contract (Callback E T) (Result E T) X
  spent r x = record {
    cell = record { state = done; callback = none; result = some r; executor = x };
    promise_held = false;
    future_extracted = true;
    future_held = false;
  }

  module _ (convert : Result E T → Returned E T) where
    -- The producer of a future sets its result.
    pub fulfil : Result E T → ℕ → Store E T X → Option (Store E T X)
    fulfil (ok v) id s = set_value_of convert v id s
    fulfil (fail e) id s = set_error_of convert e id s

    pub target-fresh :
        (id : ℕ) (x : Option X) (s : Store E T X)
        → s.contracts id ≡ fresh x
        → make_target convert id s
          ≡ some (s.next_id, record (put convert s.next_id (fresh x) s) { next_id = suc s.next_id })
    unfolding make_target future_get_executor make_future via
    target-fresh id x s e = rw e refl

    pub subscribe-fresh :
        (callback : Callback E T) (id : ℕ) (x : Option X) (s : Store E T X)
        → s.contracts id ≡ fresh x
        → subscribe_to convert callback id s ≡ some (put convert id (waiting callback x) s)
    unfolding subscribe_to subscribe
    subscribe-fresh callback id x s e = rw e refl

    pub set_value-fresh :
        (v : T) (id : ℕ) (x : Option X) (s : Store E T X)
        → s.contracts id ≡ fresh x
        → set_value_of convert v id s ≡ some (put convert id (ready (ok v) x) s)
    unfolding set_value_of set_value
    set_value-fresh v id x s e = rw e refl

    -- A result for a future that nobody has transformed stays in it.
    pub fulfil-fresh :
        (r : Result E T) (id : ℕ) (x : Option X) (s : Store E T X)
        → s.contracts id ≡ fresh x
        → fulfil r id s ≡ some (put convert id (ready r x) s)
    unfolding fulfil set_value_of set_error_of set_value set_error
    fulfil-fresh (ok v) id x s e = rw e refl
    fulfil-fresh (fail c) id x s e = rw e refl

    abbrev pub fired : Callback E T → Option X → Result E T → Contract (Callback E T) (Result E T) X
    fired callback x r = record {
      cell = record { state = done; callback = some callback; result = some r; executor = x };
      promise_held = false;
      future_extracted = true;
      future_held = false;
    }

    abbrev pub call_of :
        Callback E T → Option X → Result E T → Invocation (Callback E T) (Result E T) X
    call_of callback x r = record { via = x; callback = callback; result = r }

    -- A result for a future that a callback has consumed calls the callback, through its executor.
    pub fulfil-waiting :
        (r : Result E T) (callback : Callback E T) (id : ℕ) (x : Option X) (s : Store E T X)
        → s.contracts id ≡ waiting callback x
        → fulfil r id s
          ≡ some (record (put convert id (fired callback x r) s) {
            calls = s.calls ++ call_of callback x r ∷ [];
          })
    unfolding fulfil set_value_of set_error_of set_value set_error
    fulfil-waiting (ok v) callback id x s e = rw e refl
    fulfil-waiting (fail c) callback id x s e = rw e refl

    -- A callback for a fulfilled future is called at once.
    pub subscribe-ready :
        (callback : Callback E T) (r : Result E T) (id : ℕ) (x : Option X) (s : Store E T X)
        → s.contracts id ≡ ready r x
        → subscribe_to convert callback id s
          ≡ some (record (put convert id (spent r x) s) {
            calls = s.calls ++ call_of callback x r ∷ [];
          })
    unfolding subscribe_to subscribe
    subscribe-ready callback r id x s e = rw e refl

    module _ (ok_converts : (v : T) → convert (ok v) ≡ returns v)
        (fail_throws : (e : E) → convert (fail e) ≡ throws e) where
      -- The lambda of `Transform` fulfils its promise with what the transformer returns or throws.
      pub finish-fulfil :
          (r : Returned E (Result E T)) (target : ℕ) (s : Store E T X)
          → finish_transform convert r target s ≡ fulfil (settled r) target s
      unfolding finish_transform fulfil set_converted
      finish-fulfil (returns (ok v)) target s = rw (ok_converts v) refl
      finish-fulfil (returns (fail e)) target s = rw (fail_throws e) refl
      finish-fulfil (throws e) target s = refl
