-- ===== src/Futures/Tests.antt =====
-- The theorems on futures at concrete inputs.
use tpcc.Futures.Async as Async
use tpcc.Futures.Async.Calls.{Fate, contract_with}
use tpcc.Futures.Async.Targets.{Reach-runs}
use tpcc.Prelude.{
  ℕ_discrete, ℕ, ◌≤◌, Option, none, some, [], ◌∷◌, ◌≡◌, refl, ◌⊎◌, ◌>>=◌, ◌<◌, update, List, ◌++◌,
}
use tpcc.Futures.State.{Invocation, quiet, invoked}
use tpcc.Futures.State.Protocol.{
  System, checking, blocking, returned, subscribed, produce, consume, Step, by_producer,
  by_consumer, begin, Reach, here, next,
}
use tpcc.Futures.State.Delivery.{IsOnce, Reach-IsOnce, Reach-terminates, steps}
use tpcc.Futures.State.Waiting.{IsServed, Reach-IsServed}
use tpcc.Futures.Contract.{
  Contract, ok, fail, promise_set, subscribe, make_contract, via, future_get_ready_result, Result,
}
use tpcc.Futures.Contract.OneShot.{fresh, both, set-subscribe}
use tpcc.Futures.Combine.{AllCombinator}
use tpcc.Futures.Combine.All.{all_of, all-last-error}

-- Executor 1, result 5, callback 9: the consumer looks before the result is there, and offers its
-- callback just after it came.
crossing : (s : System ℕ ℕ ℕ) × Reach (begin (some 1) 5 (checking 9)) s
unfolding produce consume
crossing = (
  _,
  next
      (next
        (next (next (next (next here (by_consumer refl)) (by_producer refl)) (by_consumer refl))
          (by_producer refl))
        (by_consumer refl))
      (by_consumer refl),
)

Reach-IsOnce_example : IsOnce (some 1) 5 9 crossing.0.producer crossing.0.consumer crossing.0.calls
Reach-IsOnce_example = Reach-IsOnce (some 1) 5 9 crossing.1

Reach-terminates_example :
    (steps (some 1) 5 9 crossing.1 ≤ 7)
    × (((crossing.0.producer ≡ returned) × (crossing.0.consumer ≡ subscribed))
        ⊎ ((t : System ℕ ℕ ℕ) × Step crossing.0 t))
Reach-terminates_example = Reach-terminates (some 1) 5 9 crossing.1

-- A reader sleeps, the producer sets the result 5 and wakes it, and the reader collects the result.
served : (s : System ℕ ℕ ℕ) × Reach (begin none 5 blocking) s
unfolding produce consume
served = (
  _,
  next
      (next
        (next (next (next (next here (by_consumer refl)) (by_producer refl)) (by_producer refl))
          (by_producer refl))
        (by_consumer refl))
      (by_consumer refl),
)

Reach-IsServed_example : IsServed none 5 served.0 × (served.0.calls ≡ [])
Reach-IsServed_example = Reach-IsServed none 5 served.1

abbrev the_call : Invocation ℕ ℕ ℕ
the_call = record { via = some 1; callback = 9; result = 5 }

set-subscribe_example :
    (k k' : Contract ℕ ℕ ℕ) × ((make_contract {C = ℕ} {R = ℕ} {X = ℕ} >>= via (some 1))
      ≡ some (fresh (some 1)))
    × (both (promise_set 5) (subscribe 9) (fresh (some 1)) ≡ some (k, quiet, invoked the_call))
    × (both (subscribe 9) (promise_set 5) (fresh (some 1)) ≡ some (k', quiet, invoked the_call))
    × ((r' : ℕ) (c' : ℕ)
        → (promise_set r' k ≡ none)
          × (subscribe c' k ≡ none)
          × (future_get_ready_result k ≡ none)
          × (promise_set r' k' ≡ none)
          × (subscribe c' k' ≡ none)
          × (future_get_ready_result k' ≡ none))
set-subscribe_example = set-subscribe (some 1) 5 9

all-last-error_example :
    ◌≡◌ {A = Option (AllCombinator ℕ ℕ ℕ ℕ)} (all_of 0 (ok 3 ∷ fail 8 ∷ [])) none
all-last-error_example = all-last-error 0 (3 ∷ []) 8

-- A target that returns 5 waits in the executor, and its call has returned.
abbrev no_call : Async.System ℕ ℕ ℕ ℕ
no_call = record {
  contracts = λ _. contract_with none none;
  targets = λ _. fail 0;
  next_id = 0;
  tasks = [];
  unreturned = [];
}

abbrev waiting_target : Async.System ℕ ℕ ℕ ℕ
waiting_target = record {
  contracts =
      update
        (update {A = Contract ℕ (Result ℕ ℕ) ℕ} (λ _. contract_with none none) 0
          (contract_with none none))
        0 (contract_with (some 9) none);
  targets = update {A = Result ℕ ℕ} (λ _. fail 0) 0 (ok 5);
  next_id = 1;
  tasks = 0 ∷ [];
  unreturned = [];
}

waiting_target-Reach : Async.Reach 9 waiting_target
unfolding Async.async_via Async.begin_call Async.execute Async.return_via make_contract via
    ℕ_discrete
waiting_target-Reach =
    let here : Async.Reach {C = ℕ} {E = ℕ} {T = ℕ} {X = ℕ} 9 no_call = Async.here in
    Async.next (Async.next here (Async.calls (ok 5) refl)) (Async.returns [] [] 0 refl refl)

Reach-runs_example :
    ((id : ℕ) → id < 1 → Fate 9 waiting_target id)
    × ((xs ys : List ℕ) (id : ℕ)
        → waiting_target.tasks ≡ xs ++ id ∷ ys
        → (s' : Async.System ℕ ℕ ℕ ℕ) × (Async.run_task id
              (record waiting_target { tasks = xs ++ ys })
            ≡ some s'))
Reach-runs_example = Reach-runs 9 waiting_target-Reach
