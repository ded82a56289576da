-- ===== src/Futures/Async.antt =====
-- futures/futures/await/futures/util/async.hpp and executors/inline.cpp: calls of `AsyncVia` among the
-- tasks that they have given to an executor. A call is cut where `Execute` returns: its task may run
-- before or after `Via`. The executor runs any task that it has, once, or is the inline one, which runs it
-- in `Execute`. What a target returns or throws is a value. Contracts go by numbers. What the owners of
-- the futures do later is in `Transform`; until then nobody subscribes to them.
pub mod Calls
pub mod Targets
use tpcc.Prelude.{ℕ, suc, Option, none, some, List, [], ◌∷◌, ◌++◌, ◌≡◌, update, ◌>>=◌}
use tpcc.Futures.State.{Outcome, panicked}
use tpcc.Futures.Contract.{Contract, Result, ok, fail, make_contract, set_value, set_error, via}

-- `unreturned` are the calls before `Via`, `tasks` those of the executor.
pub record System (C E T X : Type 0) : Type 0 where
  pub contracts : ℕ → Contract C (Result E T) X
  pub targets : ℕ → Result E T
  pub next_id : ℕ
  pub tasks : List ℕ
  pub unreturned : List ℕ

module _ {C E T X : Type 0} where
  abbrev pub with_call : Result E T → System C E T X → Contract C (Result E T) X → System C E T X
  with_call target s contract = record s {
    contracts = update s.contracts s.next_id contract;
    targets = update s.targets s.next_id target;
    next_id = suc s.next_id;
    unreturned = s.next_id ∷ s.unreturned;
  }

  unfoldable pub begin_call : Result E T → System C E T X → Option (System C E T X)
  unfolding make_contract
  begin_call target s = do contract ← make_contract; some (with_call target s contract)

  -- `Execute` of an executor with a queue of any order.
  unfoldable pub execute : ℕ → System C E T X → System C E T X
  execute id s = record s { tasks = id ∷ s.tasks }

  -- `SetValue` of what the target returns, or `SetError` of what it throws.
  unfoldable pub set_result_of :
      Result E T
      → Contract C (Result E T) X
      → Option (Contract C (Result E T) X × Outcome C (Result E T) X)
  unfolding set_value set_error
  set_result_of (ok value) contract = set_value value contract
  set_result_of (fail error) contract = set_error error contract

  abbrev pub unless_panicked : Outcome C (Result E T) X → System C E T X → Option (System C E T X)
  unless_panicked panicked s = none
  unless_panicked _ s = some s

  unfoldable pub run_task : ℕ → System C E T X → Option (System C E T X)
  unfolding set_result_of
  run_task id s = do
    (contract, outcome) ← set_result_of (s.targets id) (s.contracts id)
    unless_panicked outcome (record s { contracts = update s.contracts id contract })

  -- `AsyncVia`, up to the return of `Execute`: of an executor with a queue, and of the inline one.
  unfoldable pub async_via : Result E T → System C E T X → Option (System C E T X)
  unfolding begin_call execute
  async_via target s = do s' ← begin_call target s; some (execute s.next_id s')

  unfoldable pub async_inline : Result E T → System C E T X → Option (System C E T X)
  unfolding begin_call run_task
  async_inline target s = do s' ← begin_call target s; run_task s.next_id s'

  -- `Via`, with which the call returns.
  unfoldable pub return_via : X → ℕ → System C E T X → Option (System C E T X)
  unfolding via
  return_via executor id s = do
    contract ← via (some executor) (s.contracts id)
    some (record s { contracts = update s.contracts id contract })

  pub data Step (executor : X) (s : System C E T X) : System C E T X → Type 0 where
    calls :
        (target : Result E T) {s' : System C E T X}
        → async_via target s ≡ some s'
        → Step executor s s'
    calls_inline :
        (target : Result E T) {s' : System C E T X}
        → async_inline target s ≡ some s'
        → Step executor s s'
    runs :
        (xs ys : List ℕ) (id : ℕ)
        → s.tasks ≡ xs ++ id ∷ ys
        → {s' : System C E T X} → run_task id (record s { tasks = xs ++ ys }) ≡ some s'
        → Step executor s s'
    returns :
        (xs ys : List ℕ) (id : ℕ)
        → s.unreturned ≡ xs ++ id ∷ ys
        → {s' : System C E T X}
        → return_via executor id (record s { unreturned = xs ++ ys }) ≡ some s'
        → Step executor s s'

  -- Nobody has called, and a contract that nobody has made is whatever it is.
  pub data Reach (executor : X) : System C E T X → Type 0 where
    here :
        {contracts : ℕ → Contract C (Result E T) X} {targets : ℕ → Result E T}
        → Reach executor (record {
          contracts = contracts;
          targets = targets;
          next_id = 0;
          tasks = [];
          unreturned = [];
        })
    next : {s s' : System C E T X} → Reach executor s → Step executor s s' → Reach executor s'
