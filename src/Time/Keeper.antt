-- ===== src/Time/Keeper.antt =====
-- futures/futures/await/time/time_keeper.hpp: `TimeKeeper` with its thread, and the contracts of its
-- timers, which go by numbers. Callers of `After` and the thread are interleaved. The clock is a number
-- that grows. What the owners of the futures do is in `Futures`; it leaves the promises alone.
pub mod Timers
pub mod Invariant
pub mod Promises
pub mod Polling
use tpcc.Prelude.{
  ℕ, suc, ◌+◌, ◌≡◌, Bool, true, false, Option, none, some, List, [], ◌∷◌, ◌++◌, if◌then◌else◌,
  update, ◌>>=◌,
}
use tpcc.Heap.{PriorityQueue}
use tpcc.Time.TimeKeeper.{Timer, less, add_timer, grab_ready_timers}
use tpcc.Futures.State.{Outcome, panicked}
use tpcc.Futures.Contract.{Contract, Result, make_contract, set_value}

-- The thread, in `Work` and what it calls.
pub data Worker : Type 0 where
  testing : Worker  -- before `stop_requested_.load()`
  polling : Worker  -- before `Clock::now()`
  grabbing : ℕ → Worker  -- before it takes the mutex
  setting : List (Timer ℕ) → Worker  -- in the loop over the promises
  sleeping : Worker
  returned : Worker

module _ (C E X : Type 0) (heap : PriorityQueue (Timer ℕ) less) where
  -- `calls` are those of `After` before `AddTimer`; `deadlines` those that `After` has computed.
  pub record TimeKeeper : Type 0 where
    pub queue : heap.Queue
    pub stop_requested : Bool
    pub worker : Worker
    pub clock : ℕ
    pub contracts : ℕ → Contract C (Result E (Unit {0})) X
    pub next_id : ℕ
    pub calls : List (Timer ℕ)
    pub deadlines : ℕ → ℕ

module _ {C E X : Type 0} (heap : PriorityQueue (Timer ℕ) less) where
  -- `After`, up to `AddTimer`: the contract and the deadline.
  abbrev pub with_contract :
      ℕ → TimeKeeper C E X heap → Contract C (Result E (Unit {0})) X → TimeKeeper C E X heap
  with_contract d k contract = record k {
    contracts = update k.contracts k.next_id contract;
    next_id = suc k.next_id;
    calls = k.calls ++ record { deadline = k.clock + d; promise = k.next_id } ∷ [];
    deadlines = update k.deadlines k.next_id (k.clock + d);
  }

  unfoldable pub after : ℕ → TimeKeeper C E X heap → Option (TimeKeeper C E X heap)
  unfolding make_contract
  after d k = do contract ← make_contract; some (with_contract d k contract)

  -- `AddTimer`, in one of the calls.
  unfoldable pub end_after :
      Timer ℕ → List (Timer ℕ) → TimeKeeper C E X heap → TimeKeeper C E X heap
  unfolding add_timer
  end_after t others k = record k {
    queue = add_timer heap t.deadline t.promise k.queue;
    calls = others;
  }

  abbrev pub grab_into : TimeKeeper C E X heap → List (Timer ℕ) × heap.Queue → TimeKeeper C E X heap
  grab_into k (promises, rest) = record k { queue = rest; worker = setting promises }

  abbrev pub unless_panicked :
      Outcome C (Result E (Unit {0})) X → TimeKeeper C E X heap → Option (TimeKeeper C E X heap)
  unless_panicked panicked k = none
  unless_panicked _ k = some k

  -- `std::move(p).SetValue({})`.
  unfoldable pub set_next :
      Timer ℕ → List (Timer ℕ) → TimeKeeper C E X heap → Option (TimeKeeper C E X heap)
  unfolding set_value
  set_next t rest k = do
    (contract, outcome) ← set_value tt (k.contracts t.promise)
    unless_panicked outcome
        (record k { contracts = update k.contracts t.promise contract; worker = setting rest })

  -- The next step of the thread at such a place; `none`: a check fails, or it has returned.
  unfoldable pub work : Worker → TimeKeeper C E X heap → Option (TimeKeeper C E X heap)
  unfolding set_next
  work testing k = some (record k { worker = if k.stop_requested then returned else polling })
  work polling k = some (record k { worker = grabbing k.clock })
  work (grabbing now) k = some (grab_into k (grab_ready_timers heap now k.queue))
  work (setting (t ∷ rest)) k = set_next t rest k
  work (setting []) k = some (record k { worker = sleeping })
  work sleeping k = some (record k { worker = testing })
  work returned k = none

  -- The beginning of `Stop`.
  unfoldable pub stop : TimeKeeper C E X heap → TimeKeeper C E X heap
  stop k = record k { stop_requested = true }

  pub data Step (k : TimeKeeper C E X heap) : TimeKeeper C E X heap → Type 0 where
    calls_after : (d : ℕ) {k' : TimeKeeper C E X heap} → after d k ≡ some k' → Step k k'
    adds :
        (xs ys : List (Timer ℕ)) (t : Timer ℕ)
        → k.calls ≡ xs ++ t ∷ ys
        → Step k (end_after t (xs ++ ys) k)
    works : {k' : TimeKeeper C E X heap} → work k.worker k ≡ some k' → Step k k'
    stops : Step k (stop k)
    ticks : Step k (record k { clock = suc k.clock })

  -- The keeper begins with an empty queue; a contract that nobody has made is whatever it is.
  pub data Reach (empty : heap.Queue) (contracts : ℕ → Contract C (Result E (Unit {0})) X)
      : TimeKeeper C E X heap → Type 0 where
    here : Reach empty contracts (record {
      queue = empty;
      stop_requested = false;
      worker = testing;
      clock = 0;
      contracts = contracts;
      next_id = 0;
      calls = [];
      deadlines = λ _. 0;
    })
    next :
        {k k' : TimeKeeper C E X heap}
        → Reach empty contracts k
        → Step k k'
        → Reach empty contracts k'
