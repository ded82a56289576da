-- ===== src/Futures/Transform/Tests.antt =====
-- Chains on concrete futures.
use tpcc.Prelude.{ℕ, zero, suc, ◌+◌, ◌≡◌, refl, none, some, List, [], ◌∷◌, ◌>>=◌, length, arith}
use tpcc.Futures.Contract.{Result, ok, fail, Contract}
use tpcc.Futures.Contract.OneShot.{fresh}
use tpcc.Futures.Transform.{
  Returned, returns, throws, existing, Callback, Store, settle, then_async,
}
use tpcc.Futures.Transform.Cells.{ready, fulfil}
use tpcc.Futures.Transform.Chain.{Stage, continues, recovers, railway, build, build-fulfil}
use tpcc.Futures.Transform.Async.{then_async-arrived}

abbrev convert : Result ℕ ℕ → Returned ℕ ℕ
convert (ok v) = returns v
convert (fail e) = throws e

-- One future, not fulfilled, with the executor 4.
abbrev one_future : Store ℕ ℕ ℕ
one_future = record { contracts = λ _. fresh (some 4); next_id = 1; calls = [] }

-- 5 becomes 6, then the error 9, which is recovered as 10, and then 11.
abbrev stages : List (Stage ℕ ℕ)
stages =
    continues (λ v. ok (v + 1))
    ∷ continues (λ v. fail 9)
    ∷ continues (λ v. ok 0)
    ∷ recovers (λ e. ok (e + 1))
    ∷ continues (λ v. ok (v + 1))
    ∷ []

build-fulfil_example :
    (last : ℕ) × (t u : Store ℕ ℕ ℕ) × (build convert stages 0 one_future ≡ some (last, t))
    × ((fulfil convert (ok 5) 0 t >>= settle convert (length stages)) ≡ some u)
    × (u.contracts last ≡ ready (railway stages (ok 5)) (some 4))
    × (u.calls ≡ [])
build-fulfil_example =
    build-fulfil convert (λ v. refl) (λ e. refl) stages (ok 5) 0 (some 4) one_future refl
      (omega arith) refl

-- A second future, which has failed.
abbrev two_contracts : ℕ → Contract (Callback ℕ ℕ) (Result ℕ ℕ) ℕ
two_contracts zero = fresh (some 4)
two_contracts (suc i) = ready (fail 7) none

abbrev two_futures : Store ℕ ℕ ℕ
two_futures = record { contracts = two_contracts; next_id = 2; calls = [] }

then_async-arrived_example :
    (target : ℕ) × (t : Store ℕ ℕ ℕ) × (then_async convert (λ v. returns (existing 1)) 0 two_futures
      ≡ some (target, t))
    × ((fulfil convert (ok 5) 0 t >>= settle convert 2) ≡ none)
then_async-arrived_example =
    then_async-arrived convert (λ v. refl) (λ e. refl) (λ v. returns (existing 1)) 5 (fail 7) 0 1
      (some 4) none two_futures refl refl (omega arith) (omega arith) (omega arith) refl refl
