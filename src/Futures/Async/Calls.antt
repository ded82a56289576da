-- ===== src/Futures/Async/Calls.antt =====
-- What a call of `AsyncVia` does, and what a step that concerns one promise keeps.
use tpcc.Prelude.{
  ℕ, suc, ◌<◌, ◌≤◌, true, false, Option, none, some, ◌∷◌, ◌≡◌, ◌≢◌, ◌⊎◌, inl, inr, refl, ap, ◌∙◌,
  subst, update, update_self, update_other, arith, ℕ_discrete, ◌>>=◌, count,
}
use tpcc.Futures.State.{start, only_result, quiet}
use tpcc.Futures.Contract.{Contract, Result, ok, fail, make_contract, via}
use tpcc.Futures.Async.{
  System, with_call, begin_call, execute, set_result_of, unless_panicked, run_task, async_via,
  async_inline, return_via,
}

-- A thing is still to come, once, or has come.
pub data Comes {A : Type 0} (a : A) : Option A → ℕ → Type 0 where
  pending : {k : ℕ} → k ≡ 1 → Comes a none k
  come : {k : ℕ} → k ≡ 0 → Comes a (some a) k

module _ {C E T X : Type 0} where
  -- The contract of a call, by the executor and the result that it has.
  abbrev pub contract_with : Option X → Option (Result E T) → Contract C (Result E T) X
  contract_with executor none = record {
    cell = record { state = start; callback = none; result = none; executor = executor };
    promise_held = true;
    future_extracted = true;
    future_held = true;
  }
  contract_with executor (some r) = record {
    cell = record { state = only_result; callback = none; result = some r; executor = executor };
    promise_held = false;
    future_extracted = true;
    future_held = true;
  }

  pub record Fate (executor : X) (s : System C E T X) (id : ℕ) : Type 0 where
    pub executor_set : Option X
    pub result_set : Option (Result E T)
    pub contract : s.contracts id ≡ contract_with executor_set result_set
    pub task : Comes (s.targets id) result_set (count id s.tasks)
    pub call : Comes executor executor_set (count id s.unreturned)

  pub record Inv (executor : X) (s : System C E T X) : Type 0 where
    pub fates : (id : ℕ) → id < s.next_id → Fate executor s id
    pub unmade : (id : ℕ) → s.next_id ≤ id → (count id s.tasks ≡ 0) × (count id s.unreturned ≡ 0)

  set_result_of-some :
      (r : Result E T) (executor : Option X)
      → set_result_of {C = C} r (contract_with executor none)
        ≡ some (contract_with executor (some r), quiet)
  unfolding set_result_of
  set_result_of-some (ok value) executor = refl
  set_result_of-some (fail error) executor = refl

  pub run_task-some :
      (id : ℕ) (s : System C E T X) (executor : Option X)
      → s.contracts id ≡ contract_with executor none
      → run_task id s
        ≡ some (record s {
          contracts = update s.contracts id (contract_with executor (some (s.targets id)));
        })
  unfolding run_task
  run_task-some id s executor e =
      ap
        (λ r. do
          (contract, outcome) ← r
          unless_panicked outcome (record s { contracts = update s.contracts id contract }))
        (ap (set_result_of (s.targets id)) e ∙ set_result_of-some (s.targets id) executor)

  via-some :
      (executor : X) (before : Option X) (r : Option (Result E T))
      → via {C = C} (some executor) (contract_with before r)
        ≡ some (contract_with (some executor) r)
  unfolding via
  via-some executor before none = refl
  via-some executor before (some r) = refl

  pub return_via-some :
      (executor : X) (id : ℕ) (s : System C E T X) (before : Option X) (r : Option (Result E T))
      → s.contracts id ≡ contract_with before r
      → return_via executor id s
        ≡ some (record s { contracts = update s.contracts id (contract_with (some executor) r) })
  unfolding return_via
  return_via-some executor id s before r e =
      ap (λ c. do contract ← c; some (record s { contracts = update s.contracts id contract }))
        (ap (via (some executor)) e ∙ via-some executor before r)

  begin_call-some :
      (target : Result E T) (s : System C E T X)
      → begin_call target s ≡ some (with_call target s (contract_with none none))
  unfolding begin_call make_contract
  begin_call-some target s = refl

  pub record IsSame (s s' : System C E T X) (id : ℕ) : Type 0 where
    pub contract : s'.contracts id ≡ s.contracts id
    pub target : s'.targets id ≡ s.targets id
    pub tasks : count id s'.tasks ≡ count id s.tasks
    pub unreturned : count id s'.unreturned ≡ count id s.unreturned

  same-Fate :
      (executor : X) (s s' : System C E T X) (id : ℕ)
      → IsSame s s' id
      → Fate executor s id
      → Fate executor s' id
  same-Fate executor s s' id same f = record {
    executor_set = f.executor_set;
    result_set = f.result_set;
    contract = same.contract ∙ f.contract;
    task = rw (same.target, same.tasks) f.task;
    call = rw same.unreturned f.call;
  }

  -- A step that concerns one promise.
  pub change-Inv :
      (executor : X) (s s' : System C E T X) (at : ℕ)
      → (s'.next_id ≡ s.next_id) ⊎ ((at ≡ s.next_id) × (s'.next_id ≡ suc s.next_id))
      → at < s'.next_id
      → Fate executor s' at
      → ((id : ℕ) → at ≢ id → IsSame s s' id)
      → Inv executor s
      → Inv executor s'
  change-Inv executor s s' at ids lt f same v = record {
    fates = λ id below. elim (ℕ_discrete at id) [
      | yes e ↦ subst (Fate executor s') e f
      | no ne ↦ same-Fate executor s s' id (same id ne) (v.fates id (old id ne below ids))
    ];
    unmade = λ id le.
        let same_at = same id (λ e. omega (arith, e, le, lt)) in
        let before = v.unmade id (older id le ids) in
        (same_at.tasks ∙ before.0, same_at.unreturned ∙ before.1);
  }
    where
      old :
          (id : ℕ)
          → at ≢ id
          → id < s'.next_id
          → (s'.next_id ≡ s.next_id) ⊎ ((at ≡ s.next_id) × (s'.next_id ≡ suc s.next_id))
          → id < s.next_id
      old id ne below (inl e) = omega (arith, below, e)
      old id ne below (inr (now, e)) = omega (arith, below, e, now, ne)

      older :
          (id : ℕ)
          → s'.next_id ≤ id
          → (s'.next_id ≡ s.next_id) ⊎ ((at ≡ s.next_id) × (s'.next_id ≡ suc s.next_id))
          → s.next_id ≤ id
      older id le (inl e) = omega (arith, le, e)
      older id le (inr (now, e)) = omega (arith, le, e)

  -- The states that the calls lead to.
  abbrev pub queued : Result E T → System C E T X → System C E T X
  queued target s = record (with_call target s (contract_with none none)) {
    tasks = s.next_id ∷ s.tasks;
  }

  abbrev pub run_at_once : Result E T → System C E T X → System C E T X
  run_at_once target s =
      let s' = with_call target s (contract_with none none) in
      record s' {
        contracts =
            update s'.contracts s.next_id (contract_with none (some (s'.targets s.next_id)));
      }

  pub async_via-some :
      (target : Result E T) (s : System C E T X) → async_via target s ≡ some (queued target s)
  unfolding async_via begin_call make_contract execute
  async_via-some target s = refl

  pub async_inline-some :
      (target : Result E T) (s : System C E T X)
      → async_inline target s ≡ some (run_at_once target s)
  unfolding async_inline begin_call make_contract
  async_inline-some target s =
      run_task-some s.next_id (with_call target s (contract_with none none)) none
        (update_self s.contracts s.next_id (contract_with none none))

  pub queued-Inv :
      (executor : X) (target : Result E T) (s : System C E T X)
      → Inv executor s
      → Inv executor (queued target s)
  unfolding count
  queued-Inv executor target s v =
      let new = v.unmade s.next_id (omega arith) in
      change-Inv executor s (queued target s) s.next_id (inr (refl, refl)) (omega arith)
        (record {
          executor_set = none;
          result_set = none;
          contract = update_self s.contracts s.next_id (contract_with none none);
          task = pending (ground (arith, new.0));
          call = pending (ground (arith, new.1));
        })
        (λ id ne. record {
          contract = update_other s.contracts s.next_id (contract_with none none) id ne;
          target = update_other s.targets s.next_id target id ne;
          tasks = ground (arith, ne);
          unreturned = ground (arith, ne);
        })
        v

  pub run_at_once-Inv :
      (executor : X) (target : Result E T) (s : System C E T X)
      → Inv executor s
      → Inv executor (run_at_once target s)
  unfolding count
  run_at_once-Inv executor target s v =
      let new = v.unmade s.next_id (omega arith) in
      change-Inv executor s (run_at_once target s) s.next_id (inr (refl, refl)) (omega arith)
        (record {
          executor_set = none;
          result_set = some (update s.targets s.next_id target s.next_id);
          contract = update_self first s.next_id second;
          task = come new.0;
          call = pending (ground (arith, new.1));
        })
        (λ id ne. record {
          contract =
              update_other first s.next_id second id ne
              ∙ update_other s.contracts s.next_id (contract_with none none) id ne;
          target = update_other s.targets s.next_id target id ne;
          tasks = refl;
          unreturned = ground (arith, ne);
        })
        v
    where
      first : ℕ → Contract C (Result E T) X
      first = update s.contracts s.next_id (contract_with none none)

      second : Contract C (Result E T) X
      second = contract_with none (some (update s.targets s.next_id target s.next_id))
