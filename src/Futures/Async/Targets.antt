-- ===== src/Futures/Async/Targets.antt =====
-- Every target runs once, and its result reaches the future that the call returns.
use tpcc.Prelude.{
  ℕ, ◌+◌, ◌<◌, Option, none, some, List, ◌∷◌, ◌++◌, ◌≡◌, inl, refl, ap, sym, ◌∙◌, subst, update,
  update_self, update_other, arith, ℕ_discrete, of_some, count, count-append, ite, dec_lt,
}
use tpcc.Futures.Async.{
  System, run_task, return_via, Step, calls, calls_inline, runs, returns, Reach, here, next,
}
use tpcc.Futures.Async.Calls.{
  contract_with, Comes, pending, come, Fate, Inv, run_task-some, return_via-some, change-Inv,
  async_via-some, async_inline-some, queued-Inv, run_at_once-Inv,
}

must_come : {A : Type 0} {a : A} {r : Option A} {k : ℕ} → Comes a r k → 0 < k → (r ≡ none) × (k ≡ 1)
must_come (pending e) lt = (refl, e)
must_come (come e) lt = absurd (omega (arith, e, lt))

count-split :
    (id other : ℕ) (xs ys : List ℕ)
    → count other (xs ++ id ∷ ys) ≡ count other (xs ++ ys) + ite (ℕ_discrete id other) 1 0
unfolding count
count-split id other xs ys =
    omega (arith, count-append other xs (id ∷ ys), count-append other xs ys)

module _ {C E T X : Type 0} where
  -- What the executor or a call has is a promise made.
  made_before :
      (executor : X) (s : System C E T X) (id : ℕ)
      → 0 < count id s.tasks + count id s.unreturned
      → Inv executor s
      → id < s.next_id
  made_before executor s id lt v = elim (dec_lt id s.next_id) [
    | yes below ↦ below
    | no above ↦ let (t, u) = v.unmade id (omega (arith, above)) in absurd (omega (arith, t, u, lt))
  ]

  -- A task of the executor, or a call before `Via`, can go on, and the invariant stays.
  record Goes (executor : X) (r : Option (System C E T X)) : Type 0 where
    after_step : System C E T X
    taken : r ≡ some after_step
    invariant : Inv executor after_step

  run-Goes :
      (executor : X) (s : System C E T X) (xs ys : List ℕ) (id : ℕ)
      → s.tasks ≡ xs ++ id ∷ ys
      → Inv executor s
      → Goes executor (run_task id (record s { tasks = xs ++ ys }))
  run-Goes executor s xs ys id split v =
      let there : (other : ℕ)
          → count other s.tasks ≡ count other (xs ++ ys) + ite (ℕ_discrete id other) 1 0 =
        λ other. ap (count other) split ∙ count-split id other xs ys in
      let lt = made_before executor s id (ground (arith, there id)) v in
      let f = v.fates id lt in
      let (unset, one) = must_come f.task (ground (arith, there id)) in
      let same = f.contract ∙ ap (contract_with f.executor_set) unset in
      let s' : System C E T X = record s {
        tasks = xs ++ ys;
        contracts = update s.contracts id (contract_with f.executor_set (some (s.targets id)));
      } in
      record {
        after_step = s';
        taken = run_task-some id (record s { tasks = xs ++ ys }) f.executor_set same;
        invariant =
            change-Inv executor s s' id (inl refl) lt
              (record {
                executor_set = f.executor_set;
                result_set = some (s.targets id);
                contract =
                    update_self s.contracts id (contract_with f.executor_set (some (s.targets id)));
                task = come (ground (arith, there id, one));
                call = f.call;
              })
              (λ other ne. record {
                contract =
                    update_other s.contracts id (contract_with f.executor_set (some (s.targets id)))
                      other ne;
                target = refl;
                tasks = ground (arith, there other, ne);
                unreturned = refl;
              })
              v;
      }

  return-Goes :
      (executor : X) (s : System C E T X) (xs ys : List ℕ) (id : ℕ)
      → s.unreturned ≡ xs ++ id ∷ ys
      → Inv executor s
      → Goes executor (return_via executor id (record s { unreturned = xs ++ ys }))
  return-Goes executor s xs ys id split v =
      let there : (other : ℕ)
          → count other s.unreturned ≡ count other (xs ++ ys) + ite (ℕ_discrete id other) 1 0 =
        λ other. ap (count other) split ∙ count-split id other xs ys in
      let lt = made_before executor s id (ground (arith, there id)) v in
      let f = v.fates id lt in
      let (unset, one) = must_come f.call (ground (arith, there id)) in
      let s' : System C E T X = record s {
        unreturned = xs ++ ys;
        contracts = update s.contracts id (contract_with (some executor) f.result_set);
      } in
      record {
        after_step = s';
        taken =
            return_via-some executor id (record s { unreturned = xs ++ ys }) f.executor_set
              f.result_set f.contract;
        invariant =
            change-Inv executor s s' id (inl refl) lt
              (record {
                executor_set = some executor;
                result_set = f.result_set;
                contract = update_self s.contracts id (contract_with (some executor) f.result_set);
                task = f.task;
                call = come (ground (arith, there id, one));
              })
              (λ other ne. record {
                contract =
                    update_other s.contracts id (contract_with (some executor) f.result_set) other
                      ne;
                target = refl;
                tasks = refl;
                unreturned = ground (arith, there other, ne);
              })
              v;
      }

  step-Inv :
      (executor : X) {s s' : System C E T X} → Step executor s s' → Inv executor s → Inv executor s'
  step-Inv executor {s} (calls target e) v =
      subst (Inv executor) (of_some (sym (async_via-some target s) ∙ e))
        (queued-Inv executor target s v)
  step-Inv executor {s} (calls_inline target e) v =
      subst (Inv executor) (of_some (sym (async_inline-some target s) ∙ e))
        (run_at_once-Inv executor target s v)
  step-Inv executor {s} (runs xs ys id split e) v =
      let goes = run-Goes executor s xs ys id split v in
      subst (Inv executor) (of_some (sym goes.taken ∙ e)) goes.invariant
  step-Inv executor {s} (returns xs ys id split e) v =
      let goes = return-Goes executor s xs ys id split v in
      subst (Inv executor) (of_some (sym goes.taken ∙ e)) goes.invariant

  Reach-Inv : (executor : X) {s : System C E T X} → Reach executor s → Inv executor s
  unfolding count
  Reach-Inv executor here = record {
    fates = λ id lt. absurd (omega (arith, lt));
    unmade = λ id le. (refl, refl);
  }
  Reach-Inv executor (next r s) = step-Inv executor s (Reach-Inv executor r)

  -- In every reachable state of calls of `AsyncVia`, to an executor with a queue of any order or to the
  -- inline one: the future of each call has no result while its task waits, once, and then that which the
  -- target of the call returns or throws; it has no executor until the call returns, and then the
  -- executor of the call; and each task that waits can be run: no `SetValue` or `SetError` fails.
  pub Reach-runs :
      (executor : X) {s : System C E T X}
      → Reach executor s
      → ((id : ℕ) → id < s.next_id → Fate executor s id)
        × ((xs ys : List ℕ) (id : ℕ)
            → s.tasks ≡ xs ++ id ∷ ys
            → (s' : System C E T X) × (run_task id (record s { tasks = xs ++ ys }) ≡ some s'))
  Reach-runs executor {s} r =
      let v = Reach-Inv executor r in
      (
        v.fates,
        λ xs ys id split.
            let goes = run-Goes executor s xs ys id split v in (goes.after_step, goes.taken),
      )
