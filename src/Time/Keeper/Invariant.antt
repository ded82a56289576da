-- ===== src/Time/Keeper/Invariant.antt =====
-- What the keeper's steps keep: the fates of its promises.
use tpcc.Prelude.{
  ℕ, ◌+◌, ◌<◌, ◌≤◌, true, false, none, some, List, [], ◌∷◌, ◌++◌, ◌≡◌, refl, ap, ◌∙◌, subst, update,
  update_self, update_other, arith, ℕ_discrete, ◌>>=◌,
}
use tpcc.Heap.{PriorityQueue, weigh_list}
use tpcc.Time.TimeKeeper.{Timer, less, add_timer, IsGrab}
use tpcc.Futures.State.{make_shared_state, only_result}
use tpcc.Futures.Contract.{Contract, Result, ok, set_value}
use tpcc.Time.Keeper.{
  grabbing, setting, TimeKeeper, with_contract, end_after, grab_into, unless_panicked, set_next,
}
use tpcc.Time.Keeper.Timers.{
  weigh_list-append, is_of, early, wrong, in_hand, due_not_early, early_later, weigh_list_mono,
  wrong_later, is_of_unmade,
}

module _ {C E X : Type 0} where
  -- The contract as `After` made it, and when its promise is kept.
  abbrev pub pending : Contract C (Result E (Unit {0})) X
  pending = record {
    cell = make_shared_state;
    promise_held = true;
    future_extracted = true;
    future_held = true;
  }

  abbrev pub fulfilled : Contract C (Result E (Unit {0})) X
  fulfilled = record pending {
    cell = record { state = only_result; callback = none; result = some (ok tt); executor = none };
    promise_held = false;
  }

module _ {C E X : Type 0} (heap : PriorityQueue (Timer ℕ) less) where
  -- The timers of `calls`, of the queue and of those that the thread has grabbed, weighed.
  abbrev pub weigh_all : (Timer ℕ → ℕ) → TimeKeeper C E X heap → ℕ
  weigh_all w k = weigh_list w k.calls + heap.weigh w k.queue + weigh_list w (in_hand k.worker)

  pub data Fate (k : TimeKeeper C E X heap) (id : ℕ) : Type 0 where
    waits : k.contracts id ≡ pending → weigh_all (is_of id) k ≡ 1 → Fate k id
    kept :
        k.contracts id ≡ fulfilled
        → weigh_all (is_of id) k ≡ 0
        → k.deadlines id ≤ k.clock
        → Fate k id

  pub record Inv (k : TimeKeeper C E X heap) : Type 0 where
    pub fates : (id : ℕ) → id < k.next_id → Fate k id
    pub right : weigh_all (wrong k.next_id k.deadlines) k ≡ 0
    pub due : weigh_list (early k.clock) (in_hand k.worker) ≡ 0
    pub past : (now : ℕ) → k.worker ≡ grabbing now → now ≤ k.clock

  -- A step that leaves the contracts and every weight as they are.
  fate_still :
      {k k' : TimeKeeper C E X heap} (id : ℕ)
      → k'.contracts id ≡ k.contracts id
      → weigh_all (is_of id) k' ≡ weigh_all (is_of id) k
      → k'.deadlines id ≡ k.deadlines id
      → k.clock ≤ k'.clock
      → Fate k id
      → Fate k' id
  fate_still id same weight deadline le (waits e one) = waits (same ∙ e) (weight ∙ one)
  fate_still id same weight deadline le (kept e zero_of soon) =
      kept (same ∙ e) (weight ∙ zero_of) (omega (arith, soon, le, deadline))

  pub still :
      {k k' : TimeKeeper C E X heap}
      → k'.contracts ≡ k.contracts
      → ((w : Timer ℕ → ℕ) → weigh_all w k' ≡ weigh_all w k)
      → k'.deadlines ≡ k.deadlines
      → k'.next_id ≡ k.next_id
      → k.clock ≤ k'.clock
      → weigh_list (early k'.clock) (in_hand k'.worker) ≡ 0
      → ((now : ℕ) → k'.worker ≡ grabbing now → now ≤ k'.clock)
      → Inv k
      → Inv k'
  still {k} {k'} same weight deadline ids le due past v = record {
    fates = λ id lt.
        fate_still id (ap (λ f. f id) same) (weight (is_of id)) (ap (λ f. f id) deadline) le
          (v.fates id (subst (λ n. id < n) ids lt));
    right =
        weight (wrong k'.next_id k'.deadlines)
        ∙ ap (λ d. weigh_all (wrong k'.next_id d) k) deadline
        ∙ ap (λ n. weigh_all (wrong n k.deadlines) k) ids
        ∙ v.right;
    due = due;
    past = past;
  }

  -- The timer that `After` makes.
  abbrev new_timer : ℕ → TimeKeeper C E X heap → Timer ℕ
  new_timer d k = record { deadline = k.clock + d; promise = k.next_id }

  weigh_all-with_contract :
      (w : Timer ℕ → ℕ) (d : ℕ) (k : TimeKeeper C E X heap)
      (contract : Contract C (Result E (Unit {0})) X)
      → weigh_all w (with_contract heap d k contract) ≡ w (new_timer d k) + weigh_all w k
  weigh_all-with_contract w d k contract =
      omega (arith, weigh_list-append w k.calls (new_timer d k ∷ []))

  weigh_all_mono :
      (v w : Timer ℕ → ℕ) (k : TimeKeeper C E X heap)
      → ((t : Timer ℕ) → v t ≤ w t)
      → weigh_all v k ≤ weigh_all w k
  weigh_all_mono v w k le = omega (
    arith,
    weigh_list_mono v w k.calls le,
    heap.weigh-mono v w k.queue le,
    weigh_list_mono v w (in_hand k.worker) le,
  )

  -- No timer is that of a promise that is not made yet.
  unmade : (k : TimeKeeper C E X heap) → Inv k → weigh_all (is_of k.next_id) k ≡ 0
  unmade k v = omega (
    arith,
    v.right,
    weigh_all_mono (is_of k.next_id) (wrong k.next_id k.deadlines) k
        (is_of_unmade k.next_id k.deadlines),
  )

  pub with_contract-Inv :
      (d : ℕ) (k : TimeKeeper C E X heap) → Inv k → Inv (with_contract heap d k pending)
  with_contract-Inv d k v = record {
    fates = λ id lt. elim (ℕ_discrete k.next_id id) [
      | yes e ↦ subst (Fate k') e (
          waits (update_self k.contracts k.next_id pending)
            (weigh_all-with_contract (is_of k.next_id) d k pending ∙ ground (arith, unmade k v)))
      | no ne ↦
          fate_still id (update_other k.contracts k.next_id pending id ne)
            (weigh_all-with_contract (is_of id) d k pending ∙ ground (arith, ne))
            (update_other k.deadlines k.next_id (k.clock + d) id ne) (omega arith)
            (v.fates id (omega (arith, lt, ne)))
    ];
    right = omega (
      arith,
      weigh_all-with_contract wrong_now d k pending,
      weigh_all_mono wrong_now (wrong k.next_id k.deadlines) k
          (wrong_later k.next_id (k.clock + d) k.deadlines),
      v.right,
      new_right,
    );
    due = v.due;
    past = v.past;
  }
    where
      k' : TimeKeeper C E X heap
      k' = with_contract heap d k pending

      wrong_now : Timer ℕ → ℕ
      wrong_now = wrong k'.next_id k'.deadlines

      new_right : wrong_now (new_timer d k) ≡ 0
      new_right = ground (arith, update_self k.deadlines k.next_id (k.clock + d))

  pub end_after-weigh_all :
      (w : Timer ℕ → ℕ) (xs ys : List (Timer ℕ)) (t : Timer ℕ) (k : TimeKeeper C E X heap)
      → k.calls ≡ xs ++ t ∷ ys
      → weigh_all w (end_after heap t (xs ++ ys) k) ≡ weigh_all w k
  unfolding end_after add_timer
  end_after-weigh_all w xs ys t k e = omega (
    arith,
    heap.weigh-push w t k.queue,
    weigh_list-append w xs ys,
    weigh_list-append w xs (t ∷ ys),
    ap (weigh_list w) e,
  )

  pub grab_into-Inv :
      (now : ℕ) (k : TimeKeeper C E X heap) (r : List (Timer ℕ) × heap.Queue)
      → k.worker ≡ grabbing now
      → IsGrab heap now 0 k.queue r
      → Inv k
      → Inv (grab_into heap k r)
  grab_into-Inv now k (ts, q) e grab v =
      still refl (λ w. omega (arith, grab.conserved w, ap (λ x. weigh_list w (in_hand x)) e)) refl
        refl (omega arith)
        (early_later now k.clock ts (v.past now e) (omega (arith, due_not_early now ts, grab.due)))
        (λ n h. absurd (ground (arith, h))) v

  -- A grabbed timer is one of a pending promise, whose deadline has come.
  pub first_waits :
      (t : Timer ℕ) (rest : List (Timer ℕ)) (k : TimeKeeper C E X heap)
      → k.worker ≡ setting (t ∷ rest)
      → Inv k
      → (t.promise < k.next_id)
        × (k.contracts t.promise ≡ pending)
        × (weigh_all (is_of t.promise) k ≡ 1)
        × (k.deadlines t.promise ≤ k.clock)
  first_waits t rest k e v = (made, still_waits.0, still_waits.1, ground (arith, right, not_early))
    where
      hand : (w : Timer ℕ → ℕ) → weigh_list w (in_hand k.worker) ≡ w t + weigh_list w rest
      hand w = ap (λ x. weigh_list w (in_hand x)) e

      right : wrong k.next_id k.deadlines t ≡ 0
      right = omega (arith, v.right, hand (wrong k.next_id k.deadlines))

      not_early : early k.clock t ≡ 0
      not_early = omega (arith, v.due, hand (early k.clock))

      made : t.promise < k.next_id
      made = ground (arith, right)

      self : is_of t.promise t ≡ 1
      self = ground arith

      one_of : is_of t.promise t ≤ weigh_all (is_of t.promise) k
      one_of = omega (arith, hand (is_of t.promise))

      still_waits : (k.contracts t.promise ≡ pending) × (weigh_all (is_of t.promise) k ≡ 1)
      still_waits = elim (v.fates t.promise made) [
        | waits c one ↦ (c, one)
        | kept c none_left soon ↦ absurd (omega (arith, none_left, one_of, self))
      ]

  -- The keeper after `SetValue` on a pending promise.
  abbrev pub after_set : Timer ℕ → List (Timer ℕ) → TimeKeeper C E X heap → TimeKeeper C E X heap
  after_set t rest k = record k {
    contracts = update k.contracts t.promise fulfilled;
    worker = setting rest;
  }

  pub set_next-some :
      (t : Timer ℕ) (rest : List (Timer ℕ)) (k : TimeKeeper C E X heap)
      → k.contracts t.promise ≡ pending
      → set_next heap t rest k ≡ some (after_set t rest k)
  unfolding set_next set_value
  set_next-some t rest k e =
      ap
        (λ c. do
          (contract, outcome) ← set_value tt c
          unless_panicked heap outcome (record k {
            contracts = update k.contracts t.promise contract;
            worker = setting rest;
          }))
        e

  pub set_next-Inv :
      (t : Timer ℕ) (rest : List (Timer ℕ)) (k : TimeKeeper C E X heap)
      → k.worker ≡ setting (t ∷ rest)
      → Inv k
      → Inv (after_set t rest k)
  set_next-Inv t rest k e v = record {
    fates = λ id lt. elim (ℕ_discrete t.promise id) [
      | yes same ↦ subst (Fate (after_set t rest k)) same (
          kept (update_self k.contracts t.promise fulfilled)
            (ground (arith, taken (is_of t.promise), one)) soon)
      | no ne ↦
          fate_still id (update_other k.contracts t.promise fulfilled id ne)
            (ground (arith, taken (is_of id), ne)) refl (omega arith) (v.fates id lt)
    ];
    right = omega (arith, taken (wrong k.next_id k.deadlines), v.right);
    due = omega (arith, v.due, ap (λ x. weigh_list (early k.clock) (in_hand x)) e);
    past = λ now h. absurd (ground (arith, h));
  }
    where
      taken : (w : Timer ℕ → ℕ) → w t + weigh_all w (after_set t rest k) ≡ weigh_all w k
      taken w = omega (arith, ap (λ x. weigh_list w (in_hand x)) e)

      one : weigh_all (is_of t.promise) k ≡ 1
      one = (first_waits t rest k e v).2

      soon : k.deadlines t.promise ≤ k.clock
      soon = (first_waits t rest k e v).3
