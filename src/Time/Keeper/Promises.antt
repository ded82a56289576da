-- ===== src/Time/Keeper/Promises.antt =====
-- Every promise of a timer is kept once, and not before its deadline.
use tpcc.Prelude.{
  ℕ, suc, ◌<◌, ◌≤◌, Bool, true, false, some, [], ◌∷◌, ◌≡◌, ◌≢◌, ◌⊎◌, inl, inr, refl, ap, sym, ◌∙◌,
  subst, if◌then◌else◌, arith, of_some,
}
use tpcc.Heap.{PriorityQueue, weigh_list}
use tpcc.Time.TimeKeeper.{Timer, less, grab_ready_timers}
use tpcc.Time.Grab.{grab_ready_timers-IsGrab}
use tpcc.Futures.Contract.{Contract, Result, make_contract}
use tpcc.Time.Keeper.{
  Worker, testing, polling, grabbing, setting, sleeping, returned, TimeKeeper, with_contract, after,
  end_after, grab_into, work, stop, Step, calls_after, adds, works, stops, ticks, Reach, here, next,
}
use tpcc.Time.Keeper.Timers.{in_hand, early, early_later, wrong}
use tpcc.Time.Keeper.Invariant.{
  pending, Fate, Inv, still, with_contract-Inv, end_after-weigh_all, grab_into-Inv, first_waits,
  after_set, set_next-some, set_next-Inv,
}

returned_or : (w : Worker) → (w ≡ returned) ⊎ (w ≢ returned)
returned_or returned = inl refl
returned_or testing = inr (λ e. ground (arith, e))
returned_or polling = inr (λ e. ground (arith, e))
returned_or (grabbing now) = inr (λ e. ground (arith, e))
returned_or (setting ts) = inr (λ e. ground (arith, e))
returned_or sleeping = inr (λ e. ground (arith, e))

module _ {C E X : Type 0} (heap : PriorityQueue (Timer ℕ) less) where
  -- The thread goes to a place where it has no timers, from one where it has none.
  pub move-Inv :
      (w : Worker) (k : TimeKeeper C E X heap)
      → in_hand k.worker ≡ []
      → in_hand w ≡ []
      → ((now : ℕ) → w ≡ grabbing now → now ≤ k.clock)
      → Inv heap k
      → Inv heap (record k { worker = w })
  move-Inv w k e e' past v =
      still heap refl (λ v. omega (arith, ap (weigh_list v) e, ap (weigh_list v) e')) refl refl
        (omega arith) (ap (weigh_list (early k.clock)) e') past v

  -- What the thread does next goes well, and keeps the invariant.
  record Goes (w : Worker) (k : TimeKeeper C E X heap) : Type 0 where
    after_step : TimeKeeper C E X heap
    taken : work heap w k ≡ some after_step
    invariant : Inv heap after_step

  work-Goes :
      (w : Worker) (k : TimeKeeper C E X heap) → k.worker ≡ w → w ≢ returned → Inv heap k → Goes w k
  unfolding work grab_ready_timers
  work-Goes testing k e ne v = record {
    after_step = record k { worker = if k.stop_requested then returned else polling };
    taken = refl;
    invariant = by_flag k.stop_requested;
  }
    where
      by_flag : (b : Bool) → Inv heap (record k { worker = if b then returned else polling })
      by_flag true = move-Inv returned k (ap in_hand e) refl (λ now h. absurd (ground (arith, h))) v
      by_flag false = move-Inv polling k (ap in_hand e) refl (λ now h. absurd (ground (arith, h))) v
  work-Goes polling k e ne v = record {
    after_step = record k { worker = grabbing k.clock };
    taken = refl;
    invariant = move-Inv (grabbing k.clock) k (ap in_hand e) refl (λ now h. ground (arith, h)) v;
  }
  work-Goes (grabbing now) k e ne v = record {
    after_step = grab_into heap k (grab_ready_timers heap now k.queue);
    taken = refl;
    invariant =
        grab_into-Inv heap now k (grab_ready_timers heap now k.queue) e
          (grab_ready_timers-IsGrab heap now k.queue) v;
  }
  work-Goes (setting (t ∷ rest)) k e ne v = record {
    after_step = after_set heap t rest k;
    taken = set_next-some heap t rest k (first_waits heap t rest k e v).1;
    invariant = set_next-Inv heap t rest k e v;
  }
  work-Goes (setting []) k e ne v = record {
    after_step = record k { worker = sleeping };
    taken = refl;
    invariant = move-Inv sleeping k (ap in_hand e) refl (λ now h. absurd (ground (arith, h))) v;
  }
  work-Goes sleeping k e ne v = record {
    after_step = record k { worker = testing };
    taken = refl;
    invariant = move-Inv testing k (ap in_hand e) refl (λ now h. absurd (ground (arith, h))) v;
  }
  work-Goes returned k e ne v = absurd (ne refl)

  tick-Inv : (k : TimeKeeper C E X heap) → Inv heap k → Inv heap (record k { clock = suc k.clock })
  tick-Inv k v =
      still heap refl (λ w. refl) refl refl (omega arith)
        (early_later k.clock (suc k.clock) (in_hand k.worker) (omega arith) v.due)
        (λ now e. omega (arith, v.past now e)) v

  after-pending :
      (d : ℕ) (k : TimeKeeper C E X heap) → after heap d k ≡ some (with_contract heap d k pending)
  unfolding after make_contract
  after-pending d k = refl

  work-Inv :
      (k : TimeKeeper C E X heap) {k' : TimeKeeper C E X heap}
      → work heap k.worker k ≡ some k'
      → Inv heap k
      → Inv heap k'
  unfolding work
  work-Inv k {k'} e v = elim (returned_or k.worker) [
    | inl over ↦ absurd (ground (arith, sym (ap (λ w. work heap w k) over) ∙ e))
    | inr ne ↦
        let goes = work-Goes k.worker k refl ne v in
        subst (Inv heap) (of_some (sym goes.taken ∙ e)) goes.invariant
  ]

  step-Inv : {k k' : TimeKeeper C E X heap} → Step heap k k' → Inv heap k → Inv heap k'
  unfolding stop end_after
  step-Inv {k} (calls_after d e) v =
      subst (Inv heap) (of_some (sym (after-pending d k) ∙ e)) (with_contract-Inv heap d k v)
  step-Inv {k} (adds xs ys t e) v =
      still heap refl (λ w. end_after-weigh_all heap w xs ys t k e) refl refl (omega arith) v.due
        v.past v
  step-Inv {k} (works e) v = work-Inv k e v
  step-Inv {k} stops v = still heap refl (λ w. refl) refl refl (omega arith) v.due v.past v
  step-Inv {k} ticks v = tick-Inv k v

  module _ (empty : heap.Queue) (contracts : ℕ → Contract C (Result E (Unit {0})) X) where
    pub Reach-Inv :
        ((w : Timer ℕ → ℕ) → heap.weigh w empty ≡ 0)
        → {k : TimeKeeper C E X heap} → Reach heap empty contracts k
        → Inv heap k
    Reach-Inv none_in here = record {
      fates = λ id lt. absurd (omega (arith, lt));
      right = omega (arith, none_in (wrong 0 (λ _. 0)));
      due = refl;
      past = λ now e. absurd (ground (arith, e));
    }
    Reach-Inv none_in (next r s) = step-Inv s (Reach-Inv none_in r)

    -- Let the empty queue hold nothing. At any time, whatever calls of `After` and steps of the thread
    -- and of the clock came before, each promise made so far is either pending, and exactly one timer is
    -- its, or fulfilled with the unit value, and no timer is its and its deadline has come. Unless the
    -- thread has returned, its next step succeeds: no `SetValue` fails.
    pub Reach-kept :
        ((w : Timer ℕ → ℕ) → heap.weigh w empty ≡ 0)
        → {k : TimeKeeper C E X heap} → Reach heap empty contracts k
        → ((id : ℕ) → id < k.next_id → Fate heap k id)
          × (k.worker ≢ returned → (k' : TimeKeeper C E X heap) × (work heap k.worker k ≡ some k'))
    Reach-kept none_in {k} r =
        let v = Reach-Inv none_in r in
        (v.fates, λ ne. let goes = work-Goes k.worker k refl ne v in (goes.after_step, goes.taken))
