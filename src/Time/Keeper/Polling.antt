-- ===== src/Time/Keeper/Polling.antt =====
-- A poll of the keeper fulfils every promise that is due.
use tpcc.Prelude.{
  ℕ, zero, suc, ◌+◌, ◌<◌, ◌≤◌, Option, some, List, [], ◌∷◌, ◌≡◌, refl, ap, sym, ◌∙◌, subst, arith,
  length, ◌>>=◌, ℕ_discrete,
}
use tpcc.Heap.{PriorityQueue, weigh_list, below}
use tpcc.Time.TimeKeeper.{Timer, less, grab_ready_timers, IsGrab}
use tpcc.Time.Grab.{grab_ready_timers-IsGrab}
use tpcc.Futures.Contract.{Contract, Result}
use tpcc.Time.Keeper.{Worker, grabbing, setting, sleeping, TimeKeeper, grab_into, work, Reach}
use tpcc.Time.Keeper.Timers.{is_of, wrong, in_hand}
use tpcc.Time.Keeper.Invariant.{
  fulfilled, waits, kept, Inv, grab_into-Inv, first_waits, after_set, set_next-some, set_next-Inv,
}
use tpcc.Time.Keeper.Promises.{Reach-Inv, move-Inv}

-- A right timer of a promise is below the time at which the promise is due.
is_of_due :
    (id now next_id : ℕ) (deadlines : ℕ → ℕ) (t : Timer ℕ)
    → deadlines id ≤ now
    → is_of id t ≤ below (λ u. u.deadline) (suc now) t + wrong next_id deadlines t
is_of_due id now next_id deadlines t due = elim (ℕ_discrete t.promise id) [
  | yes e ↦ ground (arith, e, due, ap deadlines e)
  | no ne ↦ ground (arith, ne)
]

module _ {C E X : Type 0} (heap : PriorityQueue (Timer ℕ) less) where
  -- So many steps of the thread in a row, without anybody else.
  abbrev pub work_times : ℕ → TimeKeeper C E X heap → Option (TimeKeeper C E X heap)
  work_times zero k = some k
  work_times (suc rounds) k = work heap k.worker k >>= work_times rounds

  work_times-suc :
      (rounds : ℕ) (k k' : TimeKeeper C E X heap) {w : Worker}
      → k.worker ≡ w
      → work heap w k ≡ some k'
      → work_times (suc rounds) k ≡ work_times rounds k'
  work_times-suc rounds k k' at e =
      ap (λ w. work heap w k >>= work_times rounds) at ∙ ap (λ r. r >>= work_times rounds) e

  -- The keeper is through with its promises: what it has left is as it was.
  record IsThrough (k k' : TimeKeeper C E X heap) : Type 0 where
    asleep : k'.worker ≡ sleeping
    queue : k'.queue ≡ k.queue
    calls : k'.calls ≡ k.calls
    deadlines : k'.deadlines ≡ k.deadlines
    next_id : k'.next_id ≡ k.next_id
    invariant : Inv heap k'

  set_all :
      (ts : List (Timer ℕ)) (k : TimeKeeper C E X heap)
      → k.worker ≡ setting ts
      → Inv heap k
      → (k' : TimeKeeper C E X heap) × (work_times (suc (length ts)) k ≡ some k') × IsThrough k k'
  unfolding work
  set_all [] k at v = (
    record k { worker = sleeping },
    work_times-suc 0 k (record k { worker = sleeping }) at refl,
    record {
      asleep = refl;
      queue = refl;
      calls = refl;
      deadlines = refl;
      next_id = refl;
      invariant =
          move-Inv heap sleeping k (ap in_hand at) refl (λ now e. absurd (ground (arith, e))) v;
    },
  )
  set_all (t ∷ ts) k at v =
      let (k', runs, through) =
        set_all ts (after_set heap t ts k) refl (set_next-Inv heap t ts k at v) in
      (
        k',
        work_times-suc (suc (length ts)) k (after_set heap t ts k) at
              (set_next-some heap t ts k (first_waits heap t ts k at v).1)
            ∙ runs,
        record {
          asleep = through.asleep;
          queue = through.queue;
          calls = through.calls;
          deadlines = through.deadlines;
          next_id = through.next_id;
          invariant = through.invariant;
        },
      )

  -- Of a queue of right timers that has none below the time, no timer is that of a due promise.
  none_left_due :
      (id now : ℕ) (k : TimeKeeper C E X heap)
      → k.deadlines id ≤ now
      → heap.weigh (below (λ t. t.deadline) (suc now)) k.queue ≡ 0
      → Inv heap k
      → heap.weigh (is_of id) k.queue ≡ 0
  none_left_due id now k due left v = omega (
    arith,
    left,
    v.right,
    heap.weigh-sum (below (λ t. t.deadline) (suc now)) (wrong k.next_id k.deadlines) k.queue,
    heap.weigh-mono (is_of id)
        (λ t. below (λ u. u.deadline) (suc now) t + wrong k.next_id k.deadlines t) k.queue
        (λ t. is_of_due id now k.next_id k.deadlines t due),
  )

  -- Let the empty queue hold nothing. In any reachable state in which the thread is about to grab the
  -- timers that are due at a time, some number of its steps in a row take it to its sleep, and then every
  -- promise made so far that is due at that time, and whose timer `After` has added, is fulfilled.
  pub Reach-polled :
      (empty : heap.Queue) (contracts : ℕ → Contract C (Result E (Unit {0})) X)
      → ((w : Timer ℕ → ℕ) → heap.weigh w empty ≡ 0)
      → {k : TimeKeeper C E X heap} → Reach heap empty contracts k
      → (now : ℕ) → k.worker ≡ grabbing now
      → (rounds : ℕ) × (k' : TimeKeeper C E X heap) × (work_times rounds k ≡ some k')
        × (k'.worker ≡ sleeping)
        × ((id : ℕ)
            → id < k.next_id
            → k.deadlines id ≤ now
            → weigh_list (is_of id) k.calls ≡ 0
            → k'.contracts id ≡ fulfilled)
  unfolding work
  Reach-polled empty contracts none_in {k} r now at =
      let v = Reach-Inv heap empty contracts none_in r in
      let result = grab_ready_timers heap now k.queue in
      let grab : IsGrab heap now 0 k.queue result = grab_ready_timers-IsGrab heap now k.queue in
      let (k', runs, through) =
        set_all result.0 (grab_into heap k result) refl
          (grab_into-Inv heap now k result at grab v) in
      (
        suc (suc (length result.0)),
        k',
        work_times-suc (suc (length result.0)) k (grab_into heap k result) at refl ∙ runs,
        through.asleep,
        λ id lt due added.
            elim (through.invariant.fates id (subst (λ n. id < n) (sym through.next_id) lt)) [
              | kept c none_of soon ↦ c
              | waits c one ↦ absurd (
                  omega (
                    arith,
                    one,
                    ap (λ q. heap.weigh (is_of id) q) through.queue,
                    ap (λ ts. weigh_list (is_of id) ts) through.calls,
                    ap (λ w. weigh_list (is_of id) (in_hand w)) through.asleep,
                    added,
                    none_left_due id now k' (omega (arith, due, ap (λ d. d id) through.deadlines))
                        (ap (heap.weigh (below (λ t. t.deadline) (suc now))) through.queue
                          ∙ grab.left)
                        through.invariant,
                  ))
            ],
      )
