-- ===== src/TinyFibers/Scheduler/Placement.antt =====
-- Where a fiber is: it runs, or is ready, or is suspended, and no two timers and wait queues hold it.
use tpcc.Prelude.{
  ℕ, ◌+◌, ◌<◌, ◌≤◌, ◌++◌, List, [], ◌∷◌, true, Option, none, some, ◌≡◌, refl, update, ◌>>=◌, ite,
  ℕ_discrete, total, total-update, arith, ap, ◌∙◌, fun_ext, update_self, count, count-append,
}
use tpcc.TinyFibers.Scheduler.{
  FiberState, absent, starting, runnable, running, suspended, terminated, Scheduler, set_state,
  schedule, spawn, is_suspended, resume, destroy, reschedule_from, reschedule, switch_to_scheduler,
  step, yield, suspend, terminate, sleep_for, park,
}

abbrev pub ready : FiberState → ℕ
ready starting = 1
ready runnable = 1
ready _ = 0

abbrev pub waits : FiberState → ℕ
waits suspended = 1
waits _ = 0

abbrev pub runs_now : FiberState → ℕ
runs_now running = 1
runs_now _ = 0

abbrev pub ended : FiberState → ℕ
ended terminated = 1
ended _ = 0

abbrev pub is_current : ℕ → Option ℕ → ℕ
is_current fiber none = 0
is_current fiber (some x) = ite (ℕ_discrete x fiber) 1 0

-- A fiber is counted in one way at most.
exclusive : (a : FiberState) → ready a + waits a + runs_now a + ended a ≤ 1
exclusive absent = omega arith
exclusive _ = omega arith

pub count-split :
    (f : ℕ) (xs ys : List ℕ) (fiber : ℕ) (zs : List ℕ)
    → zs ≡ xs ++ fiber ∷ ys
    → count f zs ≡ ite (ℕ_discrete fiber f) 1 0 + count f (xs ++ ys)
unfolding count
count-split f xs ys fiber zs e =
    ap (count f) e ∙ omega (arith, count-append f xs (fiber ∷ ys), count-append f xs ys)

count-snoc :
    (f : ℕ) (xs : List ℕ) (fiber : ℕ)
    → count f (xs ++ fiber ∷ []) ≡ count f xs + ite (ℕ_discrete fiber f) 1 0
unfolding count
count-snoc f xs fiber = omega (arith, count-append f xs (fiber ∷ []))

module _ (m : ℕ) where
  -- The number of times that a fiber stands in the lists that hold suspended fibers.
  abbrev pub held : ℕ → Scheduler → ℕ
  held fiber s = total (count fiber) m s.wait_queues + count fiber s.timers

  pub record Inv (s : Scheduler) : Type 0 where
    pub in_loop : (f : ℕ) → count f s.posted ≡ ready (s.fibers f)
    pub in_wait : (f : ℕ) → held f s ≤ waits (s.fibers f)
    pub now : (f : ℕ) → is_current f s.current ≡ runs_now (s.fibers f)
    pub settled : (f : ℕ) → ended (s.fibers f) ≡ 0
    pub fresh : (f : ℕ) → s.next_id ≤ f → s.fibers f ≡ absent

  pub spawn-Inv : (s : Scheduler) → Inv s → Inv (spawn s)
  unfolding spawn schedule count
  spawn-Inv s v =
      let new = v.fresh s.next_id (omega arith) in
      record {
        in_loop = λ f. ground (arith, count-append f s.posted (s.next_id ∷ []), v.in_loop f, new);
        in_wait = λ f. ground (arith, v.in_wait f, new);
        now = λ f. ground (arith, v.now f, new);
        settled = λ f. ground (arith, v.settled f, new);
        fresh = λ f h. ground (arith, v.fresh f (omega (arith, h)));
      }

  pub step-Inv :
      (s : Scheduler) (xs ys : List ℕ) (fiber : ℕ)
      → s.current ≡ none
      → s.posted ≡ xs ++ fiber ∷ ys
      → Inv s
      → Inv (step fiber (record s { posted = xs ++ ys }))
  unfolding step
  step-Inv s xs ys fiber idle e v =
      let listed = λ (f : ℕ). count-split f xs ys fiber s.posted e in
      let one = exclusive (s.fibers fiber) in
      let was = v.in_loop fiber in
      record {
        in_loop = λ f. ground (arith, listed f, v.in_loop f, one);
        in_wait = λ f. ground (arith, listed f, v.in_loop f, v.in_wait f, one);
        now = λ f. ground (arith, listed f, v.in_loop f, v.now f, idle);
        settled = λ f. ground (arith, v.settled f);
        fresh = λ f h. ground (arith, listed f, v.in_loop f, v.fresh f h);
      }

  -- The three ways in which a fiber leaves the processor.
  leave_cases :
      (s : Scheduler) (fiber : ℕ) (target : FiberState) (posted : List ℕ)
      → s.current ≡ some fiber
      → ((f : ℕ) → count f posted ≡ count f s.posted + ite (ℕ_discrete fiber f) (ready target) 0)
      → runs_now target ≡ 0
      → ended target ≡ 0
      → (queues : ℕ → List ℕ) (timers : List ℕ)
      → ((f : ℕ)
          → total (count f) m queues + count f timers
            ≤ held f s + ite (ℕ_discrete fiber f) (waits target) 0)
      → Inv s
      → Inv (record s {
        fibers = update s.fibers fiber target;
        current = none;
        posted = posted;
        timers = timers;
        wait_queues = queues;
      })
  leave_cases s fiber target posted busy listed no_run no_end queues timers waited v =
      let one = exclusive (s.fibers fiber) in
      record {
        in_loop = λ f. ground (arith, listed f, v.in_loop f, v.now f, one, busy);
        in_wait = λ f. ground (arith, waited f, v.in_wait f, v.now f, one, busy);
        now = λ f. ground (arith, v.now f, busy, no_run);
        settled = λ f. ground (arith, v.settled f, no_end);
        fresh = λ f h. ground (arith, v.fresh f h, v.now f, busy);
      }

  -- What the operations of a running fiber come to: they return, and keep the balance.
  abbrev pub Succeeds : Option Scheduler → Type 0
  Succeeds r = (t : Scheduler) × (r ≡ some t) × Inv t

  unmoved : (s : Scheduler) (fiber f : ℕ) → held f s ≤ held f s + ite (ℕ_discrete fiber f) 0 0
  unmoved s fiber f = ground arith

  pub yield-Succeeds :
      (s : Scheduler) (fiber : ℕ) → s.current ≡ some fiber → Inv s → Succeeds (yield s)
  unfolding yield switch_to_scheduler reschedule schedule reschedule_from
  yield-Succeeds s fiber busy v = (
    _,
    ap (λ c. c >>= (λ x. switch_to_scheduler x (set_state x runnable s))) busy
        ∙ ap (λ a. reschedule_from a fiber (record (set_state fiber runnable s) { current = none }))
            (update_self s.fibers fiber runnable),
    leave_cases s fiber runnable (s.posted ++ fiber ∷ []) busy (λ f. count-snoc f s.posted fiber)
        refl refl s.wait_queues s.timers (unmoved s fiber) v,
  )

  suspend-Succeeds :
      (s : Scheduler) (fiber : ℕ) (queues : ℕ → List ℕ) (timers : List ℕ)
      → s.current ≡ some fiber
      → ((f : ℕ)
          → total (count f) m queues + count f timers ≤ held f s + ite (ℕ_discrete fiber f) 1 0)
      → Inv s
      → Succeeds (suspend (record s { wait_queues = queues; timers = timers }))
  unfolding suspend switch_to_scheduler reschedule reschedule_from
  suspend-Succeeds s fiber queues timers busy waited v =
      let s' : Scheduler = record s { wait_queues = queues; timers = timers } in
      (
        _,
        ap (λ c. c >>= (λ x. switch_to_scheduler x (set_state x suspended s'))) busy
            ∙ ap
                (λ a.
                  reschedule_from a fiber
                    (record (set_state fiber suspended s') { current = none }))
                (update_self s.fibers fiber suspended),
        leave_cases s fiber suspended s.posted busy (λ f. ground arith) refl refl queues timers
            waited v,
      )

  -- `Suspend` on its own: the fiber stands in no list.
  pub suspend_aside-Succeeds :
      (s : Scheduler) (fiber : ℕ) → s.current ≡ some fiber → Inv s → Succeeds (suspend s)
  suspend_aside-Succeeds s fiber busy v =
      suspend-Succeeds s fiber s.wait_queues s.timers busy (λ f. ground arith) v

  -- `Resume` of a suspended fiber that stands in no list.
  pub resume_aside-Succeeds :
      (s : Scheduler) (fiber : ℕ)
      → s.fibers fiber ≡ suspended
      → held fiber s ≡ 0
      → Inv s
      → Succeeds (resume fiber s)
  unfolding resume schedule
  resume_aside-Succeeds s fiber asleep aside v = (
    schedule fiber (set_state fiber runnable s),
    rw (asleep) refl,
    record {
      in_loop = λ f. ground (arith, v.in_loop f, asleep, count-snoc f s.posted fiber);
      in_wait = λ f. ground (arith, v.in_wait f, aside);
      now = λ f. ground (arith, v.now f, asleep);
      settled = λ f. ground (arith, v.settled f);
      fresh = λ f h. ground (arith, v.fresh f h, asleep);
    },
  )

  pub terminate-Succeeds :
      (s : Scheduler) (fiber : ℕ) → s.current ≡ some fiber → Inv s → Succeeds (terminate s)
  unfolding terminate switch_to_scheduler reschedule destroy reschedule_from
  terminate-Succeeds s fiber busy v = (
    _,
    ap (λ c. c >>= (λ x. switch_to_scheduler x (set_state x terminated s))) busy
        ∙ ap
            (λ a.
              reschedule_from a fiber (record (set_state fiber terminated s) { current = none }))
            (update_self s.fibers fiber terminated)
        ∙ ap (λ fs. some (record s { fibers = fs; current = none })) (update_twice s.fibers fiber),
    leave_cases s fiber absent s.posted busy (λ f. ground arith) refl refl s.wait_queues s.timers
        (unmoved s fiber) v,
  )
    where
      update_twice :
          (fs : ℕ → FiberState) (i : ℕ)
          → update (update fs i terminated) i absent ≡ update fs i absent
      update_twice fs i = fun_ext (λ j. ground arith)

  pub sleep_for-Succeeds :
      (s : Scheduler) (fiber : ℕ) → s.current ≡ some fiber → Inv s → Succeeds (sleep_for s)
  unfolding sleep_for
  sleep_for-Succeeds s fiber busy v =
      let (t, e, w) =
        suspend-Succeeds s fiber s.wait_queues (s.timers ++ fiber ∷ []) busy
          (λ f. omega (arith, count-snoc f s.timers fiber)) v in
      (t, ap (λ c. c >>= (λ x. suspend (record s { timers = s.timers ++ x ∷ [] }))) busy ∙ e, w)

  pub park-Succeeds :
      (s : Scheduler) (fiber q : ℕ) → q < m → s.current ≡ some fiber → Inv s → Succeeds (park q s)
  unfolding park
  park-Succeeds s fiber q h busy v =
      let longer = λ (x : ℕ). update s.wait_queues q (s.wait_queues q ++ x ∷ []) in
      let (t, e, w) =
        suspend-Succeeds s fiber (longer fiber) s.timers busy
          (λ f. omega (
            arith,
            count-snoc f (s.wait_queues q) fiber,
            total-update (count f) m s.wait_queues q (s.wait_queues q ++ fiber ∷ []) h,
          ))
          v in
      (t, ap (λ c. c >>= (λ x. suspend (record s { wait_queues = longer x }))) busy ∙ e, w)

  -- A fiber that stands in one of the lists once more than its state says is resumed.
  pub resume-Succeeds :
      (s : Scheduler) (fiber : ℕ) (queues : ℕ → List ℕ) (timers : List ℕ)
      → ((f : ℕ)
          → held f s ≡ ite (ℕ_discrete fiber f) 1 0 + (total (count f) m queues + count f timers))
      → Inv s
      → (resume fiber (record s { wait_queues = queues; timers = timers })
          ≡ some (record s {
            fibers = update s.fibers fiber runnable;
            posted = s.posted ++ fiber ∷ [];
            wait_queues = queues;
            timers = timers;
          }))
        × Inv (record s {
          fibers = update s.fibers fiber runnable;
          posted = s.posted ++ fiber ∷ [];
          wait_queues = queues;
          timers = timers;
        })
  unfolding resume schedule
  resume-Succeeds s fiber queues timers less v =
      let one = exclusive (s.fibers fiber) in
      let waiting : is_suspended (s.fibers fiber) ≡ true =
        waits-suspended (s.fibers fiber)
          (ground (arith, less fiber, v.in_wait fiber, waits-le (s.fibers fiber))) in
      (
        ground (arith, waiting),
        record {
          in_loop = λ f.
              ground (arith, less f, v.in_loop f, v.in_wait f, one, count-snoc f s.posted fiber);
          in_wait = λ f. ground (arith, less f, v.in_wait f, waits-le (s.fibers f));
          now = λ f. ground (arith, less f, v.now f, v.in_wait f, one);
          settled = λ f. ground (arith, v.settled f);
          fresh = λ f h. ground (arith, less f, v.fresh f h, v.in_wait f);
        },
      )
    where
      waits-suspended : (a : FiberState) → waits a ≡ 1 → is_suspended a ≡ true
      waits-suspended suspended e = refl
      waits-suspended absent e = absurd (omega (arith, e))
      waits-suspended starting e = absurd (omega (arith, e))
      waits-suspended runnable e = absurd (omega (arith, e))
      waits-suspended running e = absurd (omega (arith, e))
      waits-suspended terminated e = absurd (omega (arith, e))

      waits-le : (a : FiberState) → waits a ≤ 1
      waits-le suspended = omega arith
      waits-le _ = omega arith
