-- ===== src/TinyFibers/Stacks/Presence.antt =====
-- Which fibers are there after an operation of the scheduler.
use tpcc.Prelude.{
  ℕ, Option, none, some, List, [], ◌∷◌, ◌++◌, ◌≡◌, ◌≢◌, refl, ap, sym, ◌∙◌, subst, update,
  update_self, update_cases, arith, of_some, ◌>>=◌, if◌then◌else◌, ◌⊎◌, inr, update_other, inl,
}
use tpcc.TinyFibers.Scheduler.{
  FiberState, absent, starting, runnable, running, suspended, terminated, Scheduler, set_state,
  schedule, is_suspended, resume, destroy, reschedule_from, reschedule, switch_to_scheduler, yield,
  suspend, terminate, sleep_for, park, wake_front, wake_one, wake_loop, wake_all, Call, suspends,
  resumes, spawns, yields, sleeps, terminates, parks, wakes_one, wakes_all, perform,
}
use tpcc.TinyFibers.Scheduler.Liveness.{present}

-- Where a chain of operations succeeds, its first part does.
bind_some :
    (r : Option Scheduler) (g : Scheduler → Option Scheduler) {t : Scheduler}
    → (r >>= g) ≡ some t
    → (u : Scheduler) × (r ≡ some u) × (g u ≡ some t)
bind_some none g e = absurd (ground (arith, e))
bind_some (some u) g e = (u, refl, e)

-- The same fibers are there, and none is made.
pub record IsSameFibers (s t : Scheduler) : Type 0 where
  pub still : (f : ℕ) → present (t.fibers f) ≡ present (s.fibers f)
  pub next_id : t.next_id ≡ s.next_id

pub resume-IsSameFibers :
    (fiber : ℕ) (s : Scheduler) {t : Scheduler} → resume fiber s ≡ some t → IsSameFibers s t
unfolding resume schedule
resume-IsSameFibers fiber s {t} e = go (s.fibers fiber) refl e
  where
    go :
        (a : FiberState)
        → s.fibers fiber ≡ a
        → (if is_suspended a then some (schedule fiber (set_state fiber runnable s)) else none)
          ≡ some t
        → IsSameFibers s t
    go suspended at r = subst (IsSameFibers s) (of_some r) (record {
      still = λ f.
          update_cases (λ a. present a ≡ present (s.fibers f)) s.fibers fiber runnable f
            (λ same. sym (ap present (ap s.fibers (sym same) ∙ at))) (λ _. refl);
      next_id = refl;
    })
    go absent at r = absurd (ground (arith, r))
    go starting at r = absurd (ground (arith, r))
    go runnable at r = absurd (ground (arith, r))
    go running at r = absurd (ground (arith, r))
    go terminated at r = absurd (ground (arith, r))

wake_loop-IsSameFibers :
    (xs : List ℕ) (q : ℕ) (s : Scheduler) {t : Scheduler}
    → wake_loop xs q s ≡ some t
    → IsSameFibers s t
unfolding wake_loop
wake_loop-IsSameFibers [] q s e =
    subst (IsSameFibers s) (of_some e) (record { still = λ f. refl; next_id = refl })
wake_loop-IsSameFibers (fiber ∷ rest) q s e =
    let (u, first, more) =
      bind_some (resume fiber (record s { wait_queues = update s.wait_queues q rest }))
        (wake_loop rest q) e in
    let a =
      resume-IsSameFibers fiber (record s { wait_queues = update s.wait_queues q rest }) first in
    let b = wake_loop-IsSameFibers rest q u more in
    record { still = λ f. b.still f ∙ a.still f; next_id = b.next_id ∙ a.next_id }

wake_front-IsSameFibers :
    (xs : List ℕ) (q : ℕ) (s : Scheduler) {t : Scheduler}
    → wake_front xs q s ≡ some t
    → IsSameFibers s t
unfolding wake_front
wake_front-IsSameFibers [] q s e =
    subst (IsSameFibers s) (of_some e) (record { still = λ f. refl; next_id = refl })
wake_front-IsSameFibers (fiber ∷ rest) q s e =
    let a = resume-IsSameFibers fiber (record s { wait_queues = update s.wait_queues q rest }) e in
    record { still = a.still; next_id = a.next_id }

-- The running fiber leaves the processor and stays.
leave-IsSameFibers :
    (fiber : ℕ) (target : FiberState) (s : Scheduler) {t : Scheduler}
    → present (s.fibers fiber) ≡ 1
    → (target ≡ runnable) ⊎ (target ≡ suspended)
    → switch_to_scheduler fiber (set_state fiber target s) ≡ some t
    → IsSameFibers s t
unfolding switch_to_scheduler reschedule reschedule_from schedule
leave-IsSameFibers fiber target s {t} there stays e = go target stays (sym rescheduled ∙ e)
  where
    left : FiberState → Scheduler
    left a = record (set_state fiber a s) { current = none }

    rescheduled :
        reschedule_from (update s.fibers fiber target fiber) fiber (left target)
        ≡ reschedule_from target fiber (left target)
    rescheduled =
        ap (λ a. reschedule_from a fiber (left target)) (update_self s.fibers fiber target)

    still_there :
        (a : FiberState)
        → present a ≡ 1
        → (f : ℕ) → present (update s.fibers fiber a f) ≡ present (s.fibers f)
    still_there a e f =
        update_cases (λ b. present b ≡ present (s.fibers f)) s.fibers fiber a f
          (λ same. e ∙ sym (ap present (ap s.fibers (sym same)) ∙ there)) (λ _. refl)

    go :
        (a : FiberState)
        → (a ≡ runnable) ⊎ (a ≡ suspended)
        → reschedule_from a fiber (left a) ≡ some t
        → IsSameFibers s t
    go runnable w r =
        subst (IsSameFibers s) (of_some r)
          (record { still = still_there runnable refl; next_id = refl })
    go suspended w r =
        subst (IsSameFibers s) (of_some r)
          (record { still = still_there suspended refl; next_id = refl })
    go absent w r = absurd (ground (arith, w))
    go starting w r = absurd (ground (arith, w))
    go running w r = absurd (ground (arith, w))
    go terminated w r = absurd (ground (arith, w))

yield-IsSameFibers :
    (fiber : ℕ) (s : Scheduler) {t : Scheduler}
    → s.current ≡ some fiber
    → present (s.fibers fiber) ≡ 1
    → yield s ≡ some t
    → IsSameFibers s t
unfolding yield
yield-IsSameFibers fiber s {t} busy there e =
    leave-IsSameFibers fiber runnable s there (inl refl)
      (subst (λ c. (c >>= (λ x. switch_to_scheduler x (set_state x runnable s))) ≡ some t) busy e)

suspend-IsSameFibers :
    (fiber : ℕ) (s : Scheduler) {t : Scheduler}
    → s.current ≡ some fiber
    → present (s.fibers fiber) ≡ 1
    → suspend s ≡ some t
    → IsSameFibers s t
unfolding suspend
suspend-IsSameFibers fiber s {t} busy there e =
    leave-IsSameFibers fiber suspended s there (inr refl)
      (subst (λ c. (c >>= (λ x. switch_to_scheduler x (set_state x suspended s))) ≡ some t) busy e)

sleep_for-IsSameFibers :
    (fiber : ℕ) (s : Scheduler) {t : Scheduler}
    → s.current ≡ some fiber
    → present (s.fibers fiber) ≡ 1
    → sleep_for s ≡ some t
    → IsSameFibers s t
unfolding sleep_for
sleep_for-IsSameFibers fiber s {t} busy there e =
    let same =
      suspend-IsSameFibers fiber (record s { timers = s.timers ++ fiber ∷ [] }) busy there
        (subst (λ c. (c >>= (λ x. suspend (record s { timers = s.timers ++ x ∷ [] }))) ≡ some t)
          busy e) in
    record { still = same.still; next_id = same.next_id }

park-IsSameFibers :
    (q fiber : ℕ) (s : Scheduler) {t : Scheduler}
    → s.current ≡ some fiber
    → present (s.fibers fiber) ≡ 1
    → park q s ≡ some t
    → IsSameFibers s t
unfolding park
park-IsSameFibers q fiber s {t} busy there e =
    let same =
      suspend-IsSameFibers fiber
        (record s { wait_queues = update s.wait_queues q (s.wait_queues q ++ fiber ∷ []) }) busy
        there
        (subst
          (λ c.
            (c >>= (λ x.
              suspend
                (record s { wait_queues = update s.wait_queues q (s.wait_queues q ++ x ∷ []) })))
            ≡ some t)
          busy e) in
    record { still = same.still; next_id = same.next_id }

-- The system calls that neither make a fiber nor end one.
pub perform-IsSameFibers :
    {m : ℕ} (c : Call m) (fiber : ℕ) (s : Scheduler) {t : Scheduler}
    → s.current ≡ some fiber
    → present (s.fibers fiber) ≡ 1
    → c ≢ spawns
    → c ≢ terminates
    → perform c s ≡ some t
    → IsSameFibers s t
unfolding perform wake_one wake_all
perform-IsSameFibers spawns fiber s busy there no_spawn no_end e = absurd (no_spawn refl)
perform-IsSameFibers terminates fiber s busy there no_spawn no_end e = absurd (no_end refl)
perform-IsSameFibers yields fiber s busy there no_spawn no_end e =
    yield-IsSameFibers fiber s busy there e
perform-IsSameFibers suspends fiber s busy there no_spawn no_end e =
    suspend-IsSameFibers fiber s busy there e
perform-IsSameFibers (resumes f) fiber s busy there no_spawn no_end e = resume-IsSameFibers f s e
perform-IsSameFibers sleeps fiber s busy there no_spawn no_end e =
    sleep_for-IsSameFibers fiber s busy there e
perform-IsSameFibers (parks q lt) fiber s busy there no_spawn no_end e =
    park-IsSameFibers q fiber s busy there e
perform-IsSameFibers (wakes_one q lt) fiber s busy there no_spawn no_end e =
    wake_front-IsSameFibers (s.wait_queues q) q s e
perform-IsSameFibers (wakes_all q lt) fiber s busy there no_spawn no_end e =
    wake_loop-IsSameFibers (s.wait_queues q) q s e

-- `Terminate` deletes the fiber that calls it.
pub record IsWithout (fiber : ℕ) (s t : Scheduler) : Type 0 where
  pub gone : t.fibers fiber ≡ absent
  pub others : (f : ℕ) → fiber ≢ f → t.fibers f ≡ s.fibers f
  pub next_id : t.next_id ≡ s.next_id

pub terminate-IsWithout :
    (fiber : ℕ) (s : Scheduler) {t : Scheduler}
    → s.current ≡ some fiber
    → terminate s ≡ some t
    → IsWithout fiber s t
unfolding terminate switch_to_scheduler reschedule reschedule_from destroy
terminate-IsWithout fiber s {t} busy e =
    subst (IsWithout fiber s) (of_some (sym computed ∙ e)) (record {
      gone = update_self (update s.fibers fiber terminated) fiber absent;
      others = λ f ne.
          update_other (update s.fibers fiber terminated) fiber absent f ne
          ∙ update_other s.fibers fiber terminated f ne;
      next_id = refl;
    })
  where
    left : Scheduler
    left = record (set_state fiber terminated s) { current = none }

    computed : terminate s ≡ some (destroy fiber left)
    computed =
        ap (λ c. c >>= (λ x. switch_to_scheduler x (set_state x terminated s))) busy
        ∙ ap (λ a. reschedule_from a fiber left) (update_self s.fibers fiber terminated)
