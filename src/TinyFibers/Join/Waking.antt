-- ===== src/TinyFibers/Join/Waking.antt =====
-- The end of a fiber reaches its handle, and a result reaches the fiber that waits for it.
use tpcc.Prelude.{
  ℕ, true, Option, none, some, List, [], ◌∷◌, ◌++◌, ◌≡◌, ◌≢◌, refl, sym, ap, ◌∙◌, update,
  update_self, update_other, append-nil,
}
use tpcc.TinyFibers.Scheduler.{
  Scheduler, absent, runnable, suspended, terminated, set_state, schedule, resume, destroy,
  reschedule_from, reschedule, switch_to_scheduler, suspend, terminate,
}
use tpcc.TinyFibers.Join.{
  park_waitee, wake_waitee, JoinHandle, Handles, put_handle, end_join, join_from, join,
  write_watcher, detach, on_completed, notify_watcher, terminate_watched, Future, new_future,
  begin_get, end_get, set,
}

switch_terminated :
    (f : ℕ) (s : Scheduler)
    → switch_to_scheduler f (set_state f terminated s)
      ≡ some (destroy f (record (set_state f terminated s) { current = none }))
unfolding switch_to_scheduler reschedule reschedule_from destroy
switch_terminated f s = rw (update_self s.fibers f terminated) refl

switch_suspended :
    (f : ℕ) (s : Scheduler)
    → switch_to_scheduler f (set_state f suspended s)
      ≡ some (record (set_state f suspended s) { current = none })
unfolding switch_to_scheduler reschedule reschedule_from
switch_suspended f s = rw (update_self s.fibers f suspended) refl

resume-suspended :
    (f : ℕ) (s : Scheduler)
    → s.fibers f ≡ suspended
    → resume f s ≡ some (schedule f (set_state f runnable s))
unfolding resume
resume-suspended f s e = rw (e) refl

-- The fiber that waits in `Join`, if there is one, is suspended, and is not the one that ends.
abbrev pub Waits : Option ℕ → ℕ → Scheduler → Type 0
Waits none f s = Unit {0}
Waits (some w) f s = (s.fibers w ≡ suspended) × (w ≢ f)

abbrev pub waiting : Option ℕ → List ℕ
waiting none = []
waiting (some w) = w ∷ []

wake_waitee-Waits :
    (waitee : Option ℕ) (f : ℕ) (s : Scheduler)
    → Waits waitee f s
    → let gone = destroy f (record (set_state f terminated s) { current = none }) in
      (t : Scheduler) × (wake_waitee waitee gone ≡ some t)
      × (t.fibers f ≡ absent)
      × (t.posted ≡ s.posted ++ waiting waitee)
unfolding wake_waitee destroy schedule
wake_waitee-Waits none f s h = (
  destroy f (record (set_state f terminated s) { current = none }),
  refl,
  update_self (update s.fibers f terminated) f absent,
  sym (append-nil s.posted),
)
wake_waitee-Waits (some w) f s (asleep, ne) =
    let gone = destroy f (record (set_state f terminated s) { current = none }) in
    let still =
      update_other (update s.fibers f terminated) f absent w (λ e. ne (sym e))
      ∙ update_other s.fibers f terminated w (λ e. ne (sym e))
      ∙ asleep in
    (
      schedule w (set_state w runnable gone),
      resume-suspended w gone still,
      update_other gone.fibers w runnable f ne
          ∙ update_self (update s.fibers f terminated) f absent,
      refl,
    )

module _ (this f : ℕ) (s : Handles) (running_now : s.scheduler.current ≡ some f) where
  terminate_watched-wakes :
      (t : Scheduler)
      → s.watchers f ≡ some this
      → wake_waitee
          (s.handles this).waitee
          (destroy f (record (set_state f terminated s.scheduler) { current = none }))
        ≡ some t
      → terminate_watched s
        ≡ some (
            put_handle this
              (record (s.handles this) { completed = true })
              (record s { scheduler = t }))
  unfolding terminate_watched terminate notify_watcher on_completed
  terminate_watched-wakes t watched woken =
      rw (running_now) (rw (switch_terminated f s.scheduler) (rw (watched) (rw (woken) refl)))

  -- A fiber ends while the handle `this` watches it. It is deleted, and the fiber that waits in `Join` is
  -- scheduled, and no other. From then on `Join` returns at once, and `Detach`, which writes to the
  -- fiber, finds it deleted.
  pub terminate_watched-join :
      s.watchers f ≡ some this
      → (s.handles this).fiber ≡ some f
      → Waits (s.handles this).waitee f s.scheduler
      → (t : Handles) × (terminate_watched s ≡ some t)
        × (t.scheduler.fibers f ≡ absent)
        × (t.scheduler.posted ≡ s.scheduler.posted ++ waiting (s.handles this).waitee)
        × (join this t ≡ some (true, end_join this t))
        × (detach this t ≡ none)
  unfolding join join_from detach write_watcher
  terminate_watched-join watched attached waits =
      let (t, woken, gone, posted) =
        wake_waitee-Waits (s.handles this).waitee f s.scheduler waits in
      let handle : JoinHandle = record (s.handles this) { completed = true } in
      let u : Handles = put_handle this handle (record s { scheduler = t }) in
      let same : u.handles this ≡ handle = update_self s.handles this handle in
      let still : (u.handles this).fiber ≡ some f = ap (λ y. y.fiber) same ∙ attached in
      let over : (u.handles this).completed ≡ true = ap (λ y. y.completed) same in
      (
        u,
        terminate_watched-wakes t watched woken,
        gone,
        posted,
        rw (still) (ap (λ b. join_from b this u) over),
        rw (still) (rw (gone) refl),
      )

module _ {R : Type 0} (r : R) (f : ℕ) (s : Scheduler) (running_now : s.current ≡ some f) where
  -- When `Get` comes first, it suspends its fiber, and `Set` then schedules that fiber, whose `Get`
  -- returns the result. When `Set` comes first, there is nobody to wake; `Get` suspends its fiber
  -- nonetheless, and then no handler, timer or wait queue has the fiber if none had it before.
  pub begin_get-set :
      ((g : Future R) × (t : Scheduler) × (h : Future R) × (u : Scheduler) × (begin_get new_future s
          ≡ some (g, t))
        × (t.fibers f ≡ suspended)
        × (set r g t ≡ some (h, u))
        × (u.posted ≡ s.posted ++ f ∷ [])
        × (end_get h ≡ some r))
      × ((g : Future R) × (h : Future R) × (t : Scheduler) × (set r new_future s ≡ some (g, s))
          × (begin_get g s ≡ some (h, t))
          × (t.fibers f ≡ suspended)
          × (t.posted ≡ s.posted)
          × (t.timers ≡ s.timers)
          × (t.wait_queues ≡ s.wait_queues))
  unfolding begin_get park_waitee suspend set wake_waitee end_get schedule
  begin_get-set =
      let t = record (set_state f suspended s) { current = none } in
      let g : Future R = record { result = none; future_waitee = some f } in
      let h : Future R = record { result = some r; future_waitee = some f } in
      let first : Future R = record { result = some r; future_waitee = none } in
      let asleep : t.fibers f ≡ suspended = update_self s.fibers f suspended in
      (
        (
          g,
          t,
          h,
          schedule f (set_state f runnable t),
          rw (running_now) (rw (switch_suspended f s) refl),
          asleep,
          rw (resume-suspended f t asleep) refl,
          refl,
          refl,
        ),
        (
          first,
          h,
          t,
          refl,
          rw (running_now) (rw (switch_suspended f s) refl),
          asleep,
          refl,
          refl,
          refl,
        ),
      )
