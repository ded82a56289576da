-- ===== src/TinyFibers/Scheduler/Liveness.antt =====
-- System calls of the scheduler that return, and what is left when its loop is drained.
use tpcc.Prelude.{
  if◌then◌else◌, ◌≤◌, total-eq-zero_below, ℕ, ◌+◌, ◌<◌, ◌++◌, List, [], ◌∷◌, Option, none, some,
  ◌≡◌, ◌≢◌, refl, update, ◌>>=◌, total, total-update, total-eq-zero, arith, ap, sym, ◌∙◌, subst,
  update_self, of_some, append_assoc, append-nil, count,
}
use tpcc.TinyFibers.Scheduler.{
  suspends, resumes, wakes, FiberState, absent, starting, runnable, running, suspended, terminated,
  Scheduler, new_scheduler, spawn, resume, wake_front, wake_one, wake_loop, wake_all, Call, spawns,
  yields, sleeps, terminates, parks, wakes_one, wakes_all, perform, Reach, runs, handles, fires,
  calls, IsAside, is_suspended, IsFit, schedule, set_state,
}
use tpcc.TinyFibers.Scheduler.Placement.{
  ready, waits, runs_now, ended, is_current, held, Inv, count-split, spawn-Inv, step-Inv, Succeeds,
  suspend_aside-Succeeds, resume_aside-Succeeds, yield-Succeeds, terminate-Succeeds,
  sleep_for-Succeeds, park-Succeeds, resume-Succeeds,
}

-- Whether a fiber is there.
abbrev pub present : FiberState → ℕ
present absent = 0
present _ = 1

-- `Resume` is to find its fiber suspended.
abbrev pub Finds : {m : ℕ} → Call m → Scheduler → Type 0
Finds (resumes fiber) s = s.fibers fiber ≡ suspended
Finds _ s = Unit {0}

module _ (m : ℕ) where
  -- A fiber at the front of a wait queue goes to the run queue.
  pop-Succeeds :
      (s : Scheduler) (q fiber : ℕ) (rest : List ℕ)
      → q < m
      → s.wait_queues q ≡ fiber ∷ rest
      → Inv m s
      → (t : Scheduler) × (resume fiber (record s { wait_queues = update s.wait_queues q rest })
          ≡ some t)
        × Inv m t
        × (t.wait_queues q ≡ rest)
        × (t.posted ≡ s.posted ++ fiber ∷ [])
  unfolding count
  pop-Succeeds s q fiber rest h e v =
      let (r, w) =
        resume-Succeeds m s fiber (update s.wait_queues q rest) s.timers
          (λ f. omega (arith, total-update (count f) m s.wait_queues q rest h, ap (count f) e)) v in
      (_, r, w, update_self s.wait_queues q rest, refl)

  wake_loop-Succeeds :
      (xs : List ℕ) (q : ℕ) (s : Scheduler)
      → q < m
      → s.wait_queues q ≡ xs
      → Inv m s
      → (t : Scheduler) × (wake_loop xs q s ≡ some t)
        × Inv m t
        × (t.wait_queues q ≡ [])
        × (t.posted ≡ s.posted ++ xs)
  unfolding wake_loop
  wake_loop-Succeeds [] q s h e v = (s, refl, v, e, sym (append-nil s.posted))
  wake_loop-Succeeds (fiber ∷ rest) q s h e v =
      let (t, r, w, e', p) = pop-Succeeds s q fiber rest h e v in
      let (u, r', w', e'', p') = wake_loop-Succeeds rest q t h e' w in
      (
        u,
        ap (λ x. x >>= wake_loop rest q) r ∙ r',
        w',
        e'',
        p' ∙ ap (λ x. x ++ rest) p ∙ append_assoc s.posted (fiber ∷ []) rest,
      )

  wake_front-Succeeds :
      (xs : List ℕ) (q : ℕ) (s : Scheduler)
      → q < m
      → s.wait_queues q ≡ xs
      → Inv m s
      → Succeeds m (wake_front xs q s)
  unfolding wake_front
  wake_front-Succeeds [] q s h e v = (s, refl, v)
  wake_front-Succeeds (fiber ∷ rest) q s h e v =
      let (t, r, w, e', p) = pop-Succeeds s q fiber rest h e v in (t, r, w)

  IsAside-held : (fiber : ℕ) (s : Scheduler) → IsAside m fiber s → held m fiber s ≡ 0
  IsAside-held fiber s (timers, queues) =
      omega (arith, timers, total-eq-zero_below (count fiber) m s.wait_queues queues)

  resume-suspended :
      (fiber : ℕ) (s : Scheduler) {t : Scheduler}
      → resume fiber s ≡ some t
      → s.fibers fiber ≡ suspended
  unfolding resume
  resume-suspended fiber s {t} e = go (s.fibers fiber) e
    where
      go :
          (a : FiberState)
          → (if is_suspended a then some (schedule fiber (set_state fiber runnable s)) else none)
            ≡ some t
          → a ≡ suspended
      go suspended r = refl
      go absent r = absurd (ground (arith, r))
      go starting r = absurd (ground (arith, r))
      go runnable r = absurd (ground (arith, r))
      go running r = absurd (ground (arith, r))
      go terminated r = absurd (ground (arith, r))

  perform-Succeeds :
      (s : Scheduler) (fiber : ℕ) (c : Call m)
      → s.current ≡ some fiber
      → IsFit c s
      → Finds c s
      → Inv m s
      → Succeeds m (perform c s)
  unfolding perform wake_one wake_all
  perform-Succeeds s fiber spawns busy fit found v = (spawn s, refl, spawn-Inv m s v)
  perform-Succeeds s fiber yields busy fit found v = yield-Succeeds m s fiber busy v
  perform-Succeeds s fiber suspends busy fit found v = suspend_aside-Succeeds m s fiber busy v
  perform-Succeeds s fiber (resumes f) busy fit found v =
      resume_aside-Succeeds m s f found (IsAside-held f s fit) v
  perform-Succeeds s fiber sleeps busy fit found v = sleep_for-Succeeds m s fiber busy v
  perform-Succeeds s fiber terminates busy fit found v = terminate-Succeeds m s fiber busy v
  perform-Succeeds s fiber (parks q h) busy fit found v = park-Succeeds m s fiber q h busy v
  perform-Succeeds s fiber (wakes_one q h) busy fit found v =
      wake_front-Succeeds (s.wait_queues q) q s h refl v
  perform-Succeeds s fiber (wakes_all q h) busy fit found v =
      let (t, r, w, e, p) = wake_loop-Succeeds (s.wait_queues q) q s h refl v in (t, r, w)

  perform-Finds : (c : Call m) (s : Scheduler) {t : Scheduler} → perform c s ≡ some t → Finds c s
  unfolding perform
  perform-Finds (resumes f) s e = resume-suspended f s e
  perform-Finds spawns s e = tt
  perform-Finds yields s e = tt
  perform-Finds suspends s e = tt
  perform-Finds sleeps s e = tt
  perform-Finds terminates s e = tt
  perform-Finds (parks q h) s e = tt
  perform-Finds (wakes_one q h) s e = tt
  perform-Finds (wakes_all q h) s e = tt

  fire-Succeeds :
      (s : Scheduler) (xs ys : List ℕ) (fiber : ℕ)
      → s.timers ≡ xs ++ fiber ∷ ys
      → Inv m s
      → Succeeds m (resume fiber (record s { timers = xs ++ ys }))
  fire-Succeeds s xs ys fiber e v =
      let (r, w) =
        resume-Succeeds m s fiber s.wait_queues (xs ++ ys)
          (λ f. omega (arith, count-split f xs ys fiber s.timers e)) v in
      (_, r, w)

  -- What an operation returns is what it has been shown to return.
  returned-Inv : (r : Option Scheduler) (t : Scheduler) → Succeeds m r → r ≡ some t → Inv m t
  returned-Inv r t (u, e, w) e' = subst (Inv m) (of_some (sym e ∙ e')) w

  new-Inv : Inv m new_scheduler
  unfolding count
  new-Inv = record {
    in_loop = λ f. refl;
    in_wait = λ f. omega (arith, total-eq-zero (count f) m (λ _. []) (λ _. refl));
    now = λ f. refl;
    settled = λ f. refl;
    fresh = λ f h. refl;
  }

  pub Reach-Inv : {s : Scheduler} → Reach m s → Inv m s
  Reach-Inv runs = spawn-Inv m new_scheduler new-Inv
  Reach-Inv (handles {s} a idle xs ys fiber e) = step-Inv m s xs ys fiber idle e (Reach-Inv a)
  Reach-Inv (fires {s} {t} a idle xs ys fiber e r) =
      returned-Inv (resume fiber (record s { timers = xs ++ ys })) t
        (fire-Succeeds s xs ys fiber e (Reach-Inv a)) r
  Reach-Inv (calls {s} {t} a fiber busy c fit r) =
      returned-Inv (perform c s) t
        (perform-Succeeds s fiber c busy fit (perform-Finds c s r) (Reach-Inv a)) r
  Reach-Inv (wakes {s} {t} a idle fiber aside r) =
      returned-Inv (resume fiber s) t
        (resume_aside-Succeeds m s fiber (resume-suspended fiber s r) (IsAside-held fiber s aside)
          (Reach-Inv a))
        r

  -- No fiber is lost or doubled: in every reachable state a fiber that is there runs, stands once in the
  -- handlers posted, or is suspended, and one that is not there does not; and the timers and the wait
  -- queues hold suspended fibers only, each once in all.
  pub Reach-present :
      {s : Scheduler}
      → Reach m s
      → (f : ℕ)
      → (is_current f s.current + count f s.posted + waits (s.fibers f) ≡ present (s.fibers f))
        × (held m f s ≤ waits (s.fibers f))
  Reach-present {s} a f =
      let v = Reach-Inv a in
      (omega (arith, v.now f, v.in_loop f, one_place (s.fibers f) (v.settled f)), v.in_wait f)
    where
      one_place : (a : FiberState) → ended a ≡ 0 → runs_now a + ready a + waits a ≡ present a
      one_place terminated e = absurd (omega (arith, e))
      one_place absent e = refl
      one_place _ e = refl

  -- In a reachable state where who calls `Resume` holds the fiber aside: when no fiber runs and the loop
  -- has neither handlers nor timers left, every fiber that is still there is suspended; and the wait
  -- queues hold such fibers only, each once in all.
  pub Reach-drained :
      {s : Scheduler}
      → Reach m s
      → s.current ≡ none
      → s.posted ≡ []
      → s.timers ≡ []
      → (f : ℕ)
      → (s.fibers f ≢ absent → s.fibers f ≡ suspended)
        × (total (count f) m s.wait_queues ≤ present (s.fibers f))
  unfolding count
  Reach-drained {s} a idle nothing none_sleeps f =
      let v = Reach-Inv a in
      (
        λ there.
            left (s.fibers f) there (sym (v.in_loop f) ∙ ap (count f) nothing)
              (sym (v.now f) ∙ ap (is_current f) idle) (v.settled f),
        omega (arith, v.in_wait f, waits_present (s.fibers f)),
      )
    where
      waits_present : (a : FiberState) → waits a ≤ present a
      waits_present suspended = omega arith
      waits_present _ = omega arith

      left :
          (a : FiberState) → a ≢ absent → ready a ≡ 0 → runs_now a ≡ 0 → ended a ≡ 0 → a ≡ suspended
      left absent n r x e = absurd (n refl)
      left starting n r x e = absurd (omega (arith, r))
      left runnable n r x e = absurd (omega (arith, r))
      left running n r x e = absurd (omega (arith, x))
      left suspended n r x e = refl
      left terminated n r x e = absurd (omega (arith, e))

  -- `WakeAll` in a reachable state empties its wait queue and posts a handler for each of its fibers,
  -- in the order in which they were parked.
  pub wake_all_lem :
      {s : Scheduler}
      → Reach m s
      → (q : ℕ) → q < m
      → (t : Scheduler) × (wake_all q s ≡ some t)
        × (t.wait_queues q ≡ [])
        × (t.posted ≡ s.posted ++ s.wait_queues q)
  unfolding wake_all
  wake_all_lem {s} a q h =
      let (t, r, w, e, p) = wake_loop-Succeeds (s.wait_queues q) q s h refl (Reach-Inv a) in
      (t, r, e, p)
