-- ===== src/TinyFibers/Stacks/Ownership.antt =====
-- Every fiber that is there has a stack of its own, and no stack is lost.
use tpcc.Prelude.{
  ℕ, suc, ◌+◌, ◌<◌, ◌≤◌, Option, none, some, List, [], ◌∷◌, ◌++◌, ◌≡◌, ◌≢◌, refl, ap, sym, ◌∙◌,
  subst, update, update_self, update_other, update_cases, arith, ℕ_discrete, if◌then◌else◌, ite,
  ltb, count, total, total-update, total_two, le-total, dec_lt, of_some,
}
use tpcc.TinyFibers.Scheduler.{
  FiberState, absent, starting, running, suspended, Scheduler, new_scheduler, spawn, step, resume,
  Call, suspends, resumes, spawns, yields, sleeps, terminates, parks, wakes_one, wakes_all, perform,
}
use tpcc.TinyFibers.Scheduler as Scheduler
use tpcc.TinyFibers.Scheduler.Placement.{is_current, count-split}
use tpcc.TinyFibers.Scheduler.Liveness.{present, Reach-Inv, Reach-present}
use tpcc.TinyFibers.Stacks.Presence.{
  IsSameFibers, perform-IsSameFibers, resume-IsSameFibers, IsWithout, terminate-IsWithout,
}
use tpcc.TinyFibers.Stacks.{
  StackAllocator, allocate_new_stack, allocate_from, allocate, release, Machine, with_stack,
  create_fiber, released, destroy_fiber, stacks_after, new_machine, schedule, Reach, runs, handles,
  fires, calls, wakes,
}

abbrev pub owns : ℕ → Option ℕ → ℕ
owns stack none = 0
owns stack (some other) = ite (ℕ_discrete other stack) 1 0

abbrev has : Option ℕ → ℕ
has none = 0
has (some stack) = 1

abbrev made : ℕ → StackAllocator → ℕ
made stack a = if ltb stack a.next_stack then 1 else 0

-- `Allocate` takes a stack from the pool, or makes it.
allocate-conserves :
    (a : StackAllocator) (pool : List ℕ) (stack : ℕ)
    → a.pool ≡ pool
    → count stack (allocate_from pool a).1.pool
        + owns stack (some (allocate_from pool a).0)
        + made stack a
      ≡ count stack a.pool + made stack (allocate_from pool a).1
unfolding allocate_from allocate_new_stack count
allocate-conserves a [] stack e = ground arith
allocate-conserves a (x ∷ rest) stack e = omega (arith, ap (count stack) e)

present_le_one : (a : FiberState) → present a ≤ 1
present_le_one absent = omega arith
present_le_one _ = omega arith

module _ (m : ℕ) where
  record Owned (x : Machine) : Type 0 where
    reachable : Scheduler.Reach m x.scheduler
    alive : (f : ℕ) → present (x.scheduler.fibers f) ≡ has (x.stacks f)
    placed :
        (stack : ℕ)
        → count stack x.allocator.pool + total (owns stack) x.scheduler.next_id x.stacks
          ≡ made stack x.allocator

  -- The scheduler goes on, with the same fibers.
  still-Owned :
      (x : Machine) (t : Scheduler)
      → Scheduler.Reach m t
      → IsSameFibers x.scheduler t
      → Owned x
      → Owned (schedule x t)
  still-Owned x t r same v = record {
    reachable = r;
    alive = λ f. same.still f ∙ v.alive f;
    placed = λ stack.
        ap (λ n. count stack x.allocator.pool + total (owns stack) n x.stacks) same.next_id
        ∙ v.placed stack;
  }

  spawn-Owned :
      (x : Machine) (r : ℕ × StackAllocator)
      → ((stack : ℕ)
          → count stack r.1.pool + owns stack (some r.0) + made stack x.allocator
            ≡ count stack x.allocator.pool + made stack r.1)
      → x.stacks x.scheduler.next_id ≡ none
      → Scheduler.Reach m (spawn x.scheduler)
      → ((f : ℕ) → present (x.scheduler.fibers f) ≡ has (x.stacks f))
      → ((stack : ℕ)
          → count stack x.allocator.pool + total (owns stack) x.scheduler.next_id x.stacks
            ≡ made stack x.allocator)
      → Owned (schedule (with_stack x.scheduler.next_id x r) (spawn x.scheduler))
  unfolding spawn Scheduler.schedule total
  spawn-Owned x (stack, a) conserved unused reached alive placed = record {
    reachable = reached;
    alive = λ f. both f (ℕ_discrete n f);
    placed = λ s. omega (
      arith,
      conserved s,
      placed s,
      total-update (owns s) (suc n) x.stacks n (some stack) (omega arith),
      ap (owns s) unused,
    );
  }
    where
      n : ℕ
      n = x.scheduler.next_id

      both :
          (f : ℕ)
          → Dec (n ≡ f)
          → present (update x.scheduler.fibers n starting f)
            ≡ has (update x.stacks n (some stack) f)
      both f (yes e) =
          subst
            (λ k.
              present (update x.scheduler.fibers n starting k)
              ≡ has (update x.stacks n (some stack) k))
            e
            (ap present (update_self x.scheduler.fibers n starting)
              ∙ sym (ap has (update_self x.stacks n (some stack))))
      both f (no ne) =
          ap present (update_other x.scheduler.fibers n starting f ne)
          ∙ alive f
          ∙ sym (ap has (update_other x.stacks n (some stack) f ne))

  -- The fiber that runs is there, and so is one that is posted.
  running_there :
      (s : Scheduler) (fiber : ℕ)
      → Scheduler.Reach m s
      → s.current ≡ some fiber
      → present (s.fibers fiber) ≡ 1
  running_there s fiber r busy =
      ground (arith, (Reach-present m r fiber).0, self, present_le_one (s.fibers fiber))
    where
      self : is_current fiber s.current ≡ 1
      self = ap (is_current fiber) busy ∙ ground arith

  posted_there :
      (s : Scheduler) (xs ys : List ℕ) (fiber : ℕ)
      → Scheduler.Reach m s
      → s.posted ≡ xs ++ fiber ∷ ys
      → present (s.fibers fiber) ≡ 1
  posted_there s xs ys fiber r split =
      ground (arith, (Reach-present m r fiber).0, in_list, present_le_one (s.fibers fiber))
    where
      in_list : 0 < count fiber s.posted
      in_list = ground (arith, count-split fiber xs ys fiber s.posted split)

  there_below :
      (s : Scheduler) (fiber : ℕ)
      → Scheduler.Reach m s
      → present (s.fibers fiber) ≡ 1
      → fiber < s.next_id
  there_below s fiber r there = elim (dec_lt fiber s.next_id) [
    | yes lt ↦ lt
    | no ge ↦
        absurd (omega (arith, ap present ((Reach-Inv m r).fresh fiber (omega (arith, ge))), there))
  ]

  end-Owned :
      (x : Machine) (t : Scheduler) (fiber : ℕ) (stack : Option ℕ)
      → x.stacks fiber ≡ stack
      → fiber < x.scheduler.next_id
      → Scheduler.Reach m t
      → IsWithout fiber x.scheduler t
      → Owned x
      → Owned (
          schedule
            (record x {
              allocator = released stack x.allocator;
              stacks = update x.stacks fiber none;
            })
            t)
  unfolding released release count
  end-Owned x t fiber stack has_it lt r gone v = record {
    reachable = r;
    alive = λ f. both f (ℕ_discrete fiber f);
    placed = λ s.
        ap
          (λ n.
            count s (released stack x.allocator).pool
            + total (owns s) n (update x.stacks fiber none))
          gone.next_id
        ∙ balance s stack has_it;
  }
    where
      both : (f : ℕ) → Dec (fiber ≡ f) → present (t.fibers f) ≡ has (update x.stacks fiber none f)
      both f (yes e) =
          subst (λ k. present (t.fibers k) ≡ has (update x.stacks fiber none k)) e
            (ap present gone.gone ∙ sym (ap has (update_self x.stacks fiber none)))
      both f (no ne) =
          ap present (gone.others f ne)
          ∙ v.alive f
          ∙ sym (ap has (update_other x.stacks fiber none f ne))

      balance :
          (s : ℕ) (o : Option ℕ)
          → x.stacks fiber ≡ o
          → count s (released o x.allocator).pool
              + total (owns s) x.scheduler.next_id (update x.stacks fiber none)
            ≡ made s (released o x.allocator)
      balance s none e = omega (
        arith,
        v.placed s,
        total-update (owns s) x.scheduler.next_id x.stacks fiber none lt,
        ap (owns s) e,
      )
      balance s (some other) e = omega (
        arith,
        v.placed s,
        total-update (owns s) x.scheduler.next_id x.stacks fiber none lt,
        ap (owns s) e,
      )

  stays-Owned :
      (x : Machine) (t : Scheduler) (fiber : ℕ) (c : Call m)
      → x.scheduler.current ≡ some fiber
      → c ≢ spawns
      → c ≢ terminates
      → perform c x.scheduler ≡ some t
      → Scheduler.Reach m t
      → Owned x
      → Owned (schedule x t)
  stays-Owned x t fiber c busy no_spawn no_end e r v =
      let there = running_there x.scheduler fiber v.reachable busy in
      still-Owned x t r (perform-IsSameFibers c fiber x.scheduler busy there no_spawn no_end e) v

  call-Owned :
      (x : Machine) (t : Scheduler) (fiber : ℕ) (c : Call m)
      → x.scheduler.current ≡ some fiber
      → perform c x.scheduler ≡ some t
      → Scheduler.Reach m t
      → Owned x
      → Owned (schedule (stacks_after c fiber x) t)
  unfolding stacks_after create_fiber destroy_fiber allocate perform
  call-Owned x t fiber spawns busy e r v =
      subst (λ u. Owned (schedule (create_fiber x.scheduler.next_id x) u)) (of_some e)
        (spawn-Owned x (allocate x.allocator)
          (λ stack. allocate-conserves x.allocator x.allocator.pool stack refl)
          (unused (x.stacks x.scheduler.next_id) (
            sym (v.alive x.scheduler.next_id)
            ∙ ap present ((Reach-Inv m v.reachable).fresh x.scheduler.next_id (omega arith))))
          (subst (Scheduler.Reach m) (sym (of_some e)) r) v.alive v.placed)
    where
      unused : (o : Option ℕ) → has o ≡ 0 → o ≡ none
      unused none h = refl
      unused (some stack) h = absurd (omega (arith, h))
  call-Owned x t fiber terminates busy e r v =
      end-Owned x t fiber (x.stacks fiber) refl
        (there_below x.scheduler fiber v.reachable
          (running_there x.scheduler fiber v.reachable busy))
        r (terminate-IsWithout fiber x.scheduler busy e) v
  call-Owned x t fiber yields busy e r v =
      stays-Owned x t fiber yields busy (λ q. ground (arith, q)) (λ q. ground (arith, q)) e r v
  call-Owned x t fiber suspends busy e r v =
      stays-Owned x t fiber suspends busy (λ q. ground (arith, q)) (λ q. ground (arith, q)) e r v
  call-Owned x t fiber (resumes f) busy e r v =
      stays-Owned x t fiber (resumes f) busy (λ q. ground (arith, q)) (λ q. ground (arith, q)) e r v
  call-Owned x t fiber sleeps busy e r v =
      stays-Owned x t fiber sleeps busy (λ q. ground (arith, q)) (λ q. ground (arith, q)) e r v
  call-Owned x t fiber (parks q lt) busy e r v =
      stays-Owned x t fiber (parks q lt) busy (λ q. ground (arith, q)) (λ q. ground (arith, q)) e r
        v
  call-Owned x t fiber (wakes_one q lt) busy e r v =
      stays-Owned x t fiber (wakes_one q lt) busy (λ q. ground (arith, q)) (λ q. ground (arith, q))
        e r v
  call-Owned x t fiber (wakes_all q lt) busy e r v =
      stays-Owned x t fiber (wakes_all q lt) busy (λ q. ground (arith, q)) (λ q. ground (arith, q))
        e r v

  step-Owned :
      (x : Machine) (xs ys : List ℕ) (fiber : ℕ)
      → x.scheduler.posted ≡ xs ++ fiber ∷ ys
      → Scheduler.Reach m (step fiber (record x.scheduler { posted = xs ++ ys }))
      → Owned x
      → Owned (schedule x (step fiber (record x.scheduler { posted = xs ++ ys })))
  unfolding step
  step-Owned x xs ys fiber split r v =
      let there = posted_there x.scheduler xs ys fiber v.reachable split in
      still-Owned x (step fiber (record x.scheduler { posted = xs ++ ys })) r
        (record {
          still = λ f.
              update_cases (λ a. present a ≡ present (x.scheduler.fibers f)) x.scheduler.fibers
                fiber running f
                (λ e. sym (ap (λ k. present (x.scheduler.fibers k)) (sym e) ∙ there)) (λ _. refl);
          next_id = refl;
        })
        v

  Reach-Owned : {x : Machine} → Reach m x → Owned x
  unfolding create_fiber allocate count total
  Reach-Owned runs =
      spawn-Owned new_machine (allocate new_machine.allocator)
        (λ stack. allocate-conserves new_machine.allocator [] stack refl) refl Scheduler.runs
        (λ f. refl) (λ stack. ground arith)
  Reach-Owned (handles {x} a idle xs ys fiber split) =
      let v = Reach-Owned a in
      step-Owned x xs ys fiber split (Scheduler.handles v.reachable idle xs ys fiber split) v
  Reach-Owned (fires {x} {t} a idle xs ys fiber split e) =
      let v = Reach-Owned a in
      let same = resume-IsSameFibers fiber (record x.scheduler { timers = xs ++ ys }) e in
      still-Owned x t (Scheduler.fires v.reachable idle xs ys fiber split e)
        (record { still = same.still; next_id = same.next_id }) v
  Reach-Owned (calls {x} {t} a fiber busy c fit e) =
      let v = Reach-Owned a in
      call-Owned x t fiber c busy e (Scheduler.calls v.reachable fiber busy c fit e) v
  Reach-Owned (wakes {x} {t} a idle fiber aside e) =
      let v = Reach-Owned a in
      still-Owned x t (Scheduler.wakes v.reachable idle fiber aside e)
        (resume-IsSameFibers fiber x.scheduler e) v

  owns_self : (stack : ℕ) (o : Option ℕ) → o ≡ some stack → owns stack o ≡ 1
  owns_self stack o e = ap (owns stack) e ∙ ground arith

  stack_of : (o : Option ℕ) → has o ≡ 1 → (stack : ℕ) × (o ≡ some stack)
  stack_of none e = absurd (omega (arith, e))
  stack_of (some stack) e = (stack, refl)

  -- In every reachable state of the scheduler with its stacks, a fiber that is there has a stack, which
  -- is not in the pool, and no other fiber has it; and each stack ever made is in the pool once or is a
  -- fiber's, and not both.
  pub Reach-stacks :
      {x : Machine}
      → Reach m x
      → ((fiber : ℕ)
          → present (x.scheduler.fibers fiber) ≡ 1
          → (stack : ℕ) × (x.stacks fiber ≡ some stack)
            × (count stack x.allocator.pool ≡ 0)
            × ((other : ℕ)
                → present (x.scheduler.fibers other) ≡ 1
                → x.stacks other ≡ some stack
                → fiber ≡ other))
        × ((stack : ℕ)
            → stack < x.allocator.next_stack
            → count stack x.allocator.pool + total (owns stack) x.scheduler.next_id x.stacks ≡ 1)
  Reach-stacks {x} r =
      let v = Reach-Owned r in
      (
        λ fiber there.
            let (stack, e) = stack_of (x.stacks fiber) (sym (v.alive fiber) ∙ there) in
            let lt = there_below x.scheduler fiber v.reachable there in
            let mine = owns_self stack (x.stacks fiber) e in
            (
              stack,
              e,
              ground (
                arith,
                v.placed stack,
                le-total (owns stack) x.scheduler.next_id x.stacks fiber lt,
                mine,
              ),
              λ other there' e'. elim (ℕ_discrete fiber other) [
                | yes same ↦ same
                | no ne ↦ absurd (
                    ground (
                      arith,
                      v.placed stack,
                      mine,
                      owns_self stack (x.stacks other) e',
                      total_two (owns stack) x.scheduler.next_id x.stacks fiber other lt
                          (there_below x.scheduler other v.reachable there') ne,
                    ))
              ],
            ),
        λ stack lt. ground (arith, v.placed stack, lt),
      )
