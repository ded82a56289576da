-- ===== src/Fibers/Pool/Shutdown.antt =====
-- `Join` waits for every fiber.
use tpcc.Prelude.{
  ℕ, ◌<◌, ◌≤◌, ◌++◌, List, [], ◌∷◌, Bool, true, false, none, some, ◌≡◌, refl, ap, sym, ◌∙◌, subst,
  update, update_cases, arith, ℕ_discrete, count, total-eq-zero, total-eq-zero_below,
}
use tpcc.Fibers.Runtime.{
  Runtime, Fiber, absent, unstarted, started, spawn, begin_task, end_unfinished, end_finished,
}
use tpcc.Fibers.Runtime as Runtime
use tpcc.Fibers.Runtime.Places.{runs, present, owns, Reach-places, Reach-owned}
use tpcc.Fibers.Pool.{
  Owner, outside, joining, StaticThreadPool, join_from, join, join_next, end_join, end_work, run,
  IsOutOfWork, Step, owner_spawns, routine_spawns, takes, yields, ends, stops, joins, waits,
  finishes, Reach, here, next,
}

module _ (n : ℕ) where
  -- What the owner has seen.
  abbrev Seen : StaticThreadPool → Owner → Type 0
  Seen p outside = Unit {0}
  Seen p (joining k) = (p.work_guard ≡ false) × (k ≤ n) × ((i : ℕ) → i < k → p.returned i ≡ true)

  record Inv (p : StaticThreadPool) : Type 0 where
    reachable : Runtime.Reach n p.runtime
    out_of_work : (worker : ℕ) → worker < n → p.returned worker ≡ true → IsOutOfWork n p
    seen : Seen p p.owner
    all_returned : p.joined ≡ true → (i : ℕ) → i < n → p.returned i ≡ true

  -- While a worker runs a fiber or the guard is there, no worker has returned.
  busy :
      (p : StaticThreadPool) (worker fiber : ℕ)
      → worker < n
      → p.runtime.workers worker ≡ some fiber
      → IsOutOfWork n p
      → ⊥
  busy p worker fiber lt e (guard, tasks, idle) = ground (arith, idle worker lt, e)

  -- A step of the runtime that needs work.
  run-Inv :
      (p : StaticThreadPool) (r : Runtime)
      → Inv p
      → Runtime.Step n p.runtime r
      → (IsOutOfWork n p → ⊥)
      → Inv (run p r)
  run-Inv p r v s works = record {
    reachable = Runtime.next v.reachable s;
    out_of_work = λ worker lt e. absurd (works (v.out_of_work worker lt e));
    seen = seen_still p.owner v.seen;
    all_returned = v.all_returned;
  }
    where
      seen_still : (o : Owner) → Seen p o → Seen (run p r) o
      seen_still outside h = tt
      seen_still (joining k) h = h

  end_work-Inv :
      (p : StaticThreadPool) (worker : ℕ) → IsOutOfWork n p → Inv p → Inv (end_work worker p)
  unfolding end_work
  end_work-Inv p worker over v = record {
    reachable = v.reachable;
    out_of_work = λ other lt e. over;
    seen = seen_still p.owner v.seen;
    all_returned = λ e i lt. still i (v.all_returned e i lt);
  }
    where
      still : (i : ℕ) → p.returned i ≡ true → update p.returned worker true i ≡ true
      still i e = update_cases (λ b. b ≡ true) p.returned worker true i (λ _. refl) (λ _. e)

      seen_still :
          (o : Owner) → Seen p o → Seen (record p { returned = update p.returned worker true }) o
      seen_still outside h = tt
      seen_still (joining k) (g, le, all) = (g, le, λ i lt. still i (all i lt))

  join-Inv : (p : StaticThreadPool) → p.owner ≡ outside → Inv p → Inv (join p)
  unfolding join
  join-Inv p e v = go p.joined
    where
      go : (b : Bool) → Inv (join_from b p)
      go true = v
      go false = record {
        reachable = v.reachable;
        out_of_work =
            λ worker lt h. let (g, tasks, idle) = v.out_of_work worker lt h in (refl, tasks, idle);
        seen = (refl, omega arith, λ i lt. absurd (omega (arith, lt)));
        all_returned = v.all_returned;
      }

  step-Inv : {p q : StaticThreadPool} → Step n p q → Inv p → Inv q
  unfolding join_next end_join
  step-Inv {p} (owner_spawns g) v =
      run-Inv p (spawn p.runtime) v Runtime.spawns (λ over. ground (arith, over.0, g))
  step-Inv {p} (routine_spawns worker fiber lt e) v =
      run-Inv p (spawn p.runtime) v Runtime.spawns (busy p worker fiber lt e)
  step-Inv {p} (takes worker lt here_still idle xs ys fiber split) v =
      run-Inv p (begin_task worker fiber (record p.runtime { tasks = xs ++ ys })) v
        (Runtime.takes worker lt idle xs ys fiber split)
        (λ over. let (g, tasks, all) = over in append_not_nil xs ys fiber (sym split ∙ tasks))
    where
      append_not_nil : (xs ys : List ℕ) (fiber : ℕ) → xs ++ fiber ∷ ys ≡ [] → ⊥
      append_not_nil [] ys fiber h = ground (arith, h)
      append_not_nil (x ∷ xs) ys fiber h = ground (arith, h)
  step-Inv {p} (yields worker lt fiber e) v =
      run-Inv p (end_unfinished worker fiber p.runtime) v (Runtime.yields worker lt fiber e)
        (busy p worker fiber lt e)
  step-Inv {p} (ends worker lt fiber e) v =
      run-Inv p (end_finished worker fiber p.runtime) v (Runtime.ends worker lt fiber e)
        (busy p worker fiber lt e)
  step-Inv {p} (stops worker lt over) v = end_work-Inv p worker over v
  step-Inv {p} (joins e) v = join-Inv p e v
  step-Inv {p} (waits worker lt e r) v =
      let (g, le, all) = subst (Seen p) e v.seen in
      record {
        reachable = v.reachable;
        out_of_work = v.out_of_work;
        seen = (
          g,
          omega (arith, lt),
          λ i below. elim (ℕ_discrete i worker) [
            | yes same ↦ ap p.returned same ∙ r
            | no ne ↦ all i (omega (arith, below, ne))
          ],
        );
        all_returned = v.all_returned;
      }
  step-Inv {p} (finishes e) v =
      let (g, le, all) = subst (Seen p) e v.seen in
      record {
        reachable = v.reachable;
        out_of_work = v.out_of_work;
        seen = tt;
        all_returned = λ _. all;
      }

  Reach-Inv : {p : StaticThreadPool} → Reach n p → Inv p
  Reach-Inv here = record {
    reachable = Runtime.here;
    out_of_work = λ worker lt e. absurd (ground (arith, e));
    seen = tt;
    all_returned = λ e. absurd (ground (arith, e));
  }
  Reach-Inv (next r s) = step-Inv s (Reach-Inv r)

  absent_of_present : (fiber : Fiber) → present fiber ≡ 0 → fiber ≡ absent
  absent_of_present absent e = refl
  absent_of_present unstarted e = absurd (omega (arith, e))
  absent_of_present (started stack) e = absurd (omega (arith, e))

  -- When `Join` has returned on a pool with at least one worker, no task is submitted, no worker runs
  -- one, every fiber ever spawned has ended and been deleted, and every stack ever made is in the
  -- allocator's pool, once.
  pub Reach-joined :
      {p : StaticThreadPool}
      → Reach n p
      → 0 < n
      → p.joined ≡ true
      → (p.runtime.tasks ≡ [])
        × ((worker : ℕ) → worker < n → p.runtime.workers worker ≡ none)
        × ((fiber : ℕ) → p.runtime.fibers fiber ≡ absent)
        × ((stack : ℕ)
            → stack < p.runtime.allocator.next_stack
            → count stack p.runtime.allocator.pool ≡ 1)
  unfolding count
  Reach-joined {p} reach some_worker done =
      let v = Reach-Inv reach in
      let (guard, empty, idle) = v.out_of_work 0 some_worker (v.all_returned done 0 some_worker) in
      let gone : (fiber : ℕ) → p.runtime.fibers fiber ≡ absent = λ fiber.
        absent_of_present (p.runtime.fibers fiber) (
          omega (
            arith,
            (Reach-places n v.reachable).0 fiber,
            ap (count fiber) empty,
            total-eq-zero_below (runs fiber) n p.runtime.workers
                (λ worker lt. ap (runs fiber) (idle worker lt)),
          )) in
      (
        empty,
        idle,
        gone,
        λ stack lt. omega (
          arith,
          (Reach-owned n v.reachable).1 stack lt,
          total-eq-zero (owns stack) p.runtime.next_fiber p.runtime.fibers
              (λ fiber. ap (owns stack) (gone fiber)),
        ),
      )
