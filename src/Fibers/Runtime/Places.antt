-- ===== src/Fibers/Runtime/Places.antt =====
-- Every fiber is in one place, and every stack has one owner.
use tpcc.Prelude.{
  ℕ, ◌+◌, ◌<◌, ◌≤◌, ◌++◌, List, [], ◌∷◌, Option, none, some, ◌≡◌, ◌≢◌, refl, update, update_cases,
  update_self, update_other, ite, ℕ_discrete, total, total-update, total-update_above,
  total-eq-zero, le-total, total_two, arith, ap, sym, ◌∙◌, dec_lt, of_some, count, count-append,
}
use tpcc.Fibers.Runtime.{
  get_new_stack, allocate_from, allocate, release, Fiber, absent, unstarted, started, Runtime,
  plan_task, spawn, factory_for, coroutine_factory, begin_task, end_unfinished, released_by,
  end_finished, Step, spawns, takes, yields, ends, Reach, here, next,
}

none_is_not_some : (fiber : ℕ) → ¬ (none ≡ some fiber)
none_is_not_some fiber e = ground arith

abbrev pub runs : ℕ → Option ℕ → ℕ
runs fiber none = 0
runs fiber (some x) = ite (ℕ_discrete x fiber) 1 0

abbrev pub present : Fiber → ℕ
present absent = 0
present unstarted = 1
present (started stack) = 1

abbrev pub owns : ℕ → Fiber → ℕ
owns stack (started x) = ite (ℕ_discrete x stack) 1 0
owns stack _ = 0

module _ (n : ℕ) where
  record Inv (r : Runtime) : Type 0 where
    places : (f : ℕ) → count f r.tasks + total (runs f) n r.workers ≡ present (r.fibers f)
    fresh : (f : ℕ) → r.next_fiber ≤ f → r.fibers f ≡ absent
    stacks :
        (s : ℕ)
        → count s r.allocator.pool + total (owns s) r.next_fiber r.fibers
          ≡ ite (dec_lt s r.allocator.next_stack) 1 0
    made :
        (worker fiber : ℕ)
        → worker < n
        → r.workers worker ≡ some fiber
        → (stack : ℕ) × (r.fibers fiber ≡ started stack)

  spawn-Inv : (r : Runtime) → Inv r → Inv (spawn r)
  unfolding spawn plan_task count total
  spawn-Inv r v =
      let new = v.fresh r.next_fiber (omega arith) in
      record {
        places = λ f. ground (arith, v.places f, new, count-append f r.tasks (r.next_fiber ∷ []));
        fresh = λ f h. ground (arith, v.fresh f (omega (arith, h)));
        stacks = λ s.
            let own =
              total-update_above (owns s) r.next_fiber r.fibers r.next_fiber unstarted
                (omega arith) in
            let self = ap (owns s) (update_self r.fibers r.next_fiber unstarted) in
            omega (arith, v.stacks s, own, self);
        made = λ worker fiber lt e.
            let (stack, owned) = v.made worker fiber lt e in
            (
              stack,
              update_other r.fibers r.next_fiber unstarted fiber
                    (λ q. ground (arith, q, new, owned))
                  ∙ owned,
            );
      }

  known_below : (r : Runtime) (fiber : ℕ) → Inv r → r.fibers fiber ≢ absent → fiber < r.next_fiber
  known_below r fiber v there = elim (dec_lt fiber r.next_fiber) [
    | yes h ↦ h
    | no h ↦ absurd (there (v.fresh fiber (omega (arith, h))))
  ]

  started_below :
      (r : Runtime) (fiber stack : ℕ)
      → Inv r
      → r.fibers fiber ≡ started stack
      → fiber < r.next_fiber
  started_below r fiber stack v e = known_below r fiber v (λ q. ground (arith, q, e))

  made_still :
      (r : Runtime) (fiber stack : ℕ)
      → Inv r
      → (worker f : ℕ) → worker < n
      → r.workers worker ≡ some f
      → (s : ℕ) × (update r.fibers fiber (started stack) f ≡ started s)
  made_still r fiber stack v worker f lt q =
      update_cases (λ x. (s : ℕ) × (x ≡ started s)) r.fibers fiber (started stack) f
        (λ e. (stack, refl)) (λ ne. v.made worker f lt q)

  -- A fiber whose task is taken has a coroutine, or gets one on a stack of its own.
  allocated-Inv :
      (r : Runtime) (fiber : ℕ) (pool : List ℕ)
      → r.fibers fiber ≡ unstarted
      → r.allocator.pool ≡ pool
      → Inv r
      → let (stack, allocator) = allocate_from pool r.allocator in
        Inv (record r { fibers = update r.fibers fiber (started stack); allocator = allocator })
  unfolding allocate_from get_new_stack count
  allocated-Inv r fiber [] e p v =
      let stack = r.allocator.next_stack in
      let known = known_below r fiber v (λ q. ground (arith, q, e)) in
      record {
        places = λ f. ground (arith, v.places f, e);
        fresh = λ f h. ground (arith, v.fresh f h, known);
        stacks = λ s.
            let own = total-update (owns s) r.next_fiber r.fibers fiber (started stack) known in
            let had = ap (owns s) e in ground (arith, v.stacks s, own, had);
        made = λ worker f lt q. made_still r fiber stack v worker f lt q;
      }
  allocated-Inv r fiber (stack ∷ rest) e p v =
      let known = known_below r fiber v (λ q. ground (arith, q, e)) in
      record {
        places = λ f. ground (arith, v.places f, e);
        fresh = λ f h. ground (arith, v.fresh f h, known);
        stacks = λ s.
            let own = total-update (owns s) r.next_fiber r.fibers fiber (started stack) known in
            let had = ap (owns s) e in
            let front = ap (count s) p in ground (arith, v.stacks s, own, had, front);
        made = λ worker f lt q. made_still r fiber stack v worker f lt q;
      }

  move-Inv :
      (r : Runtime) (worker fiber stack : ℕ) (xs ys : List ℕ)
      → worker < n
      → r.workers worker ≡ none
      → r.tasks ≡ xs ++ fiber ∷ ys
      → r.fibers fiber ≡ started stack
      → Inv r
      → Inv (record r { tasks = xs ++ ys; workers = update r.workers worker (some fiber) })
  unfolding count
  move-Inv r worker fiber stack xs ys lt idle split e v = record {
    places = λ f.
        let sum = total-update (runs f) n r.workers worker (some fiber) lt in
        let was = ap (runs f) idle in
        let listed = ap (count f) split in
        omega (
          arith,
          v.places f,
          sum,
          was,
          listed,
          count-append f xs (fiber ∷ ys),
          count-append f xs ys,
        );
    fresh = v.fresh;
    stacks = v.stacks;
    made = λ w f h.
        update_cases (λ x. x ≡ some f → (s : ℕ) × (r.fibers f ≡ started s)) r.workers worker
          (some fiber) w (λ q x. (stack, ap r.fibers (of_some (sym x)) ∙ e)) (λ ne. v.made w f h);
  }

  -- The order of the fibers is the one in which they were taken from the list.
  taken-Inv :
      (r : Runtime) (worker fiber : ℕ) (xs ys : List ℕ) (state : Fiber)
      → worker < n
      → r.workers worker ≡ none
      → r.tasks ≡ xs ++ fiber ∷ ys
      → r.fibers fiber ≡ state
      → Inv r
      → Inv (
          factory_for state fiber
            (record r { tasks = xs ++ ys; workers = update r.workers worker (some fiber) }))
  unfolding factory_for allocate count
  taken-Inv r worker fiber xs ys (started stack) lt idle split e v =
      move-Inv r worker fiber stack xs ys lt idle split e v
  taken-Inv r worker fiber xs ys unstarted lt idle split e v =
      let (stack, allocator) = allocate_from r.allocator.pool r.allocator in
      let s = record r { fibers = update r.fibers fiber (started stack); allocator = allocator } in
      move-Inv s worker fiber stack xs ys lt idle split (update_self r.fibers fiber (started stack))
        (allocated-Inv r fiber r.allocator.pool e refl v)
  taken-Inv r worker fiber xs ys absent lt idle split e v =
      let listed = ap (count fiber) split in
      let gone = ap present e in
      absurd (ground (arith, v.places fiber, listed, gone, count-append fiber xs (fiber ∷ ys)))

  yields-Inv :
      (r : Runtime) (worker fiber : ℕ)
      → worker < n
      → r.workers worker ≡ some fiber
      → Inv r
      → Inv (end_unfinished worker fiber r)
  unfolding end_unfinished plan_task count
  yields-Inv r worker fiber lt e v = record {
    places = λ f.
        let sum = total-update (runs f) n r.workers worker none lt in
        let was = ap (runs f) e in
        omega (arith, v.places f, sum, was, count-append f r.tasks (fiber ∷ []));
    fresh = v.fresh;
    stacks = v.stacks;
    made = λ w f below.
        update_cases (λ x. x ≡ some f → (s : ℕ) × (r.fibers f ≡ started s)) r.workers worker none w
          (λ q x. absurd (none_is_not_some f x)) (λ ne. v.made w f below);
  }

  runs-some : (fiber : ℕ) (worker : Option ℕ) → worker ≡ some fiber → runs fiber worker ≡ 1
  runs-some fiber worker e = ap (runs fiber) e ∙ ground arith

  present_le_one : (fiber : Fiber) → present fiber ≤ 1
  present_le_one absent = omega arith
  present_le_one unstarted = omega arith
  present_le_one (started stack) = omega arith

  -- No two workers run the same fiber.
  run_alone :
      (r : Runtime) (fiber v w : ℕ)
      → Inv r
      → v < n
      → w < n
      → r.workers v ≡ some fiber
      → r.workers w ≡ some fiber
      → v ≡ w
  run_alone r fiber v w inv v_lt w_lt e q = elim (ℕ_discrete v w) [
    | yes same ↦ same
    | no ne ↦ absurd (
        omega (
          arith,
          total_two (runs fiber) n r.workers v w v_lt w_lt ne,
          runs-some fiber (r.workers v) e,
          runs-some fiber (r.workers w) q,
          inv.places fiber,
          present_le_one (r.fibers fiber),
        ))
  ]

  ends-Inv :
      (r : Runtime) (worker fiber : ℕ)
      → worker < n
      → r.workers worker ≡ some fiber
      → Inv r
      → Inv (end_finished worker fiber r)
  unfolding end_finished released_by release count
  ends-Inv r worker fiber lt e v =
      let (stack, owned) = v.made worker fiber lt e in
      let known = known_below r fiber v (λ q. ground (arith, q, owned)) in
      rw (owned) (record {
        places = λ f.
            let sum = total-update (runs f) n r.workers worker none lt in
            let was = ap (runs f) e in
            let alive = ap present owned in
            ground (arith, v.places f, v.places fiber, sum, was, alive);
        fresh = λ f h. ground (arith, v.fresh f h);
        stacks = λ s.
            let own = total-update (owns s) r.next_fiber r.fibers fiber absent known in
            let had = ap (owns s) owned in omega (arith, v.stacks s, own, had);
        made = λ w f below.
            update_cases (λ x. x ≡ some f → (s : ℕ) × (update r.fibers fiber absent f ≡ started s))
              r.workers worker none w (λ q x. absurd (none_is_not_some f x))
              (λ ne x.
                let (s, q) = v.made w f below x in
                (
                  s,
                  update_other r.fibers fiber absent f (λ same.
                        ne (run_alone r fiber worker w v lt below e (x ∙ ap some (sym same))))
                      ∙ q,
                ));
      })

  step-Inv : {r s : Runtime} → Step n r s → Inv r → Inv s
  unfolding begin_task coroutine_factory
  step-Inv {r} spawns v = spawn-Inv r v
  step-Inv {r} (takes worker lt idle xs ys fiber split) v =
      taken-Inv r worker fiber xs ys (r.fibers fiber) lt idle split refl v
  step-Inv {r} (yields worker lt fiber e) v = yields-Inv r worker fiber lt e v
  step-Inv {r} (ends worker lt fiber e) v = ends-Inv r worker fiber lt e v

  Reach-Inv : {r : Runtime} → Reach n r → Inv r
  unfolding count total
  Reach-Inv here = record {
    places = λ f. omega (arith, total-eq-zero (runs f) n (λ _. none) (λ _. refl));
    fresh = λ f h. refl;
    stacks = λ s. ground arith;
    made = λ worker fiber lt e. absurd (none_is_not_some fiber e);
  }
  Reach-Inv (next r h) = step-Inv h (Reach-Inv r)

  -- In every reachable state a fiber that is there has its task submitted once, or is run by exactly one
  -- worker, and not both; a fiber that is not there has neither. A fiber that a worker runs has a
  -- coroutine.
  pub Reach-places :
      {r : Runtime}
      → Reach n r
      → ((f : ℕ) → count f r.tasks + total (runs f) n r.workers ≡ present (r.fibers f))
        × ((worker f : ℕ)
            → worker < n
            → r.workers worker ≡ some f
            → (stack : ℕ) × (r.fibers f ≡ started stack))
  Reach-places h = let v = Reach-Inv h in (v.places, v.made)

  owns_self : (s : ℕ) (fiber : Fiber) → fiber ≡ started s → owns s fiber ≡ 1
  owns_self s fiber e = ap (owns s) e ∙ ground arith

  -- In every reachable state a fiber's stack is one that has been made, is not in the allocator's pool,
  -- and is no other fiber's. A stack is in the pool at most once, and every stack that has been made
  -- and is not in the pool is a fiber's, so that none is lost.
  pub Reach-owned :
      {r : Runtime}
      → Reach n r
      → ((fiber s : ℕ)
          → r.fibers fiber ≡ started s
          → (s < r.allocator.next_stack)
            × (count s r.allocator.pool ≡ 0)
            × ((other : ℕ) → r.fibers other ≡ started s → other ≡ fiber))
        × ((s : ℕ)
            → s < r.allocator.next_stack
            → count s r.allocator.pool + total (owns s) r.next_fiber r.fibers ≡ 1)
  Reach-owned {r} h =
      let v = Reach-Inv h in
      (
        λ fiber s e.
            let owned =
              le-total (owns s) r.next_fiber r.fibers fiber (started_below r fiber s v e) in
            let self = owns_self s (r.fibers fiber) e in
            (
              ground (arith, v.stacks s, owned, self),
              ground (arith, v.stacks s, owned, self),
              λ other q. elim (ℕ_discrete other fiber) [
                | yes same ↦ same
                | no ne ↦
                    let two =
                      total_two (owns s) r.next_fiber r.fibers other fiber
                        (started_below r other s v q) (started_below r fiber s v e) ne in
                    absurd (ground (arith, v.stacks s, two, self, owns_self s (r.fibers other) q))
              ],
            ),
        λ s lt. ground (arith, v.stacks s, lt),
      )
