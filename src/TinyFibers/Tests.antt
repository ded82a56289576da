-- ===== src/TinyFibers/Tests.antt =====
-- A run of the scheduler with one wait queue, and the theorems at it.
use tpcc.TinyFibers.Stacks as Stacks
use tpcc.TinyFibers.Stacks.Ownership.{owns, Reach-stacks}
use tpcc.TinyFibers.Scheduler.Liveness.{present}
use tpcc.TinyFibers.Join.{Handles, terminate_watched, Future, new_future, begin_get, set}
use tpcc.TinyFibers.Join.Waking.{terminate_watched-join, begin_get-set}
use tpcc.Prelude.{
  ℕ, ◌<◌, [], ◌∷◌, some, ◌≡◌, refl, ℕ_discrete, total, arith, update, false, count, ◌+◌, ◌≢◌, ◌≤◌,
}
use tpcc.TinyFibers.Scheduler.{
  Scheduler, suspended, spawn, step, schedule, perform, park, suspend, switch_to_scheduler,
  reschedule, reschedule_from, suspends, sleeps, sleep_for, parks, Reach, runs, handles, calls,
  absent, running, spawns,
}
use tpcc.TinyFibers.Scheduler.Liveness.{Reach-drained}

abbrev one : 0 < 1
one = omega arith

-- Fiber 0 sleeps, fiber 1 has suspended itself, and fiber 2 runs.
abbrev three_fibers : (s : Scheduler) × Reach 1 s
unfolding spawn schedule step perform sleep_for suspend switch_to_scheduler reschedule
    reschedule_from ℕ_discrete
three_fibers = (
  _,
  handles
      (calls
        (handles
          (calls
            (calls (calls (handles runs refl [] [] 0 refl) 0 refl spawns tt refl) 0 refl spawns tt
              refl)
            0 refl sleeps tt refl)
          refl [] (2 ∷ []) 1 refl)
        1 refl suspends tt refl)
      refl [] [] 2 refl,
)

-- Fiber 2 is awake, and a timer is left.
three_fibers_busy : (three_fibers.0.current ≡ some 2) × (three_fibers.0.timers ≡ 0 ∷ [])
unfolding three_fibers spawn schedule step perform sleep_for suspend switch_to_scheduler reschedule
    reschedule_from ℕ_discrete
three_fibers_busy = (refl, refl)

-- The first fiber spawns another, which suspends itself, and parks; nobody is left to wake them.
abbrev parked : (s : Scheduler) × Reach 1 s
unfolding spawn schedule step perform park suspend switch_to_scheduler reschedule reschedule_from
    ℕ_discrete
parked = (
  _,
  calls
      (handles
        (calls (calls (handles runs refl [] [] 0 refl) 0 refl spawns tt refl) 0 refl (parks 0 one)
          tt refl)
        refl [] [] 1 refl)
      1 refl suspends tt refl,
)

Reach-drained_example :
    (parked.0.fibers 1 ≢ absent → parked.0.fibers 1 ≡ suspended)
    × (total (count 1) 1 parked.0.wait_queues ≤ present (parked.0.fibers 1))
unfolding spawn schedule step perform park suspend switch_to_scheduler reschedule reschedule_from
    ℕ_discrete
Reach-drained_example = Reach-drained 1 parked.1 refl refl refl 1

-- Fiber 1 runs, and fiber 0 waits for its end in `Join` of handle 0.
abbrev joining : Handles
joining = record {
  scheduler = record {
    fibers = update (update (λ _. absent) 0 suspended) 1 running;
    current = some 1;
    next_id = 2;
    posted = [];
    timers = [];
    wait_queues = λ _. [];
  };
  handles = λ _. record { fiber = some 1; completed = false; waitee = some 0 };
  watchers = λ _. some 0;
}

terminate_watched-join_example :
    (t : Handles) × (terminate_watched joining ≡ some t) × (t.scheduler.posted ≡ 0 ∷ [])
unfolding ℕ_discrete
terminate_watched-join_example =
    let (t, ended, gone, posted, joined, detached) =
      terminate_watched-join 0 1 joining refl refl refl (refl, λ e. ground (arith, e)) in
    (t, ended, posted)

begin_get-set_example :
    (g : Future ℕ) × (h : Future ℕ) × (t : Scheduler) × (set 7 new_future joining.scheduler
      ≡ some (g, joining.scheduler))
    × (begin_get g joining.scheduler ≡ some (h, t))
    × (t.fibers 1 ≡ suspended)
    × (t.posted ≡ [])
    × (t.timers ≡ [])
    × (t.wait_queues ≡ joining.scheduler.wait_queues)
begin_get-set_example = (begin_get-set 7 1 joining.scheduler refl).1

-- The first fiber runs and has spawned another: each has a stack.
abbrev two_stacks : (x : Stacks.Machine) × Stacks.Reach 1 x
unfolding spawn schedule step perform Stacks.create_fiber Stacks.allocate ℕ_discrete
two_stacks = (_, Stacks.calls (Stacks.handles Stacks.runs refl [] [] 0 refl) 0 refl spawns tt refl)

Reach-stacks_example :
    ((fiber : ℕ)
      → present (two_stacks.0.scheduler.fibers fiber) ≡ 1
      → (stack : ℕ) × (two_stacks.0.stacks fiber ≡ some stack)
        × (count stack two_stacks.0.allocator.pool ≡ 0)
        × ((other : ℕ)
            → present (two_stacks.0.scheduler.fibers other) ≡ 1
            → two_stacks.0.stacks other ≡ some stack
            → fiber ≡ other))
    × ((stack : ℕ)
        → stack < two_stacks.0.allocator.next_stack
        → count stack two_stacks.0.allocator.pool
            + total (owns stack) two_stacks.0.scheduler.next_id two_stacks.0.stacks
          ≡ 1)
Reach-stacks_example = Reach-stacks 1 two_stacks.1
