-- ===== src/Time/Tests.antt =====
-- Timers grabbed from a priority queue made of a list, and a keeper of one timer.
use tpcc.Prelude.{◌⊎◌, true, false, ℕ, ◌≡◌, refl, List, [], ◌∷◌, arith, update, ◌<◌, ◌≢◌, some, ◌≤◌}
use tpcc.Heap.ListQueue.{list_queue}
use tpcc.Heap.{PriorityQueue, weigh_list}
use tpcc.Time.TimeKeeper.{Timer, less, grab_loop, add_timer, grab_ready_timers}
use tpcc.Time.Keeper.{
  TimeKeeper, setting, returned, after, end_after, work, Reach, here, next, calls_after, adds,
  works, ticks, sleeping, grabbing,
}
use tpcc.Time.Keeper.Timers.{is_of}
use tpcc.Time.Keeper.Invariant.{fulfilled, pending, Fate}
use tpcc.Time.Keeper.Polling.{work_times, Reach-polled}
use tpcc.Time.Keeper.Promises.{Reach-kept}
use tpcc.Futures.Contract.{Contract, Result, new_promise, make_contract}

less_asym : (a b : Timer ℕ) → less a b ≡ true → less b a ≡ false
less_asym a b e = ground (arith, e)

less_split : (a b c : Timer ℕ) → less a c ≡ true → (less a b ≡ true) ⊎ (less b c ≡ true)
less_split a b c e = ground (arith, e)

abbrev timers : PriorityQueue (Timer ℕ) less
timers = list_queue less less_asym less_split

-- Of timers at 5, 9 and 3, those at 3 and 5 are due at 6.
abbrev three_timers : List (Timer ℕ)
unfolding add_timer
three_timers = add_timer timers 5 0 (add_timer timers 9 1 (add_timer timers 3 2 []))

two_of_three : grab_ready_timers timers 6 three_timers ≡ (
  record { deadline = 3; promise = 2 } ∷ record { deadline = 5; promise = 0 } ∷ [],
  record { deadline = 9; promise = 1 } ∷ [],
)
unfolding grab_ready_timers grab_loop add_timer
two_of_three = refl

-- A keeper of one timer, which is added, and grabbed when its time has come.
abbrev no_contract : ℕ → Contract ℕ (Result ℕ (Unit {0})) ℕ
no_contract id = new_promise

abbrev timed : TimeKeeper ℕ ℕ ℕ timers
timed = record {
  queue = [];
  stop_requested = false;
  worker = setting (record { deadline = 1; promise = 0 } ∷ []);
  clock = 1;
  contracts = update no_contract 0 (pending {X = ℕ});
  next_id = 1;
  calls = [];
  deadlines = update (λ _. 0) 0 1;
}

timed-Reach : Reach timers [] no_contract timed
unfolding after end_after work make_contract add_timer grab_ready_timers grab_loop
timed-Reach =
    next
      (next
        (next
          (next
            (next (next here (calls_after 1 refl))
              (adds [] [] (record { deadline = 1; promise = 0 }) refl))
            ticks)
          (works refl))
        (works refl))
      (works refl)

weigh-none_in : (w : Timer ℕ → ℕ) → timers.weigh w [] ≡ 0
weigh-none_in w = refl

Reach-kept_example :
    ((id : ℕ) → id < 1 → Fate timers timed id)
    × (timed.worker ≢ returned
        → (k' : TimeKeeper ℕ ℕ ℕ timers) × (work timers timed.worker timed ≡ some k'))
Reach-kept_example = Reach-kept timers [] no_contract weigh-none_in timed-Reach

-- The keeper before the grab.
abbrev about_to_grab : TimeKeeper ℕ ℕ ℕ timers
about_to_grab = record timed {
  queue = record { deadline = 1; promise = 0 } ∷ [];
  worker = grabbing 1;
}

about_to_grab-Reach : Reach timers [] no_contract about_to_grab
unfolding after end_after work make_contract add_timer
about_to_grab-Reach =
    next
      (next
        (next
          (next (next here (calls_after 1 refl))
            (adds [] [] (record { deadline = 1; promise = 0 }) refl))
          ticks)
        (works refl))
      (works refl)

Reach-polled_example :
    (rounds : ℕ) × (k' : TimeKeeper ℕ ℕ ℕ timers) × (work_times timers rounds about_to_grab
      ≡ some k')
    × (k'.worker ≡ sleeping)
    × ((id : ℕ)
        → id < 1
        → about_to_grab.deadlines id ≤ 1
        → weigh_list (is_of id) about_to_grab.calls ≡ 0
        → k'.contracts id ≡ fulfilled)
Reach-polled_example = Reach-polled timers [] no_contract weigh-none_in about_to_grab-Reach 1 refl
