-- ===== src/TinyFibers/Join.antt =====
-- tinyfibers/echo/tinyfibers/runtime: `ParkingLot`, and on it `JoinHandle` and `Future`, over the
-- scheduler. A call that parks its fiber has two parts, before and after.
pub mod Waking
use tpcc.Prelude.{ℕ, Bool, true, false, Option, none, some, update, if◌then◌else◌, ◌>>=◌}
use tpcc.TinyFibers.Scheduler.{Scheduler, FiberState, absent, resume, suspend, terminate}

-- `ParkingLot::Park`: the fiber that the lot then holds as `waitee_`.
unfoldable pub park_waitee : Scheduler → Option (ℕ × Scheduler)
unfolding suspend
park_waitee s = do caller ← s.current; s' ← suspend s; some (caller, s')

-- `ParkingLot::Wake`, with what the lot holds.
unfoldable pub wake_waitee : Option ℕ → Scheduler → Option Scheduler
unfolding resume
wake_waitee none s = some s
wake_waitee (some fiber) s = resume fiber s

pub record JoinHandle : Type 0 where
  pub fiber : Option ℕ
  pub completed : Bool
  pub waitee : Option ℕ

-- The handles go by numbers; `watchers` are the `watcher_` pointers of the fibers.
pub record Handles : Type 0 where
  pub scheduler : Scheduler
  pub handles : ℕ → JoinHandle
  pub watchers : ℕ → Option ℕ

unfoldable pub set_watcher : ℕ → Option ℕ → Handles → Handles
set_watcher fiber watcher s = record s { watchers = update s.watchers fiber watcher }

abbrev pub put_handle : ℕ → JoinHandle → Handles → Handles
put_handle this handle s = record s { handles = update s.handles this handle }

unfoldable pub new_handle : ℕ → ℕ → Handles → Handles
unfolding set_watcher
new_handle this fiber s =
    set_watcher fiber (some this)
      (put_handle this (record { fiber = some fiber; completed = false; waitee = none }) s)

-- A completed handle is moved without a word to the fiber; with no fiber, a null pointer is written to.
unfoldable pub keep_watching : Bool → Option ℕ → ℕ → Handles → Option Handles
unfolding set_watcher
keep_watching true fiber this s = some s
keep_watching false none this s = none
keep_watching false (some fiber) this s = some (set_watcher fiber (some this) s)

-- The move constructor of `this`.
unfoldable pub move_handle : ℕ → ℕ → Handles → Option Handles
unfolding keep_watching
move_handle that this s =
    let old = s.handles that in
    let new : JoinHandle = record { fiber = old.fiber; completed = old.completed; waitee = none } in
    keep_watching old.completed old.fiber this
      (put_handle this new (put_handle that (record old { fiber = none }) s))

-- The end of `Join`.
unfoldable pub end_join : ℕ → Handles → Handles
end_join this s = put_handle this (record (s.handles this) { fiber = none }) s

-- `Join` up to its end, or until it has parked the caller; whether it has returned.
unfoldable pub join_from : Bool → ℕ → Handles → Option (Bool × Handles)
unfolding end_join park_waitee
join_from true this s = some (true, end_join this s)
join_from false this s = do
  (caller, scheduler) ← park_waitee s.scheduler
  some (
    false,
    put_handle this (record (s.handles this) { waitee = some caller })
        (record s { scheduler = scheduler }),
  )

unfoldable pub join : ℕ → Handles → Option (Bool × Handles)
unfolding join_from
join this s = do fiber ← (s.handles this).fiber; join_from (s.handles this).completed this s

-- The fiber's memory is written to: `none` where it has been deleted.
abbrev pub is_there : FiberState → Bool
is_there absent = false
is_there _ = true

abbrev pub write_watcher : Bool → ℕ → ℕ → Handles → Option Handles
unfolding set_watcher
write_watcher true fiber this s =
    some (put_handle this (record (s.handles this) { fiber = none }) (set_watcher fiber none s))
write_watcher false fiber this s = none

unfoldable pub detach : ℕ → Handles → Option Handles
unfolding write_watcher
detach this s = do
  fiber ← (s.handles this).fiber
  write_watcher (is_there (s.scheduler.fibers fiber)) fiber this s

unfoldable pub on_completed : ℕ → Handles → Option Handles
unfolding wake_waitee
on_completed this s = do
  let handle = s.handles this
  scheduler ← wake_waitee handle.waitee s.scheduler
  some (put_handle this (record handle { completed = true }) (record s { scheduler = scheduler }))

-- `~Fiber`, by its watcher.
unfoldable pub notify_watcher : Option ℕ → Handles → Option Handles
unfolding on_completed
notify_watcher none s = some s
notify_watcher (some watcher) s = on_completed watcher s

-- `Terminate`, with the `Destroy` that follows it.
unfoldable pub terminate_watched : Handles → Option Handles
unfolding terminate notify_watcher
terminate_watched s = do
  caller ← s.scheduler.current
  scheduler ← terminate s.scheduler
  notify_watcher (s.watchers caller) (record s { scheduler = scheduler })

-- A `Future` with its lot. A result is a value of `R`.
pub record Future (R : Type 0) : Type 0 where
  pub result : Option R
  pub future_waitee : Option ℕ

module _ {R : Type 0} where
  abbrev pub new_future : Future R
  new_future = record { result = none; future_waitee = none }

  -- `Get`, up to where it has parked the caller.
  unfoldable pub begin_get : Future R → Scheduler → Option (Future R × Scheduler)
  unfolding park_waitee
  begin_get f s = do
    (caller, s') ← park_waitee s
    some (record f { future_waitee = some caller }, s')

  -- The rest of `Get`; `none`: there is no result.
  unfoldable pub end_get : Future R → Option R
  end_get f = f.result

  unfoldable pub set : R → Future R → Scheduler → Option (Future R × Scheduler)
  unfolding wake_waitee
  set r f s = do s' ← wake_waitee f.future_waitee s; some (record f { result = some r }, s')
