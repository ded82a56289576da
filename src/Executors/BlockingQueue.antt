-- ===== src/Executors/BlockingQueue.antt =====
-- futures/futures/await/executors/blocking_queue.hpp: `UnboundedBlockingQueue<T>`. Each operation
-- holds `mutex_` from its first line to its last, so it is one step; a call that waits on
-- `empty_queue_` has no step while its predicate is false. The condition variable itself keeps no
-- state that the operations read.
pub mod Order
use tpcc.Prelude.{
  Bool, true, false, not, ◌||◌, ◌&&◌, Option, none, some, List, [], ◌∷◌, ◌++◌, if◌then◌else◌,
  is_empty,
}

-- `closed_` and `buffer_`, the front of the deque first.
pub record BlockingQueue {ℓ} (T : Type ℓ) : Type ℓ where
  pub closed : Bool
  pub buffer : List T

module _ {ℓ} {T : Type ℓ} where
  abbrev pub init : BlockingQueue T
  init = record { closed = false; buffer = [] }

  unfoldable pub put : T → BlockingQueue T → BlockingQueue T × Bool
  put value q =
      if q.closed
      then (q, false)
      else (record { closed = q.closed; buffer = q.buffer ++ value ∷ [] }, true)

  -- The predicate that `Take` waits for.
  unfoldable pub can_take : BlockingQueue T → Bool
  can_take q = q.closed || not (is_empty q.buffer)

  -- `front` and `pop_front`; the first case is excluded by the test before it.
  unfoldable pub pop_front : Bool → List T → BlockingQueue T × Option T
  pop_front closed [] = (record { closed = closed; buffer = [] }, none)
  pop_front closed (value ∷ rest) = (record { closed = closed; buffer = rest }, some value)

  -- The part of `Take` below the wait.
  unfoldable pub take_ready : BlockingQueue T → BlockingQueue T × Option T
  unfolding pop_front
  take_ready q = if q.closed && is_empty q.buffer then (q, none) else pop_front q.closed q.buffer

  -- `none` while the caller stays blocked; otherwise the value, or `std::nullopt` as `none`.
  unfoldable pub take : BlockingQueue T → Option (BlockingQueue T × Option T)
  unfolding can_take take_ready
  take q = if can_take q then some (take_ready q) else none

  unfoldable pub close_impl : Bool → BlockingQueue T → BlockingQueue T
  close_impl clear q =
      if not clear
      then record { closed = true; buffer = q.buffer }
      else record { closed = true; buffer = [] }

  unfoldable pub close : BlockingQueue T → BlockingQueue T
  unfolding close_impl
  close q = close_impl false q

  unfoldable pub cancel : BlockingQueue T → BlockingQueue T
  unfolding close_impl
  cancel q = close_impl true q

  unfoldable pub is_closed : BlockingQueue T → Bool
  is_closed q = q.closed
