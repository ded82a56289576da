-- ===== src/Sync/BoundedQueue.antt =====
-- condvar/semaphore/blocking_queue.hpp: the bounded `BlockingQueue<T>` over three semaphores. Any
-- number of threads call `Put` and `Take`; each operation on a semaphore or on the buffer is a step.
pub mod Tokens
pub mod Safety
use tpcc.Prelude.{ℕ, ◌<◌, Option, none, some, List, [], ◌∷◌, ◌++◌, ◌≡◌, update, ◌>>=◌}
use tpcc.Sync.Semaphore.{Semaphore, semaphore, acquire, release}

pub record BlockingQueue (T : Type 0) : Type 0 where
  pub bound_top_tokens : Semaphore
  pub bound_bottom_tokens : Semaphore
  pub queue_protector : Semaphore
  pub buffer : List T

-- Where a thread stands in `Put` and in `Take`.
pub data Thread (T : Type 0) : Type 0 where
  outside : Thread T
  put_top : T → Thread T  -- before `bound_top_tokens_.Acquire()`
  put_enter : T → Thread T  -- before `queue_protector_.Acquire()`
  put_push : T → Thread T  -- before `push_back`
  put_leave : Thread T  -- before `queue_protector_.Release()`
  put_bottom : Thread T  -- before `bound_bottom_tokens_.Release()`
  take_bottom : Thread T  -- before `bound_bottom_tokens_.Acquire()`
  take_enter : Thread T  -- before `queue_protector_.Acquire()`
  take_pop : Thread T  -- before `front` and `pop_front`
  take_leave : T → Thread T  -- before `queue_protector_.Release()`
  take_top : T → Thread T  -- before `bound_top_tokens_.Release()`
  broken : Thread T  -- `front` of an empty deque

module _ {T : Type 0} where
  unfoldable pub new_queue : ℕ → BlockingQueue T
  new_queue capacity = record {
    bound_top_tokens = semaphore capacity;
    bound_bottom_tokens = semaphore 0;
    queue_protector = semaphore 1;
    buffer = [];
  }

  unfoldable pub pop : List T → BlockingQueue T → BlockingQueue T × Thread T
  pop [] q = (q, broken)
  pop (v ∷ rest) q = (record q { buffer = rest }, take_leave v)

  -- The next step of a call; `none` when the thread is blocked or outside.
  unfoldable pub advance : Thread T → BlockingQueue T → Option (BlockingQueue T × Thread T)
  unfolding acquire release pop
  advance outside q = none
  advance (put_top v) q = do
    s ← acquire q.bound_top_tokens
    some (record q { bound_top_tokens = s }, put_enter v)
  advance (put_enter v) q = do
    s ← acquire q.queue_protector
    some (record q { queue_protector = s }, put_push v)
  advance (put_push v) q = some (record q { buffer = q.buffer ++ v ∷ [] }, put_leave)
  advance put_leave q = some (record q { queue_protector = release q.queue_protector }, put_bottom)
  advance put_bottom q =
      some (record q { bound_bottom_tokens = release q.bound_bottom_tokens }, outside)
  advance take_bottom q = do
    s ← acquire q.bound_bottom_tokens
    some (record q { bound_bottom_tokens = s }, take_enter)
  advance take_enter q = do
    s ← acquire q.queue_protector
    some (record q { queue_protector = s }, take_pop)
  advance take_pop q = some (pop q.buffer q)
  advance (take_leave v) q =
      some (record q { queue_protector = release q.queue_protector }, take_top v)
  advance (take_top v) q =
      some (record q { bound_top_tokens = release q.bound_top_tokens }, outside)
  advance broken q = none

  -- The value that a step puts into the buffer, and the one that it takes out.
  abbrev pub puts : Thread T → List T
  puts (put_push v) = v ∷ []
  puts _ = []

  abbrev pub takes : Thread T → List T
  takes (take_leave v) = v ∷ []
  takes _ = []

-- The queue, its threads, and the values put into the buffer and taken out of it, oldest first.
pub record System (T : Type 0) : Type 0 where
  pub queue : BlockingQueue T
  pub threads : ℕ → Thread T
  pub accepted : List T
  pub taken : List T

module _ {T : Type 0} (n : ℕ) where
  -- What a thread that is outside may call.
  pub data IsEntry : Thread T → Type 0 where
    calls_put : (v : T) → IsEntry (put_top v)
    calls_take : IsEntry take_bottom

  pub data Step (s : System T) : System T → Type 0 where
    enter :
        (i : ℕ)
        → i < n
        → (c : Thread T) → IsEntry c
        → s.threads i ≡ outside
        → Step s (record s { threads = update s.threads i c })
    move :
        (i : ℕ)
        → i < n
        → {q : BlockingQueue T} {c : Thread T} → advance (s.threads i) s.queue ≡ some (q, c)
        → Step s (record {
          queue = q;
          threads = update s.threads i c;
          accepted = s.accepted ++ puts (s.threads i);
          taken = s.taken ++ takes c;
        })

  unfoldable pub init : ℕ → System T
  unfolding new_queue
  init capacity = record {
    queue = new_queue capacity;
    threads = λ _. outside;
    accepted = [];
    taken = [];
  }

  pub data Reach (capacity : ℕ) : System T → Type 0 where
    here : Reach capacity (init capacity)
    next : {s t : System T} → Reach capacity s → Step s t → Reach capacity t
