-- ===== src/Sync/BoundedQueue/Tokens.antt =====
-- What the three semaphores count.
use tpcc.Prelude.{ℕ, ◌+◌, ◌^◌, ◌<◌, some, List, [], ◌∷◌, ◌≡◌, length, length-append, arith}
use tpcc.Sync.BoundedQueue.{
  BlockingQueue, Thread, outside, put_enter, put_push, put_leave, put_bottom, take_enter, take_pop,
  take_leave, take_top, broken, advance,
}

module _ {T : Type 0} where
  -- A thread that holds a place in the buffer which is not filled, or not given back.
  abbrev pub top_held : Thread T → ℕ
  top_held (put_enter v) = 1
  top_held (put_push v) = 1
  top_held (take_leave v) = 1
  top_held (take_top v) = 1
  top_held _ = 0

  -- A thread that has put a value which it has not announced.
  abbrev pub unannounced : Thread T → ℕ
  unannounced put_leave = 1
  unannounced put_bottom = 1
  unannounced _ = 0

  -- A thread that has a right to a value which it has not taken.
  abbrev pub entitled : Thread T → ℕ
  entitled take_enter = 1
  entitled take_pop = 1
  entitled _ = 0

  -- A thread between `queue_protector_.Acquire()` and `Release()`.
  abbrev pub inside : Thread T → ℕ
  inside (put_push v) = 1
  inside put_leave = 1
  inside take_pop = 1
  inside (take_leave v) = 1
  inside _ = 0

  abbrev pub ruined : Thread T → ℕ
  ruined broken = 1
  ruined _ = 0

  pub record IsBalanced (capacity : ℕ) (q : BlockingQueue T) (tops unann ent ins : ℕ) : Type 0 where
    pub small : capacity < 2 ^ 64
    pub places : q.bound_top_tokens.current_number + tops + length q.buffer ≡ capacity
    pub values : q.bound_bottom_tokens.current_number + unann + ent ≡ length q.buffer
    pub alone : q.queue_protector.current_number + ins ≡ 1

  abbrev pub holding : ℕ → ℕ → ℕ → List T → BlockingQueue T
  holding top bottom protector buf = record {
    bound_top_tokens = record { current_number = top };
    bound_bottom_tokens = record { current_number = bottom };
    queue_protector = record { current_number = protector };
    buffer = buf;
  }

  -- One step of a thread keeps the balance of its own numbers with those of the others.
  pub advance-IsBalanced :
      (c : Thread T) (capacity top bottom protector : ℕ) (buf : List T) (q' : BlockingQueue T)
      (c' : Thread T) (tops unann ent ins : ℕ)
      → IsBalanced capacity
          (holding top bottom protector buf)
          (top_held c + tops)
          (unannounced c + unann)
          (entitled c + ent)
          (inside c + ins)
      → advance c (holding top bottom protector buf) ≡ some (q', c')
      → IsBalanced capacity q'
          (top_held c' + tops)
          (unannounced c' + unann)
          (entitled c' + ent)
          (inside c' + ins)
        × (ruined c' ≡ 0)
  unfolding advance
  advance-IsBalanced outside cap top bottom protector buf q' c' tops unann ent ins v q =
      ground arith
  advance-IsBalanced (put_push x) cap top bottom protector buf q' c' tops unann ent ins v q =
      ground (arith, length-append buf (x ∷ []))
  advance-IsBalanced take_pop cap top bottom protector [] q' c' tops unann ent ins v q =
      absurd (omega (arith, v.values))
  advance-IsBalanced take_pop cap top bottom protector (x ∷ buf) q' c' tops unann ent ins v q =
      ground arith
  advance-IsBalanced _ cap top bottom protector buf q' c' tops unann ent ins v q = ground arith
