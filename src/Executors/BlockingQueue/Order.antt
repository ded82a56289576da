-- ===== src/Executors/BlockingQueue/Order.antt =====
-- What producers and consumers of an `UnboundedBlockingQueue` observe, over any history of calls:
-- the order of the values, and what closing does.
use tpcc.Prelude.{
  ◌≡◌, refl, sym, ◌∙◌, ap, ◌≢◌, Bool-cases, ◌⊎◌, inl, inr, ◌↔◌, Bool, true, false, Option, none,
  some, List, [], ◌∷◌, ◌++◌, append_assoc, arith, All,
}
use tpcc.Executors.BlockingQueue.{BlockingQueue, init, put, take, close, cancel}

pub data Call {ℓ} (T : Type ℓ) : Type ℓ where
  puts : T → Call T
  takes : Call T
  closes : Call T
  cancels : Call T

-- A queue with the values that `Put` has accepted and those that `Take` has returned, oldest first.
pub record History {ℓ} (T : Type ℓ) : Type ℓ where
  pub queue : BlockingQueue T
  pub accepted : List T
  pub taken : List T

module _ {ℓ} {T : Type ℓ} where
  log_put : T → History T → BlockingQueue T × Bool → History T
  log_put v h (q, true) = record h { queue = q; accepted = h.accepted ++ v ∷ [] }
  log_put v h (q, false) = record h { queue = q }

  -- A call that stays blocked changes nothing.
  log_take : History T → Option (BlockingQueue T × Option T) → History T
  log_take h none = h
  log_take h (some (q, none)) = record h { queue = q }
  log_take h (some (q, some v)) = record h { queue = q; taken = h.taken ++ v ∷ [] }

  unfoldable pub step : History T → Call T → History T
  unfolding log_put log_take
  step h (puts v) = log_put v h (put v h.queue)
  step h takes = log_take h (take h.queue)
  step h closes = record h { queue = close h.queue }
  step h cancels = record h { queue = cancel h.queue }

  unfoldable pub run : History T → List (Call T) → History T
  unfolding step
  run h [] = h
  run h (c ∷ cs) = run (step h c) cs

  abbrev pub start : History T
  start = record { queue = init; accepted = []; taken = [] }

  -- What is still owed to the consumers: the values that are buffered, or those that `Cancel`
  -- dropped from a queue that is now closed and empty.
  pub record IsFifo (h : History T) : Type ℓ where
    pub owed : List T
    pub split : h.taken ++ owed ≡ h.accepted
    pub kept : (owed ≡ h.queue.buffer) ⊎ ((h.queue.closed ≡ true) × (h.queue.buffer ≡ []))

  snoc_split : (xs ys zs : List T) (v : T) → xs ++ ys ≡ zs → xs ++ (ys ++ v ∷ []) ≡ zs ++ v ∷ []
  snoc_split xs ys zs v e = sym (append_assoc xs ys (v ∷ [])) ∙ ap (λ l. l ++ v ∷ []) e

  abbrev at : Bool → List T → List T → List T → History T
  at b buf acc tak = record {
    queue = record { closed = b; buffer = buf };
    accepted = acc;
    taken = tak;
  }

  put-IsFifo :
      (b : Bool) (buf acc tak : List T) (v : T)
      → IsFifo (at b buf acc tak)
      → IsFifo (step (at b buf acc tak) (puts v))
  unfolding step put
  put-IsFifo true buf acc tak v f = f
  put-IsFifo false buf acc tak v f = elim f.kept [
    | inl e ↦ record {
      owed = f.owed ++ v ∷ [];
      split = snoc_split tak f.owed acc v f.split;
      kept = inl (ap (λ l. l ++ v ∷ []) e);
    }
    | inr (c, e) ↦ absurd (cc)
  ]

  pop-IsFifo :
      (b : Bool) (x : T) (buf acc tak : List T)
      → IsFifo (at b (x ∷ buf) acc tak)
      → IsFifo (at b buf acc (tak ++ x ∷ []))
  pop-IsFifo b x buf acc tak f = elim f.kept [
    | inl e ↦ record {
      owed = buf;
      split = append_assoc tak (x ∷ []) buf ∙ ap (λ l. tak ++ l) (sym e) ∙ f.split;
      kept = inl refl;
    }
    | inr (c, e) ↦ absurd (cc)
  ]

  take-IsFifo :
      (b : Bool) (buf acc tak : List T)
      → IsFifo (at b buf acc tak)
      → IsFifo (step (at b buf acc tak) takes)
  unfolding step take
  take-IsFifo true [] acc tak f = f
  take-IsFifo false [] acc tak f = f
  take-IsFifo true (x ∷ buf) acc tak f = pop-IsFifo true x buf acc tak f
  take-IsFifo false (x ∷ buf) acc tak f = pop-IsFifo false x buf acc tak f

  close-IsFifo : (h : History T) → IsFifo h → IsFifo (step h closes)
  unfolding step close
  close-IsFifo h f = record {
    owed = f.owed;
    split = f.split;
    kept = elim f.kept [ inl e ↦ inl e | inr (c, e) ↦ inr (refl, e) ];
  }

  step-IsFifo : (h : History T) (c : Call T) → IsFifo h → IsFifo (step h c)
  unfolding step cancel
  step-IsFifo h (puts v) f = put-IsFifo h.queue.closed h.queue.buffer h.accepted h.taken v f
  step-IsFifo h takes f = take-IsFifo h.queue.closed h.queue.buffer h.accepted h.taken f
  step-IsFifo h closes f = close-IsFifo h f
  step-IsFifo h cancels f = record { owed = f.owed; split = f.split; kept = inr (refl, refl) }

  run-IsFifo : (h : History T) (cs : List (Call T)) → IsFifo h → IsFifo (run h cs)
  unfolding run
  run-IsFifo h [] f = f
  run-IsFifo h (c ∷ cs) f = run-IsFifo (step h c) cs (step-IsFifo h c f)

  -- After any calls on a new queue, the values that `Take` has returned, followed by the values still
  -- owed, are the values that `Put` has accepted, in the same order; and the values owed are those in
  -- the buffer, unless the queue is closed and empty.
  pub run-start-IsFifo : (cs : List (Call T)) → IsFifo (run start cs)
  run-start-IsFifo cs = run-IsFifo start cs (record { owed = []; split = refl; kept = inl refl })

  abbrev IsCancel : Call T → Type 0
  IsCancel cancels = Unit
  IsCancel _ = ⊥

  step-lossless :
      (h : History T) (c : Call T)
      → ¬ IsCancel c
      → h.taken ++ h.queue.buffer ≡ h.accepted
      → (step h c).taken ++ (step h c).queue.buffer ≡ (step h c).accepted
  unfolding step put take close
  step-lossless h (puts v) n e = elim (Bool-cases h.queue.closed) [
    | inl c ↦ rw c e
    | inr o ↦ rw o (snoc_split h.taken h.queue.buffer h.accepted v e)
  ]
  step-lossless h takes n e = take_lossless h.queue.closed h.queue.buffer h.accepted h.taken e
    where
      take_lossless :
          (b : Bool) (buf acc tak : List T)
          → tak ++ buf ≡ acc
          → let h' = step (at b buf acc tak) takes in h'.taken ++ h'.queue.buffer ≡ h'.accepted
      take_lossless true [] acc tak e = e
      take_lossless false [] acc tak e = e
      take_lossless true (x ∷ buf) acc tak e = append_assoc tak (x ∷ []) buf ∙ e
      take_lossless false (x ∷ buf) acc tak e = append_assoc tak (x ∷ []) buf ∙ e
  step-lossless h closes n e = e
  step-lossless h cancels n e = absurd (n tt)

  run-lossless :
      (h : History T) (cs : List (Call T))
      → All (λ c. ¬ IsCancel c) cs
      → h.taken ++ h.queue.buffer ≡ h.accepted
      → (run h cs).taken ++ (run h cs).queue.buffer ≡ (run h cs).accepted
  unfolding run
  run-lossless h [] ns e = e
  run-lossless h (c ∷ cs) ns e = run-lossless (step h c) cs ns.1 (step-lossless h c ns.0 e)

  -- With no call of `Cancel` nothing is lost: after any other calls on a new queue, the values taken
  -- followed by the values in the buffer are the values accepted, in the same order.
  pub run-start-lossless :
      (cs : List (Call T))
      → All (λ c. ¬ IsCancel c) cs
      → (run start cs).taken ++ (run start cs).queue.buffer ≡ (run start cs).accepted
  run-start-lossless cs ns = run-lossless start cs ns refl

  abbrev pub holding : Bool → List T → BlockingQueue T
  holding b buf = record { closed = b; buffer = buf }

  outcomes :
      (b : Bool) (buf : List T)
      → ((take (holding b buf) ≡ none) ↔ ((b ≡ false) × (buf ≡ [])))
        × ((take (holding b buf) ≡ some (holding b buf, none)) ↔ ((b ≡ true) × (buf ≡ [])))
        × ((v : T) (rest : List T)
            → (take (holding b buf) ≡ some (holding b rest, some v)) ↔ (buf ≡ v ∷ rest))
  unfolding take
  outcomes true [] = ground arith
  outcomes false [] = ground arith
  outcomes true (x ∷ buf) = ground arith
  outcomes false (x ∷ buf) = ground arith

  -- `Take` stays blocked exactly while the queue is open and empty; it returns `std::nullopt`, leaving
  -- the queue as it is, exactly when the queue is closed and empty; and it returns a value, leaving
  -- some values in the buffer, exactly when the buffer was that value in front of those.
  pub take-outcomes :
      (q : BlockingQueue T)
      → ((take q ≡ none) ↔ ((q.closed ≡ false) × (q.buffer ≡ [])))
        × ((take q ≡ some (q, none)) ↔ ((q.closed ≡ true) × (q.buffer ≡ [])))
        × ((v : T) (rest : List T)
            → (take q ≡ some (holding q.closed rest, some v)) ↔ (q.buffer ≡ v ∷ rest))
  take-outcomes q = outcomes q.closed q.buffer

  -- A closed queue stays closed whatever is called, `Put` is refused and adds nothing, and `Take` never
  -- blocks.
  pub step-closed :
      (h : History T) (c : Call T)
      → h.queue.closed ≡ true
      → ((step h c).queue.closed ≡ true)
        × ((step h c).accepted ≡ h.accepted)
        × (take (step h c).queue ≢ none)
  unfolding step put take close cancel
  step-closed h (puts v) e = ground arith
  step-closed h takes e = ground arith
  step-closed h closes e = ground arith
  step-closed h cancels e = ground arith
