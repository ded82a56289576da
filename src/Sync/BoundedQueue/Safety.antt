-- ===== src/Sync/BoundedQueue/Safety.antt =====
-- What the bounded queue promises to its producers and consumers, in every interleaving.
use tpcc.Prelude.{
  ℕ, ◌-◌, ◌^◌, ◌<◌, ◌≤◌, none, some, List, [], ◌∷◌, ◌++◌, ◌≡◌, refl, ◌≢◌, length, inl, inr, ◌⊎◌,
  total_two, total-eq-zero_below, update_cases, ℕ_discrete, update, total, total-update, le-total,
  arith, append_assoc, append-nil, total-eq-zero, ap,
}
use tpcc.Sync.BoundedQueue.{
  BlockingQueue, Thread, outside, put_top, put_push, take_bottom, take_pop, broken, advance, puts,
  takes, System, IsEntry, calls_put, calls_take, enter, move, init, Reach, here, next,
}
use tpcc.Sync.BoundedQueue.Tokens.{
  top_held, unannounced, entitled, inside, ruined, IsBalanced, advance-IsBalanced,
}

module _ {T : Type 0} where
  advance-order :
      (c : Thread T) (q q' : BlockingQueue T) (c' : Thread T) (buf accepted taken : List T)
      → q.buffer ≡ buf
      → taken ++ buf ≡ accepted
      → advance c q ≡ some (q', c')
      → (taken ++ takes c') ++ q'.buffer ≡ accepted ++ puts c
  unfolding advance
  advance-order take_pop q q' c' [] accepted taken b e p =
      ground (arith, append-nil accepted, append-nil taken)
  advance-order take_pop q q' c' (x ∷ buf) accepted taken b e p =
      ground (arith, append_assoc taken (x ∷ []) buf, append-nil accepted)
  advance-order (put_push x) q q' c' buf accepted taken b e p =
      ground (arith, append_assoc taken buf (x ∷ []), append-nil taken)
  advance-order _ q q' c' buf accepted taken b e p =
      ground (arith, append-nil accepted, append-nil taken)

  -- A thread that cannot go on is outside, or its next step waits for a semaphore.
  stuck_inside :
      (c : Thread T) (q : BlockingQueue T)
      → advance c q ≡ none
      → ruined c ≡ 0
      → (inside c ≡ 0) × (unannounced c ≡ 0)
  unfolding advance
  stuck_inside outside q e r = ground arith
  stuck_inside _ q e r = ground arith

  stuck_held :
      (c : Thread T) (q : BlockingQueue T)
      → advance c q ≡ none
      → ruined c ≡ 0
      → q.queue_protector.current_number ≡ 1
      → (top_held c ≡ 0) × (entitled c ≡ 0)
  unfolding advance
  stuck_held outside q e r p = ground arith
  stuck_held _ q e r p = ground arith

  stuck_cases :
      (c : Thread T) (q : BlockingQueue T)
      → advance c q ≡ none
      → ruined c ≡ 0
      → q.queue_protector.current_number ≡ 1
      → (c ≡ outside)
        ⊎ ((x : T) × (c ≡ put_top x) × (q.bound_top_tokens.current_number ≡ 0))
        ⊎ ((c ≡ take_bottom) × (q.bound_bottom_tokens.current_number ≡ 0))
  unfolding advance
  stuck_cases outside q e r p = inl refl
  stuck_cases (put_top x) q e r p = inr (inl (x, refl, ground arith))
  stuck_cases take_bottom q e r p = inr (inr (refl, ground arith))
  stuck_cases _ q e r p = absurd (ground arith)

module _ {T : Type 0} (n capacity : ℕ) where
  record Inv (s : System T) : Type 0 where
    balanced :
        IsBalanced capacity s.queue
          (total top_held n s.threads)
          (total unannounced n s.threads)
          (total entitled n s.threads)
          (total inside n s.threads)
    order : s.taken ++ s.queue.buffer ≡ s.accepted
    sound : (i : ℕ) → ruined (s.threads i) ≡ 0

  -- A thread that holds nothing goes to a place where it holds nothing.
  calm-Inv :
      (s : System T) (i : ℕ) (c : Thread T)
      → i < n
      → s.threads i ≡ outside
      → top_held c ≡ 0
      → unannounced c ≡ 0
      → entitled c ≡ 0
      → inside c ≡ 0
      → ruined c ≡ 0
      → Inv s
      → Inv (record s { threads = update s.threads i c })
  calm-Inv s i c lt e a b d f g v =
      let h = ap top_held e in
      let h₁ = ap unannounced e in
      let h₂ = ap entitled e in
      let h₃ = ap inside e in
      record {
        balanced = record {
          small = v.balanced.small;
          places = omega (arith, v.balanced.places, total-update top_held n s.threads i c lt);
          values = omega (
            arith,
            v.balanced.values,
            total-update unannounced n s.threads i c lt,
            total-update entitled n s.threads i c lt,
          );
          alone = omega (arith, v.balanced.alone, total-update inside n s.threads i c lt);
        };
        order = v.order;
        sound = λ j. update_cases (λ t. ruined t ≡ 0) s.threads i c j (λ _. g) (λ _. v.sound j);
      }

  enter-Inv :
      (s : System T) (i : ℕ) (c : Thread T)
      → i < n
      → IsEntry n c
      → s.threads i ≡ outside
      → Inv s
      → Inv (record s { threads = update s.threads i c })
  enter-Inv s i c lt (calls_put x) e v = calm-Inv s i (put_top x) lt e refl refl refl refl refl v
  enter-Inv s i c lt calls_take e v = calm-Inv s i take_bottom lt e refl refl refl refl refl v

  move-Inv :
      (s : System T) (i : ℕ) (q : BlockingQueue T) (c : Thread T)
      → i < n
      → advance (s.threads i) s.queue ≡ some (q, c)
      → Inv s
      → Inv (record {
        queue = q;
        threads = update s.threads i c;
        accepted = s.accepted ++ puts (s.threads i);
        taken = s.taken ++ takes c;
      })
  move-Inv s i q c lt e v =
      let others = λ (w : Thread T → ℕ). total w n s.threads - w (s.threads i) in
      let a = le-total top_held n s.threads i lt in
      let b = le-total unannounced n s.threads i lt in
      let d = le-total entitled n s.threads i lt in
      let f = le-total inside n s.threads i lt in
      let (r, g) =
        advance-IsBalanced (s.threads i) capacity s.queue.bound_top_tokens.current_number
          s.queue.bound_bottom_tokens.current_number s.queue.queue_protector.current_number
          s.queue.buffer q c (others top_held) (others unannounced) (others entitled)
          (others inside)
          (record {
            small = v.balanced.small;
            places = omega (arith, v.balanced.places);
            values = omega (arith, v.balanced.values);
            alone = omega (arith, v.balanced.alone);
          })
          e in
      record {
        balanced = record {
          small = r.small;
          places = omega (arith, r.places, total-update top_held n s.threads i c lt);
          values = omega (
            arith,
            r.values,
            total-update unannounced n s.threads i c lt,
            total-update entitled n s.threads i c lt,
          );
          alone = omega (arith, r.alone, total-update inside n s.threads i c lt);
        };
        order =
            advance-order (s.threads i) s.queue q c s.queue.buffer s.accepted s.taken refl v.order
              e;
        sound = λ j. update_cases (λ t. ruined t ≡ 0) s.threads i c j (λ _. g) (λ _. v.sound j);
      }

  Reach-Inv : {s : System T} → capacity < 2 ^ 64 → Reach n capacity s → Inv s
  unfolding init
  Reach-Inv small here = record {
    balanced = record {
      small = small;
      places = omega (arith, total-eq-zero (top_held {T = T}) n (λ _. outside) (λ _. refl));
      values = omega (
        arith,
        total-eq-zero (unannounced {T = T}) n (λ _. outside) (λ _. refl),
        total-eq-zero (entitled {T = T}) n (λ _. outside) (λ _. refl),
      );
      alone = omega (arith, total-eq-zero (inside {T = T}) n (λ _. outside) (λ _. refl));
    };
    order = refl;
    sound = λ i. refl;
  }
  Reach-Inv small (next a (enter i lt c h e)) = enter-Inv _ i c lt h e (Reach-Inv small a)
  Reach-Inv small (next a (move i lt q)) = move-Inv _ i _ _ lt q (Reach-Inv small a)

  -- With any number of producers and consumers and a capacity below 2^64, in every reachable state: the
  -- buffer holds at most `capacity` values; `front` was never called on an empty buffer; at most one
  -- thread is between the acquisition and the release of `queue_protector_`; and the values taken,
  -- followed by those in the buffer, are the values put, in the same order.
  pub Reach-safe :
      {s : System T}
      → capacity < 2 ^ 64
      → Reach n capacity s
      → (length s.queue.buffer ≤ capacity)
        × ((i : ℕ) → s.threads i ≢ broken)
        × ((i j : ℕ) → i < n → j < n → inside (s.threads i) ≡ 1 → inside (s.threads j) ≡ 1 → i ≡ j)
        × (s.taken ++ s.queue.buffer ≡ s.accepted)
  Reach-safe {s} small a =
      let v = Reach-Inv small a in
      (
        omega (arith, v.balanced.places),
        λ i e. ground (arith, v.sound i),
        λ i j p q x y. elim (ℕ_discrete i j) [
          | yes e ↦ e
          | no ne ↦
              absurd (omega (arith, v.balanced.alone, total_two inside n s.threads i j p q ne))
        ],
        v.order,
      )

  -- Nobody waits for nothing: with a capacity below 2^64, in a reachable state in which no thread can
  -- make a step but by a new call, a thread in a call of `Put` waits for a place while the buffer is
  -- full, and a thread in a call of `Take` waits for a value while the buffer is empty.
  pub Reach-stuck :
      {s : System T}
      → capacity < 2 ^ 64
      → Reach n capacity s
      → ((i : ℕ) → i < n → advance (s.threads i) s.queue ≡ none)
      → (i : ℕ) → i < n
      → (s.threads i ≡ outside)
        ⊎ ((x : T) × (s.threads i ≡ put_top x) × (length s.queue.buffer ≡ capacity))
        ⊎ ((s.threads i ≡ take_bottom) × (s.queue.buffer ≡ []))
  Reach-stuck {s} small a stuck i lt =
      let v = Reach-Inv small a in
      let none_inside =
        total-eq-zero_below inside n s.threads
          (λ j q. (stuck_inside (s.threads j) s.queue (stuck j q) (v.sound j)).0) in
      let none_unannounced =
        total-eq-zero_below unannounced n s.threads
          (λ j q. (stuck_inside (s.threads j) s.queue (stuck j q) (v.sound j)).1) in
      let unlocked : s.queue.queue_protector.current_number ≡ 1 = omega (arith, v.balanced.alone) in
      let held =
        λ (j : ℕ) (q : j < n). stuck_held (s.threads j) s.queue (stuck j q) (v.sound j) unlocked in
      let none_held = total-eq-zero_below top_held n s.threads (λ j q. (held j q).0) in
      let none_entitled = total-eq-zero_below entitled n s.threads (λ j q. (held j q).1) in
      elim (stuck_cases (s.threads i) s.queue (stuck i lt) (v.sound i) unlocked) [
        | inl out ↦ inl out
        | inr (inl (x, e, z)) ↦ inr (inl (x, e, omega (arith, v.balanced.places)))
        | inr (inr (e, z)) ↦ inr (inr (e, empty s.queue.buffer (omega (arith, v.balanced.values))))
      ]
    where
      empty : (buf : List T) → length buf ≡ 0 → buf ≡ []
      empty [] h = refl
      empty (x ∷ buf) h = absurd (omega arith)
