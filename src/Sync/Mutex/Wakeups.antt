-- ===== src/Sync/Mutex/Wakeups.antt =====
-- One thread holds the mutex at most, and no sleeper is forgotten.
use tpcc.Prelude.{
  ℕ, ◌+◌, ◌^◌, ◌<◌, ◌≤◌, some, ◌≡◌, refl, ◌≢◌, inl, inr, ◌⊎◌, total_two, total-eq-zero_below,
  ℕ_discrete, update, update_other, total, total-update, le-total, arith, total-eq-zero, ap,
  total-le, total-le-total, sym, ◌∙◌,
}
use tpcc.Sync.Mutex.{
  Mutex, Thread, outside, locking, testing, asleep, retrying, departing, critical, unlocking,
  checking, notifying, advance, System, Step, lock, unlock, move, wake, wake_nobody, Reach, here,
  next,
}

-- A thread that holds the mutex.
abbrev pub owns : Thread → ℕ
owns departing = 1
owns critical = 1
owns unlocking = 1
owns _ = 0

-- A thread that `waiting_counter_` counts.
abbrev counted : Thread → ℕ
counted testing = 1
counted asleep = 1
counted retrying = 1
counted departing = 1
counted _ = 0

abbrev sleeps : Thread → ℕ
sleeps asleep = 1
sleeps _ = 0

-- A thread that will take the mutex or wake a sleeper.
abbrev active : Thread → ℕ
active testing = 1
active retrying = 1
active checking = 1
active notifying = 1
active _ = 0

-- The balance of the mutex with the sums over its threads.
record IsBalanced (n : ℕ) (m : Mutex) (own cnt slp act : ℕ) : Type 0 where
  few : n < 2 ^ 32
  fits : cnt ≤ n
  part : slp ≤ cnt
  binary : m.state ≤ 1
  held : own ≡ m.state
  counter : m.waiting_counter ≡ cnt
  awake : (m.state ≡ 1) ⊎ (slp ≡ 0) ⊎ (0 < act)

advance-IsBalanced :
    (t : Thread) (n : ℕ) (m m' : Mutex) (t' : Thread) (own cnt slp act : ℕ)
    → IsBalanced n m (owns t + own) (counted t + cnt) (sleeps t + slp) (active t + act)
    → slp ≤ cnt
    → counted t' + cnt ≤ n
    → advance t m ≡ some (m', t')
    → IsBalanced n m' (owns t' + own) (counted t' + cnt) (sleeps t' + slp) (active t' + act)
unfolding advance
advance-IsBalanced outside n m m' t' own cnt slp act v p f q = ground arith
advance-IsBalanced _ n m m' t' own cnt slp act v p f q = ground arith

sleeps-le : (t : Thread) → sleeps t ≤ counted t
sleeps-le asleep = omega arith
sleeps-le _ = omega arith

counted-le : (t : Thread) → counted t ≤ 1
counted-le asleep = omega arith
counted-le _ = ground arith

awake_weight : (t : Thread) → t ≢ asleep → sleeps t ≡ 0
awake_weight asleep ne = absurd (ne refl)
awake_weight _ ne = refl

resting_owns : (t : Thread) → (t ≡ outside) ⊎ (t ≡ asleep) → owns t ≡ 0
resting_owns t (inl e) = ap owns e
resting_owns t (inr e) = ap owns e

resting_acts : (t : Thread) → (t ≡ outside) ⊎ (t ≡ asleep) → active t ≡ 0
resting_acts t (inl e) = ap active e
resting_acts t (inr e) = ap active e

module _ (n : ℕ) where
  abbrev Inv : System → Type 0
  Inv s =
      IsBalanced n s.mutex (total owns n s.threads) (total counted n s.threads)
        (total sleeps n s.threads) (total active n s.threads)

  -- The sums before and after a change of thread `i`, as what the others weigh and what it weighs.
  record Change (threads : ℕ → Thread) (i : ℕ) (t : Thread) : Type 0 where
    own : ℕ
    cnt : ℕ
    slp : ℕ
    act : ℕ
    own_before : owns (threads i) + own ≡ total owns n threads
    own_after : owns t + own ≡ total owns n (update threads i t)
    cnt_before : counted (threads i) + cnt ≡ total counted n threads
    cnt_after : counted t + cnt ≡ total counted n (update threads i t)
    slp_before : sleeps (threads i) + slp ≡ total sleeps n threads
    slp_after : sleeps t + slp ≡ total sleeps n (update threads i t)
    act_before : active (threads i) + act ≡ total active n threads
    act_after : active t + act ≡ total active n (update threads i t)
    part : slp ≤ cnt
    fits : counted t + cnt ≤ n

  change : (threads : ℕ → Thread) (i : ℕ) (t : Thread) → i < n → Change threads i t
  change threads i t lt = record {
    own = total owns n (update threads i outside);
    cnt = total counted n (update threads i outside);
    slp = total sleeps n (update threads i outside);
    act = total active n (update threads i outside);
    own_before = omega (arith, total-update owns n threads i outside lt);
    own_after =
        omega (arith, total-update owns n threads i outside lt, total-update owns n threads i t lt);
    cnt_before = omega (arith, total-update counted n threads i outside lt);
    cnt_after =
        omega (
          arith,
          total-update counted n threads i outside lt,
          total-update counted n threads i t lt,
        );
    slp_before = omega (arith, total-update sleeps n threads i outside lt);
    slp_after =
        omega
          (arith, total-update sleeps n threads i outside lt, total-update sleeps n threads i t lt);
    act_before = omega (arith, total-update active n threads i outside lt);
    act_after =
        omega
          (arith, total-update active n threads i outside lt, total-update active n threads i t lt);
    part = total-le-total sleeps counted n (update threads i outside) sleeps-le;
    fits = omega (
      arith,
      total-le counted counted-le n (update threads i t),
      total-update counted n threads i outside lt,
      total-update counted n threads i t lt,
    );
  }

  move-Inv :
      (s : System) (i : ℕ) (m : Mutex) (t : Thread)
      → i < n
      → advance (s.threads i) s.mutex ≡ some (m, t)
      → Inv s
      → Inv (record { mutex = m; threads = update s.threads i t })
  move-Inv s i m t lt q v =
      let c = change s.threads i t lt in
      rw (← c.own_after, ← c.cnt_after, ← c.slp_after, ← c.act_after)
        (advance-IsBalanced (s.threads i) n s.mutex m t c.own c.cnt c.slp c.act
          (rw (c.own_before, c.cnt_before, c.slp_before, c.act_before) v) c.part c.fits q)

  -- A change of a thread with no access to the mutex.
  still-Inv :
      (s : System) (i : ℕ) (t : Thread)
      → i < n
      → owns t ≡ owns (s.threads i)
      → counted t ≡ counted (s.threads i)
      → sleeps t ≡ sleeps (s.threads i)
      → active (s.threads i) ≤ active t
      → Inv s
      → Inv (record s { threads = update s.threads i t })
  still-Inv s i t lt o k z a v =
      let c = change s.threads i t lt in
      record {
        few = v.few;
        fits = omega (arith, v.fits, c.cnt_before, c.cnt_after);
        part = omega (arith, v.part, c.cnt_before, c.cnt_after, c.slp_before, c.slp_after);
        binary = v.binary;
        held = omega (arith, v.held, c.own_before, c.own_after);
        counter = omega (arith, v.counter, c.cnt_before, c.cnt_after);
        awake = omega (arith, v.awake, c.slp_before, c.slp_after, c.act_before, c.act_after);
      }

  wake-Inv :
      (s : System) (i j : ℕ)
      → i < n
      → j < n
      → s.threads i ≡ notifying
      → s.threads j ≡ asleep
      → Inv s
      → Inv (record s { threads = update (update s.threads i outside) j testing })
  wake-Inv s i j li lj ei ej v =
      let differ : i ≢ j = λ e. ground (arith, ei, ej, e) in
      let there : update s.threads i outside j ≡ asleep =
        update_other s.threads i outside j differ ∙ ej in
      let c = change s.threads i outside li in
      let d = change (update s.threads i outside) j testing lj in
      record {
        few = v.few;
        fits = omega (
          arith,
          v.fits,
          ap counted ei,
          ap counted there,
          c.cnt_before,
          c.cnt_after,
          d.cnt_before,
          d.cnt_after,
        );
        part = omega (arith, d.part, d.slp_after, d.cnt_after);
        binary = v.binary;
        held = omega (
          arith,
          v.held,
          ap owns ei,
          ap owns there,
          c.own_before,
          c.own_after,
          d.own_before,
          d.own_after,
        );
        counter = omega (
          arith,
          v.counter,
          ap counted ei,
          ap counted there,
          c.cnt_before,
          c.cnt_after,
          d.cnt_before,
          d.cnt_after,
        );
        awake = inr (inr (omega (arith, d.act_after)));
      }

  nobody-Inv :
      (s : System) (i : ℕ)
      → i < n
      → s.threads i ≡ notifying
      → ((j : ℕ) → j < n → s.threads j ≢ asleep)
      → Inv s
      → Inv (record s { threads = update s.threads i outside })
  nobody-Inv s i li ei none_asleep v =
      let c = change s.threads i outside li in
      let silent =
        total-eq-zero_below sleeps n s.threads
          (λ j lj. awake_weight (s.threads j) (none_asleep j lj)) in
      record {
        few = v.few;
        fits = omega (arith, v.fits, ap counted ei, c.cnt_before, c.cnt_after);
        part = omega (
          arith,
          v.part,
          ap counted ei,
          ap sleeps ei,
          c.cnt_before,
          c.cnt_after,
          c.slp_before,
          c.slp_after,
        );
        binary = v.binary;
        held = omega (arith, v.held, ap owns ei, c.own_before, c.own_after);
        counter = omega (arith, v.counter, ap counted ei, c.cnt_before, c.cnt_after);
        awake = inr (inl (omega (arith, silent, ap sleeps ei, c.slp_before, c.slp_after)));
      }

  Step-Inv : {s t : System} → Step n s t → Inv s → Inv t
  Step-Inv {s} (lock i lt e) v =
      still-Inv s i locking lt (sym (ap owns e)) (sym (ap counted e)) (sym (ap sleeps e))
        (omega (arith, ap active e)) v
  Step-Inv {s} (unlock i lt e) v =
      still-Inv s i unlocking lt (sym (ap owns e)) (sym (ap counted e)) (sym (ap sleeps e))
        (omega (arith, ap active e)) v
  Step-Inv {s} (move i lt {m} {t} e) v = move-Inv s i m t lt e v
  Step-Inv {s} (wake i j li lj ei ej) v = wake-Inv s i j li lj ei ej v
  Step-Inv {s} (wake_nobody i li ei h) v = nobody-Inv s i li ei h v

  Reach-Inv : {s : System} → n < 2 ^ 32 → Reach n s → Inv s
  Reach-Inv small here = record {
    few = small;
    fits = omega (arith, total-eq-zero counted n (λ _. outside) (λ _. refl));
    part = omega (
      arith,
      total-eq-zero sleeps n (λ _. outside) (λ _. refl),
      total-eq-zero counted n (λ _. outside) (λ _. refl),
    );
    binary = omega arith;
    held = total-eq-zero owns n (λ _. outside) (λ _. refl);
    counter = sym (total-eq-zero counted n (λ _. outside) (λ _. refl));
    awake = inr (inl (total-eq-zero sleeps n (λ _. outside) (λ _. refl)));
  }
  Reach-Inv small (next a e) = Step-Inv e (Reach-Inv small a)

  -- With fewer than 2^32 threads, in every reachable state at most one thread holds the mutex: it has
  -- come out of the exchange that found `UNLOCKED`, and has not stored `UNLOCKED`.
  pub Reach-exclusive :
      {s : System}
      → n < 2 ^ 32
      → Reach n s
      → (i j : ℕ) → i < n
      → j < n
      → owns (s.threads i) ≡ 1
      → owns (s.threads j) ≡ 1
      → i ≡ j
  Reach-exclusive {s} small a i j p q x y =
      let v = Reach-Inv small a in
      elim (ℕ_discrete i j) [
        | yes e ↦ e
        | no ne ↦ absurd (omega (arith, v.held, v.binary, total_two owns n s.threads i j p q ne))
      ]

  -- No sleeper is forgotten: with fewer than 2^32 threads, in a reachable state in which every thread
  -- is outside of the mutex's methods or asleep in `wait`, no thread is asleep.
  pub Reach-remembers :
      {s : System}
      → n < 2 ^ 32
      → Reach n s
      → ((i : ℕ) → i < n → (s.threads i ≡ outside) ⊎ (s.threads i ≡ asleep))
      → (i : ℕ) → i < n
      → s.threads i ≡ outside
  Reach-remembers {s} small a resting i lt =
      let v = Reach-Inv small a in
      let nobody_owns =
        total-eq-zero_below owns n s.threads (λ j q. resting_owns (s.threads j) (resting j q)) in
      let nobody_acts =
        total-eq-zero_below active n s.threads (λ j q. resting_acts (s.threads j) (resting j q)) in
      elim (resting i lt) [
        | inl out ↦ out
        | inr e ↦ absurd (
            omega (
              arith,
              v.awake,
              v.held,
              nobody_owns,
              nobody_acts,
              ap sleeps e,
              le-total sleeps n s.threads i lt,
            ))
      ]
