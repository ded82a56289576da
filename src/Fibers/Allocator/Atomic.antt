-- ===== src/Fibers/Allocator/Atomic.antt =====
-- Under its spinlock, the allocator's operations take effect at once, and no stack is in two hands.
use tpcc.Prelude.{
  ℕ, ◌+◌, ◌<◌, ◌≤◌, Option, none, some, List, ◌∷◌, ◌++◌, ◌≡◌, ◌≢◌, inl, inr, refl, ap, sym, ◌∙◌,
  subst, if◌then◌else◌, ltb, update, update_cases, arith, ℕ_discrete, of_some, count, count-append,
  total, total-update, total_two, total-eq-zero,
}
use tpcc.Fibers.Allocator.{
  allocates, releases, Thread, outside, exchanging, returning, Shared, advance, System, go, hold,
  Step, calls_allocate, calls_release, moves, returns, Reach, here, next,
}
use tpcc.Fibers.Allocator.Steps.{
  inside, carries, made, Local, IsAtomic, Moves, MovesTo, advance-Goes, Local-outside, in_call_or,
  in_result,
}

module _ (n : ℕ) where
  record Inv (s : System) : Type 0 where
    flag : total inside n s.threads ≡ s.shared.locked
    binary : s.shared.locked ≤ 1
    local : (i : ℕ) → i < n → Local (s.threads i) s.shared.allocator
    placed :
        (stack : ℕ)
        → count stack s.shared.allocator.pool
            + count stack s.held
            + total (carries stack) n s.threads
          ≡ made stack s.shared.allocator

  -- A thread goes from one place outside of the lock to another.
  go-Inv :
      (s : System) (i : ℕ) (c : Thread) (held : List ℕ)
      → i < n
      → inside (s.threads i) ≡ 0
      → inside c ≡ 0
      → ((stack : ℕ)
          → count stack held + carries stack c ≡ count stack s.held + carries stack (s.threads i))
      → Inv s
      → Inv (go i c (record s { held = held }))
  go-Inv s i c held lt out out' same v = record {
    flag = omega (arith, v.flag, total-update inside n s.threads i c lt, out, out');
    binary = v.binary;
    local = λ j below.
        update_cases (λ d. Local d s.shared.allocator) s.threads i c j
          (λ _. Local-outside c s.shared.allocator out') (λ _. v.local j below);
    placed = λ stack.
        omega (arith, v.placed stack, total-update (carries stack) n s.threads i c lt, same stack);
  }

  move-Inv :
      (s : System) (i : ℕ) (m : Shared) (c : Thread)
      → i < n
      → Moves (s.threads i) s.shared c m
      → Inv s
      → Inv (go i c (record s { shared = m }))
  move-Inv s i m c lt step v = record {
    flag = omega (arith, moved.0, after);
    binary = moved.1;
    local = λ j below.
        update_cases (λ d. Local d m.allocator) s.threads i c j (λ _. step.local)
          (λ ne. other_local j below ne);
    placed = λ stack.
        omega (
          arith,
          v.placed stack,
          total-update (carries stack) n s.threads i c lt,
          step.placed stack,
        );
  }
    where
      others : ℕ
      others = total inside n (update s.threads i outside)

      before : inside (s.threads i) + others ≡ total inside n s.threads
      before = omega (arith, total-update inside n s.threads i outside lt)

      after : inside c + others ≡ total inside n (update s.threads i c)
      after = omega (arith, before, total-update inside n s.threads i c lt)

      moved : (inside c + others ≡ m.locked) × (m.locked ≤ 1)
      moved = step.flag others (before ∙ v.flag) v.binary

      other_local : (j : ℕ) → j < n → i ≢ j → Local (s.threads j) m.allocator
      other_local j below ne = elim (ℕ_discrete (inside (s.threads i)) 0) [
        | yes out ↦ subst (Local (s.threads j)) (sym (step.quiet out)) (v.local j below)
        | no has ↦
            Local-outside (s.threads j) m.allocator
              (omega (arith, has, v.flag, v.binary, total_two inside n s.threads i j lt below ne))
      ]

  step-Inv : {s t : System} → Step n s t → Inv s → Inv t
  unfolding count advance
  step-Inv {s} (calls_allocate i lt e) v =
      go-Inv s i (exchanging allocates) s.held lt (ap inside e) refl
        (λ stack. omega (arith, ap (carries stack) e)) v
  step-Inv {s} (calls_release i lt e xs ys stack split) v =
      go-Inv s i (exchanging (releases stack)) (xs ++ ys) lt (ap inside e) refl
        (λ other. omega (
          arith,
          ap (carries other) e,
          ap (count other) split,
          count-append other xs ys,
          count-append other xs (stack ∷ ys),
        ))
        v
  step-Inv {s} (moves i lt {m} {thread} e) v = elim (in_call_or (s.threads i)) [
    | inl out ↦ absurd (ground (arith, sym (ap (λ c. advance c s.shared) out) ∙ e))
    | inr (inl (result, back_at)) ↦
        absurd (ground (arith, sym (ap (λ c. advance c s.shared) back_at) ∙ e))
    | inr (inr (out, ret)) ↦
        let goes = advance-Goes (s.threads i) s.shared out ret (v.local i lt) in
        let step : MovesTo (s.threads i) s.shared (m, thread) =
          subst (MovesTo (s.threads i) s.shared) (of_some (sym goes.taken ∙ e)) goes.moved in
        move-Inv s i m thread lt step v
  ]
  step-Inv {s} (returns i lt result e) v =
      go-Inv s i outside (hold result s.held) lt (ap inside e) refl
        (λ stack. held_too stack result ∙ ap (λ c. count stack s.held + carries stack c) (sym e)) v
    where
      held_too :
          (stack : ℕ) (r : Option ℕ)
          → count stack (hold r s.held) + 0 ≡ count stack s.held + in_result stack r
      held_too stack none = refl
      held_too stack (some other) = omega arith

  Reach-Inv : {s : System} → Reach n s → Inv s
  unfolding count
  Reach-Inv here = record {
    flag = total-eq-zero inside n (λ _. outside) (λ _. refl);
    binary = omega arith;
    local = λ i lt. tt;
    placed = λ stack. ground (arith, total-eq-zero (carries stack) n (λ _. outside) (λ _. refl));
  }
  Reach-Inv (next r s) = step-Inv s (Reach-Inv r)

  -- What holds of the allocator on threads in a state.
  pub record IsAtomicAt (s : System) : Type 0 where
    pub locked_by : total inside n s.threads ≡ s.shared.locked
    pub excludes :
        (i j : ℕ) → i < n → j < n → inside (s.threads i) ≡ 1 → inside (s.threads j) ≡ 1 → i ≡ j
    pub one_place :
        (stack : ℕ)
        → count stack s.shared.allocator.pool
            + count stack s.held
            + total (carries stack) n s.threads
          ≡ (if ltb stack s.shared.allocator.next_stack then 1 else 0)
    pub goes :
        (i : ℕ)
        → i < n
        → s.threads i ≢ outside
        → ((result : Option ℕ) → s.threads i ≢ returning result)
        → (m : Shared) × (thread : Thread) × (advance (s.threads i) s.shared ≡ some (m, thread))
          × IsAtomic s.shared.allocator m.allocator (s.threads i) thread

  -- In every reachable state of the allocator on threads: its lock is set exactly while a thread has it,
  -- and one at most has it; each stack made so far is in the pool, held by the program or carried by a
  -- thread in a call, once in all, and no other is; a thread in a call can make its next step, which
  -- leaves the allocator as it is or does to it at once what `Allocate` or `Release` does, and yields
  -- the stack that `Allocate` returns.
  pub Reach-IsAtomicAt : {s : System} → Reach n s → IsAtomicAt s
  Reach-IsAtomicAt {s} r =
      let v = Reach-Inv r in
      record {
        locked_by = v.flag;
        excludes = λ i j p q x y. elim (ℕ_discrete i j) [
          | yes e ↦ e
          | no ne ↦
              absurd
                (omega (arith, v.flag, v.binary, total_two inside n s.threads i j p q ne, x, y))
        ];
        one_place = v.placed;
        goes = λ i lt out ret.
            let step = advance-Goes (s.threads i) s.shared out ret (v.local i lt) in
            (step.after_step.0, step.after_step.1, step.taken, step.moved.atomic);
      }
