-- ===== src/Executors/Strand/Order.antt =====
-- What a strand promises: one task at a time, in the order of the calls.
use tpcc.Prelude.{
  ℕ, Bool, true, false, some, List, [], ◌∷◌, ◌++◌, ◌≡◌, refl, reverse, append_assoc, append-nil,
  update, ap, sym, ◌∙◌, arith, inl, inr, update_cases, Bool-cases, of_some,
}
use mathlib.Core.List.{reverse-cons}
use mathlib.Core.Path.{subst}
use tpcc.Executors.Strand.{
  Shared, Activity, idle, pushed, grabbing, looping, running, probing, clearing, push, collect,
  advance, starts, System, Step, call, move, Reach, here, next,
}

module _ {Task : Type 0} where
  -- The activities between the compare-exchange that set `is_scheduled_` and the store that clears it.
  abbrev pub owns : Activity Task → Bool
  owns idle = false
  owns pushed = false
  owns _ = true

  -- The tasks of a batch that have not started.
  abbrev pub pending : Activity Task → List Task
  pending (looping tasks) = tasks
  pending (running t tasks) = tasks
  pending _ = []

  record Inv (s : System Task) : Type 0 where
    unique : (i j : ℕ) → owns (s.acts i) ≡ true → owns (s.acts j) ≡ true → i ≡ j
    held : (i : ℕ) → owns (s.acts i) ≡ true → s.shared.is_scheduled ≡ true
    busy :
        (i : ℕ)
        → owns (s.acts i) ≡ true
        → s.started ++ (pending (s.acts i) ++ reverse s.shared.stack) ≡ s.accepted
    free : s.shared.is_scheduled ≡ false → s.started ++ reverse s.shared.stack ≡ s.accepted
    holder : s.shared.is_scheduled ≡ true → (i : ℕ) × (owns (s.acts i) ≡ true)

  collect_lem : (stack tasks : List Task) → collect stack tasks ≡ reverse stack ++ tasks
  unfolding collect
  collect_lem [] tasks = refl
  collect_lem (t ∷ rest) tasks =
      collect_lem rest (t ∷ tasks)
      ∙ sym (append_assoc (reverse rest) (t ∷ []) tasks)
      ∙ ap (λ l. l ++ tasks) (sym (reverse-cons t rest))

  push_order :
      (xs ys stack zs : List Task) (t : Task)
      → xs ++ (ys ++ reverse stack) ≡ zs
      → xs ++ (ys ++ reverse (t ∷ stack)) ≡ zs ++ t ∷ []
  push_order xs ys stack zs t e =
      ap (λ l. xs ++ (ys ++ l)) (reverse-cons t stack)
      ∙ ap (λ l. xs ++ l) (sym (append_assoc ys (reverse stack) (t ∷ [])))
      ∙ sym (append_assoc xs (ys ++ reverse stack) (t ∷ []))
      ∙ ap (λ l. l ++ t ∷ []) e

  -- The order seen from an activity: what it owns comes between the tasks started and the stack.
  abbrev Fifo : System Task → List Task → List Task → List Task → Activity Task → Type 0
  Fifo s stack started accepted a =
      owns a ≡ true → started ++ (pending a ++ reverse stack) ≡ accepted

  call-Inv :
      (s : System Task) (i : ℕ) (t : Task)
      → s.acts i ≡ idle
      → Inv s
      → Inv (record {
        shared = record s.shared { stack = push t s.shared.stack };
        acts = update s.acts i pushed;
        accepted = s.accepted ++ t ∷ [];
        started = s.started;
      })
  unfolding push
  call-Inv s i t e v = record {
    unique = λ j k p q. ground (arith, v.unique j k);
    held = λ j p. ground (arith, v.held j);
    busy = λ j.
        update_cases (Fifo s (t ∷ s.shared.stack) s.started (s.accepted ++ t ∷ [])) s.acts i pushed
          j (λ _ o. absurd (cc))
          (λ _ o.
            push_order s.started (pending (s.acts j)) s.shared.stack s.accepted t (v.busy j o));
    free = λ p. push_order s.started [] s.shared.stack s.accepted t (v.free p);
    holder = λ p. let (j, o) = v.holder p in (j, ground arith);
  }

  -- The owner goes on and stays the owner.
  keep-Inv :
      (s : System Task) (i : ℕ) (a' : Activity Task) (stack started : List Task)
      → Inv s
      → owns (s.acts i) ≡ true
      → owns a' ≡ true
      → started ++ (pending a' ++ reverse stack) ≡ s.accepted
      → Inv (record {
        shared = record s.shared { stack = stack };
        acts = update s.acts i a';
        accepted = s.accepted;
        started = started;
      })
  keep-Inv s i a' stack started v o o' e = record {
    unique = λ j k p q. ground (arith, v.unique j k, v.unique i j, v.unique i k);
    held = λ j p. v.held i o;
    busy = λ j.
        update_cases (Fifo s stack started s.accepted) s.acts i a' j (λ _ _. e)
          (λ ne p. absurd (ne (v.unique i j o p)));
    free = λ p. absurd (ground (arith, v.held i o));
    holder = λ p. (i, ground arith);
  }

  -- An activity that owns nothing leaves.
  leave-Inv :
      (s : System Task) (i : ℕ)
      → Inv s
      → owns (s.acts i) ≡ false
      → Inv (record s { acts = update s.acts i idle })
  leave-Inv s i v o = record {
    unique = λ j k p q. ground (arith, v.unique j k);
    held = λ j p. ground (arith, v.held j);
    busy = λ j.
        update_cases (Fifo s s.shared.stack s.started s.accepted) s.acts i idle j
          (λ _ p. absurd (cc)) (λ _. v.busy j);
    free = v.free;
    holder = λ p. let (j, q) = v.holder p in (j, ground arith);
  }

  -- The compare-exchange succeeds: there was no owner.
  gain-Inv :
      (s : System Task) (i : ℕ)
      → Inv s
      → s.shared.is_scheduled ≡ false
      → Inv (record s {
        shared = record s.shared { is_scheduled = true };
        acts = update s.acts i grabbing;
      })
  gain-Inv s i v f = record {
    unique = λ j k p q. ground (arith, v.held j, v.held k);
    held = λ j p. refl;
    busy = λ j.
        update_cases (Fifo s s.shared.stack s.started s.accepted) s.acts i grabbing j
          (λ _ _. v.free f) (λ _ p. v.busy j p);
    free = λ p. absurd (cc);
    holder = λ p. (i, ground arith);
  }

  -- The store that gives up the ownership.
  release-Inv :
      (s : System Task) (i : ℕ)
      → Inv s
      → owns (s.acts i) ≡ true
      → s.started ++ reverse s.shared.stack ≡ s.accepted
      → Inv (record s {
        shared = record s.shared { is_scheduled = false };
        acts = update s.acts i idle;
      })
  release-Inv s i v o e = record {
    unique = λ j k p q. ground (arith, v.unique j k);
    held = λ j p. absurd (ground (arith, v.unique i j));
    busy = λ j.
        update_cases (Fifo s s.shared.stack s.started s.accepted) s.acts i idle j
          (λ _ p. absurd (cc)) (λ ne p. absurd (ne (v.unique i j o p)));
    free = λ _. e;
    holder = λ p. absurd (cc);
  }

  -- The system after activity `i`, at `a`, has made its next step with the result `r`.
  abbrev moved : System Task → ℕ → Activity Task → Shared Task × Activity Task → System Task
  moved s i a r = record {
    shared = r.0;
    acts = update s.acts i r.1;
    accepted = s.accepted;
    started = s.started ++ starts a;
  }

  -- The step that an activity at `a` makes keeps the invariant.
  Keeps : System Task → ℕ → Activity Task → Type 0
  Keeps s i a =
      s.acts i ≡ a
      → Inv s
      → (r : Shared Task × Activity Task) → advance a s.shared ≡ some r
      → Inv (moved s i a r)

  pushed-Keeps : (s : System Task) (i : ℕ) → Keeps s i pushed
  unfolding Keeps advance
  pushed-Keeps s i e v r q = elim (Bool-cases s.shared.is_scheduled) [
    | inl taken ↦
        let same : r ≡ (s.shared, idle) = ground arith in
        rw (same, append-nil s.started) (leave-Inv s i v (rw e))
    | inr free ↦
        let won : r ≡ (record s.shared { is_scheduled = true }, grabbing) = ground arith in
        rw (won, append-nil s.started) (gain-Inv s i v free)
  ]

  grabbing-Keeps : (s : System Task) (i : ℕ) → Keeps s i grabbing
  unfolding Keeps advance
  grabbing-Keeps s i e v r q =
      let own : owns (s.acts i) ≡ true = rw e in
      subst (λ r. Inv (moved s i grabbing r)) (of_some q)
        (keep-Inv s i (looping (collect s.shared.stack [])) [] (s.started ++ []) v own refl (
          rw
            (
              collect_lem s.shared.stack [],
              append-nil s.started,
              append-nil (reverse s.shared.stack),
              append-nil (reverse s.shared.stack),
            )
            (let b = v.busy i own in ground arith)))

  looping-Keeps : (s : System Task) (i : ℕ) (tasks : List Task) → Keeps s i (looping tasks)
  unfolding Keeps advance
  looping-Keeps s i [] e v r q =
      let own : owns (s.acts i) ≡ true = rw e in
      subst (λ r. Inv (moved s i (looping []) r)) (of_some q)
        (keep-Inv s i probing s.shared.stack (s.started ++ []) v own refl
          (rw (append-nil s.started) (let b = v.busy i own in rw e at b)))
  looping-Keeps s i (t ∷ tasks) e v r q =
      let own : owns (s.acts i) ≡ true = rw e in
      subst (λ r. Inv (moved s i (looping (t ∷ tasks)) r)) (of_some q)
        (keep-Inv s i (running t tasks) s.shared.stack (s.started ++ t ∷ []) v own refl
          (append_assoc s.started (t ∷ []) _ ∙ (let b = v.busy i own in rw e at b)))

  running-Keeps :
      (s : System Task) (i : ℕ) (t : Task) (tasks : List Task) → Keeps s i (running t tasks)
  unfolding Keeps advance
  running-Keeps s i t tasks e v r q =
      let own : owns (s.acts i) ≡ true = rw e in
      subst (λ r. Inv (moved s i (running t tasks) r)) (of_some q)
        (keep-Inv s i (looping tasks) s.shared.stack (s.started ++ []) v own refl
          (rw (append-nil s.started) (let b = v.busy i own in rw e at b)))

  probing-Keeps : (s : System Task) (i : ℕ) → Keeps s i probing
  unfolding Keeps advance
  probing-Keeps s i e v r q =
      let own : owns (s.acts i) ≡ true = rw e in
      subst (λ r. Inv (moved s i probing r)) (of_some q)
        (keep-Inv s i _ s.shared.stack (s.started ++ []) v own (ground arith)
          (rw (append-nil s.started) (let b = v.busy i own in ground arith)))

  clearing-Keeps : (s : System Task) (i : ℕ) → Keeps s i clearing
  unfolding Keeps advance
  clearing-Keeps s i e v r q =
      let own : owns (s.acts i) ≡ true = rw e in
      subst (λ r. Inv (moved s i clearing r)) (of_some q)
        (rw (append-nil s.started) (release-Inv s i v own (let b = v.busy i own in rw e at b)))

  advance-Keeps : (s : System Task) (i : ℕ) (a : Activity Task) → Keeps s i a
  unfolding Keeps advance
  advance-Keeps s i idle e v r q = absurd (cc)
  advance-Keeps s i pushed e v r q = pushed-Keeps s i e v r q
  advance-Keeps s i grabbing e v r q = grabbing-Keeps s i e v r q
  advance-Keeps s i (looping tasks) e v r q = looping-Keeps s i tasks e v r q
  advance-Keeps s i (running t tasks) e v r q = running-Keeps s i t tasks e v r q
  advance-Keeps s i probing e v r q = probing-Keeps s i e v r q
  advance-Keeps s i clearing e v r q = clearing-Keeps s i e v r q

  Step-Inv : {s t : System Task} → Step s t → Inv s → Inv t
  unfolding Keeps
  Step-Inv {s} (call i t e) v = call-Inv s i t e v
  Step-Inv {s} (move i q) v = advance-Keeps s i (s.acts i) refl v _ q

  Reach-Inv : {s : System Task} → Reach s → Inv s
  Reach-Inv here = record {
    unique = λ i j p q. absurd (cc);
    held = λ i p. absurd (cc);
    busy = λ i p. absurd (cc);
    free = λ p. refl;
    holder = λ p. absurd (cc);
  }
  Reach-Inv (next a st) = Step-Inv st (Reach-Inv a)

  -- A strand never runs two tasks at once: of the activities in every reachable state, one at most is
  -- in `ExecuteHere`.
  pub mutual_exclusion :
      {s : System Task}
      → Reach s
      → (i j : ℕ) (t u : Task) (ts us : List Task) → s.acts i ≡ running t ts
      → s.acts j ≡ running u us
      → i ≡ j
  mutual_exclusion a i j t u ts us p q = (Reach-Inv a).unique i j (rw p) (rw q)

  -- Tasks start in the order in which `Execute` pushed them, each once: in every reachable state the
  -- tasks started are the first of those pushed, and once no activity is left the rest are those that
  -- the stack still holds.
  pub started-IsPrefix :
      {s : System Task}
      → Reach s
      → ((rest : List Task) × (s.started ++ rest ≡ s.accepted))
        × (((i : ℕ) → s.acts i ≡ idle) → s.started ++ reverse s.shared.stack ≡ s.accepted)
  started-IsPrefix {s} a =
      let v = Reach-Inv a in
      (
        elim (Bool-cases s.shared.is_scheduled) [
          | inl on ↦ let (i, o) = v.holder on in (_, v.busy i o)
          | inr off ↦ (_, v.free off)
        ],
        λ quiet. elim (Bool-cases s.shared.is_scheduled) [
          | inl on ↦ let (i, o) = v.holder on in absurd (ground (arith, quiet i))
          | inr off ↦ v.free off
        ],
      )
