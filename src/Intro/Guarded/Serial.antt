-- ===== src/Intro/Guarded/Serial.antt =====
-- Calls of the guarded object's methods take effect one after the other.
use tpcc.Prelude.{
  ℕ, Option, none, some, List, [], ◌∷◌, ◌++◌, ◌≡◌, ◌≢◌, refl, ap, sym, ◌∙◌, subst, update_cases,
  of_some, arith,
}
use tpcc.Intro.Guarded.{
  Thread, outside, locking, accessing, destroying, Guarded, go, reference_by, access,
  destroy_reference, advance, Step, calls_method, moves, Reach, here, next,
}

none_is_not_some : {A : Type 0} {a : A} → none ≡ some a → ⊥
none_is_not_some {a = a} e = ground (arith, e)

module _ {T : Type 0} where
  -- What a method makes of an object when nobody else touches it, and what several do in a row.
  abbrev pub run_method : List (T → T) → T → T
  run_method [] object = object
  run_method (f ∷ rest) object = run_method rest (f object)

  abbrev pub run_calls : List (List (T → T)) → T → T
  run_calls [] object = object
  run_calls (method ∷ rest) object = run_calls rest (run_method method object)

  run_calls-append :
      (xs : List (List (T → T))) (method : List (T → T)) (object : T)
      → run_calls (xs ++ method ∷ []) object ≡ run_method method (run_calls xs object)
  run_calls-append [] method object = refl
  run_calls-append (x ∷ xs) method object = run_calls-append xs method (run_method x object)

  -- What a thread knows of the object: whether it holds the mutex, and what it has made of it.
  abbrev pub Holds : T → Guarded T → ℕ → Thread T → Type 0
  Holds object g i (accessing method rest) =
      (g.mutex ≡ some i) × (run_method rest g.object ≡ run_method method (run_calls g.calls object))
  Holds object g i (destroying method) =
      (g.mutex ≡ some i) × (g.object ≡ run_method method (run_calls g.calls object))
  Holds object g i _ = Unit {0}

  -- A thread outside of its critical section is there in any state, and holds no mutex.
  abbrev IsIdle : Thread T → Type 0
  IsIdle (accessing method rest) = ⊥
  IsIdle (destroying method) = ⊥
  IsIdle _ = Unit {0}

  record Inv (object : T) (g : Guarded T) : Type 0 where
    idle_object : g.mutex ≡ none → g.object ≡ run_calls g.calls object
    holds : (i : ℕ) → Holds object g i (g.threads i)

  idle-Holds : (object : T) (g : Guarded T) (i : ℕ) (c : Thread T) → IsIdle c → Holds object g i c
  idle-Holds object g i outside e = tt
  idle-Holds object g i (locking method) e = tt
  idle-Holds object g i (accessing _ _) e = absurd e
  idle-Holds object g i (destroying _) e = absurd e

  -- Where another thread has the mutex, or nobody has it, a thread is idle.
  other-IsIdle :
      (object : T) (g : Guarded T) (i : ℕ) (c : Thread T)
      → Holds object g i c
      → g.mutex ≢ some i
      → IsIdle c
  other-IsIdle object g i outside h ne = tt
  other-IsIdle object g i (locking method) h ne = tt
  other-IsIdle object g i (accessing method rest) (e, _) ne = ne e
  other-IsIdle object g i (destroying method) (e, _) ne = ne e

  -- A step of the only thread that may be in its critical section.
  change-Inv :
      (object : T) (g g' : Guarded T) (i : ℕ) (c : Thread T)
      → ((j : ℕ) → i ≢ j → g.mutex ≢ some j)
      → (g'.mutex ≡ none → g'.object ≡ run_calls g'.calls object)
      → Holds object (go i c g') i c
      → g'.threads ≡ g.threads
      → Inv object g
      → Inv object (go i c g')
  change-Inv object g g' i c alone idle_object h same v = record {
    idle_object = idle_object;
    holds = λ j.
        update_cases (Holds object (go i c g') j) g'.threads i c j
          (λ e. subst (λ k. Holds object (go i c g') k c) e h)
          (λ ne. idle-Holds object (go i c g') j (g'.threads j) (
            subst IsIdle (ap (λ t. t j) (sym same))
              (other-IsIdle object g j (g.threads j) (v.holds j) (alone j ne))));
  }

  held_alone : (g : Guarded T) (i : ℕ) → g.mutex ≡ some i → (j : ℕ) → i ≢ j → g.mutex ≢ some j
  held_alone g i e j ne e' = ne (of_some (sym e ∙ e'))

  reference-Inv :
      (object : T) (m : Option ℕ) (i : ℕ) (method : List (T → T)) (g : Guarded T) {g' : Guarded T}
      → g.mutex ≡ m
      → reference_by m i method g ≡ some g'
      → Inv object g
      → Inv object g'
  unfolding reference_by
  reference-Inv object none i method g free e v = subst (Inv object) (of_some e) (
      change-Inv object g (record g { mutex = some i }) i (accessing method method)
        (λ j ne e'. none_is_not_some (sym free ∙ e')) (λ e'. absurd (none_is_not_some (sym e')))
        (refl, ap (run_method method) (v.idle_object free)) refl v)
  reference-Inv object (some holder) i method g taken e v = absurd (none_is_not_some e)

  advance-Inv :
      (object : T) (i : ℕ) (c : Thread T) (g : Guarded T) {g' : Guarded T}
      → g.threads i ≡ c
      → advance i c g ≡ some g'
      → Inv object g
      → Inv object g'
  unfolding advance access destroy_reference
  advance-Inv object i outside g at e v = absurd (none_is_not_some e)
  advance-Inv object i (locking method) g at e v = reference-Inv object g.mutex i method g refl e v
  advance-Inv object i (accessing method (f ∷ rest)) g at e v =
      let (mine, so_far) = subst (Holds object g i) at (v.holds i) in
      subst (Inv object) (of_some e) (
        change-Inv object g (access f g) i (accessing method rest) (held_alone g i mine)
          (λ free. absurd (none_is_not_some (sym free ∙ mine))) (mine, so_far) refl v)
  advance-Inv object i (accessing method []) g at e v =
      let (mine, so_far) = subst (Holds object g i) at (v.holds i) in
      subst (Inv object) (of_some e) (
        change-Inv object g g i (destroying method) (held_alone g i mine) v.idle_object
          (mine, so_far) refl v)
  advance-Inv object i (destroying method) g at e v =
      let (mine, so_far) = subst (Holds object g i) at (v.holds i) in
      subst (Inv object) (of_some e) (
        change-Inv object g (destroy_reference method g) i outside (held_alone g i mine)
          (λ free. so_far ∙ sym (run_calls-append g.calls method object)) tt refl v)

  step-Inv : (n : ℕ) (object : T) {g g' : Guarded T} → Step n g g' → Inv object g → Inv object g'
  step-Inv n object {g} (calls_method i lt at method) v = record {
    idle_object = v.idle_object;
    holds = λ j.
        update_cases (Holds object (go i (locking method) g) j) g.threads i (locking method) j
          (λ _. tt) (λ ne. holds_still j (g.threads j) (v.holds j));
  }
    where
      holds_still :
          (j : ℕ) (c : Thread T) → Holds object g j c → Holds object (go i (locking method) g) j c
      holds_still j outside h = tt
      holds_still j (locking other) h = tt
      holds_still j (accessing other rest) h = h
      holds_still j (destroying other) h = h
  step-Inv n object {g} (moves i lt e) v = advance-Inv object i (g.threads i) g refl e v

  Reach-Inv : (n : ℕ) (object : T) {g : Guarded T} → Reach n object g → Inv object g
  Reach-Inv n object here = record { idle_object = λ _. refl; holds = λ i. tt }
  Reach-Inv n object (next r s) = step-Inv n object s (Reach-Inv n object r)

  -- In every reachable state of a guarded object, while nobody holds the mutex the object is what the
  -- calls that have ended make of the first one, one after the other, in the order of their ends; a thread
  -- among its accesses, or after them, holds the mutex alone, and its accesses still to come make of the
  -- object what its method makes of the result of the ended calls.
  pub Reach-serial :
      (n : ℕ) (object : T) {g : Guarded T}
      → Reach n object g
      → (g.mutex ≡ none → g.object ≡ run_calls g.calls object)
        × ((i : ℕ) → Holds object g i (g.threads i))
  Reach-serial n object r = let v = Reach-Inv n object r in (v.idle_object, v.holds)
