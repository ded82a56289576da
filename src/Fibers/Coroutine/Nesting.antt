-- ===== src/Fibers/Coroutine/Nesting.antt =====
-- Coroutines resume each other as a stack of calls.
use tpcc.Prelude.{
  ℕ, true, false, Option, none, some, ◌≡◌, ◌≢◌, refl, sym, ap, ◌∙◌, subst, update, update_self,
  update_other, update_cases, List, [], ◌∷◌, arith, of_some,
}
use tpcc.Fibers.Coroutine.{
  Coroutine, Thread, new_thread, resume, end_of_resume, suspend, complete, is_completed,
}

-- The coroutine that was resumed last and has not been left, if there is one.
abbrev pub top : List ℕ → Option ℕ
top [] = none
top (co ∷ below) = some co

abbrev pub Absent : ℕ → List ℕ → Type 0
Absent co [] = Unit {0}
Absent co (x ∷ below) = (x ≢ co) × Absent co below

module _ {E : Type 0} where
  -- Each coroutine on the stack leads back to the one below it, and none is completed or there twice.
  abbrev pub Linked : (ℕ → Coroutine E) → List ℕ → Type 0
  Linked k [] = Unit {0}
  Linked k (co ∷ below) =
      ((k co).parent ≡ top below)
      × ((k co).caller_context ≡ top below)
      × ((k co).completed ≡ false)
      × ((k co).exception ≡ none)
      × Absent co below
      × Linked k below

  Linked-update :
      (k : ℕ → Coroutine E) (stack : List ℕ) (co : ℕ) (c : Coroutine E)
      → Absent co stack
      → Linked k stack
      → Linked (update k co c) stack
  Linked-update k [] co c away l = tt
  Linked-update k (x ∷ below) co c (ne, away) (p, q, d, n, a, l) =
      let same : update k co c x ≡ k x = update_other k co c x (λ e. ne (sym e)) in
      (
        ap (λ y. y.parent) same ∙ p,
        ap (λ y. y.caller_context) same ∙ q,
        ap (λ y. y.completed) same ∙ d,
        ap (λ y. y.exception) same ∙ n,
        a,
        Linked-update k below co c away l,
      )

  -- The specification: a stack of coroutines. `Resume` of one that is neither there nor completed pushes
  -- it, and `Suspend` and the end of a routine pop the top. `thrown` is what the `Resume` throws that
  -- this ends.
  pub data Step (t : Thread E) : List ℕ → Thread E → List ℕ → Option E → Type 0 where
    resumes :
        {stack : List ℕ} (co : ℕ)
        → Absent co stack
        → is_completed co t ≡ false
        → Step t stack (resume co t) (co ∷ stack) none
    suspends :
        {co : ℕ} {below : List ℕ} {u : Thread E} {thrown : Option E}
        → suspend t ≡ some (u, thrown)
        → Step t (co ∷ below) u below thrown
    completes :
        {co : ℕ} {below : List ℕ} (thrown : Option E)
        → t.running ≡ some co
        → Step t (co ∷ below) (complete co thrown t).0 below (complete co thrown t).1

  pub data Reach : Thread E → List ℕ → Type 0 where
    here : Reach new_thread []
    next :
        {t u : Thread E} {stack stack' : List ℕ} {thrown : Option E}
        → Reach t stack
        → Step t stack u stack' thrown
        → Reach u stack'

  -- The thread is where the stack says.
  pub record Tracks (t : Thread E) (stack : List ℕ) : Type 0 where
    pub at_current : t.current_coroutine ≡ top stack
    pub at_running : t.running ≡ top stack
    pub linked : Linked t.coroutines stack
    pub intact : (co : ℕ) → (t.coroutines co).completed ≡ false → (t.coroutines co).exception ≡ none

  resume-Tracks :
      (t : Thread E) (stack : List ℕ) (co : ℕ)
      → Absent co stack
      → is_completed co t ≡ false
      → Tracks t stack
      → Tracks (resume co t) (co ∷ stack)
  unfolding resume is_completed
  resume-Tracks t stack co away fresh v =
      let c = record (t.coroutines co) {
        parent = t.current_coroutine;
        caller_context = t.running;
      } in
      let same : update t.coroutines co c co ≡ c = update_self t.coroutines co c in
      record {
        at_current = refl;
        at_running = refl;
        linked = (
          ap (λ y. y.parent) same ∙ v.at_current,
          ap (λ y. y.caller_context) same ∙ v.at_running,
          ap (λ y. y.completed) same ∙ fresh,
          ap (λ y. y.exception) same ∙ v.intact co fresh,
          away,
          Linked-update t.coroutines stack co c away v.linked,
        );
        intact = λ j.
            update_cases (λ y. y.completed ≡ false → y.exception ≡ none) t.coroutines co c j
              (λ e. v.intact co) (λ ne. v.intact j);
      }

  suspend-Tracks :
      (t : Thread E) (co : ℕ) (below : List ℕ)
      → Tracks t (co ∷ below)
      → (u : Thread E) × (suspend t ≡ some (u, none)) × Tracks u below
  unfolding suspend end_of_resume
  suspend-Tracks t co below v =
      let (p, q, d, n, a, l) = v.linked in
      (
        record t {
          current_coroutine = (t.coroutines co).parent;
          running = (t.coroutines co).caller_context;
        },
        rw v.at_current (rw n refl),
        record { at_current = p; at_running = q; linked = l; intact = v.intact },
      )

  complete-Tracks :
      (t : Thread E) (co : ℕ) (below : List ℕ) (thrown : Option E)
      → Tracks t (co ∷ below)
      → Tracks (complete co thrown t).0 below
        × ((complete co thrown t).1 ≡ thrown)
        × (is_completed co (complete co thrown t).0 ≡ true)
  unfolding complete end_of_resume is_completed
  complete-Tracks t co below thrown v =
      let (p, q, d, n, a, l) = v.linked in
      let c = record (t.coroutines co) { exception = thrown; completed = true } in
      let same : update t.coroutines co c co ≡ c = update_self t.coroutines co c in
      (
        record {
          at_current = ap (λ y. y.parent) same ∙ p;
          at_running = q;
          linked = Linked-update t.coroutines below co c a l;
          intact = λ j.
              update_cases (λ y. y.completed ≡ false → y.exception ≡ none) t.coroutines co c j
                (λ e h. ground (arith, h)) (λ ne. v.intact j);
        },
        ap (λ y. y.exception) same,
        ap (λ y. y.completed) same,
      )

  Reach-Tracks : {t : Thread E} {stack : List ℕ} → Reach t stack → Tracks t stack
  Reach-Tracks here = record {
    at_current = refl;
    at_running = refl;
    linked = tt;
    intact = λ co h. refl;
  }
  Reach-Tracks (next {t} {stack} a (resumes co away fresh)) =
      resume-Tracks t stack co away fresh (Reach-Tracks a)
  Reach-Tracks (next {t} {stack} a (suspends {co} {below} e)) =
      let (u, r, w) = suspend-Tracks t co below (Reach-Tracks a) in
      subst (λ m. Tracks m below) (ap (λ p. p.0) (of_some (sym r ∙ e))) w
  Reach-Tracks (next {t} {stack} a (completes {co} {below} thrown e)) =
      (complete-Tracks t co below thrown (Reach-Tracks a)).0

  -- Coroutines refine a stack of calls. When coroutines that are neither active nor completed have been
  -- resumed, and active ones have been left by `Suspend` or at the end of their routines, in any
  -- nesting: the context that runs and `current_coroutine` are both the coroutine that was resumed last
  -- and has not been left, or the thread's own where there is none. If there is one, `Suspend` and the
  -- end of its routine both lead back to the one below it; `Suspend` makes the caller's `Resume` throw
  -- nothing, and the end of the routine makes it throw what the routine has thrown.
  pub Reach-refines :
      {t : Thread E} {stack : List ℕ}
      → Reach t stack
      → (t.running ≡ top stack)
        × (t.current_coroutine ≡ top stack)
        × ((co : ℕ) (below : List ℕ)
            → stack ≡ co ∷ below
            → ((u : Thread E) × (suspend t ≡ some (u, none))
                × (u.running ≡ top below)
                × (u.current_coroutine ≡ top below))
              × ((thrown : Option E)
                  → ((complete co thrown t).0.running ≡ top below)
                    × ((complete co thrown t).0.current_coroutine ≡ top below)
                    × ((complete co thrown t).1 ≡ thrown)
                    × (is_completed co (complete co thrown t).0 ≡ true)))
  Reach-refines {t} {stack} a =
      let v = Reach-Tracks a in
      (
        v.at_running,
        v.at_current,
        λ co below e.
            let w = subst (Tracks t) e v in
            let (u, r, x) = suspend-Tracks t co below w in
            (
              (u, r, x.at_running, x.at_current),
              λ thrown.
                  let (y, z, d) = complete-Tracks t co below thrown w in
                  (y.at_running, y.at_current, z, d),
            ),
      )
