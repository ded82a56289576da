-- ===== src/Executors/Manual/Runs.antt =====
-- What a run of a `ManualExecutor` executes, in which order, and when `Drain` ends.
use tpcc.Prelude.{
  ℕ, zero, suc, ◌+◌, ◌≤◌, ◌<◌, ◌≡◌, refl, List, [], ◌∷◌, ◌++◌, Option, some, length, arith,
  append_assoc, append-nil, ap, sym, ◌∙◌, ◌^◌, ◌%◌,
}
use tpcc.Prelude.{inc64}
use tpcc.Executors.Manual.{
  ManualExecutor, execute_all, run_front, run_rounds, run_at_most, run_all_scheduled, drain_loop,
  drain,
}

module _ {Task : Type 0} where
  execute_all_lem :
      (ts : List Task) (e : ManualExecutor Task)
      → execute_all ts e ≡ record { tasks = e.tasks ++ ts; ran = e.ran }
  unfolding execute_all
  execute_all_lem [] e = rw (append-nil e.tasks)
  execute_all_lem (t ∷ ts) e =
      execute_all_lem ts _
      ∙ ap {B = ManualExecutor Task} (λ l. record { tasks = l; ran = e.ran })
          (append_assoc e.tasks (t ∷ []) ts)

module _ {Task : Type 0} (spawns : Task → List Task) where
  -- All that the tasks of a list hand to `Execute`, in order.
  abbrev pub spawned : List Task → List Task
  spawned [] = []
  spawned (t ∷ ts) = spawns t ++ spawned ts

  run_front_lem :
      (t : Task) (rest : List Task) (e : ManualExecutor Task)
      → run_front spawns t rest e ≡ record { tasks = rest ++ spawns t; ran = e.ran ++ t ∷ [] }
  unfolding run_front
  run_front_lem t rest e = execute_all_lem (spawns t) _

  abbrev at : List Task → List Task → ManualExecutor Task
  at tasks ran = record { tasks = tasks; ran = ran }

  -- What running the tasks `done` does: they were in front of the queue, or spawned by those before
  -- them; all that they spawned has gone to the back.
  pub record Runs (e e' : ManualExecutor Task) (count : ℕ) : Type 0 where
    pub done : List Task
    pub counted : length done ≡ count
    pub logged : e'.ran ≡ e.ran ++ done
    pub queued : done ++ e'.tasks ≡ e.tasks ++ spawned done

  Runs-refl : (e : ManualExecutor Task) → Runs e e 0
  Runs-refl e = record {
    done = [];
    counted = refl;
    logged = sym (append-nil e.ran);
    queued = sym (append-nil e.tasks);
  }

  Runs-front :
      {t : Task} {rest ran : List Task} {e' : ManualExecutor Task} {n : ℕ}
      → Runs (at (rest ++ spawns t) (ran ++ t ∷ [])) e' n
      → Runs (at (t ∷ rest) ran) e' (suc n)
  Runs-front {t} {rest} {ran} {e'} r = record {
    done = t ∷ r.done;
    counted = ap suc r.counted;
    logged = r.logged ∙ append_assoc ran (t ∷ []) r.done;
    queued = ap (λ l. t ∷ l) (r.queued ∙ append_assoc rest (spawns t) (spawned r.done));
  }

  Rounds : ℕ → ManualExecutor Task → ManualExecutor Task × ℕ → ℕ → Type 0
  Rounds left e (e', m) i =
      (n : ℕ) × (m ≡ i + n) × Runs e e' n × (n ≤ left) × (n < left → e'.tasks ≡ [])

  run_rounds-Rounds :
      (left i : ℕ) (tasks ran : List Task)
      → Rounds left (at tasks ran) (run_rounds spawns left i (at tasks ran)) i
  unfolding run_rounds Rounds
  run_rounds-Rounds zero i tasks ran =
      (0, omega arith, Runs-refl (at tasks ran), omega arith, λ h. absurd (omega arith))
  run_rounds-Rounds (suc left) i [] ran =
      (0, omega arith, Runs-refl (at [] ran), omega arith, λ h. refl)
  run_rounds-Rounds (suc left) i (t ∷ rest) ran = rw (run_front_lem t rest (at (t ∷ rest) ran)) (
      let (n, e, r, le, stop) = run_rounds-Rounds left (suc i) (rest ++ spawns t) (ran ++ t ∷ []) in
      (suc n, omega arith, Runs-front r, omega arith, λ h. stop (omega arith)))

  -- `RunAtMost(limit)` returns how many tasks it has run, at most `limit`, in the order of the queue,
  -- tasks that they spawn included; and if these are fewer than `limit` the queue is left empty.
  pub run_at_most-Runs :
      (limit : ℕ) (e : ManualExecutor Task)
      → let r = run_at_most spawns limit e in
        Runs e r.0 r.1 × (r.1 ≤ limit) × (r.1 < limit → r.0.tasks ≡ [])
  unfolding run_at_most Rounds
  run_at_most-Runs limit e =
      let (n, eq, r, le, stop) = run_rounds-Rounds limit 0 e.tasks e.ran in
      let same : (run_rounds spawns limit 0 e).1 ≡ n = omega arith in rw same (r, le, stop)

  run_scheduled :
      (xs ys ran : List Task) (i : ℕ)
      → run_rounds spawns (length xs) i (at (xs ++ ys) ran)
        ≡ (at (ys ++ spawned xs) (ran ++ xs), i + length xs)
  unfolding run_rounds
  run_scheduled [] ys ran i = rw (append-nil ys, append-nil ran) (ground arith)
  run_scheduled (x ∷ xs) ys ran i =
      rw
        (
          run_front_lem x (xs ++ ys) (at (x ∷ xs ++ ys) ran),
          append_assoc xs ys (spawns x),
          run_scheduled xs (ys ++ spawns x) (ran ++ x ∷ []) (suc i),
          append_assoc ys (spawns x) (spawned xs),
          append_assoc ran (x ∷ []) xs,
        )
        (ground arith)

  -- `RunAllScheduled` runs exactly the tasks that were scheduled when it was called, in that order,
  -- and returns their number; the queue then holds exactly what these have spawned.
  pub run_all_scheduled_lem :
      (e : ManualExecutor Task)
      → run_all_scheduled spawns e
        ≡ (record { tasks = spawned e.tasks; ran = e.ran ++ e.tasks }, length e.tasks)
  unfolding run_all_scheduled run_at_most
  run_all_scheduled_lem e =
      ap (λ l. run_rounds spawns (length e.tasks) 0 (at l e.ran)) (sym (append-nil e.tasks))
      ∙ run_scheduled e.tasks [] e.ran 0
      ∙ ground arith

  module _ (weight : Task → ℕ) where
    -- The work that a queue stands for, if a task weighs more than all that it spawns.
    abbrev pub load : List Task → ℕ
    load [] = 0
    load (t ∷ ts) = weight t + load ts

    load-append : (xs ys : List Task) → load (xs ++ ys) ≡ load xs + load ys
    load-append [] ys = omega arith
    load-append (x ∷ xs) ys = omega (arith, load-append xs ys)

    -- A completed drain, from a count of `count`.
    abbrev Drained : ManualExecutor Task → ℕ → Option (ManualExecutor Task × ℕ) → Type 0
    Drained e count r =
        (e' : ManualExecutor Task) × (n : ℕ) × (r ≡ some (e', (count + n) % 2 ^ 64))
        × Runs e e' n
        × (e'.tasks ≡ [])

    drain_rounds :
        ((t : Task) → load (spawns t) < weight t)
        → (fuel count : ℕ) (tasks ran : List Task) → load tasks < fuel
        → count < 2 ^ 64
        → Drained (at tasks ran) count (drain_loop spawns fuel count (at tasks ran))
    unfolding drain_loop
    drain_rounds lighter zero count tasks ran h small = absurd (omega arith)
    drain_rounds lighter (suc fuel) count [] ran h small =
        (at [] ran, 0, ground (arith, small), Runs-refl (at [] ran), refl)
    drain_rounds lighter (suc fuel) count (t ∷ rest) ran h small =
        rw (run_front_lem t rest (at (t ∷ rest) ran)) (
          let (e', n, eq, r, stop) =
            drain_rounds lighter fuel (inc64 count) (rest ++ spawns t) (ran ++ t ∷ [])
              (omega (arith, load-append rest (spawns t), lighter t)) (omega arith) in
          (e', suc n, eq ∙ ap (λ k. some (e', k)) (omega arith), Runs-front r, stop))

    -- Where each task weighs more than all that it spawns, `Drain` ends within as many rounds as the
    -- queue weighs: it returns the number of tasks run modulo 2^64, it has run them in the order of the
    -- queue, tasks that they spawn included, and it leaves the queue empty.
    pub drain_total :
        ((t : Task) → load (spawns t) < weight t)
        → (e : ManualExecutor Task) (fuel : ℕ) → load e.tasks < fuel
        → (e' : ManualExecutor Task) × (n : ℕ) × (drain spawns fuel e ≡ some (e', n % 2 ^ 64))
          × Runs e e' n
          × (e'.tasks ≡ [])
    unfolding drain
    drain_total lighter e fuel h =
        let (e', n, eq, r, stop) = drain_rounds lighter fuel 0 e.tasks e.ran h (omega arith) in
        (e', n, eq ∙ ap (λ k. some (e', k)) (omega arith), r, stop)
