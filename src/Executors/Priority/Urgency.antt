-- ===== src/Executors/Priority/Urgency.antt =====
-- The priority executor finds a task for each of its calls below, and the most urgent one.
use tpcc.Prelude.{
  ℕ, suc, zero, ◌+◌, Option, none, some, List, [], ◌∷◌, ◌++◌, ◌≡◌, refl, sym, ◌∙◌, of_some, arith,
  if◌then◌else◌, subst, ◌≤◌, ap,
}
use tpcc.Heap.{PriorityQueue, weigh_list}
use tpcc.Executors.Priority.{
  TaskNode, less, PriorityExecutor, emplace, submit, run_top, begin, emplaces, submits, begins,
  Reach, here, next, ltb,
}

-- Whether a node has a priority above this one, as a weight.
abbrev pub above : {T : Type 0} → ℕ → TaskNode T → ℕ
above priority y = if ltb priority y.priority then 1 else 0

module _ {T : Type 0} (heap : PriorityQueue (TaskNode T) less) where
  -- The queue has as many nodes as there are calls on the way, and no node is lost or doubled.
  record Inv (e : PriorityExecutor heap) : Type 0 where
    counted : heap.weigh (λ _. 1) e.queue ≡ e.entered + e.scheduled
    kept :
        (w : TaskNode T → ℕ)
        → weigh_list w e.started + heap.weigh w e.queue ≡ weigh_list w e.accepted

  weigh_list-snoc :
      (w : TaskNode T → ℕ) (xs : List (TaskNode T)) (x : TaskNode T)
      → weigh_list w (xs ++ x ∷ []) ≡ weigh_list w xs + w x
  weigh_list-snoc w [] x = omega arith
  weigh_list-snoc w (y ∷ ys) x = omega (arith, weigh_list-snoc w ys x)

  emplace-Inv :
      (priority : ℕ) (task : T) (e : PriorityExecutor heap)
      → Inv e
      → Inv (emplace heap priority task e)
  unfolding emplace
  emplace-Inv priority task e v =
      let node : TaskNode T = record { task = task; priority = priority } in
      record {
        counted = omega (arith, v.counted, heap.weigh-push (λ _. 1) node e.queue);
        kept = λ w.
            omega
              (arith, v.kept w, heap.weigh-push w node e.queue, weigh_list-snoc w e.accepted node);
      }

  submit-Inv : (e e' : PriorityExecutor heap) → submit heap e ≡ some e' → Inv e → Inv e'
  unfolding submit
  submit-Inv e e' q v = go e.entered refl q
    where
      go :
          (k : ℕ)
          → e.entered ≡ k
          → (elim k [
            | zero ↦ none
            | suc others ↦ some (record e { entered = others; scheduled = suc e.scheduled })
          ])
            ≡ some e'
          → Inv e'
      go zero h q = absurd (ground (arith, q))
      go (suc k) h q =
          subst Inv (of_some q) (record { counted = omega (arith, v.counted, h); kept = v.kept })

  -- With a call on the way the queue has a greatest node, which `begin` starts.
  begin-started :
      (e : PriorityExecutor heap) (others : ℕ)
      → e.scheduled ≡ suc others
      → Inv e
      → (e' : PriorityExecutor heap) × (node : TaskNode T) × (begin heap e ≡ some e')
        × (e'.started ≡ e.started ++ node ∷ [])
        × (e'.accepted ≡ e.accepted)
        × ((w : TaskNode T → ℕ) → w node ≤ heap.weigh w e.queue)
        × (heap.weigh (above node.priority) e'.queue ≡ 0)
        × Inv e'
  unfolding begin run_top
  begin-started e others h v = go (heap.pop e.queue) refl
    where
      go :
          (r : Option (TaskNode T × heap.Queue))
          → heap.pop e.queue ≡ r
          → (e' : PriorityExecutor heap) × (node : TaskNode T) × (begin heap e ≡ some e')
            × (e'.started ≡ e.started ++ node ∷ [])
            × (e'.accepted ≡ e.accepted)
            × ((w : TaskNode T → ℕ) → w node ≤ heap.weigh w e.queue)
            × (heap.weigh (above node.priority) e'.queue ≡ 0)
            × Inv e'
      go none q = absurd (omega (arith, heap.weigh-none (λ _. 1) e.queue q, v.counted, h))
      go (some (node, rest)) q = (
        record e { scheduled = others; queue = rest; started = e.started ++ node ∷ [] },
        node,
        rw (h) (rw (q) refl),
        refl,
        refl,
        λ w. omega (arith, heap.weigh-pop w e.queue q),
        heap.pop-greatest e.queue q,
        record {
          counted = omega (arith, v.counted, h, heap.weigh-pop (λ _. 1) e.queue q);
          kept = λ w.
              omega (arith, v.kept w, heap.weigh-pop w e.queue q, weigh_list-snoc w e.started node);
        },
      )

  begin-Inv : (e e' : PriorityExecutor heap) → begin heap e ≡ some e' → Inv e → Inv e'
  unfolding begin
  begin-Inv e e' q v = go e.scheduled refl
    where
      go : (k : ℕ) → e.scheduled ≡ k → Inv e'
      go zero h = absurd (ground (arith, q, h))
      go (suc others) h =
          let (f, node, r, s, a, had, g, w) = begin-started e others h v in
          subst Inv (of_some (sym r ∙ q)) w

  Reach-Inv :
      (empty : heap.Queue) {e : PriorityExecutor heap}
      → ((w : TaskNode T → ℕ) → heap.weigh w empty ≡ 0)
      → Reach heap empty e
      → Inv e
  Reach-Inv empty nothing here = record {
    counted = nothing (λ _. 1);
    kept = λ w. omega (arith, nothing w);
  }
  Reach-Inv empty nothing (next {e} a (emplaces priority task)) =
      emplace-Inv priority task e (Reach-Inv empty nothing a)
  Reach-Inv empty nothing (next {e} {e'} a (submits q)) =
      submit-Inv e e' q (Reach-Inv empty nothing a)
  Reach-Inv empty nothing (next {e} {e'} a (begins q)) =
      begin-Inv e e' q (Reach-Inv empty nothing a)

  -- In every reachable state of a priority executor, the nodes started and those in the queue are the
  -- nodes accepted, each as often; and when the executor below runs one of its tasks, the queue is not
  -- empty, and the node started is one of those accepted: all nodes accepted so far that have a priority
  -- above its own have been started, each as often as it was accepted.
  pub Reach-urgent :
      (empty : heap.Queue) {e : PriorityExecutor heap}
      → ((w : TaskNode T → ℕ) → heap.weigh w empty ≡ 0)
      → Reach heap empty e
      → ((w : TaskNode T → ℕ)
          → weigh_list w e.started + heap.weigh w e.queue ≡ weigh_list w e.accepted)
        × ((others : ℕ)
            → e.scheduled ≡ suc others
            → (e' : PriorityExecutor heap) × (node : TaskNode T) × (begin heap e ≡ some e')
              × (e'.started ≡ e.started ++ node ∷ [])
              × (e'.accepted ≡ e.accepted)
              × ((w : TaskNode T → ℕ) → w node ≤ heap.weigh w e.queue)
              × (weigh_list (above node.priority) e'.started
                  ≡ weigh_list (above node.priority) e.accepted))
  Reach-urgent empty {e} nothing a =
      let v = Reach-Inv empty nothing a in
      (
        v.kept,
        λ others h.
            let (e', node, r, s, a, had, g, w) = begin-started e others h v in
            (
              e',
              node,
              r,
              s,
              a,
              had,
              omega
                  (arith, w.kept (above node.priority), g, ap (weigh_list (above node.priority)) a),
            ),
      )
