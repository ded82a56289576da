-- ===== src/Futures/State/Delivery.antt =====
-- `SetResult` against `Subscribe`, in every interleaving: the callback is called once, with the
-- result.
use tpcc.Prelude.{
  refl, Option, some, List, [], ◌∷◌, ◌≡◌, arith, ◌<◌, inr, ◌≢◌, ◌⊎◌, ℕ, ◌+◌, suc, ap, ◌≤◌, inl,
}
use tpcc.Futures.State.{SharedState, start, only_result, only_callback, done, Invocation}
use tpcc.Futures.State.Protocol.{
  Producer, setting, publishing, notifying, sleeping, spurious, notify_one, delivering, returned,
  Consumer, checking, consuming, storing, offering, handing, subscribed, System, produce, consume,
  Reach, Step, by_producer, begin, next, failed, by_consumer, faulted, got, here, blocking,
  collecting,
}

module _ {C R X : Type 0} (x : Option X) (r : R) (cb : C) where
  -- The call that is to be made.
  abbrev pub the_call : Invocation C R X
  the_call = record { via = x; callback = cb; result = r }

  -- What the shared state and the calls look like, by the places of the two parties.
  abbrev Phase : SharedState C R X → List (Invocation C R X) → Producer R → Consumer C R → Type 0
  Phase cell calls (setting r') (checking c) =
      (r' ≡ r) × (c ≡ cb) × (cell.state ≡ start) × (calls ≡ [])
  Phase cell calls (setting r') (storing c) =
      (r' ≡ r) × (c ≡ cb) × (cell.state ≡ start) × (calls ≡ [])
  Phase cell calls (setting r') offering =
      (r' ≡ r) × (cell.callback ≡ some cb) × (cell.state ≡ start) × (calls ≡ [])
  Phase cell calls (setting r') subscribed =
      (r' ≡ r) × (cell.callback ≡ some cb) × (cell.state ≡ only_callback) × (calls ≡ [])
  Phase cell calls publishing (checking c) =
      (cell.result ≡ some r) × (c ≡ cb) × (cell.state ≡ start) × (calls ≡ [])
  Phase cell calls publishing (storing c) =
      (cell.result ≡ some r) × (c ≡ cb) × (cell.state ≡ start) × (calls ≡ [])
  Phase cell calls publishing offering =
      (cell.result ≡ some r) × (cell.callback ≡ some cb) × (cell.state ≡ start) × (calls ≡ [])
  Phase cell calls publishing subscribed =
      (cell.result ≡ some r)
      × (cell.callback ≡ some cb)
      × (cell.state ≡ only_callback)
      × (calls ≡ [])
  Phase cell calls delivering subscribed =
      (cell.result ≡ some r)
      × (cell.callback ≡ some cb)
      × (cell.state ≡ only_callback)
      × (calls ≡ [])
  Phase cell calls returned (checking c) =
      (cell.result ≡ some r) × (c ≡ cb) × (cell.state ≡ only_result) × (calls ≡ [])
  Phase cell calls returned (consuming c) =
      (cell.result ≡ some r) × (c ≡ cb) × (cell.state ≡ only_result) × (calls ≡ [])
  Phase cell calls returned (storing c) =
      (cell.result ≡ some r) × (c ≡ cb) × (cell.state ≡ only_result) × (calls ≡ [])
  Phase cell calls returned offering =
      (cell.result ≡ some r) × (cell.callback ≡ some cb) × (cell.state ≡ only_result) × (calls ≡ [])
  Phase cell calls returned handing =
      (cell.result ≡ some r) × (cell.callback ≡ some cb) × (cell.state ≡ only_result) × (calls ≡ [])
  Phase cell calls notifying (checking c) =
      (cell.result ≡ some r) × (c ≡ cb) × (cell.state ≡ only_result) × (calls ≡ [])
  Phase cell calls notifying (consuming c) =
      (cell.result ≡ some r) × (c ≡ cb) × (cell.state ≡ only_result) × (calls ≡ [])
  Phase cell calls notifying (storing c) =
      (cell.result ≡ some r) × (c ≡ cb) × (cell.state ≡ only_result) × (calls ≡ [])
  Phase cell calls notifying offering =
      (cell.result ≡ some r) × (cell.callback ≡ some cb) × (cell.state ≡ only_result) × (calls ≡ [])
  Phase cell calls notifying handing =
      (cell.result ≡ some r) × (cell.callback ≡ some cb) × (cell.state ≡ only_result) × (calls ≡ [])
  Phase cell calls notifying subscribed = (cell.state ≡ done) × (calls ≡ the_call ∷ [])
  Phase cell calls returned subscribed = (cell.state ≡ done) × (calls ≡ the_call ∷ [])
  Phase cell calls _ _ = ⊥

  record Inv (s : System C R X) : Type 0 where
    via : s.cell.executor ≡ x
    phase : Phase s.cell s.calls s.producer s.consumer

  abbrev at : SharedState C R X → List (Invocation C R X) → Producer R → Consumer C R → System C R X
  at cell calls p c = record { cell = cell; producer = p; consumer = c; calls = calls }

  produce-Inv :
      (p : Producer R) (c : Consumer C R) (cell : SharedState C R X)
      (calls : List (Invocation C R X)) (t : System C R X)
      → cell.executor ≡ x
      → Phase cell calls p c
      → produce p (at cell calls p c) ≡ some t
      → Inv t
  unfolding produce notify_one
  produce-Inv (setting r') (checking c) cell calls t e h q = ground arith
  produce-Inv _ _ cell calls t e h q = ground arith

  consume-Inv :
      (p : Producer R) (c : Consumer C R) (cell : SharedState C R X)
      (calls : List (Invocation C R X)) (t : System C R X)
      → cell.executor ≡ x
      → Phase cell calls p c
      → consume c (at cell calls p c) ≡ some t
      → Inv t
  unfolding consume
  consume-Inv (setting r') (checking c) cell calls t e h q = ground arith
  consume-Inv _ _ cell calls t e h q = ground arith

  -- Nobody sleeps in `wait`.
  never-sleeping :
      (p : Producer R) (c : Consumer C R) (cell : SharedState C R X)
      (calls : List (Invocation C R X))
      → Phase cell calls p c
      → c ≡ sleeping
      → ⊥
  never-sleeping (setting r') (checking c) cell calls h e = ground (arith, e)
  never-sleeping _ _ cell calls h e = ground (arith, h, e)

  Step-Inv : {s t : System C R X} → Step s t → Inv s → Inv t
  Step-Inv {s} {t} (by_producer q) v =
      produce-Inv s.producer s.consumer s.cell s.calls t v.via v.phase q
  Step-Inv {s} {t} (by_consumer q) v =
      consume-Inv s.producer s.consumer s.cell s.calls t v.via v.phase q
  Step-Inv {s} {t} (spurious asleep q) v =
      absurd (never-sleeping s.producer s.consumer s.cell s.calls v.phase asleep)

  Reach-Inv : {s : System C R X} → Reach (begin x r (checking cb)) s → Inv s
  Reach-Inv here = record { via = refl; phase = (refl, refl, refl, refl) }
  Reach-Inv (next a st) = Step-Inv st (Reach-Inv a)

  -- What holds of the calls in every phase.
  pub record IsOnce (p : Producer R) (c : Consumer C R) (calls : List (Invocation C R X))
      : Type 0 where
    pub sound : (p ≢ failed) × (c ≢ faulted)
    pub at_most : (calls ≡ []) ⊎ (calls ≡ the_call ∷ [])
    pub complete : p ≡ returned → c ≡ subscribed → calls ≡ the_call ∷ []

  Phase-IsOnce :
      (p : Producer R) (c : Consumer C R) (cell : SharedState C R X)
      (calls : List (Invocation C R X))
      → Phase cell calls p c
      → IsOnce p c calls
  Phase-IsOnce (setting r') (checking c) cell calls h = ground arith
  Phase-IsOnce _ _ cell calls h = ground arith

  -- In every interleaving of `SetResult(r)` with `Subscribe(cb)` on a new shared state whose executor
  -- is `x`: neither call fails a check, the callback is called at most once, with `r` and through `x`,
  -- and once both calls have returned it has been called.
  pub Reach-IsOnce :
      {s : System C R X} → Reach (begin x r (checking cb)) s → IsOnce s.producer s.consumer s.calls
  Reach-IsOnce {s} a =
      let v = Reach-Inv a in Phase-IsOnce s.producer s.consumer s.cell s.calls v.phase

  -- The steps that a party has left, at most.
  abbrev produce_left : Producer R → ℕ
  produce_left (setting _) = 3
  produce_left publishing = 2
  produce_left notifying = 1
  produce_left delivering = 1
  produce_left _ = 0

  abbrev consume_left : Consumer C R → ℕ
  consume_left (checking _) = 4
  consume_left (storing _) = 3
  consume_left offering = 2
  consume_left (consuming _) = 1
  consume_left handing = 1
  consume_left blocking = 2
  consume_left collecting = 1
  consume_left _ = 0

  abbrev left : System C R X → ℕ
  left s = produce_left s.producer + consume_left s.consumer

  produce-left :
      (p : Producer R) (c : Consumer C R) (cell : SharedState C R X)
      (calls : List (Invocation C R X)) (t : System C R X)
      → Phase cell calls p c
      → produce p (at cell calls p c) ≡ some t
      → left t < left (at cell calls p c)
  unfolding produce notify_one
  produce-left (setting r') (checking c) cell calls t h q = ground arith
  produce-left _ _ cell calls t h q = ground arith

  consume-left :
      (c : Consumer C R) (s t : System C R X)
      → c ≢ blocking
      → consume c s ≡ some t
      → (consume_left t.consumer < consume_left c) × (t.producer ≡ s.producer)
  unfolding consume
  consume-left (checking c) s t ne q = ground arith
  consume-left blocking s t ne q = absurd (ne refl)
  consume-left _ s t ne q = ground (arith, q)

  never-blocking :
      (p : Producer R) (c : Consumer C R) (cell : SharedState C R X)
      (calls : List (Invocation C R X))
      → Phase cell calls p c
      → c ≢ blocking
  never-blocking (setting r') (checking c) cell calls h e = ground (arith, e)
  never-blocking _ _ cell calls h e = ground (arith, h, e)

  Step-left : {s t : System C R X} → Inv s → Step s t → left t < left s
  Step-left {s} {t} v (by_producer q) =
      produce-left s.producer s.consumer s.cell s.calls t v.phase q
  Step-left {s} {t} v (by_consumer q) =
      let ne = never-blocking s.producer s.consumer s.cell s.calls v.phase in
      let h = consume-left s.consumer s t ne q in omega (arith, ap produce_left h.1)
  Step-left {s} {t} v (spurious asleep q) =
      absurd (never-sleeping s.producer s.consumer s.cell s.calls v.phase asleep)

  -- `Reach` with the number of its steps.
  pub steps : {s t : System C R X} → Reach s t → ℕ
  steps here = 0
  steps (next a st) = suc (steps a)

  steps-left : {s : System C R X} (a : Reach (begin x r (checking cb)) s) → steps a + left s ≤ 7
  unfolding steps
  steps-left here = omega arith
  steps-left (next a st) = omega (arith, steps-left a, Step-left (Reach-Inv a) st)

  -- Both calls are over, or a step can be made.
  abbrev CanGoOn : System C R X → Type 0
  CanGoOn s =
      ((s.producer ≡ returned) × (s.consumer ≡ subscribed)) ⊎ ((t : System C R X) × Step s t)

  Phase-goes-on :
      (p : Producer R) (c : Consumer C R) (cell : SharedState C R X)
      (calls : List (Invocation C R X))
      → Phase cell calls p c
      → CanGoOn (at cell calls p c)
  unfolding produce consume
  Phase-goes-on (setting r') c cell calls h = inr (_, by_producer refl)
  Phase-goes-on publishing c cell calls h = inr (_, by_producer refl)
  Phase-goes-on notifying c cell calls h = inr (_, by_producer refl)
  Phase-goes-on delivering c cell calls h = inr (_, by_producer refl)
  Phase-goes-on returned (checking c) cell calls h = inr (_, by_consumer refl)
  Phase-goes-on returned (consuming c) cell calls h = inr (_, by_consumer refl)
  Phase-goes-on returned (storing c) cell calls h = inr (_, by_consumer refl)
  Phase-goes-on returned offering cell calls h = inr (_, by_consumer refl)
  Phase-goes-on returned handing cell calls h = inr (_, by_consumer refl)
  Phase-goes-on returned subscribed cell calls h = inl (refl, refl)
  Phase-goes-on returned blocking cell calls h = absurd h
  Phase-goes-on returned sleeping cell calls h = absurd h
  Phase-goes-on returned collecting cell calls h = absurd h
  Phase-goes-on returned (got r) cell calls h = absurd h
  Phase-goes-on returned faulted cell calls h = absurd h
  Phase-goes-on failed c cell calls h = absurd (never-failed c cell calls h)
    where
      never-failed :
          (c : Consumer C R) (cell : SharedState C R X) (calls : List (Invocation C R X))
          → Phase cell calls failed c
          → ⊥
      never-failed (checking c) cell calls h = h
      never-failed _ cell calls h = h

  -- Neither call waits for the other: every interleaving of `SetResult(r)` with `Subscribe(cb)` is over
  -- within seven steps, and until both calls have returned one of them can make its next step.
  pub Reach-terminates :
      {s : System C R X} (a : Reach (begin x r (checking cb)) s)
      → (steps a ≤ 7)
        × (((s.producer ≡ returned) × (s.consumer ≡ subscribed)) ⊎ ((t : System C R X) × Step s t))
  Reach-terminates {s} a =
      let v = Reach-Inv a in
      (omega (arith, steps-left a), Phase-goes-on s.producer s.consumer s.cell s.calls v.phase)
