-- ===== src/Futures/State/Waiting.antt =====
-- `SetResult` against the blocking `Future::GetResult`, in every interleaving.
use tpcc.Prelude.{subst, sym, Option, some, List, [], ◌≡◌, refl, ◌≢◌, ◌⊎◌, inl, inr, arith}
use tpcc.Futures.State.{SharedState, start, only_result, done, Invocation}
use tpcc.Futures.State.Protocol.{
  Producer, setting, publishing, notifying, delivering, sleeping, spurious, notify_one, returned,
  failed, Consumer, blocking, collecting, got, faulted, System, produce, consume, by_producer,
  by_consumer, begin, Reach, here, next,
}

module _ {C R X : Type 0} (x : Option X) (r : R) where
  abbrev Phase : SharedState C R X → Producer R → Consumer C R → Type 0
  Phase cell (setting r') blocking = (r' ≡ r) × (cell.state ≡ start)
  Phase cell (setting r') sleeping = (r' ≡ r) × (cell.state ≡ start)
  Phase cell publishing blocking = (cell.result ≡ some r) × (cell.state ≡ start)
  Phase cell publishing sleeping = (cell.result ≡ some r) × (cell.state ≡ start)
  Phase cell notifying blocking = (cell.result ≡ some r) × (cell.state ≡ only_result)
  Phase cell notifying sleeping = (cell.result ≡ some r) × (cell.state ≡ only_result)
  Phase cell notifying collecting = (cell.result ≡ some r) × (cell.state ≡ only_result)
  Phase cell notifying (got r') = (r' ≡ r) × (cell.state ≡ done)
  Phase cell returned blocking = (cell.result ≡ some r) × (cell.state ≡ only_result)
  Phase cell returned collecting = (cell.result ≡ some r) × (cell.state ≡ only_result)
  Phase cell returned (got r') = (r' ≡ r) × (cell.state ≡ done)
  Phase cell _ _ = ⊥

  abbrev at : SharedState C R X → List (Invocation C R X) → Producer R → Consumer C R → System C R X
  at cell calls p c = record { cell = cell; producer = p; consumer = c; calls = calls }

  record Inv (s : System C R X) : Type 0 where
    phase : Phase s.cell s.producer s.consumer
    silent : s.calls ≡ []

  produce-Inv :
      (p : Producer R) (c : Consumer C R) (cell : SharedState C R X)
      (calls : List (Invocation C R X)) (t : System C R X)
      → Phase cell p c
      → calls ≡ []
      → produce p (at cell calls p c) ≡ some t
      → Inv t
  unfolding produce notify_one
  produce-Inv (setting r') blocking cell calls t h e q = ground arith
  produce-Inv _ _ cell calls t h e q = ground arith

  consume-Inv :
      (p : Producer R) (c : Consumer C R) (cell : SharedState C R X)
      (calls : List (Invocation C R X)) (t : System C R X)
      → Phase cell p c
      → calls ≡ []
      → consume c (at cell calls p c) ≡ some t
      → Inv t
  unfolding consume
  consume-Inv (setting r') blocking cell calls t h e q = ground arith
  consume-Inv _ _ cell calls t h e q = ground arith

  woken-Phase :
      (p : Producer R) (cell : SharedState C R X) → Phase cell p sleeping → Phase cell p blocking
  woken-Phase (setting r') cell h = h
  woken-Phase publishing cell h = h
  woken-Phase notifying cell h = h
  woken-Phase delivering cell h = h
  woken-Phase returned cell h = absurd h
  woken-Phase failed cell h = h

  Reach-Inv : {s : System C R X} → Reach (begin x r blocking) s → Inv s
  Reach-Inv here = record { phase = (refl, refl); silent = refl }
  Reach-Inv (next {t} {u} a (by_producer q)) =
      let v = Reach-Inv a in produce-Inv t.producer t.consumer t.cell t.calls u v.phase v.silent q
  Reach-Inv (next {t} {u} a (by_consumer q)) =
      let v = Reach-Inv a in consume-Inv t.producer t.consumer t.cell t.calls u v.phase v.silent q
  Reach-Inv (next {t} {u} a (spurious asleep q)) =
      let v = Reach-Inv a in
      subst Inv (sym q) (record {
        phase = woken-Phase t.producer t.cell (subst (Phase t.cell t.producer) asleep v.phase);
        silent = v.silent;
      })

  -- What a blocked reader sees: no check fails, only `r` is returned, a reader does not sleep once
  -- `SetResult` has returned, and until the reader has returned one of the two calls can go on, without
  -- the help of the system.
  pub record IsServed (s : System C R X) : Type 0 where
    pub sound : (s.producer ≢ failed) × (s.consumer ≢ faulted)
    pub right : (r' : R) → s.consumer ≡ got r' → r' ≡ r
    pub awake : s.producer ≡ returned → s.consumer ≢ sleeping
    pub live :
        ((r' : R) × (s.consumer ≡ got r'))
        ⊎ ((t : System C R X) × ((produce s.producer s ≡ some t) ⊎ (consume s.consumer s ≡ some t)))

  by_producer_live :
      (p : Producer R) (c : Consumer C R) (cell : SharedState C R X)
      (calls : List (Invocation C R X))
      → Phase cell p c
      → p ≢ returned
      → (t : System C R X) × (produce p (at cell calls p c) ≡ some t)
  unfolding produce
  by_producer_live (setting r') c cell calls h ne = (_, refl)
  by_producer_live publishing c cell calls h ne = (_, refl)
  by_producer_live notifying c cell calls h ne = (_, refl)
  by_producer_live delivering c cell calls h ne = (_, refl)
  by_producer_live returned c cell calls h ne = absurd (ne refl)
  by_producer_live failed blocking cell calls h ne = absurd h
  by_producer_live failed _ cell calls h ne = absurd h

  Phase-live :
      (p : Producer R) (c : Consumer C R) (cell : SharedState C R X)
      (calls : List (Invocation C R X))
      → Phase cell p c
      → ((r' : R) × (c ≡ got r'))
        ⊎ ((t : System C R X) × ((produce p (at cell calls p c) ≡ some t)
              ⊎ (consume c (at cell calls p c) ≡ some t)))
  unfolding consume
  Phase-live returned blocking cell calls h = inr (at cell calls returned collecting, inr (rw h.1))
  Phase-live returned collecting cell calls h = inr (_, inr refl)
  Phase-live returned (got r') cell calls h = inl (r', refl)
  Phase-live returned _ cell calls h = absurd h
  Phase-live p c cell calls h =
      let (t, e) = by_producer_live p c cell calls h (λ e. ground (arith, e)) in inr (t, inl e)

  Phase-IsServed :
      (p : Producer R) (c : Consumer C R) (cell : SharedState C R X)
      (calls : List (Invocation C R X))
      → Phase cell p c
      → IsServed (at cell calls p c)
  Phase-IsServed (setting r') blocking cell calls h = record {
    sound = (λ e. cc, λ e. cc);
    right = λ r' e. cc;
    awake = λ e. cc;
    live = Phase-live (setting r') blocking cell calls h;
  }
  Phase-IsServed p c cell calls h = record {
    sound = (λ e. ground (arith, h, e), λ e. ground (arith, h, e));
    right = λ r' e. ground (arith, h, e);
    awake = λ e e'. ground (arith, h, e, e');
    live = Phase-live p c cell calls h;
  }

  -- In every interleaving of `SetResult(r)` with a blocking `GetResult`, spurious wake-ups included:
  -- neither call fails a check, `GetResult` returns nothing but `r`, no callback is called, `GetResult`
  -- does not sleep once `SetResult` has returned, and until `GetResult` has returned one of the two calls
  -- can make its next step without a spurious wake-up.
  pub Reach-IsServed :
      {s : System C R X} → Reach (begin x r blocking) s → IsServed s × (s.calls ≡ [])
  Reach-IsServed {s} a =
      let v = Reach-Inv a in (Phase-IsServed s.producer s.consumer s.cell s.calls v.phase, v.silent)
