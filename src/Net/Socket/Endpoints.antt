-- ===== src/Net/Socket/Endpoints.antt =====
-- Which endpoint `TryToConnect` is connected to, if it is.
use tpcc.Prelude.{◌≡◌, refl, ◌++◌, ◌⊎◌, inl, inr, List, [], ◌∷◌, Option, none, some, ap, arith}
use tpcc.Net.Transport.{ErrorCode, Result, ok, fail, Transport}
use tpcc.Net.Socket.{
  connect_loop, connect_next, connected, try_to_connect, try_to_connect_to_endpoint,
}

module _ {Byte Endpoint : Type 0} (net : Transport Byte Endpoint) where
  -- The attempts in their order, from one socket to another: all of them fail, the last with `err`.
  pub data AllFail
      : List Endpoint → Option ErrorCode → net.Socket → Option ErrorCode → net.Socket → Type 0 where
    untried : {err : Option ErrorCode} {s : net.Socket} → AllFail [] err s err s
    refused :
        {endpoint : Endpoint} {rest : List Endpoint} {err last : Option ErrorCode} {e : ErrorCode}
        {s t u : net.Socket}
        → net.async_connect endpoint s ≡ (fail e, t)
        → AllFail rest (some e) t last u
        → AllFail (endpoint ∷ rest) err s last u

  -- What the loop leads to: an endpoint that accepts after others that do not, or no such endpoint.
  abbrev pub Attempts :
      List Endpoint → Option ErrorCode → net.Socket → Option ErrorCode × net.Socket → Type 0
  Attempts endpoints err s r =
      ((before after : List Endpoint) × (endpoint : Endpoint) × (last : Option ErrorCode)
        × (t : net.Socket) × (endpoints ≡ before ++ endpoint ∷ after)
        × AllFail before err s last t
        × (net.async_connect endpoint t ≡ (ok tt, r.1))
        × (r.0 ≡ none))
      ⊎ AllFail endpoints err s r.0 r.1

  connect_loop-Attempts :
      (endpoints : List Endpoint) (err : Option ErrorCode) (s : net.Socket)
      → Attempts endpoints err s (connect_loop net endpoints err s)
  unfolding connect_loop try_to_connect_to_endpoint
  connect_loop-Attempts [] err s = inr untried
  connect_loop-Attempts (endpoint ∷ rest) err s =
      go (net.async_connect endpoint s) refl (connect_loop-Attempts rest)
    where
      go :
          (r : Result (Unit {0}) × net.Socket)
          → net.async_connect endpoint s ≡ r
          → ((err' : Option ErrorCode) (s' : net.Socket)
              → Attempts rest err' s' (connect_loop net rest err' s'))
          → Attempts (endpoint ∷ rest) err s (connect_next net (connect_loop net rest) r)
      go (ok tt, t) q again = inl ([], rest, endpoint, err, s, refl, untried, q, refl)
      go (fail e, t) q again = elim (again (some e) t) [
        | inl (before, after, hit, last, u, split, failed, done, none_left) ↦ inl (
          endpoint ∷ before,
          after,
          hit,
          last,
          u,
          ap (λ l. endpoint ∷ l) split,
          refused q failed,
          done,
          none_left,
        )
        | inr failed ↦ inr (refused q failed)
      ]

  -- With no attempt the error stays; otherwise there is one.
  AllFail-last :
      {endpoints : List Endpoint} {err last : Option ErrorCode} {s u : net.Socket}
      → AllFail endpoints err s last u
      → ((endpoints ≡ []) × (last ≡ err) × (u ≡ s)) ⊎ ((e : ErrorCode) × (last ≡ some e))
  AllFail-last untried = inl (refl, refl, refl)
  AllFail-last (refused {e} q failed) = elim (AllFail-last failed) [
    | inl (a, b, c) ↦ inr (e, b)
    | inr (e', b) ↦ inr (e', b)
  ]

  -- `TryToConnect` comes to one of three ends: it returns the socket as the first endpoint that accepts
  -- has connected it, all endpoints before having failed; or, where there is no endpoint, it returns
  -- the socket that it has made, not connected; or all endpoints fail, there is one at least, and it
  -- returns the error of the last.
  pub try_to_connect-outcomes :
      (endpoints : List Endpoint) (sock : net.Socket)
      → ((before after : List Endpoint) × (endpoint : Endpoint) × (last : Option ErrorCode) × (t
            u : net.Socket)
          × (endpoints ≡ before ++ endpoint ∷ after)
          × AllFail before none sock last t
          × (net.async_connect endpoint t ≡ (ok tt, u))
          × (try_to_connect net endpoints sock ≡ ok u))
        ⊎ ((endpoints ≡ []) × (try_to_connect net endpoints sock ≡ ok sock))
        ⊎ ((e : ErrorCode) × (u : net.Socket) × AllFail endpoints none sock (some e) u
            × (try_to_connect net endpoints sock ≡ fail e))
  unfolding try_to_connect
  try_to_connect-outcomes endpoints sock =
      go (connect_loop net endpoints none sock) (connect_loop-Attempts endpoints none sock)
    where
      go :
          (r : Option ErrorCode × net.Socket)
          → Attempts endpoints none sock r
          → ((before after : List Endpoint) × (endpoint : Endpoint) × (last : Option ErrorCode) × (t
                u : net.Socket)
              × (endpoints ≡ before ++ endpoint ∷ after)
              × AllFail before none sock last t
              × (net.async_connect endpoint t ≡ (ok tt, u))
              × (connected net r ≡ ok u))
            ⊎ ((endpoints ≡ []) × (connected net r ≡ ok sock))
            ⊎ ((e : ErrorCode) × (u : net.Socket) × AllFail endpoints none sock (some e) u
                × (connected net r ≡ fail e))
      go (r, u) (inl (before, after, hit, last, t, split, failed, done, none_left)) = inl (
        before,
        after,
        hit,
        last,
        t,
        u,
        split,
        failed,
        done,
        ap (λ x. connected net (x, u)) none_left,
      )
      go (none, u) (inr failed) = elim (AllFail-last failed) [
        | inl (a, b, c) ↦ inr (inl (a, ap (λ x. ok x) c))
        | inr (e, b) ↦ absurd (ground (arith, b))
      ]
      go (some e, u) (inr failed) = inr (inr (e, u, failed, refl))
