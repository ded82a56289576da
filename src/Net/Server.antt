-- ===== src/Net/Server.antt =====
-- asio/echo/echo/server.cpp: `Server`, with the sessions that it has started. A handler is a step of the
-- event loop, of which `run` returns when no operation is outstanding. A session is one of `Session`.
use tpcc.Prelude.{ℕ, suc, ◌<◌, ◌≡◌, refl, sym, ◌∙◌, List, [], ◌++◌, update, update_cases, arith}
use tpcc.Net.Transport.{Result, ok, fail}
use tpcc.Net.Session.{Session, reading, destroyed, Connection, start, Pending, Reach-sent}
use tpcc.Net.Session as Session

-- `accepting` is the number of `async_accept` that are outstanding.
pub record Server (Byte : Type 0) : Type 0 where
  pub accepting : ℕ
  pub connections : ℕ → Connection Byte
  pub next_client : ℕ

module _ {Byte : Type 0} where
  unfoldable pub accept_client : Server Byte → Server Byte
  accept_client s = record s { accepting = suc s.accepting }

  -- `std::make_shared<Session>(...)->Start()`.
  unfoldable pub start_session : Server Byte → Server Byte
  start_session s = record s {
    connections =
        update s.connections s.next_client (record { session = start; received = []; sent = [] });
    next_client = suc s.next_client;
  }

  -- The handler of `AcceptClient`.
  unfoldable pub client_accepted : Result (Unit {0}) → Server Byte → Server Byte
  unfolding accept_client start_session
  client_accepted (ok client) s = accept_client (start_session s)
  client_accepted (fail e) s = accept_client s

  -- `ServeForever`, up to `run`.
  unfoldable pub serve_forever : (ℕ → Connection Byte) → Server Byte
  unfolding accept_client
  serve_forever connections =
      accept_client (record { accepting = 0; connections = connections; next_client = 0 })

  pub data Step (s : Server Byte) : Server Byte → Type 0 where
    accepts :
        (others : ℕ) (r : Result (Unit {0}))
        → s.accepting ≡ suc others
        → Step s (client_accepted r (record s { accepting = others }))
    serves :
        (client : ℕ)
        → client < s.next_client
        → {c : Connection Byte} → Session.Step (s.connections client) c
        → Step s (record s { connections = update s.connections client c })

  pub data Reach : Server Byte → Type 0 where
    here : (connections : ℕ → Connection Byte) → Reach (serve_forever connections)
    next : {s t : Server Byte} → Reach s → Step s t → Reach t

  record Inv (s : Server Byte) : Type 0 where
    one : s.accepting ≡ 1
    sessions : (client : ℕ) → client < s.next_client → Session.Reach (s.connections client)

  client_accepted-Inv :
      (others : ℕ) (r : Result (Unit {0})) (s : Server Byte)
      → s.accepting ≡ suc others
      → Inv s
      → Inv (client_accepted r (record s { accepting = others }))
  unfolding client_accepted start_session accept_client
  client_accepted-Inv others (ok client) s e v = record {
    one = sym e ∙ v.one;
    sessions = λ client lt.
        update_cases Session.Reach s.connections s.next_client
          (record { session = start; received = []; sent = [] }) client (λ _. Session.accepted)
          (λ ne. v.sessions client (omega (arith, lt, ne)));
  }
  client_accepted-Inv others (fail code) s e v = record {
    one = sym e ∙ v.one;
    sessions = v.sessions;
  }

  step-Inv : {s t : Server Byte} → Step s t → Inv s → Inv t
  step-Inv {s} (accepts others r e) v = client_accepted-Inv others r s e v
  step-Inv {s} (serves client lt {c} step) v = record {
    one = v.one;
    sessions = λ other below.
        update_cases Session.Reach s.connections client c other
          (λ _. Session.next (v.sessions client lt) step) (λ _. v.sessions other below);
  }

  Reach-Inv : {s : Server Byte} → Reach s → Inv s
  unfolding serve_forever accept_client
  Reach-Inv (here connections) = record {
    one = refl;
    sessions = λ client lt. absurd (omega (arith, lt));
  }
  Reach-Inv (next r s) = step-Inv s (Reach-Inv r)

  -- In every reachable state of the callback server one `async_accept` is outstanding, whatever clients
  -- and errors came before, so that `run` does not return; and what each session has received is what it
  -- has sent, in order, followed by others: nothing while it reads, and its buffer while it writes.
  pub Reach-serves :
      {s : Server Byte}
      → Reach s
      → (s.accepting ≡ 1)
        × ((client : ℕ)
            → client < s.next_client
            → (rest : List Byte) × ((s.connections client).received
                ≡ (s.connections client).sent ++ rest)
              × Pending (s.connections client).session rest)
  Reach-serves r = let v = Reach-Inv r in (v.one, λ client lt. Reach-sent (v.sessions client lt))
