-- ===== src/Net/Acceptor.antt =====
-- tinyfibers/echo/tinyfibers/net/acceptor.cpp: `Acceptor`, over asio's acceptor as an interface, and
-- `ServeForever` of tinyfibers/echo/echo/server.cpp.
use tpcc.Prelude.{ℕ, zero, suc, Option, none, some, List, [], ◌∷◌, ◌>>=◌}
use tpcc.Net.Transport.{ErrorCode, Result, ok, fail}

-- asio's acceptor: `local_endpoint` is `none` where it throws.
pub record Listener (Socket : Type 0) : Type 1 where
  pub Acceptor : Type 0
  pub open_v4 : Acceptor → Result (Unit {0}) × Acceptor
  pub bind : ℕ → Acceptor → Result (Unit {0}) × Acceptor
  pub listen : ℕ → Acceptor → Result (Unit {0}) × Acceptor
  pub async_accept : Acceptor → Result Socket × Acceptor
  pub local_port : Acceptor → Option ℕ

module _ {Socket : Type 0} (asio : Listener Socket) where
  open asio use {Acceptor, open_v4, bind, listen, async_accept, local_port}

  abbrev pub bind_opened : ℕ → Result (Unit {0}) × Acceptor → Result (Unit {0}) × Acceptor
  bind_opened port (fail e, a) = (fail e, a)
  bind_opened port (ok u, a) = bind port a

  unfoldable pub bind_to : ℕ → Acceptor → Result (Unit {0}) × Acceptor
  bind_to port a = bind_opened port (open_v4 a)

  unfoldable pub get_port : Acceptor → Option ℕ
  get_port a = local_port a

  -- `thrown` is the error that stands for the exception of `GetPort`.
  abbrev pub port_result : ErrorCode → Option ℕ → Result ℕ
  port_result thrown none = fail thrown
  port_result thrown (some port) = ok port

  abbrev pub bound_port : ErrorCode → Result (Unit {0}) × Acceptor → Result ℕ × Acceptor
  unfolding get_port
  bound_port thrown (fail e, a) = (fail e, a)
  bound_port thrown (ok u, a) = (port_result thrown (get_port a), a)

  unfoldable pub bind_to_available_port : ErrorCode → Acceptor → Result ℕ × Acceptor
  unfolding bind_to bound_port
  bind_to_available_port thrown a = bound_port thrown (bind_to 0 a)

  unfoldable pub listen_with : ℕ → Acceptor → Result (Unit {0}) × Acceptor
  listen_with backlog a = listen backlog a

  unfoldable pub accept : Acceptor → Result Socket × Acceptor
  accept a = async_accept a

  -- The loop of `ServeForever`, for so many rounds: the clients for which it has spawned a fiber.
  unfoldable pub serve_loop : ℕ → Acceptor → List Socket × Acceptor
  unfolding accept
  serve_loop zero a = ([], a)
  serve_loop (suc rounds) a =
      let (r, a') = accept a in
      elim r [
        | ok client ↦ (let (clients, a'') = serve_loop rounds a' in (client ∷ clients, a''))
        | fail e ↦ serve_loop rounds a'
      ]

  abbrev pub throw_if_error : Result (Unit {0}) × Acceptor → Option Acceptor
  throw_if_error (ok u, a) = some a
  throw_if_error (fail e, a) = none

  -- `ServeForever` with `rounds` rounds of its loop; `none`: it throws before the first.
  unfoldable pub serve_forever : ℕ → ℕ → Acceptor → Option (List Socket × Acceptor)
  unfolding bind_to listen_with serve_loop
  serve_forever rounds port a = do
    a₁ ← throw_if_error (bind_to port a)
    a₂ ← throw_if_error (listen_with 128 a₁)
    some (serve_loop rounds a₂)
