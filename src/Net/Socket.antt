-- ===== src/Net/Socket.antt =====
-- tinyfibers/echo/tinyfibers/net/socket.cpp: `Socket`, over the sockets of asio. A fiber that waits for
-- an operation is resumed with what the operation has completed with, so a call is a function.
pub mod Loops
pub mod Streams
pub mod Endpoints
use tpcc.Prelude.{
  ℕ, zero, suc, ◌+◌, ◌-◌, Bool, true, false, Option, none, some, List, [], ◌∷◌, ◌++◌, length, take,
  drop, if◌then◌else◌, ◌>>=◌,
}
use tpcc.Net.Transport.{ErrorCode, eof, no_buffer_space, other, Result, ok, fail, Transport}

module _ {Byte Endpoint : Type 0} (net : Transport Byte Endpoint) where
  open net use {Socket, async_read_some, async_write_some, async_connect, shutdown_send}

  -- The buffer with the bytes written into it from `shift` on.
  abbrev pub fill : List Byte → ℕ → List Byte → List Byte
  fill buffer shift bytes = take shift buffer ++ (bytes ++ drop (shift + length bytes) buffer)

  -- The bytes that `ReadSome` puts at the front of a buffer with so much room; their number is what it
  -- returns.
  abbrev pub end_of_read : Result (List Byte) × Socket → Result (List Byte) × Socket
  end_of_read (fail eof, s) = (ok [], s)
  end_of_read (fail no_buffer_space, s) = (ok [], s)
  end_of_read r = r

  unfoldable pub read_some : ℕ → Socket → Result (List Byte) × Socket
  read_some room s = end_of_read (async_read_some room s)

  -- A finished call: its result, the buffer and the socket.
  abbrev pub Finished : Type 0
  Finished = Result ℕ × List Byte × Socket

  -- What follows a `ReadSome` in the loop of `Read`; `again` is the loop.
  unfoldable pub read_next :
      (ℕ → List Byte → Socket → Option Finished)
      → ℕ
      → List Byte
      → Result (List Byte) × Socket
      → Option Finished
  read_next again shift buffer (fail e, s) = some (fail e, buffer, s)
  read_next again shift buffer (ok [], s) = some (ok shift, buffer, s)
  read_next again shift buffer (ok (b ∷ bytes), s) =
      again (shift + length (b ∷ bytes)) (fill buffer shift (b ∷ bytes)) s

  -- `Read`, for at most so many rounds; `none` when they are over.
  unfoldable pub read_loop : ℕ → ℕ → List Byte → Socket → Option Finished
  unfolding read_next read_some
  read_loop zero shift buffer s = none
  read_loop (suc rounds) shift buffer s =
      read_next (read_loop rounds) shift buffer (read_some (length buffer - shift) s)

  unfoldable pub read : List Byte → Socket → Option Finished
  unfolding read_loop
  read buffer s = read_loop (suc (length buffer)) 0 buffer s

  abbrev pub end_of_write : Result ℕ × Socket → Result ℕ × Socket
  end_of_write (fail eof, s) = (ok 0, s)
  end_of_write r = r

  unfoldable pub write_some : List Byte → Socket → Result ℕ × Socket
  write_some buffer s = end_of_write (async_write_some buffer s)

  unfoldable pub write_next :
      (ℕ → Socket → Option (Result (Unit {0}) × Socket))
      → ℕ
      → Result ℕ × Socket
      → Option (Result (Unit {0}) × Socket)
  write_next again shift (fail e, s) = some (fail e, s)
  write_next again shift (ok zero, s) = some (ok tt, s)
  write_next again shift (ok (suc n), s) = again (shift + suc n) s

  -- `Write`, for at most so many rounds.
  unfoldable pub write_loop : ℕ → List Byte → ℕ → Socket → Option (Result (Unit {0}) × Socket)
  unfolding write_next write_some
  write_loop zero buffer shift s = none
  write_loop (suc rounds) buffer shift s =
      write_next (write_loop rounds buffer) shift (write_some (drop shift buffer) s)

  unfoldable pub write : List Byte → Socket → Option (Result (Unit {0}) × Socket)
  unfolding write_loop
  write buffer s = write_loop (suc (length buffer)) buffer 0 s

  unfoldable pub shutdown_write : Socket → Result (Unit {0}) × Socket
  shutdown_write s = shutdown_send s

  unfoldable pub try_to_connect_to_endpoint : Endpoint → Socket → Result (Unit {0}) × Socket
  try_to_connect_to_endpoint endpoint s = async_connect endpoint s

  abbrev pub connect_next :
      (Option ErrorCode → Socket → Option ErrorCode × Socket)
      → Result (Unit {0}) × Socket
      → Option ErrorCode × Socket
  connect_next again (ok u, s) = (none, s)
  connect_next again (fail e, s) = again (some e) s

  -- The loop of `TryToConnect`: `err` and the socket after it.
  unfoldable pub connect_loop :
      List Endpoint → Option ErrorCode → Socket → Option ErrorCode × Socket
  unfolding try_to_connect_to_endpoint
  connect_loop [] err s = (err, s)
  connect_loop (endpoint ∷ rest) err s =
      connect_next (connect_loop rest) (try_to_connect_to_endpoint endpoint s)

  abbrev pub connected : Option ErrorCode × Socket → Result Socket
  connected (none, s) = ok s
  connected (some e, s) = fail e

  -- `sock` is the socket that `TryToConnect` makes.
  unfoldable pub try_to_connect : List Endpoint → Socket → Result Socket
  unfolding connect_loop
  try_to_connect endpoints_list sock = connected (connect_loop endpoints_list none sock)

  abbrev pub connect_resolved :
      (Result Socket → Option Socket) → Socket → Result (List Endpoint) → Option (Result Socket)
  unfolding try_to_connect
  connect_resolved convert sock (fail e) = some (fail e)
  connect_resolved convert sock (ok endpoints) = do
    asio_sock ← convert (try_to_connect endpoints sock)
    some (ok asio_sock)

  -- `ConnectTo`, where `resolve` is what the resolver answers and `convert` is the conversion of a
  -- `wheels::Result` to its value, `none` if that throws.
  unfoldable pub connect_to :
      (Result Socket → Option Socket) → Result (List Endpoint) → Socket → Option (Result Socket)
  unfolding connect_resolved
  connect_to convert resolved sock = connect_resolved convert sock resolved
