-- ===== src/Net/Transport.antt =====
-- The sockets of the asio library, which is not code of the repository, as an interface: what an
-- operation completes with, and what it does to the two byte streams of a connection.
use tpcc.Prelude.{ℕ, ◌≤◌, ◌≡◌, List, ◌++◌, length, take}

-- The error codes that the code tells apart.
pub data ErrorCode : Type 0 where
  eof : ErrorCode
  no_buffer_space : ErrorCode
  other : ℕ → ErrorCode

-- `wheels::Result`, and what the handler of an asynchronous operation is called with.
pub data Result (T : Type 0) : Type 0 where
  ok : T → Result T
  fail : ErrorCode → Result T

-- A socket after an operation and its result. `received` and `sent` are all the bytes that have come
-- out of the socket and gone into it.
pub record Transport (Byte Endpoint : Type 0) : Type 1 where
  pub Socket : Type 0
  pub received : Socket → List Byte
  pub sent : Socket → List Byte
  -- With room for so many bytes.
  pub async_read_some : ℕ → Socket → Result (List Byte) × Socket
  pub async_write_some : List Byte → Socket → Result ℕ × Socket
  pub async_connect : Endpoint → Socket → Result (Unit {0}) × Socket
  pub shutdown_send : Socket → Result (Unit {0}) × Socket
  pub read_fits :
      (room : ℕ) (s : Socket) {bytes : List Byte} {s' : Socket}
      → async_read_some room s ≡ (ok bytes, s')
      → (length bytes ≤ room) × (received s' ≡ received s ++ bytes) × (sent s' ≡ sent s)
  pub read_fails :
      (room : ℕ) (s : Socket) {e : ErrorCode} {s' : Socket}
      → async_read_some room s ≡ (fail e, s')
      → (received s' ≡ received s) × (sent s' ≡ sent s)
  pub write_fits :
      (bytes : List Byte) (s : Socket) {n : ℕ} {s' : Socket}
      → async_write_some bytes s ≡ (ok n, s')
      → (n ≤ length bytes) × (sent s' ≡ sent s ++ take n bytes) × (received s' ≡ received s)
  pub write_fails :
      (bytes : List Byte) (s : Socket) {e : ErrorCode} {s' : Socket}
      → async_write_some bytes s ≡ (fail e, s')
      → (sent s' ≡ sent s) × (received s' ≡ received s)
  -- An operation on bytes does not complete without any.
  pub write_moves :
      (bytes : List Byte) (s : Socket) {s' : Socket}
      → async_write_some bytes s ≡ (ok 0, s')
      → length bytes ≡ 0
