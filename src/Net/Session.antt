-- ===== src/Net/Session.antt =====
-- asio/echo/echo/server.cpp: a `Session` of the callback echo server. A completion handler is a step;
-- `async_write` completes when all bytes are written, or with an error after some of them.
use tpcc.Prelude.{
  ℕ, ◌≤◌, ◌≡◌, refl, sym, ap, ◌∙◌, List, [], ◌++◌, length, take, drop, take-append-drop,
  append_assoc, append-nil, subst,
}
use tpcc.Net.Transport.{ErrorCode, Result, ok, fail}

-- The operation that a session waits for: a read, or the write of the first bytes of its buffer. With
-- none it is destroyed, since only the handlers hold it.
pub data Session (Byte : Type 0) : Type 0 where
  reading : Session Byte
  writing : List Byte → Session Byte
  destroyed : Session Byte

-- A session with the bytes that it has read and written. The buffer has 1024 bytes.
pub record Connection (Byte : Type 0) : Type 0 where
  pub session : Session Byte
  pub received : List Byte
  pub sent : List Byte

module _ {Byte : Type 0} where
  abbrev pub start : Session Byte
  start = reading

  -- The handler of `ReadChunk`, with the bytes read.
  abbrev pub chunk_read : Result (List Byte) → Session Byte
  chunk_read (ok bytes) = writing bytes
  chunk_read (fail e) = destroyed

  -- The handler of `WriteChunk`.
  abbrev pub chunk_written : Result (Unit {0}) → Session Byte
  chunk_written (ok u) = reading
  chunk_written (fail e) = destroyed

  pub data Step (c : Connection Byte) : Connection Byte → Type 0 where
    reads :
        (bytes : List Byte)
        → length bytes ≤ 1024
        → c.session ≡ reading
        → Step c (record c { session = chunk_read (ok bytes); received = c.received ++ bytes })
    read_fails :
        (e : ErrorCode) → c.session ≡ reading → Step c (record c { session = chunk_read (fail e) })
    writes :
        (bytes : List Byte)
        → c.session ≡ writing bytes
        → Step c (record c { session = chunk_written (ok tt); sent = c.sent ++ bytes })
    write_fails :
        (e : ErrorCode) (bytes : List Byte) (n : ℕ)
        → c.session ≡ writing bytes
        → Step c (record c { session = chunk_written (fail e); sent = c.sent ++ take n bytes })

  pub data Reach : Connection Byte → Type 0 where
    accepted : Reach (record { session = start; received = []; sent = [] })
    next : {c d : Connection Byte} → Reach c → Step c d → Reach d

  -- The bytes that are still to be written.
  abbrev pub Pending : Session Byte → List Byte → Type 0
  Pending reading rest = rest ≡ []
  Pending (writing bytes) rest = rest ≡ bytes
  Pending destroyed rest = Unit {0}

  -- In every reachable state of a session the bytes received are the bytes sent, in their order, followed
  -- by others: none while it reads, and those of its buffer while it writes.
  pub Reach-sent :
      {c : Connection Byte}
      → Reach c
      → (rest : List Byte) × (c.received ≡ c.sent ++ rest) × Pending c.session rest
  Reach-sent accepted = ([], refl, refl)
  Reach-sent (next {c} a (reads bytes fits now)) =
      let (rest, e, p) = Reach-sent a in
      let gone : rest ≡ [] = subst (λ s. Pending s rest) now p in
      (bytes, ap (λ l. l ++ bytes) (e ∙ ap (λ l. c.sent ++ l) gone ∙ append-nil c.sent), refl)
  Reach-sent (next a (read_fails code now)) = let (rest, e, p) = Reach-sent a in (rest, e, tt)
  Reach-sent (next {c} a (writes bytes now)) =
      let (rest, e, p) = Reach-sent a in
      let all : rest ≡ bytes = subst (λ s. Pending s rest) now p in
      ([], e ∙ ap (λ l. c.sent ++ l) all ∙ sym (append-nil (c.sent ++ bytes)), refl)
  Reach-sent (next {c} a (write_fails code bytes n now)) =
      let (rest, e, p) = Reach-sent a in
      let all : rest ≡ bytes = subst (λ s. Pending s rest) now p in
      (
        drop n bytes,
        e
            ∙ ap (λ l. c.sent ++ l) (all ∙ sym (take-append-drop n bytes))
            ∙ sym (append_assoc c.sent (take n bytes) (drop n bytes)),
        tt,
      )
