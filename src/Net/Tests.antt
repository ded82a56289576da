-- ===== src/Net/Tests.antt =====
-- A transport in memory, and the theorems on sockets and servers at it.
use tpcc.Prelude.{
  ℕ, zero, suc, ◌≤◌, ◌≡◌, ◌≢◌, refl, Bool, true, false, some, List, [], ◌∷◌, ◌++◌, length, take,
  drop, take_all, arith, ◌<◌, update, ℕ_discrete,
}
use tpcc.Net.Transport.{ErrorCode, eof, other, Result, ok, fail, Transport}
use tpcc.Net.Socket.{Finished, read}
use tpcc.Net.Socket.Streams.{IsRead, read-IsRead}
use tpcc.Net.Session as Session
use tpcc.Net.Server as Server
use tpcc.Net.Server.{Reach-serves}
use tpcc.Net.Echo.{accept_client, IsEcho, accept_client-IsEcho}

-- The bytes that the peer will send, and the streams so far.
record Wire : Type 0 where
  pub coming : List ℕ
  pub received : List ℕ
  pub sent : List ℕ

abbrev taken : ℕ → List ℕ → Wire → Result (List ℕ) × Wire
taken room [] w = (fail eof, w)
taken room (b ∷ bs) w =
    let bytes = take room (b ∷ bs) in
    (ok bytes, record w { coming = drop room (b ∷ bs); received = w.received ++ bytes })

length-take_le : (n : ℕ) (xs : List ℕ) → length (take n xs) ≤ n
length-take_le zero xs = omega arith
length-take_le (suc n) [] = omega arith
length-take_le (suc n) (x ∷ xs) = omega (arith, length-take_le n xs)

taken_fits :
    (room : ℕ) (coming : List ℕ) (w : Wire) {bytes : List ℕ} {w' : Wire}
    → taken room coming w ≡ (ok bytes, w')
    → (length bytes ≤ room) × (w'.received ≡ w.received ++ bytes) × (w'.sent ≡ w.sent)
taken_fits room [] w e = absurd (ground (arith, e))
taken_fits room (b ∷ bs) w e = ground (arith, e, length-take_le room (b ∷ bs))

taken_fails :
    (room : ℕ) (coming : List ℕ) (w : Wire) {c : ErrorCode} {w' : Wire}
    → taken room coming w ≡ (fail c, w')
    → (w'.received ≡ w.received) × (w'.sent ≡ w.sent)
taken_fails room [] w e = ground (arith, e)
taken_fails room (b ∷ bs) w e = absurd (ground (arith, e))

abbrev written : List ℕ → Wire → Result ℕ × Wire
written bytes w = (ok (length bytes), record w { sent = w.sent ++ bytes })

written_fits :
    (bytes : List ℕ) (w : Wire) {n : ℕ} {w' : Wire}
    → written bytes w ≡ (ok n, w')
    → (n ≤ length bytes) × (w'.sent ≡ w.sent ++ take n bytes) × (w'.received ≡ w.received)
written_fits bytes w e = let n = take_all (length bytes) bytes (omega arith) in ground (arith, e, n)

written_fails :
    (bytes : List ℕ) (w : Wire) {c : ErrorCode} {w' : Wire}
    → written bytes w ≡ (fail c, w')
    → (w'.sent ≡ w.sent) × (w'.received ≡ w.received)
written_fails bytes w e = ground (arith, e)

written_moves :
    (bytes : List ℕ) (w : Wire) {w' : Wire} → written bytes w ≡ (ok 0, w') → length bytes ≡ 0
written_moves bytes w e = ground (arith, e)

abbrev memory : Transport ℕ Bool
memory = record {
  Socket = Wire;
  received = λ w. w.received;
  sent = λ w. w.sent;
  async_read_some = λ room w. taken room w.coming w;
  async_write_some = written;
  async_connect =
      λ reachable w. elim reachable [ true ↦ (ok tt, w) | false ↦ (fail (other 111), w) ];
  shutdown_send = λ w. (ok tt, w);
  read_fits = λ room w e. taken_fits room w.coming w e;
  read_fails = λ room w e. taken_fails room w.coming w e;
  write_fits = λ bytes w e. written_fits bytes w e;
  write_fails = λ bytes w e. written_fails bytes w e;
  write_moves = λ bytes w e. written_moves bytes w e;
}

abbrev wire : Wire
wire = record { coming = 1 ∷ 2 ∷ 3 ∷ []; received = []; sent = [] }

-- Into a buffer of four bytes, of which the last stays.
three_read :
    read memory (0 ∷ 0 ∷ 0 ∷ 9 ∷ []) wire
    ≡ some (ok 3, 1 ∷ 2 ∷ 3 ∷ 9 ∷ [], record { coming = []; received = 1 ∷ 2 ∷ 3 ∷ []; sent = [] })
unfolding read
three_read = refl

read-IsRead_example :
    (f : Finished memory) × (read memory (0 ∷ 0 ∷ 0 ∷ 9 ∷ []) wire ≡ some f)
    × IsRead memory 0 (0 ∷ 0 ∷ 0 ∷ 9 ∷ []) wire f
read-IsRead_example = read-IsRead memory (0 ∷ 0 ∷ 0 ∷ 9 ∷ []) wire

no_eof : (bytes : List ℕ) (w t : Wire) → written bytes w ≢ (fail eof, t)
no_eof bytes w t e = ground (arith, e)

-- Two rounds: the three bytes, and the end of the stream.
accept_client_example :
    (r : Bool × Wire) × (accept_client memory 2 wire ≡ some r) × IsEcho memory wire r
accept_client_example = accept_client-IsEcho memory no_eof 2 wire

-- The callback server after an error of the acceptor and one client, which has sent two bytes.
abbrev no_client : ℕ → Session.Connection ℕ
no_client id = record { session = Session.start; received = []; sent = [] }

abbrev one_client : Server.Server ℕ
one_client = record {
  accepting = 1;
  connections =
      update (update no_client 0 (no_client 0)) 0
        (record (no_client 0) { session = Session.writing (7 ∷ 8 ∷ []); received = 7 ∷ 8 ∷ [] });
  next_client = 1;
}

one_client-Reach : Server.Reach one_client
unfolding Server.serve_forever Server.accept_client Server.client_accepted Server.start_session
    ℕ_discrete
one_client-Reach =
    Server.next
      (Server.next (Server.next (Server.here no_client) (Server.accepts 0 (fail (other 2)) refl))
        (Server.accepts 0 (ok tt) refl))
      (Server.serves 0 (omega arith) (Session.reads (7 ∷ 8 ∷ []) (omega arith) refl))

Reach-serves_example :
    (one_client.accepting ≡ 1)
    × ((client : ℕ)
        → client < 1
        → (rest : List ℕ) × ((one_client.connections client).received
            ≡ (one_client.connections client).sent ++ rest)
          × Session.Pending (one_client.connections client).session rest)
Reach-serves_example = Reach-serves one_client-Reach
