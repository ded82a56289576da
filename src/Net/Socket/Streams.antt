-- ===== src/Net/Socket/Streams.antt =====
-- What `Read` and `Write` do to the streams of a connection.
use tpcc.Prelude.{
  ℕ, zero, suc, ◌+◌, ◌-◌, ◌≤◌, ◌<◌, ◌≡◌, refl, sym, ap, ◌∙◌, some, List, [], ◌∷◌, ◌++◌, length,
  take, drop, length-append, append_assoc, append-nil, arith, ◌⊎◌, inl, inr, length-drop, take-add,
  drop-add,
}
use tpcc.Net.Transport.{eof, Result, ok, fail, Transport}
use tpcc.Net.Socket.{
  fill, read_some, read_next, read_loop, read, write_some, write_next, write_loop, write, Finished,
}
use tpcc.Net.Socket.Loops.{
  length-fill, fill-fill, fill_nothing, read_some-ok, read_some-fail, write_some-ok,
  write_some-fail,
}

-- A count, or an error.
abbrev pub Counts : Result ℕ → ℕ → Type 0
Counts (ok n) k = n ≡ k
Counts (fail e) k = 0 ≤ k

abbrev pub IsOk : Result (Unit {0}) → Type 0
IsOk (ok u) = 0 ≤ 0
IsOk (fail e) = 1 ≤ 0

module _ {Byte Endpoint : Type 0} (net : Transport Byte Endpoint) where
  -- What `Read` has done when it returns: `bytes` are those that it has received, from `shift` on.
  pub record IsRead (shift : ℕ) (buffer : List Byte) (s : net.Socket) (f : Finished net)
      : Type 0 where
    pub bytes : List Byte
    pub fits : shift + length bytes ≤ length buffer
    pub placed : f.1 ≡ fill net buffer shift bytes
    pub streamed : net.received f.2 ≡ net.received s ++ bytes
    pub quiet : net.sent f.2 ≡ net.sent s
    pub counts : Counts f.0 (shift + length bytes)

  -- A piece read before the rest.
  more-IsRead :
      (shift : ℕ) (buffer : List Byte) (s s₁ : net.Socket) (piece : List Byte) (f : Finished net)
      → shift + length piece ≤ length buffer
      → net.received s₁ ≡ net.received s ++ piece
      → net.sent s₁ ≡ net.sent s
      → IsRead (shift + length piece) (fill net buffer shift piece) s₁ f
      → IsRead shift buffer s f
  more-IsRead shift buffer s s₁ piece f room got still v = record {
    bytes = piece ++ v.bytes;
    fits =
        omega (arith, v.fits, length-fill net buffer shift piece room, length-append piece v.bytes);
    placed = v.placed ∙ fill-fill net buffer shift piece v.bytes room;
    streamed =
        v.streamed ∙ ap (λ l. l ++ v.bytes) got ∙ append_assoc (net.received s) piece v.bytes;
    quiet = v.quiet ∙ still;
    counts = count f.0 v.counts;
  }
    where
      count :
          (r : Result ℕ)
          → Counts r (shift + length piece + length v.bytes)
          → Counts r (shift + length (piece ++ v.bytes))
      count (ok n) h = omega (arith, h, length-append piece v.bytes)
      count (fail e) h = omega arith

  read_loop-IsRead :
      (rounds shift : ℕ) (buffer : List Byte) (s : net.Socket)
      → shift ≤ length buffer
      → length buffer - shift < rounds
      → (f : Finished net) × (read_loop net rounds shift buffer s ≡ some f)
        × IsRead shift buffer s f
  unfolding read_loop read_next
  read_loop-IsRead zero shift buffer s below enough = absurd (omega arith)
  read_loop-IsRead (suc rounds) shift buffer s below enough =
      go (read_some net (length buffer - shift) s) refl (read_loop-IsRead rounds)
    where
      go :
          (r : Result (List Byte) × net.Socket)
          → read_some net (length buffer - shift) s ≡ r
          → ((shift' : ℕ) (buffer' : List Byte) (s' : net.Socket)
              → shift' ≤ length buffer'
              → length buffer' - shift' < rounds
              → (f : Finished net) × (read_loop net rounds shift' buffer' s' ≡ some f)
                × IsRead shift' buffer' s' f)
          → (f : Finished net) × (read_next net (read_loop net rounds) shift buffer r ≡ some f)
            × IsRead shift buffer s f
      go (fail e, t) q again =
          let (a, b) = read_some-fail net (length buffer - shift) s e t q in
          (
            (fail e, buffer, t),
            refl,
            record {
              bytes = [];
              fits = omega (arith, below);
              placed = sym (fill_nothing net buffer shift);
              streamed = a ∙ sym (append-nil (net.received s));
              quiet = b;
              counts = omega arith;
            },
          )
      go (ok [], t) q again =
          let (a, b, c) = read_some-ok net (length buffer - shift) s [] t q in
          (
            (ok shift, buffer, t),
            refl,
            record {
              bytes = [];
              fits = omega (arith, below);
              placed = sym (fill_nothing net buffer shift);
              streamed = b;
              quiet = c;
              counts = omega arith;
            },
          )
      go (ok (x ∷ xs), t) q again =
          let (a, b, c) = read_some-ok net (length buffer - shift) s (x ∷ xs) t q in
          let room : shift + length (x ∷ xs) ≤ length buffer = omega (arith, a, below) in
          let same = length-fill net buffer shift (x ∷ xs) room in
          let (f, e, v) =
            again (shift + length (x ∷ xs)) (fill net buffer shift (x ∷ xs)) t
              (omega (arith, room, same)) (omega (arith, same, enough, a)) in
          (f, e, more-IsRead shift buffer s t (x ∷ xs) f room b c v)

  -- `Read` returns within `size + 1` rounds, with an error or a count. Whichever it is, the bytes that it
  -- has taken from the stream are at the front of the buffer, in order, they are no more than fit,
  -- the rest of the buffer is as it was, nothing is sent, and a count is their number.
  pub read-IsRead :
      (buffer : List Byte) (s : net.Socket)
      → (f : Finished net) × (read net buffer s ≡ some f) × IsRead 0 buffer s f
  unfolding read
  read-IsRead buffer s =
      read_loop-IsRead (suc (length buffer)) 0 buffer s (omega arith) (omega arith)

  -- What `Write` has done when it returns: `count` bytes are sent from `shift` on. If it reports success,
  -- these are all, or asio has reported the end of the stream.
  pub record IsWrite (buffer : List Byte) (shift : ℕ) (s : net.Socket)
      (f : Result (Unit {0}) × net.Socket) : Type 0 where
    pub count : ℕ
    pub fits : shift + count ≤ length buffer
    pub streamed : net.sent f.1 ≡ net.sent s ++ take count (drop shift buffer)
    pub quiet : net.received f.1 ≡ net.received s
    pub complete :
        IsOk f.0
        → (shift + count ≡ length buffer)
          ⊎ ((t : net.Socket) × (net.async_write_some (drop (shift + count) buffer) t
                ≡ (fail eof, f.1)))

  more-IsWrite :
      (buffer : List Byte) (shift n : ℕ) (s s₁ : net.Socket) (f : Result (Unit {0}) × net.Socket)
      → net.sent s₁ ≡ net.sent s ++ take n (drop shift buffer)
      → net.received s₁ ≡ net.received s
      → IsWrite buffer (shift + n) s₁ f
      → IsWrite buffer shift s f
  more-IsWrite buffer shift n s s₁ f put still v =
      let sum : shift + n + v.count ≡ shift + (n + v.count) = omega arith in
      record {
        count = n + v.count;
        fits = omega (arith, v.fits);
        streamed =
            v.streamed
            ∙ ap (λ l. l ++ take v.count (drop (shift + n) buffer)) put
            ∙ append_assoc (net.sent s) (take n (drop shift buffer))
                (take v.count (drop (shift + n) buffer))
            ∙ ap (λ l. net.sent s ++ (take n (drop shift buffer) ++ take v.count l))
                (sym (drop-add shift n buffer))
            ∙ ap (λ l. net.sent s ++ l) (take-add n v.count (drop shift buffer));
        quiet = v.quiet ∙ still;
        complete = λ h. elim (v.complete h) [
          | inl e ↦ inl (sym sum ∙ e)
          | inr (t, e) ↦ inr (t, ap (λ k. net.async_write_some (drop k buffer) t) (sym sum) ∙ e)
        ];
      }

  write_loop-IsWrite :
      (rounds : ℕ) (buffer : List Byte) (shift : ℕ) (s : net.Socket)
      → shift ≤ length buffer
      → length buffer - shift < rounds
      → (f : Result (Unit {0}) × net.Socket) × (write_loop net rounds buffer shift s ≡ some f)
        × IsWrite buffer shift s f
  unfolding write_loop write_next
  write_loop-IsWrite zero buffer shift s below enough = absurd (omega arith)
  write_loop-IsWrite (suc rounds) buffer shift s below enough =
      go (write_some net (drop shift buffer) s) refl (write_loop-IsWrite rounds buffer)
    where
      go :
          (r : Result ℕ × net.Socket)
          → write_some net (drop shift buffer) s ≡ r
          → ((shift' : ℕ) (s' : net.Socket)
              → shift' ≤ length buffer
              → length buffer - shift' < rounds
              → (f : Result (Unit {0}) × net.Socket) × (write_loop net rounds buffer shift' s'
                  ≡ some f)
                × IsWrite buffer shift' s' f)
          → (f : Result (Unit {0}) × net.Socket) × (write_next net
                (write_loop net rounds buffer)
                shift
                r
              ≡ some f)
            × IsWrite buffer shift s f
      go (fail e, t) q again =
          let (a, b) = write_some-fail net (drop shift buffer) s e t q in
          (
            (fail e, t),
            refl,
            record {
              count = 0;
              fits = omega (arith, below);
              streamed = a ∙ sym (append-nil (net.sent s));
              quiet = b;
              complete = λ h. absurd (omega (arith, h));
            },
          )
      go (ok zero, t) q again =
          let (a, b, c, d) = write_some-ok net (drop shift buffer) s 0 t q in
          let same : shift + 0 ≡ shift = omega arith in
          (
            (ok tt, t),
            refl,
            record {
              count = 0;
              fits = omega (arith, below);
              streamed = b;
              quiet = c;
              complete = λ h. elim (d refl) [
                | inl e ↦ inl (omega (arith, below, e, length-drop shift buffer))
                | inr e ↦ inr (s, ap (λ k. net.async_write_some (drop k buffer) s) same ∙ e)
              ];
            },
          )
      go (ok (suc n), t) q again =
          let (a, b, c, d) = write_some-ok net (drop shift buffer) s (suc n) t q in
          let room : shift + suc n ≤ length buffer =
            omega (arith, a, length-drop shift buffer, below) in
          let (f, e, v) = again (shift + suc n) t room (omega (arith, enough, room)) in
          (f, e, more-IsWrite buffer shift (suc n) s t f b c v)

  -- `Write` returns within `size + 1` rounds. Whether it reports success or an error, it has sent the
  -- first bytes of the buffer, in order, and received nothing; if it reports success, it has sent all of
  -- them, or asio has reported the end of the stream before.
  pub write-IsWrite :
      (buffer : List Byte) (s : net.Socket)
      → (f : Result (Unit {0}) × net.Socket) × (write net buffer s ≡ some f) × IsWrite buffer 0 s f
  unfolding write
  write-IsWrite buffer s =
      write_loop-IsWrite (suc (length buffer)) buffer 0 s (omega arith) (omega arith)
