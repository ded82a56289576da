-- ===== src/Net/Echo.antt =====
-- tinyfibers/echo/echo/server.cpp: the fiber `AcceptClient` of the echo server.
use tpcc.Prelude.{
  ℕ, zero, suc, ◌+◌, ◌≡◌, ◌≢◌, refl, sym, ap, ◌∙◌, Bool, true, false, Option, some, List, [], ◌∷◌,
  ◌++◌, length, take, drop, ◌>>=◌, append_assoc, append-nil, arith, ◌⊎◌, inl, inr, take-append-drop,
}
use tpcc.Net.Transport.{eof, Result, ok, fail, Transport}
use tpcc.Net.Socket.{read_some, write}
use tpcc.Net.Socket.Loops.{read_some-ok, read_some-fail}
use tpcc.Net.Socket.Streams.{IsWrite, IsOk, write-IsWrite}

abbrev pub buffer_size : ℕ
buffer_size = 256

abbrev pub has_error : Result (Unit {0}) → Bool
has_error (ok u) = false
has_error (fail e) = true

module _ {Byte Endpoint : Type 0} (net : Transport Byte Endpoint) where
  -- What follows the `ReadSome` of a round: `true` if the function returns.
  unfoldable pub answer : Result (List Byte) × net.Socket → Option (Bool × net.Socket)
  answer (fail e, s) = some (true, s)
  answer (ok [], s) = some (true, s)
  answer (ok (b ∷ bytes), s) = do (r, s') ← write net (b ∷ bytes) s; some (has_error r, s')

  unfoldable pub echo_round : net.Socket → Option (Bool × net.Socket)
  unfolding answer
  echo_round s = answer (read_some net buffer_size s)

  abbrev pub unless_over :
      (net.Socket → Option (Bool × net.Socket)) → Bool × net.Socket → Option (Bool × net.Socket)
  unless_over again (true, s) = some (true, s)
  unless_over again (false, s) = again s

  -- `AcceptClient` for so many rounds of its loop; whether it has returned.
  unfoldable pub accept_client : ℕ → net.Socket → Option (Bool × net.Socket)
  unfolding echo_round
  accept_client zero s = some (false, s)
  accept_client (suc rounds) s = echo_round s >>= unless_over (accept_client rounds)

  -- What has come in and gone out between two states of the socket: the bytes sent are the first of the
  -- bytes received, and all of them unless the client's loop is over.
  pub record IsEcho (s : net.Socket) (r : Bool × net.Socket) : Type 0 where
    pub echoed : List Byte
    pub lost : List Byte
    pub came : net.received r.1 ≡ net.received s ++ (echoed ++ lost)
    pub went : net.sent r.1 ≡ net.sent s ++ echoed
    pub whole : r.0 ≡ false → lost ≡ []

  module _
      (no_eof : (bytes : List Byte) (s t : net.Socket)
        → net.async_write_some bytes s ≢ (fail eof, t)) where
    written-IsEcho :
        (bytes : List Byte) (s s₁ : net.Socket) (r : Result (Unit {0}) × net.Socket)
        → net.received s₁ ≡ net.received s ++ bytes
        → net.sent s₁ ≡ net.sent s
        → IsWrite net bytes 0 s₁ r
        → IsEcho s (has_error r.0, r.1)
    written-IsEcho bytes s s₁ (r, t) came went v = record {
      echoed = take v.count bytes;
      lost = drop v.count bytes;
      came = v.quiet ∙ came ∙ ap (λ l. net.received s ++ l) (sym (take-append-drop v.count bytes));
      went = v.streamed ∙ ap (λ l. l ++ take v.count bytes) went;
      whole = all r v.complete;
    }
      where
        none_left : (xs : List Byte) (k : ℕ) → 0 + k ≡ length xs → drop k xs ≡ []
        none_left [] zero h = refl
        none_left [] (suc k) h = refl
        none_left (x ∷ xs) zero h = absurd (omega (arith, h))
        none_left (x ∷ xs) (suc k) h = none_left xs k (omega (arith, h))

        all :
            (r' : Result (Unit {0}))
            → (IsOk r'
                → (0 + v.count ≡ length bytes)
                  ⊎ ((u : net.Socket) × (net.async_write_some (drop (0 + v.count) bytes) u
                        ≡ (fail eof, t))))
            → has_error r' ≡ false
            → drop v.count bytes ≡ []
        all (fail e) c h = absurd (ground (arith, h))
        all (ok u) c h = elim (c (omega arith)) [
          | inl e ↦ none_left bytes v.count e
          | inr (u', e) ↦ absurd (no_eof (drop (0 + v.count) bytes) u' t e)
        ]

    round-IsEcho : (s : net.Socket) → (r : Bool × net.Socket) × (echo_round s ≡ some r) × IsEcho s r
    unfolding echo_round answer
    round-IsEcho s = go (read_some net buffer_size s) refl
      where
        nothing :
            (t : net.Socket)
            → net.received t ≡ net.received s
            → net.sent t ≡ net.sent s
            → IsEcho s (true, t)
        nothing t a b = record {
          echoed = [];
          lost = [];
          came = a ∙ sym (append-nil (net.received s));
          went = b ∙ sym (append-nil (net.sent s));
          whole = λ h. refl;
        }

        go :
            (x : Result (List Byte) × net.Socket)
            → read_some net buffer_size s ≡ x
            → (r : Bool × net.Socket) × (answer x ≡ some r) × IsEcho s r
        go (fail e, t) q =
            let (a, b) = read_some-fail net buffer_size s e t q in ((true, t), refl, nothing t a b)
        go (ok [], t) q =
            let (a, b, c) = read_some-ok net buffer_size s [] t q in
            ((true, t), refl, nothing t (b ∙ append-nil (net.received s)) c)
        go (ok (x ∷ xs), t) q =
            let (a, b, c) = read_some-ok net buffer_size s (x ∷ xs) t q in
            let (f, e, v) = write-IsWrite net (x ∷ xs) t in
            (
              (has_error f.0, f.1),
              ap (λ m. m >>= (λ y. some (has_error y.0, y.1))) e,
              written-IsEcho (x ∷ xs) s t f b c v,
            )

    -- A round after which the loop goes on, and what it then leads to.
    after-IsEcho :
        (s t : net.Socket) (r : Bool × net.Socket) → IsEcho s (false, t) → IsEcho t r → IsEcho s r
    after-IsEcho s t r v w = record {
      echoed = v.echoed ++ w.echoed;
      lost = w.lost;
      came =
          w.came
          ∙ ap (λ l. l ++ (w.echoed ++ w.lost))
              (v.came
                ∙ ap (λ l. net.received s ++ (v.echoed ++ l)) (v.whole refl)
                ∙ ap (λ l. net.received s ++ l) (append-nil v.echoed))
          ∙ append_assoc (net.received s) v.echoed (w.echoed ++ w.lost)
          ∙ ap (λ l. net.received s ++ l) (sym (append_assoc v.echoed w.echoed w.lost));
      went = w.went ∙ ap (λ l. l ++ w.echoed) v.went ∙ append_assoc (net.sent s) v.echoed w.echoed;
      whole = w.whole;
    }

    -- If asio never reports the end of the stream to a write, then after any number of rounds of
    -- `AcceptClient` the bytes that it has sent are the first of those that it has received, in their
    -- order; and as long as it has not returned they are all of them.
    pub accept_client-IsEcho :
        (rounds : ℕ) (s : net.Socket)
        → (r : Bool × net.Socket) × (accept_client rounds s ≡ some r) × IsEcho s r
    unfolding accept_client
    accept_client-IsEcho zero s = (
      (false, s),
      refl,
      record {
        echoed = [];
        lost = [];
        came = sym (append-nil (net.received s));
        went = sym (append-nil (net.sent s));
        whole = λ h. refl;
      },
    )
    accept_client-IsEcho (suc rounds) s = go (round-IsEcho s) (accept_client-IsEcho rounds)
      where
        go :
            ((r : Bool × net.Socket) × (echo_round s ≡ some r) × IsEcho s r)
            → ((t : net.Socket)
                → (r : Bool × net.Socket) × (accept_client rounds t ≡ some r) × IsEcho t r)
            → (r : Bool × net.Socket) × ((echo_round s >>= unless_over (accept_client rounds))
                ≡ some r)
              × IsEcho s r
        go ((true, t), e, v) again =
            ((true, t), ap (λ m. m >>= unless_over (accept_client rounds)) e, v)
        go ((false, t), e, v) again =
            let (r, e', w) = again t in
            (r, ap (λ m. m >>= unless_over (accept_client rounds)) e ∙ e', after-IsEcho s t r v w)
