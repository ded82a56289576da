-- ===== src/Net/Socket/Loops.antt =====
-- What one `ReadSome` or `WriteSome` does to the streams, and how pieces of a buffer fit together.
use tpcc.Prelude.{
  ℕ, suc, ◌+◌, ◌≤◌, ◌≡◌, refl, sym, ap, ◌∙◌, List, [], ◌∷◌, ◌++◌, length, take, drop,
  take-append-drop, length-drop, length-take, drop-add, length-append, append_assoc, append-nil,
  arith, ◌⊎◌, inl, inr,
}
use tpcc.Net.Transport.{ErrorCode, eof, no_buffer_space, other, Result, ok, fail, Transport}
use tpcc.Net.Socket.{end_of_read, read_some, fill, end_of_write, write_some}

module _ {A : Type 0} where
  take_front : (xs ys : List A) → take (length xs) (xs ++ ys) ≡ xs
  take_front [] ys = refl
  take_front (x ∷ xs) ys = ap (λ l. x ∷ l) (take_front xs ys)

  drop_front : (xs ys : List A) (k : ℕ) → drop (length xs + k) (xs ++ ys) ≡ drop k ys
  drop_front [] ys k = let e : 0 + k ≡ k = omega arith in rw e refl
  drop_front (x ∷ xs) ys k =
      let e : suc (length xs) + k ≡ suc (length xs + k) = omega arith in rw e (drop_front xs ys k)

module _ {Byte Endpoint : Type 0} (net : Transport Byte Endpoint) where
  pub length-fill :
      (buffer : List Byte) (shift : ℕ) (bytes : List Byte)
      → shift + length bytes ≤ length buffer
      → length (fill net buffer shift bytes) ≡ length buffer
  length-fill buffer shift bytes h = omega (
    arith,
    length-append (take shift buffer) (bytes ++ drop (shift + length bytes) buffer),
    length-append bytes (drop (shift + length bytes) buffer),
    length-drop (shift + length bytes) buffer,
    length-take shift buffer (omega (arith, h)),
  )

  -- To write two pieces one after the other is to write them as one.
  pub fill-fill :
      (buffer : List Byte) (shift : ℕ) (xs ys : List Byte)
      → shift + length xs ≤ length buffer
      → fill net (fill net buffer shift xs) (shift + length xs) ys
        ≡ fill net buffer shift (xs ++ ys)
  fill-fill buffer shift xs ys h =
      let front = take shift buffer ++ xs in
      let tail = drop (shift + length xs) buffer in
      let at : length front ≡ shift + length xs = omega (
        arith,
        length-append (take shift buffer) xs,
        length-take shift buffer (omega (arith, h)),
      ) in
      let whole : fill net buffer shift xs ≡ front ++ tail =
        sym (append_assoc (take shift buffer) xs tail) in
      let start : take (shift + length xs) (fill net buffer shift xs) ≡ front =
        ap (take (shift + length xs)) whole
        ∙ ap (λ k. take k (front ++ tail)) (sym at)
        ∙ take_front front tail in
      let end : drop (shift + length xs + length ys) (fill net buffer shift xs)
          ≡ drop (shift + length (xs ++ ys)) buffer =
        ap (drop (shift + length xs + length ys)) whole
        ∙ ap (λ k. drop (k + length ys) (front ++ tail)) (sym at)
        ∙ drop_front front tail (length ys)
        ∙ drop-add (shift + length xs) (length ys) buffer
        ∙ ap (λ k. drop k buffer) (omega (arith, length-append xs ys)) in
      ap (λ l. l ++ (ys ++ drop (shift + length xs + length ys) (fill net buffer shift xs))) start
      ∙ ap (λ l. front ++ (ys ++ l)) end
      ∙ append_assoc (take shift buffer) xs (ys ++ drop (shift + length (xs ++ ys)) buffer)
      ∙ ap (λ l. take shift buffer ++ l)
          (sym (append_assoc xs ys (drop (shift + length (xs ++ ys)) buffer)))

  pub fill_nothing : (buffer : List Byte) (shift : ℕ) → fill net buffer shift [] ≡ buffer
  fill_nothing buffer shift =
      let e : shift + 0 ≡ shift = omega arith in rw e (take-append-drop shift buffer)

  -- `ReadSome` returns what the stream gives, nothing at its end, or an error.
  pub read_some-ok :
      (room : ℕ) (s : net.Socket) (bytes : List Byte) (s' : net.Socket)
      → read_some net room s ≡ (ok bytes, s')
      → (length bytes ≤ room)
        × (net.received s' ≡ net.received s ++ bytes)
        × (net.sent s' ≡ net.sent s)
  unfolding read_some
  read_some-ok room s bytes s' e = go (net.async_read_some room s) refl e
    where
      go :
          (r : Result (List Byte) × net.Socket)
          → net.async_read_some room s ≡ r
          → end_of_read net r ≡ (ok bytes, s')
          → (length bytes ≤ room)
            × (net.received s' ≡ net.received s ++ bytes)
            × (net.sent s' ≡ net.sent s)
      go (ok b, t) q e = net.read_fits room s (q ∙ e)
      go (fail eof, t) q e = ground (arith, net.read_fails room s q, append-nil (net.received s))
      go (fail no_buffer_space, t) q e =
          ground (arith, net.read_fails room s q, append-nil (net.received s))
      go (fail (other k), t) q e = ground arith

  pub read_some-fail :
      (room : ℕ) (s : net.Socket) (c : ErrorCode) (s' : net.Socket)
      → read_some net room s ≡ (fail c, s')
      → (net.received s' ≡ net.received s) × (net.sent s' ≡ net.sent s)
  unfolding read_some
  read_some-fail room s c s' e = go (net.async_read_some room s) refl e
    where
      go :
          (r : Result (List Byte) × net.Socket)
          → net.async_read_some room s ≡ r
          → end_of_read net r ≡ (fail c, s')
          → (net.received s' ≡ net.received s) × (net.sent s' ≡ net.sent s)
      go (ok b, t) q e = ground arith
      go (fail eof, t) q e = ground arith
      go (fail no_buffer_space, t) q e = ground arith
      go (fail (other k), t) q e = net.read_fails room s (q ∙ e)

  -- `WriteSome` writes the first bytes and returns their number; 0 stands for an end of the stream, or
  -- for no bytes to write.
  pub write_some-ok :
      (bytes : List Byte) (s : net.Socket) (n : ℕ) (s' : net.Socket)
      → write_some net bytes s ≡ (ok n, s')
      → (n ≤ length bytes)
        × (net.sent s' ≡ net.sent s ++ take n bytes)
        × (net.received s' ≡ net.received s)
        × (n ≡ 0 → (length bytes ≡ 0) ⊎ (net.async_write_some bytes s ≡ (fail eof, s')))
  unfolding write_some
  write_some-ok bytes s n s' e = go (net.async_write_some bytes s) refl e
    where
      go :
          (r : Result ℕ × net.Socket)
          → net.async_write_some bytes s ≡ r
          → end_of_write net r ≡ (ok n, s')
          → (n ≤ length bytes)
            × (net.sent s' ≡ net.sent s ++ take n bytes)
            × (net.received s' ≡ net.received s)
            × (n ≡ 0 → (length bytes ≡ 0) ⊎ (net.async_write_some bytes s ≡ (fail eof, s')))
      go (ok k, t) q e =
          let (a, b, c) = net.write_fits bytes s (q ∙ e) in
          (a, b, c, λ z. inl (net.write_moves bytes s (q ∙ e ∙ ap (λ x. (ok x, s')) z)))
      go (fail eof, t) q e =
          let (b, c) = net.write_fails bytes s q in
          let here : t ≡ s' = ground arith in
          let none_sent : n ≡ 0 = ground arith in
          (
            omega (arith, none_sent),
            ground (arith, b, append-nil (net.sent s)),
            ground (arith, c),
            λ z. inr (q ∙ ap (λ x. (fail eof, x)) here),
          )
      go (fail no_buffer_space, t) q e = ground arith
      go (fail (other k), t) q e = ground arith

  pub write_some-fail :
      (bytes : List Byte) (s : net.Socket) (c : ErrorCode) (s' : net.Socket)
      → write_some net bytes s ≡ (fail c, s')
      → (net.sent s' ≡ net.sent s) × (net.received s' ≡ net.received s)
  unfolding write_some
  write_some-fail bytes s c s' e = go (net.async_write_some bytes s) refl e
    where
      go :
          (r : Result ℕ × net.Socket)
          → net.async_write_some bytes s ≡ r
          → end_of_write net r ≡ (fail c, s')
          → (net.sent s' ≡ net.sent s) × (net.received s' ≡ net.received s)
      go (ok b, t) q e = ground arith
      go (fail eof, t) q e = ground arith
      go (fail no_buffer_space, t) q e = net.write_fails bytes s (q ∙ e)
      go (fail (other k), t) q e = net.write_fails bytes s (q ∙ e)
