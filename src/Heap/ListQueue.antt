-- ===== src/Heap/ListQueue.antt =====
-- A priority queue made of a list: the interface can be filled, for any strict weak order.
use tpcc.Prelude.{
  ℕ, ◌+◌, ◌≤◌, ◌≡◌, refl, Bool, true, false, Option, none, some, List, [], ◌∷◌, if◌then◌else◌,
  arith, of_some, subst, ap, ◌∙◌, ◌⊎◌, inl, inr,
}
use tpcc.Heap.{PriorityQueue, weigh_list}

module _ {T : Type 0} (less : T → T → Bool) where
  -- Whether `y` is greater than `x`, as a weight.
  abbrev pub above : T → T → ℕ
  above x y = if less x y then 1 else 0

  -- The greatest of `x` and a list, and the others.
  abbrev pub select : T → List T → T × List T
  select x [] = (x, [])
  select x (y ∷ ys) =
      let (greatest, others) = select y ys in
      if less x greatest then (greatest, x ∷ others) else (x, y ∷ ys)

  abbrev pub pop_greatest : List T → Option (T × List T)
  pop_greatest [] = none
  pop_greatest (x ∷ xs) = some (select x xs)

  select-weigh :
      (w : T → ℕ) (x : T) (xs : List T)
      → w x + weigh_list w xs ≡ w (select x xs).0 + weigh_list w (select x xs).1
  select-weigh w x [] = refl
  select-weigh w x (y ∷ ys) = ground (arith, select-weigh w y ys)

  pub weigh_list_mono :
      (v w : T → ℕ) (xs : List T) → ((x : T) → v x ≤ w x) → weigh_list v xs ≤ weigh_list w xs
  weigh_list_mono v w [] h = omega arith
  weigh_list_mono v w (x ∷ xs) h = omega (arith, h x, weigh_list_mono v w xs h)

  pub weigh_list_zero : (xs : List T) → weigh_list (λ _. 0) xs ≡ 0
  weigh_list_zero [] = refl
  weigh_list_zero (x ∷ xs) = omega (arith, weigh_list_zero xs)

  pub weigh_list_sum :
      (v w : T → ℕ) (xs : List T)
      → weigh_list (λ x. v x + w x) xs ≡ weigh_list v xs + weigh_list w xs
  weigh_list_sum v w [] = refl
  weigh_list_sum v w (x ∷ xs) = omega (arith, weigh_list_sum v w xs)

  pub pop_greatest-weigh :
      (w : T → ℕ) (q : List T) {x : T} {rest : List T}
      → pop_greatest q ≡ some (x, rest)
      → weigh_list w q ≡ w x + weigh_list w rest
  pop_greatest-weigh w [] e = absurd (ground (arith, e))
  pop_greatest-weigh w (a ∷ xs) e =
      select-weigh w a xs ∙ ap (λ p. w p.0 + weigh_list w p.1) (of_some e)

  pub pop_greatest-none : (w : T → ℕ) (q : List T) → pop_greatest q ≡ none → weigh_list w q ≡ 0
  pop_greatest-none w [] e = refl
  pop_greatest-none w (a ∷ xs) e = absurd (ground (arith, e))

  module _ (asym : (a b : T) → less a b ≡ true → less b a ≡ false)
      (split : (a b c : T) → less a c ≡ true → (less a b ≡ true) ⊎ (less b c ≡ true)) where
    above_mono : (x m y : T) → less x m ≡ false → above x y ≤ above m y
    above_mono x m y e = go (less x y) refl
      where
        go : (b : Bool) → less x y ≡ b → above x y ≤ above m y
        go false q = ground (arith, q)
        go true q = elim (split x m y q) [
          | inl r ↦ absurd (ground (arith, r, e))
          | inr r ↦ ground (arith, q, r)
        ]

    select-greatest : (x : T) (xs : List T) → weigh_list (above (select x xs).0) (select x xs).1 ≡ 0
    select-greatest x [] = refl
    select-greatest x (y ∷ ys) = go (select-greatest y ys) (less x (select y ys).0) refl
      where
        go :
            weigh_list (above (select y ys).0) (select y ys).1 ≡ 0
            → (b : Bool) → less x (select y ys).0 ≡ b
            → weigh_list (above (select x (y ∷ ys)).0) (select x (y ∷ ys)).1 ≡ 0
        go below true e = let back = asym x (select y ys).0 e in ground (arith, e, back, below)
        go below false e =
            let still =
              weigh_list_mono (above x) (above (select y ys).0) (select y ys).1
                (λ z. above_mono x (select y ys).0 z e) in
            ground (arith, e, still, below, select-weigh (above x) y ys)

    pub pop_greatest-greatest :
        (q : List T) {x : T} {rest : List T}
        → pop_greatest q ≡ some (x, rest)
        → weigh_list (above x) rest ≡ 0
    pop_greatest-greatest [] e = absurd (ground (arith, e))
    pop_greatest-greatest (a ∷ xs) e =
        subst (λ p. weigh_list (above p.0) p.1 ≡ 0) (of_some e) (select-greatest a xs)

    abbrev pub list_queue : PriorityQueue T less
    list_queue = record {
      Queue = List T;
      weigh = weigh_list;
      push = λ x xs. x ∷ xs;
      pop = pop_greatest;
      weigh-push = λ w x q. refl;
      weigh-pop = λ w q e. pop_greatest-weigh w q e;
      weigh-none = pop_greatest-none;
      pop-greatest = λ q e. pop_greatest-greatest q e;
      weigh-mono = weigh_list_mono;
      weigh-zero = weigh_list_zero;
      weigh-sum = weigh_list_sum;
    }
