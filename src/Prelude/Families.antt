-- ===== src/Prelude/Families.antt =====
-- One state per thread, as a function of the thread's number: a thread's move replaces one of them,
-- and a weight is summed over the threads below a bound.
use Prim.Native.Nat.{ℕ, zero, suc, ◌+◌, ◌≤◌, ◌<◌}
use mathlib.Core.List.{List, [], ◌∷◌, ◌++◌}
use mathlib.Core.Path.{◌≡◌, refl}
use mathlib.Core.Logic.{ite, ◌≢◌, if_pos, if_neg}
use native.Mathlib.Decide.{dec_lt, ℕ_discrete}
use native.Mathlib.Omega.{arith}

-- Thread `who` goes to `now`; the others stay.
abbrev pub update {ℓ} : {A : Type ℓ} → (ℕ → A) → ℕ → A → ℕ → A
update states who now = λ other. ite (ℕ_discrete who other) now (states other)

module _ {ℓ} {A : Type ℓ} (w : A → ℕ) where
  unfoldable pub total : ℕ → (ℕ → A) → ℕ
  total zero states = 0
  total (suc n) states = w (states n) + total n states

  -- A move outside the bound is not seen; one inside trades the old weight for the new.
  moves :
      (who : ℕ) (now : A) (states : ℕ → A) (n : ℕ)
      → (n ≤ who → total n (update states who now) ≡ total n states)
        × (who < n → total n (update states who now) + w (states who) ≡ w now + total n states)
  unfolding total
  moves who now states zero = (λ _. refl, λ h. absurd (omega arith))
  moves who now states (suc n) =
      let (outside, inside) = moves who now states n in
      (
        λ above. ground (arith, outside (omega arith)),
        λ below. elim (dec_lt who n) [
          | yes deeper ↦ ground (arith, inside deeper)
          | no top ↦ ground (arith, outside (omega arith))
        ],
      )

  -- The sum after one thread has moved, without subtraction.
  pub total-update :
      (n : ℕ) (states : ℕ → A) (who : ℕ) (now : A)
      → who < n
      → total n (update states who now) + w (states who) ≡ total n states + w now
  total-update n states who now below = omega (arith, (moves who now states n).1 below)

  pub total-update_above :
      (n : ℕ) (states : ℕ → A) (who : ℕ) (now : A)
      → n ≤ who
      → total n (update states who now) ≡ total n states
  total-update_above n states who now above = (moves who now states n).0 above

  pub total-eq-zero :
      (n : ℕ) (states : ℕ → A) → ((who : ℕ) → w (states who) ≡ 0) → total n states ≡ 0
  unfolding total
  total-eq-zero zero states none_weighs = refl
  total-eq-zero (suc n) states none_weighs =
      omega (arith, none_weighs n, total-eq-zero n states none_weighs)

  -- One member is at most the sum, and so are two different ones.
  pub le-total : (n : ℕ) (f : ℕ → A) (i : ℕ) → i < n → w (f i) ≤ total n f
  unfolding total
  le-total zero f i h = absurd (omega arith)
  le-total (suc n) f i h = elim (dec_lt i n) [
    | yes below ↦ omega (arith, le-total n f i below)
    | no last ↦ ground arith
  ]

  pub total_two :
      (n : ℕ) (f : ℕ → A) (i j : ℕ) → i < n → j < n → i ≢ j → w (f i) + w (f j) ≤ total n f
  unfolding total
  total_two zero f i j h k ne = absurd (omega arith)
  total_two (suc n) f i j h k ne = elim (dec_lt i n) [
    | yes p ↦ elim (dec_lt j n) [
      | yes q ↦ omega (arith, total_two n f i j p q ne)
      | no q ↦ ground (arith, le-total n f i p)
    ]
    | no p ↦ ground (arith, le-total n f j)
  ]

-- To prove something of a member of an updated family: of the new member, and of the others.
pub update_cases {ℓ κ} :
    {A : Type ℓ} (P : A → Type κ) (f : ℕ → A) (i : ℕ) (a : A) (j : ℕ)
    → (i ≡ j → P a)
    → (i ≢ j → P (f j))
    → P (update f i a j)
update_cases P f i a j new old = elim (ℕ_discrete i j) [
  | yes e ↦ rw (if_pos (ℕ_discrete i j) e) (new e)
  | no ne ↦ rw (if_neg (ℕ_discrete i j) ne) (old ne)
]

pub update_self {ℓ} : {A : Type ℓ} (f : ℕ → A) (i : ℕ) (a : A) → update f i a i ≡ a
update_self f i a = ground arith

pub total-le-total {ℓ} :
    {A : Type ℓ} (v w : A → ℕ) (n : ℕ) (f : ℕ → A)
    → ((a : A) → v a ≤ w a)
    → total v n f ≤ total w n f
unfolding total
total-le-total v w zero f h = omega arith
total-le-total v w (suc n) f h = omega (arith, total-le-total v w n f h, h (f n))

pub total-eq-zero_below {ℓ} :
    {A : Type ℓ} (w : A → ℕ) (n : ℕ) (states : ℕ → A)
    → ((who : ℕ) → who < n → w (states who) ≡ 0)
    → total w n states ≡ 0
unfolding total
total-eq-zero_below w zero states none_weighs = refl
total-eq-zero_below w (suc n) states none_weighs = omega (
  arith,
  none_weighs n (omega arith),
  total-eq-zero_below w n states (λ who below. none_weighs who (omega arith)),
)

-- Weights of at most 1 sum up to at most the number of threads.
pub total-le {ℓ} :
    {A : Type ℓ} (w : A → ℕ) → ((a : A) → w a ≤ 1) → (n : ℕ) (states : ℕ → A) → total w n states ≤ n
unfolding total
total-le w light zero states = omega arith
total-le w light (suc n) states = omega (arith, light (states n), total-le w light n states)

pub update_other {ℓ} :
    {A : Type ℓ} (states : ℕ → A) (who : ℕ) (now : A) (other : ℕ)
    → who ≢ other
    → update states who now other ≡ states other
update_other states who now other ne = ground arith

-- How often a number is in a list.
unfoldable pub count : ℕ → List ℕ → ℕ
count k [] = 0
count k (x ∷ xs) = ite (ℕ_discrete x k) 1 0 + count k xs

pub count-append : (k : ℕ) (xs ys : List ℕ) → count k (xs ++ ys) ≡ count k xs + count k ys
unfolding count
count-append k [] ys = omega arith
count-append k (x ∷ xs) ys = omega (arith, count-append k xs ys)
