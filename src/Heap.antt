-- ===== src/Heap.antt =====
-- `std::priority_queue`, which is not code of the repository: what its users rely on, as an interface.
-- What a queue holds is described by the sums of weights over its members, for every weight.
pub mod ListQueue
use tpcc.Prelude.{ℕ, ◌+◌, ◌≤◌, ◌≡◌, Bool, Option, none, some, List, [], ◌∷◌, if◌then◌else◌, ltb}

-- The sum of a weight over a list.
abbrev pub weigh_list : {T : Type 0} → (T → ℕ) → List T → ℕ
weigh_list w [] = 0
weigh_list w (x ∷ xs) = w x + weigh_list w xs

abbrev pub below : {T : Type 0} → (T → ℕ) → ℕ → T → ℕ
below key bound x = if ltb (key x) bound then 1 else 0

-- A queue with the comparator `less`: no member is greater than its top.
pub record PriorityQueue (T : Type 0) (less : T → T → Bool) : Type 1 where
  pub Queue : Type 0
  pub weigh : (T → ℕ) → Queue → ℕ
  pub push : T → Queue → Queue
  -- `top` and `pop`; `none` when the queue is empty.
  pub pop : Queue → Option (T × Queue)
  pub weigh-push : (w : T → ℕ) (x : T) (q : Queue) → weigh w (push x q) ≡ w x + weigh w q
  pub weigh-pop :
      (w : T → ℕ) (q : Queue) {x : T} {rest : Queue}
      → pop q ≡ some (x, rest)
      → weigh w q ≡ w x + weigh w rest
  pub weigh-none : (w : T → ℕ) (q : Queue) → pop q ≡ none → weigh w q ≡ 0
  pub pop-greatest :
      (q : Queue) {x : T} {rest : Queue}
      → pop q ≡ some (x, rest)
      → weigh (λ y. if less x y then 1 else 0) rest ≡ 0
  pub weigh-mono : (v w : T → ℕ) (q : Queue) → ((x : T) → v x ≤ w x) → weigh v q ≤ weigh w q
  pub weigh-zero : (q : Queue) → weigh (λ _. 0) q ≡ 0
  pub weigh-sum : (v w : T → ℕ) (q : Queue) → weigh (λ x. v x + w x) q ≡ weigh v q + weigh w q
