-- ===== src/Time/Keeper/Timers.antt =====
-- Weights of lists of timers.
use tpcc.Prelude.{
  ℕ, suc, ◌+◌, ◌≤◌, List, [], ◌∷◌, ◌++◌, ◌≡◌, refl, if◌then◌else◌, ltb, ◌==◌, update, update_other,
  arith,
}
use tpcc.Heap.{weigh_list, below}
use tpcc.Time.TimeKeeper.{Timer}
use tpcc.Time.Keeper.{Worker, setting}

pub weigh_list-append :
    {T : Type 0} (w : T → ℕ) (xs ys : List T)
    → weigh_list w (xs ++ ys) ≡ weigh_list w xs + weigh_list w ys
weigh_list-append w [] ys = omega arith
weigh_list-append w (x ∷ xs) ys = omega (arith, weigh_list-append w xs ys)

-- Whether a timer is that of a promise, and whether it is not due yet, as weights.
abbrev pub is_of : ℕ → Timer ℕ → ℕ
is_of id t = if t.promise == id then 1 else 0

abbrev pub early : ℕ → Timer ℕ → ℕ
early now t = if ltb now t.deadline then 1 else 0

-- A timer of no promise that was made, or whose deadline is not the one that was computed for it.
abbrev pub wrong : ℕ → (ℕ → ℕ) → Timer ℕ → ℕ
wrong next_id deadlines t =
    if ltb t.promise next_id then (if t.deadline == deadlines t.promise then 0 else 1) else 1

abbrev pub in_hand : Worker → List (Timer ℕ)
in_hand (setting ts) = ts
in_hand _ = []

-- Of timers that are all due, none is early.
pub due_not_early :
    (now : ℕ) (ts : List (Timer ℕ))
    → weigh_list (below (λ t. t.deadline) (suc now)) ts + weigh_list (early now) ts
      ≡ weigh_list (λ _. 1) ts
due_not_early now [] = refl
due_not_early now (t ∷ ts) = ground (arith, due_not_early now ts)

pub early_later :
    (now later : ℕ) (ts : List (Timer ℕ))
    → now ≤ later
    → weigh_list (early now) ts ≡ 0
    → weigh_list (early later) ts ≡ 0
early_later now later [] le e = refl
early_later now later (t ∷ ts) le e = ground (arith, early_later now later ts le)

pub weigh_list_mono :
    {T : Type 0} (v w : T → ℕ) (xs : List T)
    → ((x : T) → v x ≤ w x)
    → weigh_list v xs ≤ weigh_list w xs
weigh_list_mono v w [] le = omega arith
weigh_list_mono v w (x ∷ xs) le = omega (arith, le x, weigh_list_mono v w xs le)

-- A timer that is right stays right when the next promise is made.
pub wrong_later :
    (next_id deadline : ℕ) (deadlines : ℕ → ℕ) (t : Timer ℕ)
    → wrong (suc next_id) (update deadlines next_id deadline) t ≤ wrong next_id deadlines t
wrong_later next_id deadline deadlines t =
    ground (arith, update_other deadlines next_id deadline t.promise)

pub is_of_unmade :
    (next_id : ℕ) (deadlines : ℕ → ℕ) (t : Timer ℕ) → is_of next_id t ≤ wrong next_id deadlines t
is_of_unmade next_id deadlines t = ground arith
