-- ===== src/Intro/Dining.antt =====
-- intro/dining/philosopher.cpp: `Philosopher`. The table and its forks, which are mutexes, are not code of
-- the repository: `Table` is what is relied on of it. A call of a mutex is a step.
pub mod Order
pub mod Forks
pub mod Progress
use tpcc.Prelude.{
  ℕ, suc, ◌+◌, ◌%◌, ◌<◌, Bool, true, false, Option, none, some, ◌≡◌, update, if◌then◌else◌, ◌==◌,
}

-- Seats round a table, with a fork between each two neighbours.
pub record Table : Type 0 where
  pub seats : ℕ
  pub left_fork : ℕ → ℕ
  pub right_fork : ℕ → ℕ
  pub to_right : ℕ → ℕ
  pub left_fork-seat : (seat : ℕ) → seat < seats → left_fork seat ≡ seat
  pub right_fork-to_right : (seat : ℕ) → seat < seats → right_fork seat ≡ to_right seat
  pub to_right_next : (seat : ℕ) → suc seat < seats → to_right seat ≡ suc seat
  pub to_right_last : (seat : ℕ) → suc seat ≡ seats → to_right seat ≡ 0

-- Where a philosopher is in `EatThenThink`.
pub data Philosopher : Type 0 where
  thinking : Philosopher
  acquiring : Philosopher  -- before the first `lock`
  waiting : Philosopher  -- before the second
  eating : Philosopher
  releasing : Philosopher  -- before the first `unlock`
  leaving : Philosopher  -- before the second

-- `forks` has who holds each fork.
pub record Dinner : Type 0 where
  pub philosophers : ℕ → Philosopher
  pub forks : ℕ → Option ℕ
  pub meals : ℕ → ℕ

abbrev pub init : Dinner
init = record { philosophers = λ _. thinking; forks = λ _. none; meals = λ _. 0 }

abbrev pub go : ℕ → Philosopher → Dinner → Dinner
go seat place d = record d { philosophers = update d.philosophers seat place }

-- `fork.lock()`, which blocks while someone holds the fork.
unfoldable pub lock : ℕ → ℕ → Dinner → Option Dinner
lock seat fork d = elim (d.forks fork) [
  | none ↦ some (record d { forks = update d.forks fork (some seat) })
  | some holder ↦ none
]

unfoldable pub unlock : ℕ → Dinner → Dinner
unlock fork d = record d { forks = update d.forks fork none }

unfoldable pub eat : ℕ → Dinner → Dinner
eat seat d = record d { meals = update d.meals seat (suc (d.meals seat)) }

abbrev pub then_go : ℕ → Philosopher → Option Dinner → Option Dinner
then_go seat place none = none
then_go seat place (some d) = some (go seat place d)

module _ (table : Table) where
  -- The fork that `AcquireForks` and `ReleaseForks` begin with, and the other one.
  unfoldable pub first_fork : ℕ → ℕ
  first_fork seat = if seat % 2 == 0 then table.left_fork seat else table.right_fork seat

  unfoldable pub second_fork : ℕ → ℕ
  second_fork seat = if seat % 2 == 0 then table.right_fork seat else table.left_fork seat

  -- The next step of a philosopher at such a place.
  unfoldable pub advance : ℕ → Philosopher → Dinner → Option Dinner
  unfolding first_fork second_fork lock unlock eat
  advance seat thinking d = some (go seat acquiring d)
  advance seat acquiring d = then_go seat waiting (lock seat (first_fork seat) d)
  advance seat waiting d = then_go seat eating (lock seat (second_fork seat) d)
  advance seat eating d = some (go seat releasing (eat seat d))
  advance seat releasing d = some (go seat leaving (unlock (first_fork seat) d))
  advance seat leaving d = some (go seat thinking (unlock (second_fork seat) d))

  pub data Reach : Dinner → Type 0 where
    here : Reach init
    next :
        {d d' : Dinner}
        → Reach d
        → (seat : ℕ) → seat < table.seats
        → advance seat (d.philosophers seat) d ≡ some d'
        → Reach d'
