-- ===== src/Intro/Tests.antt =====
-- Dinners at round tables, and a guarded number.
use tpcc.Prelude.{
  ℕ, suc, ◌<◌, ◌≡◌, refl, none, some, update, if◌then◌else◌, ◌==◌, arith, ℕ_discrete, ◌+◌, List,
  ◌∷◌, [],
}
use tpcc.Intro.Guarded as Guarded
use tpcc.Intro.Guarded.Serial.{Holds, run_calls, Reach-serial}
use tpcc.Intro.Dining.{
  Table, thinking, acquiring, waiting, Dinner, first_fork, lock, advance, Reach, here, next,
}
use tpcc.Intro.Dining.Progress.{CanGoOn, Reach-CanGoOn}

module _ (n : ℕ) where
  abbrev next_seat : ℕ → ℕ
  next_seat seat = if suc seat == n then 0 else suc seat

  next_seat_next : (seat : ℕ) → suc seat < n → next_seat seat ≡ suc seat
  next_seat_next seat lt = ground arith

  next_seat_last : (seat : ℕ) → suc seat ≡ n → next_seat seat ≡ 0
  next_seat_last seat e = ground arith

  abbrev round_table : Table
  round_table = record {
    seats = n;
    left_fork = λ seat. seat;
    right_fork = next_seat;
    to_right = next_seat;
    left_fork-seat = λ seat lt. refl;
    right_fork-to_right = λ seat lt. refl;
    to_right_next = next_seat_next;
    to_right_last = next_seat_last;
  }

-- Three seats: philosophers 0 and 1 have a fork each, and 2 waits for the one that 1 has.
abbrev contended : Dinner
contended = record {
  philosophers =
      update
        (update (update (update (update (λ _. thinking) 0 acquiring) 0 waiting) 1 acquiring) 1
          waiting)
        2 acquiring;
  forks = update (update (λ _. none) 0 (some 0)) 2 (some 1);
  meals = λ _. 0;
}

contended_reached : Reach (round_table 3) contended
unfolding advance first_fork lock ℕ_discrete
contended_reached =
    next
      (next (next (next (next here 0 (omega arith) refl) 0 (omega arith) refl) 1 (omega arith) refl)
        1 (omega arith) refl)
      2 (omega arith) refl

Reach-CanGoOn_example : CanGoOn (round_table 3) (omega arith) contended
unfolding ℕ_discrete
Reach-CanGoOn_example =
    Reach-CanGoOn (round_table 3) (omega arith) 2 contended_reached (omega arith)
      (λ e. ground (arith, e))

-- A call adds 1 and 2 to a guarded number; the first access is over, and another call waits.
abbrev adding : List (ℕ → ℕ)
adding = (λ x. 1 + x) ∷ (λ x. 2 + x) ∷ []

abbrev half_added : Guarded.Guarded ℕ
half_added = record {
  object = 6;
  mutex = some 0;
  threads =
      update
        (update
          (update (update (λ _. Guarded.outside) 0 (Guarded.locking adding)) 1
            (Guarded.locking adding))
          0 (Guarded.accessing adding adding))
        0 (Guarded.accessing adding ((λ x. 2 + x) ∷ []));
  calls = [];
}

half_added-Reach : Guarded.Reach 2 5 half_added
unfolding Guarded.advance Guarded.reference_by Guarded.access ℕ_discrete
half_added-Reach =
    let one : Guarded.Reach 2 5 (Guarded.go 0 (Guarded.locking adding) (Guarded.make_guarded 5)) =
      Guarded.next Guarded.here (Guarded.calls_method 0 (omega arith) refl adding) in
    Guarded.next
      (Guarded.next (Guarded.next one (Guarded.calls_method 1 (omega arith) refl adding))
        (Guarded.moves 0 (omega arith) refl))
      (Guarded.moves 0 (omega arith) refl)

Reach-serial_example :
    (half_added.mutex ≡ none → half_added.object ≡ run_calls half_added.calls 5)
    × ((i : ℕ) → Holds 5 half_added i (half_added.threads i))
Reach-serial_example = Reach-serial 2 5 half_added-Reach
