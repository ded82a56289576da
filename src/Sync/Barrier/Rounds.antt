-- ===== src/Sync/Barrier/Rounds.antt =====
-- The rounds of the barrier.
use tpcc.Prelude.{
  ℕ, zero, suc, ◌^◌, ◌+◌, ◌<◌, ◌≤◌, Bool, true, false, ◌≡◌, ◌≢◌, update, if◌then◌else◌, ◌==◌, arith,
  total, total-update, total-le, update_cases, ap, sym, ◌⊎◌, inl, inr, ℕ_discrete, subst,
}
use tpcc.Sync.Barrier.{
  CyclicBarrier, other_index, arrive, may_leave, Place, outside, asleep, woken, Member, wake,
  wake_member, tested_member, System,
}

-- Whether a thread has arrived in the round after `rounds` others.
abbrev pub counts : ℕ → Member → ℕ
counts rounds m = if m.arrived == suc rounds then 1 else 0

-- What a thread's place says of the rounds, when the round after `rounds` others uses the slot `index`.
abbrev pub Fits : ℕ → ℕ → Place → ℕ → ℕ → Type 0
Fits rounds index outside arrived left = (arrived ≡ rounds) × (left ≡ rounds)
Fits rounds index (asleep slot) arrived left =
    (slot ≡ index) × (arrived ≡ suc rounds) × (left ≡ rounds)
Fits rounds index (woken slot) arrived left =
    ((slot ≡ index) × (arrived ≡ suc rounds) × (left ≡ rounds))
    ⊎ ((slot ≡ other_index index) × (arrived ≡ rounds) × (suc left ≡ rounds))

counts-le : (rounds : ℕ) (m : Member) → counts rounds m ≤ 1
counts-le rounds m = ground arith

same_counts :
    (rounds : ℕ) (m m' : Member) → m.arrived ≡ m'.arrived → counts rounds m ≡ counts rounds m'
same_counts rounds m m' e = ap {B = ℕ} (λ x. if x == suc rounds then 1 else 0) e

-- A full sum of weights of at most one has no missing member.
pub total-full :
    (rounds n : ℕ) (threads : ℕ → Member)
    → total (counts rounds) n threads ≡ n
    → (j : ℕ) → j < n
    → counts rounds (threads j) ≡ 1
unfolding total
total-full rounds zero threads full j h = absurd (omega arith)
total-full rounds (suc n) threads full j h =
    let top = counts-le rounds (threads n) in
    let rest = total-le (counts rounds) (counts-le rounds) n threads in
    elim (ℕ_discrete n j) [
      | yes e ↦ subst (λ k. counts rounds (threads k) ≡ 1) e (omega (arith, top, rest, full))
      | no ne ↦
          total-full rounds n threads (omega (arith, top, rest, full)) j (omega (arith, ne, h))
    ]

module _ (n : ℕ) where
  pub record Inv (rounds : ℕ) (s : System) : Type 0 where
    pub people : s.barrier.participants ≡ n
    pub two : s.barrier.index < 2
    pub here_count : s.barrier.to_wait_counter s.barrier.index ≡ total (counts rounds) n s.threads
    pub open_round : total (counts rounds) n s.threads < n
    pub there_count : 0 < rounds → s.barrier.to_wait_counter (other_index s.barrier.index) ≡ n
    pub fit :
        (j : ℕ)
        → j < n
        → Fits rounds s.barrier.index (s.threads j).place (s.threads j).arrived (s.threads j).left

  tested-Fits :
      (rounds index slot c p : ℕ) (m : Member)
      → p ≡ n
      → m.place ≡ woken slot
      → (slot ≡ index → c < n)
      → (0 < rounds → slot ≡ other_index index → c ≡ n)
      → Fits rounds index m.place m.arrived m.left
      → let t = tested_member m slot (c == p) in
        Fits rounds index t.place t.arrived t.left × (t.arrived ≡ m.arrived)
  tested-Fits rounds index slot c p m h e a b f =
      elim (subst (λ place. Fits rounds index place m.arrived m.left) e f) [
        | inl (x, y, z) ↦ ground (arith, h, a x)
        | inr (x, y, z) ↦ ground (arith, h, b (omega (arith, z)) x)
      ]

  -- `Arrive` in the middle of a round, and at its end.
  pub record IsJoined (b b' : CyclicBarrier) : Type 0 where
    pub same_index : b'.index ≡ b.index
    pub same_participants : b'.participants ≡ b.participants
    pub counted : b'.to_wait_counter b.index ≡ suc (b.to_wait_counter b.index)
    pub other : b'.to_wait_counter (other_index b.index) ≡ b.to_wait_counter (other_index b.index)
    pub more : suc (b.to_wait_counter b.index) ≢ b.participants

  pub record IsTurned (b b' : CyclicBarrier) : Type 0 where
    pub flipped : b'.index ≡ other_index b.index
    pub same_participants : b'.participants ≡ b.participants
    pub reset : b'.to_wait_counter b'.index ≡ 0
    pub full : b'.to_wait_counter (other_index b'.index) ≡ b.participants
    pub last : suc (b.to_wait_counter b.index) ≡ b.participants

  pub arrive-cases :
      (b b' : CyclicBarrier) (last : Bool)
      → b.index < 2
      → b.to_wait_counter b.index + 1 < 2 ^ 64
      → arrive b ≡ (b', last)
      → ((last ≡ false) × IsJoined b b') ⊎ ((last ≡ true) × IsTurned b b')
  unfolding arrive ℕ_discrete
  arrive-cases b b' last two small q =
      elim (ℕ_discrete (suc (b.to_wait_counter b.index)) b.participants) [
        | yes e ↦ inr (
          ground arith,
          record {
            flipped = ground arith;
            same_participants = ground arith;
            reset = ground arith;
            full = ground arith;
            last = e;
          },
        )
        | no ne ↦ inl (
          ground arith,
          record {
            same_index = ground arith;
            same_participants = ground arith;
            counted = ground arith;
            other = ground arith;
            more = ne;
          },
        )
      ]

  pub tests-Inv :
      (rounds : ℕ) (s : System) (i slot : ℕ)
      → i < n
      → (s.threads i).place ≡ woken slot
      → Inv rounds s
      → Inv rounds (record s {
        threads = update s.threads i (tested_member (s.threads i) slot (may_leave s.barrier slot));
      })
  unfolding may_leave
  tests-Inv rounds s i slot lt e v =
      let m = tested_member (s.threads i) slot (may_leave s.barrier slot) in
      let (f, same) =
        tested-Fits rounds s.barrier.index slot (s.barrier.to_wait_counter slot)
          s.barrier.participants (s.threads i) v.people e
          (λ x. omega (arith, v.here_count, v.open_round, ap s.barrier.to_wait_counter x))
          (λ r x. omega (arith, v.there_count r, ap s.barrier.to_wait_counter x)) (v.fit i lt) in
      let steady : total (counts rounds) n (update s.threads i m)
          ≡ total (counts rounds) n s.threads =
        omega (
          arith,
          total-update (counts rounds) n s.threads i m lt,
          same_counts rounds m (s.threads i) same,
        ) in
      record {
        people = v.people;
        two = v.two;
        here_count = omega (arith, v.here_count, steady);
        open_round = omega (arith, v.open_round, steady);
        there_count = v.there_count;
        fit = λ j lj.
            update_cases (λ u. Fits rounds s.barrier.index u.place u.arrived u.left) s.threads i m j
              (λ _. f) (λ _. v.fit j lj);
      }

  woken-Fits :
      (rounds index slot : ℕ) (m : Member)
      → m.place ≡ asleep slot
      → Fits rounds index m.place m.arrived m.left
      → Fits rounds index (wake m.place) m.arrived m.left
  woken-Fits rounds index slot m e f =
      subst (λ place. Fits rounds index (wake place) m.arrived m.left) (sym e)
        (inl (subst (λ place. Fits rounds index place m.arrived m.left) e f))

  pub wakes-Inv :
      (rounds : ℕ) (s : System) (i slot : ℕ)
      → i < n
      → (s.threads i).place ≡ asleep slot
      → Inv rounds s
      → Inv rounds (record s { threads = update s.threads i (wake_member (s.threads i)) })
  wakes-Inv rounds s i slot lt e v =
      let m = wake_member (s.threads i) in
      let steady : total (counts rounds) n (update s.threads i m)
          ≡ total (counts rounds) n s.threads =
        omega (arith, total-update (counts rounds) n s.threads i m lt) in
      record {
        people = v.people;
        two = v.two;
        here_count = omega (arith, v.here_count, steady);
        open_round = omega (arith, v.open_round, steady);
        there_count = v.there_count;
        fit = λ j lj.
            update_cases (λ u. Fits rounds s.barrier.index u.place u.arrived u.left) s.threads i m j
              (λ _. woken-Fits rounds s.barrier.index slot (s.threads i) e (v.fit i lt))
              (λ _. v.fit j lj);
      }
