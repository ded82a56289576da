-- ===== src/Sync/Barrier/Turns.antt =====
-- No thread overtakes another by a round, and no round is forgotten.
use tpcc.Prelude.{
  ℕ, zero, suc, ◌^◌, ◌<◌, ◌≤◌, Bool, true, false, ◌≡◌, refl, ◌≢◌, update, arith, total,
  total-update, total-eq-zero_below, total-eq-zero, update_cases, ap, sym, ◌∙◌, inl, inr, subst,
}
use tpcc.Sync.Barrier.{
  CyclicBarrier, other_index, may_leave, Place, outside, asleep, woken, Member, wake, wake_member,
  arrived_member, notify_all, System, Step, arrives, tests, wakes, Reach, here, next,
}
use tpcc.Sync.Barrier.Rounds.{
  counts, Fits, total-full, Inv, IsJoined, IsTurned, arrive-cases, tests-Inv, wakes-Inv,
}

total-all :
    (rounds n : ℕ) (threads : ℕ → Member)
    → ((j : ℕ) → j < n → counts rounds (threads j) ≡ 1)
    → total (counts rounds) n threads ≡ n
unfolding total
total-all rounds zero threads all = refl
total-all rounds (suc n) threads all =
    omega (arith, all n (omega arith), total-all rounds n threads (λ j h. all j (omega (arith, h))))

module _ (n : ℕ) where
  idle-Fits :
      (rounds index : ℕ) (m : Member)
      → m.place ≡ outside
      → Fits rounds index m.place m.arrived m.left
      → (m.arrived ≡ rounds) × (m.left ≡ rounds)
  idle-Fits rounds index m e f = subst (λ place. Fits rounds index place m.arrived m.left) e f

  -- The sum over the threads after one of them has arrived.
  one_more :
      (rounds : ℕ) (threads : ℕ → Member) (i slot : ℕ) (last : Bool)
      → i < n
      → (threads i).arrived ≡ rounds
      → total (counts rounds) n (update threads i (arrived_member (threads i) slot last))
        ≡ suc (total (counts rounds) n threads)
  one_more rounds threads i slot last lt e = omega (
    arith,
    total-update (counts rounds) n threads i (arrived_member (threads i) slot last) lt,
    before,
    after last,
  )
    where
      before : counts rounds (threads i) ≡ 0
      before = ground (arith, e)

      after : (b : Bool) → counts rounds (arrived_member (threads i) slot b) ≡ 1
      after true = ground (arith, e)
      after false = ground (arith, e)

  joins-Inv :
      (rounds : ℕ) (s : System) (i : ℕ) (b : CyclicBarrier)
      → i < n
      → (s.threads i).place ≡ outside
      → IsJoined n s.barrier b
      → Inv n rounds s
      → Inv n rounds (record {
        barrier = b;
        threads = update s.threads i (arrived_member (s.threads i) s.barrier.index false);
      })
  joins-Inv rounds s i b lt e w v =
      let index = s.barrier.index in
      let (x, y) = idle-Fits rounds index (s.threads i) e (v.fit i lt) in
      let more = one_more rounds s.threads i index false lt x in
      record {
        people = w.same_participants ∙ v.people;
        two = omega (arith, v.two, w.same_index);
        here_count =
            ap b.to_wait_counter w.same_index ∙ omega (arith, w.counted, v.here_count, more);
        open_round = omega (arith, v.open_round, more, w.more, v.here_count, v.people);
        there_count = λ r.
            ap (λ k. b.to_wait_counter (other_index k)) w.same_index ∙ w.other ∙ v.there_count r;
        fit = λ j lj.
            subst
              (λ k.
                let m = update s.threads i (arrived_member (s.threads i) index false) j in
                Fits rounds k m.place m.arrived m.left)
              (sym w.same_index)
              (update_cases (λ u. Fits rounds index u.place u.arrived u.left) s.threads i
                (arrived_member (s.threads i) index false) j (λ _. (refl, ap suc x, y))
                (λ _. v.fit j lj));
      }

  turned-Fits :
      (rounds index : ℕ) (m : Member)
      → index < 2
      → Fits rounds index m.place m.arrived m.left
      → counts rounds m ≡ 1
      → Fits (suc rounds) (other_index index) (wake m.place) m.arrived m.left
  turned-Fits rounds index m two f c = go m.place f
    where
      now : m.arrived ≡ suc rounds
      now = ground (arith, c)

      back : other_index (other_index index) ≡ index
      back = ground (arith, two)

      go :
          (p : Place)
          → Fits rounds index p m.arrived m.left
          → Fits (suc rounds) (other_index index) (wake p) m.arrived m.left
      go outside (a, l) = absurd (omega (arith, a, now))
      go (asleep slot) (k, a, l) = inr (k ∙ sym back, a, ap suc l)
      go (woken slot) (inl (k, a, l)) = inr (k ∙ sym back, a, ap suc l)
      go (woken slot) (inr (k, a, l)) = absurd (omega (arith, a, now))

  turns-Inv :
      (rounds : ℕ) (s : System) (i : ℕ) (b : CyclicBarrier)
      → i < n
      → (s.threads i).place ≡ outside
      → IsTurned n s.barrier b
      → Inv n rounds s
      → Inv n (suc rounds) (record {
        barrier = b;
        threads = λ j.
            wake_member (update s.threads i (arrived_member (s.threads i) s.barrier.index true) j);
      })
  turns-Inv rounds s i b lt e w v =
      let index = s.barrier.index in
      let arrived = arrived_member (s.threads i) index true in
      let (x, y) = idle-Fits rounds index (s.threads i) e (v.fit i lt) in
      let more = one_more rounds s.threads i index true lt x in
      let all =
        total-full rounds n (update s.threads i arrived)
          (omega (arith, more, v.here_count, w.last, v.people)) in
      let nobody : total (counts (suc rounds)) n (λ j. wake_member (update s.threads i arrived j))
          ≡ 0 =
        total-eq-zero_below (counts (suc rounds)) n
          (λ j. wake_member (update s.threads i arrived j))
          (λ j lj. later (update s.threads i arrived j) (all j lj)) in
      record {
        people = w.same_participants ∙ v.people;
        two = subst (λ k. k < 2) (sym w.flipped) (other_index-lt index);
        here_count = w.reset ∙ sym nobody;
        open_round = omega (arith, nobody, lt);
        there_count = λ r. w.full ∙ v.people;
        fit = λ j lj.
            subst
              (λ k.
                let m = wake_member (update s.threads i arrived j) in
                Fits (suc rounds) k m.place m.arrived m.left)
              (sym w.flipped) (turned j lj x y (all j lj));
      }
    where
      later : (m : Member) → counts rounds m ≡ 1 → counts (suc rounds) (wake_member m) ≡ 0
      later m c = ground (arith, c)

      other_index-lt : (k : ℕ) → other_index k < 2
      other_index-lt k = ground arith

      turned :
          (j : ℕ)
          → j < n
          → (s.threads i).arrived ≡ rounds
          → (s.threads i).left ≡ rounds
          → counts rounds (update s.threads i (arrived_member (s.threads i) s.barrier.index true) j)
            ≡ 1
          → let m =
              wake_member
                (update s.threads i (arrived_member (s.threads i) s.barrier.index true) j) in
            Fits (suc rounds) (other_index s.barrier.index) m.place m.arrived m.left
      turned j lj x y =
          update_cases
            (λ u.
              counts rounds u ≡ 1
              → Fits (suc rounds) (other_index s.barrier.index) (wake u.place) u.arrived u.left)
            s.threads i (arrived_member (s.threads i) s.barrier.index true) j
            (λ _ c. (ap suc x, ap suc y))
            (λ _ c. turned-Fits rounds s.barrier.index (s.threads j) v.two (v.fit j lj) c)

  Step-Inv :
      {s t : System} → n < 2 ^ 64 → Step n s t → (rounds : ℕ) → Inv n rounds s → (r : ℕ) × Inv n r t
  Step-Inv {s} small (arrives i lt e {b} {last} q) rounds v =
      elim (arrive-cases n s.barrier b last v.two (omega (arith, v.here_count, v.open_round, small))
        q) [
          | inl (waits, w) ↦ (
            rounds,
            subst
                (λ x. Inv n rounds (record {
                  barrier = b;
                  threads =
                      notify_all x
                        (update s.threads i (arrived_member (s.threads i) s.barrier.index x));
                }))
                (sym waits) (joins-Inv rounds s i b lt e w v),
          )
          | inr (turns, w) ↦ (
            suc rounds,
            subst
                (λ x. Inv n (suc rounds) (record {
                  barrier = b;
                  threads =
                      notify_all x
                        (update s.threads i (arrived_member (s.threads i) s.barrier.index x));
                }))
                (sym turns) (turns-Inv rounds s i b lt e w v),
          )
        ]
  Step-Inv {s} small (tests i lt {slot} e) rounds v = (rounds, tests-Inv n rounds s i slot lt e v)
  Step-Inv {s} small (wakes i lt {slot} e) rounds v = (rounds, wakes-Inv n rounds s i slot lt e v)

  Reach-Inv : {s : System} → 0 < n → n < 2 ^ 64 → Reach n s → (r : ℕ) × Inv n r s
  Reach-Inv some_thread small here =
      let nobody =
        total-eq-zero (counts 0) n (λ _. record { place = outside; arrived = 0; left = 0 })
          (λ _. refl) in
      (
        0,
        record {
          people = refl;
          two = omega arith;
          here_count = sym nobody;
          open_round = omega (arith, nobody, some_thread);
          there_count = λ r. absurd (omega (arith, r));
          fit = λ j lj. (refl, refl);
        },
      )
  Reach-Inv some_thread small (next a e) =
      let (r, v) = Reach-Inv some_thread small a in Step-Inv small e r v

  -- A barrier for `n` threads, `0 < n < 2^64`, lets nobody through early: in every reachable state a
  -- thread has come out of `Arrive` at most as often as any thread has arrived, and a thread that is
  -- outside has come out as often as it has arrived.
  pub left-le-arrived :
      {s : System}
      → 0 < n
      → n < 2 ^ 64
      → Reach n s
      → ((i j : ℕ) → i < n → j < n → (s.threads i).left ≤ (s.threads j).arrived)
        × ((i : ℕ)
            → i < n
            → (s.threads i).place ≡ outside
            → (s.threads i).left ≡ (s.threads i).arrived)
  left-le-arrived {s} some_thread small a =
      let (r, v) = Reach-Inv some_thread small a in
      (
        λ i j p q. omega (
          arith,
          early r s.barrier.index (s.threads i) (v.fit i p),
          late r s.barrier.index (s.threads j) (v.fit j q),
        ),
        λ i p e.
            (idle-Fits r s.barrier.index (s.threads i) e (v.fit i p)).1
            ∙ sym (idle-Fits r s.barrier.index (s.threads i) e (v.fit i p)).0,
      )
    where
      early : (r k : ℕ) (m : Member) → Fits r k m.place m.arrived m.left → m.left ≤ r
      early r k m f = go m.place f
        where
          go : (p : Place) → Fits r k p m.arrived m.left → m.left ≤ r
          go outside (x, y) = omega (arith, y)
          go (asleep slot) (k, x, y) = omega (arith, y)
          go (woken slot) (inl (k, x, y)) = omega (arith, y)
          go (woken slot) (inr (k, x, y)) = omega (arith, y)

      late : (r k : ℕ) (m : Member) → Fits r k m.place m.arrived m.left → r ≤ m.arrived
      late r k m f = go m.place f
        where
          go : (p : Place) → Fits r k p m.arrived m.left → r ≤ m.arrived
          go outside (x, y) = omega (arith, x)
          go (asleep slot) (k, x, y) = omega (arith, x)
          go (woken slot) (inl (k, x, y)) = omega (arith, x)
          go (woken slot) (inr (k, x, y)) = omega (arith, x)

  -- A round that is over lets everybody through: with `0 < n < 2^64` threads, in a reachable state in
  -- which all have arrived equally often, no thread is asleep, and a thread that has been woken finds
  -- the predicate true.
  pub arrived-leave :
      {s : System}
      → 0 < n
      → n < 2 ^ 64
      → Reach n s
      → ((i j : ℕ) → i < n → j < n → (s.threads i).arrived ≡ (s.threads j).arrived)
      → (i : ℕ) → i < n
      → ((slot : ℕ) → (s.threads i).place ≢ asleep slot)
        × ((slot : ℕ) → (s.threads i).place ≡ woken slot → may_leave s.barrier slot ≡ true)
  unfolding may_leave
  arrived-leave {s} some_thread small a same i lt =
      let (r, v) = Reach-Inv some_thread small a in
      let early : (s.threads i).arrived ≢ suc r = λ e. absurd (
        omega (
          arith,
          v.open_round,
          total-all r n s.threads (λ j lj. ground (arith, same i j lt lj, e)),
        )) in
      (
        λ slot e.
            let (k, x, y) =
              subst (λ p. Fits r s.barrier.index p (s.threads i).arrived (s.threads i).left) e
                (v.fit i lt) in
            early x,
        λ slot e.
            elim (subst (λ p. Fits r s.barrier.index p (s.threads i).arrived (s.threads i).left) e
              (v.fit i lt)) [
                | inl (k, x, y) ↦ absurd (early x)
                | inr (k, x, y) ↦
                    let full = ap s.barrier.to_wait_counter k ∙ v.there_count (omega (arith, y)) in
                    ground (arith, full, v.people)
              ],
      )
