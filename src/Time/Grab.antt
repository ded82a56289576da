-- ===== src/Time/Grab.antt =====
-- What `GrabReadyTimers` takes and what it leaves.
use tpcc.Prelude.{
  ℕ, zero, suc, ◌≤◌, ◌<◌, ◌≡◌, refl, Option, none, some, List, [], Bool, true, false, if◌then◌else◌,
  ltb, arith,
}
use tpcc.Heap.{PriorityQueue, below}
use tpcc.Time.TimeKeeper.{
  Timer, less, nil, cons, grab_loop, put_front, size, grab_ready_timers, IsGrab,
}

module _ {P : Type 0} (heap : PriorityQueue (Timer P) less) where
  abbrev key : Timer P → ℕ
  key t = t.deadline

  -- Nothing is due: the queue stays as it is.
  nothing-IsGrab :
      (now low : ℕ) (q : heap.Queue)
      → heap.weigh (below key (suc now)) q ≡ 0
      → IsGrab heap now low q ([], q)
  nothing-IsGrab now low q e = record {
    conserved = λ w. omega arith;
    due = refl;
    left = e;
    ordered = nil;
  }

  -- The earliest timer is not due, so none is.
  early :
      (now : ℕ) (q : heap.Queue) (t : Timer P) (rest : heap.Queue)
      → heap.pop q ≡ some (t, rest)
      → now < t.deadline
      → heap.weigh (below key (suc now)) q ≡ 0
  early now q t rest e late = ground (
    arith,
    heap.weigh-pop (below key (suc now)) q e,
    heap.pop-greatest q e,
    heap.weigh-mono (below key (suc now)) (below key t.deadline) rest (λ x. ground (arith, late)),
  )

  -- The earliest timer is due, and the rest is grabbed.
  front-IsGrab :
      (now low : ℕ) (q : heap.Queue) (t : Timer P) (rest : heap.Queue)
      (r : List (Timer P) × heap.Queue)
      → heap.pop q ≡ some (t, rest)
      → t.deadline ≤ now
      → low ≤ t.deadline
      → IsGrab heap now t.deadline rest r
      → IsGrab heap now low q (put_front heap t r)
  front-IsGrab now low q t rest (ts, q') e soon after v = record {
    conserved = λ w. omega (arith, v.conserved w, heap.weigh-pop w q e);
    due = ground (arith, v.due, soon);
    left = v.left;
    ordered = cons after v.ordered;
  }

  grab_loop-IsGrab :
      (rounds now low : ℕ) (q : heap.Queue)
      → size heap q ≤ rounds
      → heap.weigh (below key low) q ≡ 0
      → IsGrab heap now low q (grab_loop heap rounds now q)
  unfolding grab_loop
  grab_loop-IsGrab zero now low q small above =
      nothing-IsGrab now low q
        (omega (arith, small, heap.weigh-mono (below key (suc now)) (λ _. 1) q (λ x. ground arith)))
  grab_loop-IsGrab (suc rounds) now low q small above =
      go (grab_loop-IsGrab rounds now) (heap.pop q) refl
    where
      go :
          ((low' : ℕ) (q' : heap.Queue)
            → size heap q' ≤ rounds
            → heap.weigh (below key low') q' ≡ 0
            → IsGrab heap now low' q' (grab_loop heap rounds now q'))
          → (r : Option (Timer P × heap.Queue)) → heap.pop q ≡ r
          → IsGrab heap now low q (elim r [
            | none ↦ ([], q)
            | some (t, rest) ↦
                let more = grab_loop heap rounds now rest in
                if ltb now t.deadline then ([], q) else put_front heap t more
          ])
      go again none e = nothing-IsGrab now low q (heap.weigh-none (below key (suc now)) q e)
      go again (some (t, rest)) e = choose (ltb now t.deadline) refl
        where
          choose :
              (b : Bool)
              → ltb now t.deadline ≡ b
              → IsGrab heap now low q
                  (if b then ([], q) else put_front heap t (grab_loop heap rounds now rest))
          choose true late = nothing-IsGrab now low q (early now q t rest e (ground (arith, late)))
          choose false soon =
              front-IsGrab now low q t rest (grab_loop heap rounds now rest) e
                (ground (arith, soon)) (ground (arith, heap.weigh-pop (below key low) q e, above))
                (again t.deadline rest (omega (arith, small, heap.weigh-pop (λ _. 1) q e))
                  (heap.pop-greatest q e))

  -- `GrabReadyTimers` at the time `now` loses and doubles no timer, grabs only timers whose deadline has
  -- come, leaves none of these, and grabs them in the order of their deadlines.
  pub grab_ready_timers-IsGrab :
      (now : ℕ) (q : heap.Queue) → IsGrab heap now 0 q (grab_ready_timers heap now q)
  unfolding grab_ready_timers
  grab_ready_timers-IsGrab now q = grab_loop-IsGrab (size heap q) now 0 q (omega arith) (
      omega
        (arith, heap.weigh-mono (below key 0) (λ _. 0) q (λ x. ground arith), heap.weigh-zero q))
