-- ===== src/Executors/LockFreeStack/Freed.antt =====
-- The destructor of the stack frees every node, once.
use tpcc.Prelude.{
  ℕ, suc, ◌<◌, Bool, true, false, none, some, List, [], ◌∷◌, ◌≡◌, sym, ap, ◌∙◌, subst,
  if◌then◌else◌, update, count, total, total-eq-zero_below, arith, length,
}
use tpcc.Executors.LockFreeStack.{StackNode, Shared, Thread, idle, System, destroy, Reach}
use tpcc.Executors.LockFreeStack.Chains.{Chain, Taken, own, weight}
use tpcc.Executors.LockFreeStack.Refinement.{Reach-Represents}

abbrev bit : Bool → ℕ
bit b = if b then 1 else 0

module _ {T : Type 0} where
  destroy-empty : (rounds : ℕ) (s : Shared T) → s.head ≡ none → destroy (suc rounds) s ≡ some s
  unfolding destroy
  destroy-empty rounds s e =
      ap
        (λ h. elim h [
          | none ↦ some s
          | some node ↦
              let rest = destroy rounds (record s {
                head = (s.cells node).next;
                allocated = update s.allocated node false;
              }) in
              if s.allocated node then rest else none
        ])
        e

  -- A chain that has each allocated node once is freed in as many rounds as it has nodes, and one more.
  destroy-Chain :
      (addresses : List ℕ) (s : Shared T)
      → Chain s.cells s.head addresses
      → ((x : ℕ) → count x addresses ≡ bit (s.allocated x))
      → (s' : Shared T) × (destroy (suc (length addresses)) s ≡ some s')
        × (s'.head ≡ none)
        × ((x : ℕ) → s'.allocated x ≡ false)
  unfolding destroy count
  destroy-Chain [] s e all = (s, destroy-empty 0 s e, e, λ x. ground (arith, all x))
  destroy-Chain (y ∷ rest) s (e, more) all =
      let (s', freed, ended, none_left) =
        destroy-Chain rest
          (record s { head = (s.cells y).next; allocated = update s.allocated y false }) more
          (λ x. ground (arith, all x)) in
      (s', rw (e, here_allocated) freed, ended, none_left)
    where
      here_allocated : s.allocated y ≡ true
      here_allocated = ground (arith, all y)

  single_idle :
      (n : ℕ) (s : System T) (places : ℕ → Thread T × List ℕ)
      → ((i : ℕ) → i < n → s.threads i ≡ (places i).0)
      → ((i : ℕ) → i < n → s.threads i ≡ idle)
      → ((i : ℕ) → i < n → Taken s.shared.cells (places i).0 (places i).1)
      → (x : ℕ) → total (weight x) n places ≡ 0
  unfolding count
  single_idle n s places agree all_idle taken x = total-eq-zero_below (weight x) n places (λ i lt.
      let at : (places i).0 ≡ idle = sym (agree i lt) ∙ all_idle i lt in
      let gone : (places i).1 ≡ [] =
        subst (λ t. Taken s.shared.cells t (places i).1) at (taken i lt) in
      omega (arith, ap (λ t. count x (own t)) at, ap (count x) gone))

  -- When no thread is in an operation of the stack, its destructor returns, within some number of rounds:
  -- it reads no node that is freed, and frees every node that is allocated, so that none is lost.
  pub Reach-freed :
      (n : ℕ) {cells : ℕ → StackNode T} {s : System T}
      → Reach n cells s
      → ((i : ℕ) → i < n → s.threads i ≡ idle)
      → (rounds : ℕ) × (s' : Shared T) × (destroy rounds s.shared ≡ some s')
        × (s'.head ≡ none)
        × ((x : ℕ) → s'.allocated x ≡ false)
  Reach-freed n {cells} {s} r all_idle =
      let (a, reached, v) = Reach-Represents n r in
      let (s', freed, ended, none_left) =
        destroy-Chain v.addresses s.shared v.reached
          (λ x. omega (arith, v.single x, single_idle n s v.places v.agree all_idle v.taken x)) in
      (suc (length v.addresses), s', freed, ended, none_left)
