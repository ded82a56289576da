-- ===== src/Executors/LockFreeStack/Chains.antt =====
-- Chains of nodes in the heap, and what represents the lists of the strand's model.
use tpcc.Prelude.{
  ℕ, ◌+◌, ◌<◌, ◌≤◌, true, false, Option, none, some, List, [], ◌∷◌, ◌≡◌, ◌≢◌, refl, sym, ap, ap₂,
  ◌∙◌, if◌then◌else◌, update, update_other, count, total, le-total, total_two, arith, ℕ_discrete,
  subst,
}
use tpcc.Executors.LockFreeStack.{
  StackNode, Thread, idle, entering, recycling, filled, linked, grabbing, taking, System,
  same_pointer,
}

pub same_pointer_lem : (p q : Option ℕ) → same_pointer p q ≡ true → p ≡ q
same_pointer_lem none none e = refl
same_pointer_lem none (some y) e = absurd (ground (arith, e))
same_pointer_lem (some x) none e = absurd (ground (arith, e))
same_pointer_lem (some x) (some y) e = ground (arith, e)

apart : (x y : ℕ) (rest : List ℕ) → count x (y ∷ rest) ≡ 0 → (x ≢ y) × (count x rest ≡ 0)
unfolding count
apart x y rest e = (λ q. ground (arith, e, q), omega (arith, e))

module _ {T : Type 0} where
  -- `head` leads through the nodes at these addresses to a null pointer.
  abbrev pub Chain : (ℕ → StackNode T) → Option ℕ → List ℕ → Type 0
  Chain cells head [] = head ≡ none
  Chain cells head (x ∷ rest) = (head ≡ some x) × Chain cells (cells x).next rest

  abbrev pub contents : (ℕ → StackNode T) → List ℕ → List T
  contents cells [] = []
  contents cells (x ∷ rest) = (cells x).datum ∷ contents cells rest

  pub Chain-update :
      (cells : ℕ → StackNode T) (x : ℕ) (c : StackNode T) (head : Option ℕ) (addresses : List ℕ)
      → count x addresses ≡ 0
      → Chain cells head addresses
      → Chain (update cells x c) head addresses
  Chain-update cells x c head [] away e = e
  Chain-update cells x c head (y ∷ rest) away (e, more) =
      let (ne, further) = apart x y rest away in
      (
        e,
        subst (λ p. Chain (update cells x c) p rest)
            (ap (λ d. d.next) (sym (update_other cells x c y ne)))
            (Chain-update cells x c (cells y).next rest further more),
      )

  pub contents-update :
      (cells : ℕ → StackNode T) (x : ℕ) (c : StackNode T) (addresses : List ℕ)
      → count x addresses ≡ 0
      → contents (update cells x c) addresses ≡ contents cells addresses
  contents-update cells x c [] away = refl
  contents-update cells x c (y ∷ rest) away =
      let (ne, further) = apart x y rest away in
      ap₂ (λ d l. d ∷ l) (ap (λ d. d.datum) (update_other cells x c y ne))
        (contents-update cells x c rest further)

  -- The nodes that a thread has of its own, beside a chain.
  abbrev pub own : Thread T → List ℕ
  own (filled x) = x ∷ []
  own (linked x) = x ∷ []
  own (taking head pool) = pool
  own _ = []

  -- The nodes of `tasks_to_run` in a thread.
  abbrev pub Taken : (ℕ → StackNode T) → Thread T → List ℕ → Type 0
  Taken cells (taking head pool) addresses = Chain cells head addresses
  Taken cells _ addresses = addresses ≡ []

  abbrev pub weight : ℕ → Thread T × List ℕ → ℕ
  weight x g = count x (own g.0) + count x g.1

  pub Taken-update :
      (cells : ℕ → StackNode T) (x : ℕ) (c : StackNode T) (thread : Thread T) (addresses : List ℕ)
      → count x addresses ≡ 0
      → Taken cells thread addresses
      → Taken (update cells x c) thread addresses
  Taken-update cells x c (taking head pool) xs away e = Chain-update cells x c head xs away e
  Taken-update cells x c idle xs away e = e
  Taken-update cells x c (entering t) xs away e = e
  Taken-update cells x c (recycling t) xs away e = e
  Taken-update cells x c (filled y) xs away e = e
  Taken-update cells x c (linked y) xs away e = e
  Taken-update cells x c grabbing xs away e = e

-- The lists of the strand's model: the stack, and what each thread has taken and not popped.
pub record Lists (T : Type 0) : Type 0 where
  pub stack : List T
  pub chains : ℕ → List T

-- Every allocated node is in one place: in the chain of `stack_`, in the chain of a thread, or its own.
pub record Represents {T : Type 0} (n : ℕ) (s : System T) (a : Lists T) : Type 0 where
  pub addresses : List ℕ
  pub places : ℕ → Thread T × List ℕ
  pub agree : (i : ℕ) → i < n → s.threads i ≡ (places i).0
  pub reached : Chain s.shared.cells s.shared.head addresses
  pub listed : a.stack ≡ contents s.shared.cells addresses
  pub taken : (i : ℕ) → i < n → Taken s.shared.cells (places i).0 (places i).1
  pub owed : (i : ℕ) → i < n → a.chains i ≡ contents s.shared.cells (places i).1
  pub single :
      (x : ℕ)
      → count x addresses + total (weight x) n places ≡ (if s.shared.allocated x then 1 else 0)
  pub no_pool : s.shared.pool ≡ []

module _ {T : Type 0} (n : ℕ) (s : System T) (a : Lists T) (v : Represents n s a) where
  -- A node that is not allocated is in no chain.
  pub unused-apart :
      (x : ℕ)
      → s.shared.allocated x ≡ false
      → (count x v.addresses ≡ 0) × ((j : ℕ) → j < n → count x (v.places j).1 ≡ 0)
  unused-apart x e = (
    ground (arith, v.single x, e),
    λ j lt. ground (arith, v.single x, e, le-total (weight x) n v.places j lt),
  )

  -- A thread's own node is in no chain, if the thread has no chain that it is in.
  pub own-apart :
      (x i : ℕ)
      → i < n
      → 1 ≤ count x (own (v.places i).0)
      → (v.places i).1 ≡ []
      → (count x v.addresses ≡ 0) × ((j : ℕ) → j < n → count x (v.places j).1 ≡ 0)
  unfolding count
  own-apart x i lt holds empty =
      let mine = le-total (weight x) n v.places i lt in
      (
        ground (arith, v.single x, mine, holds),
        λ j below. elim (ℕ_discrete i j) [
          | yes same ↦ ap (λ k. count x (v.places k).1) (sym same) ∙ ap (count x) empty
          | no ne ↦
              ground (arith, v.single x, holds, total_two (weight x) n v.places i j lt below ne)
        ],
      )
