-- ===== src/Fibers/Allocator/Steps.antt =====
-- What each step of a thread in a call of the allocator does.
use tpcc.Prelude.{
  ℕ, ◌+◌, ◌≤◌, Bool, true, false, Option, none, some, List, [], ◌∷◌, ◌≡◌, ◌≢◌, ◌⊎◌, inl, inr, refl,
  ap, sym, ◌∙◌, if◌then◌else◌, ltb, ◌==◌, arith, ℕ_discrete, ◌>>=◌, count, ite,
}
use tpcc.Fibers.Runtime.{StackAllocator, get_new_stack, allocate, release}
use tpcc.Fibers.Allocator.{
  Call, allocates, releases, Thread, outside, exchanging, loading, testing, taking, popping, making,
  pushing, unlocking, returning, Shared, enter, back, pop_back, is_empty_then, with_new, advance,
}

-- A thread that has the lock.
abbrev pub inside : Thread → ℕ
inside outside = 0
inside (exchanging call) = 0
inside (loading call) = 0
inside (returning result) = 0
inside _ = 1

abbrev pub one_if : ℕ → ℕ → ℕ
one_if stack other = ite (ℕ_discrete other stack) 1 0

abbrev in_call : ℕ → Call → ℕ
in_call stack allocates = 0
in_call stack (releases other) = one_if stack other

abbrev pub in_result : ℕ → Option ℕ → ℕ
in_result stack none = 0
in_result stack (some other) = one_if stack other

-- A stack that a thread is about to put into the pool, or has taken from it, or made.
abbrev pub carries : ℕ → Thread → ℕ
carries stack (exchanging call) = in_call stack call
carries stack (loading call) = in_call stack call
carries stack (pushing other) = one_if stack other
carries stack (unlocking result) = in_result stack result
carries stack (returning result) = in_result stack result
carries stack _ = 0

abbrev pub made : ℕ → StackAllocator → ℕ
made stack a = if ltb stack a.next_stack then 1 else 0

-- What a thread that has the lock knows of the pool.
abbrev pub Local : Thread → StackAllocator → Type 0
Local taking a = a.pool ≢ []
Local (popping stack) a = (rest : List ℕ) × (a.pool ≡ stack ∷ rest)
Local making a = a.pool ≡ []
Local _ a = Unit {0}

-- What a step of a thread does to the allocator: nothing, or an operation at once.
pub data IsAtomic (a : StackAllocator) : StackAllocator → Thread → Thread → Type 0 where
  unchanged : {c c' : Thread} → IsAtomic a a c c'
  allocated :
      {a' : StackAllocator} {c : Thread} (stack : ℕ)
      → allocate a ≡ (stack, a')
      → IsAtomic a a' c (unlocking (some stack))
  released : (stack : ℕ) → IsAtomic a (release stack a) (pushing stack) (unlocking none)

pub record Moves (c : Thread) (m : Shared) (c' : Thread) (m' : Shared) : Type 0 where
  pub local : Local c' m'.allocator
  pub placed :
      (stack : ℕ)
      → count stack m'.allocator.pool + carries stack c' + made stack m.allocator
        ≡ count stack m.allocator.pool + carries stack c + made stack m'.allocator
  pub flag :
      (others : ℕ)
      → inside c + others ≡ m.locked
      → m.locked ≤ 1
      → (inside c' + others ≡ m'.locked) × (m'.locked ≤ 1)
  pub quiet : inside c ≡ 0 → m'.allocator ≡ m.allocator
  pub atomic : IsAtomic m.allocator m'.allocator c c'

abbrev pub MovesTo : Thread → Shared → Shared × Thread → Type 0
MovesTo c m (m', c') = Moves c m c' m'

exchange-Moves :
    (call : Call) (m : Shared) (b : Bool)
    → (m.locked == 0) ≡ b
    → Moves (exchanging call) m (if b then enter call else loading call) (record m { locked = 1 })
exchange-Moves allocates m true e = record {
  local = tt;
  placed = λ stack. omega arith;
  flag = λ others h le. (ground (arith, h, e), omega arith);
  quiet = λ _. refl;
  atomic = unchanged;
}
exchange-Moves (releases stack) m true e = record {
  local = tt;
  placed = λ other. refl;
  flag = λ others h le. (ground (arith, h, e), omega arith);
  quiet = λ _. refl;
  atomic = unchanged;
}
exchange-Moves call m false e = record {
  local = tt;
  placed = λ stack. refl;
  flag = λ others h le. (ground (arith, h, le, e), omega arith);
  quiet = λ _. refl;
  atomic = unchanged;
}

load-Moves :
    (call : Call) (m : Shared) (b : Bool)
    → Moves (loading call) m (if b then exchanging call else loading call) m
load-Moves call m true = record {
  local = tt;
  placed = λ stack. refl;
  flag = λ others h le. (h, le);
  quiet = λ _. refl;
  atomic = unchanged;
}
load-Moves call m false = record {
  local = tt;
  placed = λ stack. refl;
  flag = λ others h le. (h, le);
  quiet = λ _. refl;
  atomic = unchanged;
}

test-Moves :
    (m : Shared) (pool : List ℕ) → m.allocator.pool ≡ pool → Moves testing m (is_empty_then pool) m
test-Moves m [] e = record {
  local = e;
  placed = λ stack. refl;
  flag = λ others h le. (h, le);
  quiet = λ _. refl;
  atomic = unchanged;
}
test-Moves m (stack ∷ rest) e = record {
  local = λ none_left. ground (arith, sym e ∙ none_left);
  placed = λ other. refl;
  flag = λ others h le. (h, le);
  quiet = λ _. refl;
  atomic = unchanged;
}

-- The steps that use the vector, by what it holds.
take-Moves :
    (m : Shared) (pool : List ℕ)
    → m.allocator.pool ≡ pool
    → m.allocator.pool ≢ []
    → (stack : ℕ) × (back pool ≡ some (popping stack)) × Moves taking m (popping stack) m
take-Moves m [] e some_left = absurd (some_left e)
take-Moves m (stack ∷ rest) e some_left = (
  stack,
  refl,
  record {
    local = (rest, e);
    placed = λ other. refl;
    flag = λ others h le. (h, le);
    quiet = λ lt. refl;
    atomic = unchanged;
  },
)

abbrev popped : List ℕ → Shared → Shared
popped rest m = record m { allocator = record m.allocator { pool = rest } }

allocate-cons :
    (a : StackAllocator) (stack : ℕ) (rest : List ℕ)
    → a.pool ≡ stack ∷ rest
    → allocate a ≡ (stack, record a { pool = rest })
unfolding allocate
allocate-cons a stack rest e = rw e refl

allocate-new : (a : StackAllocator) → a.pool ≡ [] → allocate a ≡ get_new_stack a
unfolding allocate
allocate-new a e = rw e refl

-- A thread in a call can make its next step, which is such a one.
pub record Goes (c : Thread) (m : Shared) : Type 0 where
  pub after_step : Shared × Thread
  pub taken : advance c m ≡ some after_step
  pub moved : MovesTo c m after_step

pop-Goes :
    (stack : ℕ) (rest : List ℕ) (m : Shared)
    → m.allocator.pool ≡ stack ∷ rest
    → Goes (popping stack) m
unfolding advance count
pop-Goes stack rest m e = record {
  after_step = (popped rest m, unlocking (some stack));
  taken = ap (λ pool. do left ← pop_back pool; some (popped left m, unlocking (some stack))) e;
  moved = record {
    local = tt;
    placed = λ other. rw e (omega arith);
    flag = λ others h le. (h, le);
    quiet = λ h. absurd (omega (arith, h));
    atomic = allocated stack (allocate-cons m.allocator stack rest e);
  };
}

pub advance-Goes :
    (c : Thread) (m : Shared)
    → c ≢ outside
    → ((result : Option ℕ) → c ≢ returning result)
    → Local c m.allocator
    → Goes c m
unfolding advance count get_new_stack release
advance-Goes outside m out ret l = absurd (out refl)
advance-Goes (exchanging call) m out ret l = record {
  after_step = (record m { locked = 1 }, if m.locked == 0 then enter call else loading call);
  taken = refl;
  moved = exchange-Moves call m (m.locked == 0) refl;
}
advance-Goes (loading call) m out ret l = record {
  after_step = (m, if m.locked == 0 then exchanging call else loading call);
  taken = refl;
  moved = load-Moves call m (m.locked == 0);
}
advance-Goes testing m out ret l = record {
  after_step = (m, is_empty_then m.allocator.pool);
  taken = refl;
  moved = test-Moves m m.allocator.pool refl;
}
advance-Goes taking m out ret l =
    let (stack, e, moved) = take-Moves m m.allocator.pool refl l in
    record {
      after_step = (m, popping stack);
      taken = ap (λ r. do thread ← r; some (m, thread)) e;
      moved = moved;
    }
advance-Goes (popping stack) m out ret (rest, e) = pop-Goes stack rest m e
advance-Goes making m out ret l = record {
  after_step = with_new m (get_new_stack m.allocator);
  taken = refl;
  moved = record {
    local = tt;
    placed = λ stack. ground arith;
    flag = λ others h le. (h, le);
    quiet = λ h. absurd (omega (arith, h));
    atomic = allocated m.allocator.next_stack (allocate-new m.allocator l);
  };
}
advance-Goes (pushing stack) m out ret l = record {
  after_step = (record m { allocator = release stack m.allocator }, unlocking none);
  taken = refl;
  moved = record {
    local = tt;
    placed = λ other. omega arith;
    flag = λ others h le. (h, le);
    quiet = λ h. absurd (omega (arith, h));
    atomic = released stack;
  };
}
advance-Goes (unlocking result) m out ret l = record {
  after_step = (record m { locked = 0 }, returning result);
  taken = refl;
  moved = record {
    local = tt;
    placed = λ other. refl;
    flag = λ others h le. (omega (arith, h, le), omega arith);
    quiet = λ h. refl;
    atomic = unchanged;
  };
}
advance-Goes (returning result) m out ret l = absurd (ret result refl)

pub Local-outside : (c : Thread) (a : StackAllocator) → inside c ≡ 0 → Local c a
Local-outside outside a e = tt
Local-outside (exchanging call) a e = tt
Local-outside (loading call) a e = tt
Local-outside (returning result) a e = tt
Local-outside testing a e = tt
Local-outside taking a e = absurd (omega (arith, e))
Local-outside (popping stack) a e = absurd (omega (arith, e))
Local-outside making a e = absurd (omega (arith, e))
Local-outside (pushing stack) a e = tt
Local-outside (unlocking result) a e = tt

-- Whether a thread makes a step of its own in a call.
pub in_call_or :
    (c : Thread)
    → (c ≡ outside)
      ⊎ ((result : Option ℕ) × (c ≡ returning result))
      ⊎ ((c ≢ outside) × ((result : Option ℕ) → c ≢ returning result))
in_call_or outside = inl refl
in_call_or (returning result) = inr (inl (result, refl))
in_call_or (exchanging call) = inr (inr (λ e. ground (arith, e), λ r e. ground (arith, e)))
in_call_or (loading call) = inr (inr (λ e. ground (arith, e), λ r e. ground (arith, e)))
in_call_or testing = inr (inr (λ e. ground (arith, e), λ r e. ground (arith, e)))
in_call_or taking = inr (inr (λ e. ground (arith, e), λ r e. ground (arith, e)))
in_call_or (popping stack) = inr (inr (λ e. ground (arith, e), λ r e. ground (arith, e)))
in_call_or making = inr (inr (λ e. ground (arith, e), λ r e. ground (arith, e)))
in_call_or (pushing stack) = inr (inr (λ e. ground (arith, e), λ r e. ground (arith, e)))
in_call_or (unlocking result) = inr (inr (λ e. ground (arith, e), λ r e. ground (arith, e)))
