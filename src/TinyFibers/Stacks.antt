-- ===== src/TinyFibers/Stacks.antt =====
-- tinyfibers/echo/tinyfibers/runtime/stacks.cpp, and the stacks of fibers in `CreateFiber` and `Destroy` of
-- scheduler.cpp: the scheduler with its pool of stacks. Stacks go by numbers. `std::vector` is a list
-- whose first member is the vector's last.
pub mod Presence
pub mod Ownership
use tpcc.Prelude.{ℕ, suc, ◌<◌, Option, none, some, List, [], ◌∷◌, ◌++◌, ◌≡◌, update}
use tpcc.TinyFibers.Scheduler.{
  IsFit, IsAside, Scheduler, new_scheduler, spawn, step, resume, Call, spawns, terminates, perform,
}

pub record StackAllocator : Type 0 where
  pub pool : List ℕ
  pub next_stack : ℕ

unfoldable pub allocate_new_stack : StackAllocator → ℕ × StackAllocator
allocate_new_stack a = (a.next_stack, record a { next_stack = suc a.next_stack })

abbrev pub allocate_from : List ℕ → StackAllocator → ℕ × StackAllocator
unfolding allocate_new_stack
allocate_from [] a = allocate_new_stack a
allocate_from (stack ∷ rest) a = (stack, record a { pool = rest })

unfoldable pub allocate : StackAllocator → ℕ × StackAllocator
unfolding allocate_from allocate_new_stack
allocate a = allocate_from a.pool a

unfoldable pub release : ℕ → StackAllocator → StackAllocator
release stack a = record a { pool = stack ∷ a.pool }

-- `stacks` are those of the fibers that are there.
pub record Machine : Type 0 where
  pub scheduler : Scheduler
  pub allocator : StackAllocator
  pub stacks : ℕ → Option ℕ

abbrev pub with_stack : ℕ → Machine → ℕ × StackAllocator → Machine
with_stack fiber x (stack, a) = record x {
  allocator = a;
  stacks = update x.stacks fiber (some stack);
}

-- What `CreateFiber` does with stacks.
unfoldable pub create_fiber : ℕ → Machine → Machine
unfolding allocate
create_fiber fiber x = with_stack fiber x (allocate x.allocator)

abbrev pub released : Option ℕ → StackAllocator → StackAllocator
unfolding release
released none a = a
released (some stack) a = release stack a

-- What `Destroy` does with them.
unfoldable pub destroy_fiber : ℕ → Machine → Machine
unfolding released release
destroy_fiber fiber x = record x {
  allocator = released (x.stacks fiber) x.allocator;
  stacks = update x.stacks fiber none;
}

-- What a system call of the fiber does with stacks.
abbrev pub stacks_after : {m : ℕ} → Call m → ℕ → Machine → Machine
unfolding create_fiber destroy_fiber
stacks_after spawns fiber x = create_fiber x.scheduler.next_id x
stacks_after terminates fiber x = destroy_fiber fiber x
stacks_after _ fiber x = x

abbrev pub new_machine : Machine
new_machine = record {
  scheduler = new_scheduler;
  allocator = record { pool = []; next_stack = 0 };
  stacks = λ _. none;
}

abbrev pub schedule : Machine → Scheduler → Machine
schedule x s = record x { scheduler = s }

-- The steps of the scheduler.
pub data Reach (m : ℕ) : Machine → Type 0 where
  runs : Reach m (schedule (create_fiber 0 new_machine) (spawn new_scheduler))
  handles :
      {x : Machine}
      → Reach m x
      → x.scheduler.current ≡ none
      → (xs ys : List ℕ) (fiber : ℕ) → x.scheduler.posted ≡ xs ++ fiber ∷ ys
      → Reach m (schedule x (step fiber (record x.scheduler { posted = xs ++ ys })))
  fires :
      {x : Machine} {t : Scheduler}
      → Reach m x
      → x.scheduler.current ≡ none
      → (xs ys : List ℕ) (fiber : ℕ) → x.scheduler.timers ≡ xs ++ fiber ∷ ys
      → resume fiber (record x.scheduler { timers = xs ++ ys }) ≡ some t
      → Reach m (schedule x t)
  calls :
      {x : Machine} {t : Scheduler}
      → Reach m x
      → (fiber : ℕ) → x.scheduler.current ≡ some fiber
      → (c : Call m) → IsFit c x.scheduler
      → perform c x.scheduler ≡ some t
      → Reach m (schedule (stacks_after c fiber x) t)
  wakes :
      {x : Machine} {t : Scheduler}
      → Reach m x
      → x.scheduler.current ≡ none
      → (fiber : ℕ) → IsAside m fiber x.scheduler
      → resume fiber x.scheduler ≡ some t
      → Reach m (schedule x t)
