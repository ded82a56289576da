-- ===== src/Fibers/Runtime.antt =====
-- fibers/coroutine/mtf/fibers: fibers on the workers of a pool, and the allocator of their stacks. The
-- pool is asio's `io_context`, which is not code of the repository: a worker may run any task that has
-- been submitted, as a continuation or not. Stacks and fibers go by numbers. The allocator's methods
-- hold its spinlock, so each is a step; a task runs on its worker until the routine yields or ends.
pub mod Places
use tpcc.Prelude.{
  ℕ, suc, ◌<◌, Bool, true, false, Option, none, some, List, [], ◌∷◌, ◌++◌, ◌≡◌, update,
  if◌then◌else◌,
}

-- `StackAllocator`: the stacks that may be used again, the last one first, and the next new stack.
pub record StackAllocator : Type 0 where
  pub pool : List ℕ
  pub next_stack : ℕ

unfoldable pub get_new_stack : StackAllocator → ℕ × StackAllocator
get_new_stack a = (a.next_stack, record a { next_stack = suc a.next_stack })

abbrev pub allocate_from : List ℕ → StackAllocator → ℕ × StackAllocator
unfolding get_new_stack
allocate_from [] a = get_new_stack a
allocate_from (stack ∷ rest) a = (stack, record a { pool = rest })

unfoldable pub allocate : StackAllocator → ℕ × StackAllocator
unfolding allocate_from get_new_stack
allocate a = allocate_from a.pool a

unfoldable pub release : ℕ → StackAllocator → StackAllocator
release stack a = record a { pool = stack ∷ a.pool }

-- A fiber: not there, without a coroutine, or with one on its stack.
pub data Fiber : Type 0 where
  absent : Fiber
  unstarted : Fiber
  started : ℕ → Fiber

pub record Runtime : Type 0 where
  pub fibers : ℕ → Fiber
  pub next_fiber : ℕ
  pub tasks : List ℕ  -- the fibers whose tasks are submitted
  pub workers : ℕ → Option ℕ  -- the fiber that a worker runs
  pub allocator : StackAllocator

abbrev pub new_runtime : Runtime
new_runtime = record {
  fibers = λ _. absent;
  next_fiber = 0;
  tasks = [];
  workers = λ _. none;
  allocator = record { pool = []; next_stack = 0 };
}

-- `PlanTask`, by `Submit` or by `SubmitContinuation`.
unfoldable pub plan_task : ℕ → Runtime → Runtime
plan_task fiber r = record r { tasks = r.tasks ++ fiber ∷ [] }

unfoldable pub spawn : Runtime → Runtime
unfolding plan_task
spawn r =
    plan_task r.next_fiber
      (record r { fibers = update r.fibers r.next_fiber unstarted; next_fiber = suc r.next_fiber })

-- `CoroutineFactory`, by what the fiber has.
abbrev pub factory_for : Fiber → ℕ → Runtime → Runtime
unfolding allocate
factory_for (started stack) fiber r = r
factory_for _ fiber r =
    let (stack, allocator) = allocate r.allocator in
    record r { fibers = update r.fibers fiber (started stack); allocator = allocator }

unfoldable pub coroutine_factory : ℕ → Runtime → Runtime
unfolding factory_for allocate
coroutine_factory fiber r = factory_for (r.fibers fiber) fiber r

-- A worker takes a task, up to `Resume`.
unfoldable pub begin_task : ℕ → ℕ → Runtime → Runtime
unfolding coroutine_factory
begin_task worker fiber r =
    coroutine_factory fiber (record r { workers = update r.workers worker (some fiber) })

-- The rest of a task whose routine has yielded.
unfoldable pub end_unfinished : ℕ → ℕ → Runtime → Runtime
unfolding plan_task
end_unfinished worker fiber r =
    plan_task fiber (record r { workers = update r.workers worker none })

-- `~Fiber`, by what the fiber has, and `delete this`.
abbrev pub released_by : Fiber → StackAllocator → StackAllocator
unfolding release
released_by (started stack) a = release stack a
released_by _ a = a

-- The rest of a task whose routine has ended.
unfoldable pub end_finished : ℕ → ℕ → Runtime → Runtime
unfolding released_by release
end_finished worker fiber r = record r {
  fibers = update r.fibers fiber absent;
  workers = update r.workers worker none;
  allocator = released_by (r.fibers fiber) r.allocator;
}

-- `n` workers. Anyone may spawn, a routine on a worker too.
pub data Step (n : ℕ) (r : Runtime) : Runtime → Type 0 where
  spawns : Step n r (spawn r)
  takes :
      (worker : ℕ)
      → worker < n
      → r.workers worker ≡ none
      → (xs ys : List ℕ) (fiber : ℕ) → r.tasks ≡ xs ++ fiber ∷ ys
      → Step n r (begin_task worker fiber (record r { tasks = xs ++ ys }))
  yields :
      (worker : ℕ)
      → worker < n
      → (fiber : ℕ) → r.workers worker ≡ some fiber
      → Step n r (end_unfinished worker fiber r)
  ends :
      (worker : ℕ)
      → worker < n
      → (fiber : ℕ) → r.workers worker ≡ some fiber
      → Step n r (end_finished worker fiber r)

pub data Reach (n : ℕ) : Runtime → Type 0 where
  here : Reach n new_runtime
  next : {r s : Runtime} → Reach n r → Step n r s → Reach n s
