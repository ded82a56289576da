-- ===== src/Fibers/Coroutine.antt =====
-- fibers/coroutine/mtf/coroutine/impl.cpp: `Coroutine`, on one thread. A context switch is not code of
-- the repository: it makes another context run, where that had left off. A context is that of a
-- coroutine, or of the thread itself, `none`.
pub mod Nesting
use tpcc.Prelude.{ℕ, Bool, true, false, Option, none, some, update, ◌>>=◌}

-- `caller_context` is whose context `caller_context_` holds.
pub record Coroutine (E : Type 0) : Type 0 where
  pub parent : Option ℕ
  pub caller_context : Option ℕ
  pub exception : Option E
  pub completed : Bool

-- Coroutines go by numbers. `running` is the context that runs.
pub record Thread (E : Type 0) : Type 0 where
  pub coroutines : ℕ → Coroutine E
  pub current_coroutine : Option ℕ
  pub running : Option ℕ

module _ {E : Type 0} where
  abbrev pub new_coroutine : Coroutine E
  new_coroutine = record {
    parent = none;
    caller_context = none;
    exception = none;
    completed = false;
  }

  abbrev pub new_thread : Thread E
  new_thread = record { coroutines = λ _. new_coroutine; current_coroutine = none; running = none }

  -- `Resume`, up to the switch, and what the coroutine does first: `Suspend` sets `current_coroutine`
  -- again, and `Trampoline` reads it.
  unfoldable pub resume : ℕ → Thread E → Thread E
  resume this t = record {
    coroutines =
        update t.coroutines this
          (record (t.coroutines this) { parent = t.current_coroutine; caller_context = t.running });
    current_coroutine = some this;
    running = some this;
  }

  -- The rest of `Resume`, after `SwitchTo` has returned: what it throws.
  unfoldable pub end_of_resume : ℕ → Thread E → Thread E × Option E
  end_of_resume this t =
      (record t { current_coroutine = (t.coroutines this).parent }, (t.coroutines this).exception)

  -- `Suspend`, up to the switch to the caller, and then the rest of the caller's `Resume`. `none`: no
  -- coroutine is current, and a null pointer is read.
  unfoldable pub suspend : Thread E → Option (Thread E × Option E)
  unfolding end_of_resume
  suspend t = do
    co ← t.current_coroutine
    some (
        end_of_resume co (record t {
          current_coroutine = (t.coroutines co).parent;
          running = (t.coroutines co).caller_context;
        }))

  -- The end of `Trampoline` in the coroutine `co`, which the routine has left with or without an
  -- exception, and then the rest of the caller's `Resume`.
  unfoldable pub complete : ℕ → Option E → Thread E → Thread E × Option E
  unfolding end_of_resume
  complete co thrown t = end_of_resume co (record t {
    coroutines =
        update t.coroutines co (record (t.coroutines co) { exception = thrown; completed = true });
    running = (t.coroutines co).caller_context;
  })

  unfoldable pub is_completed : ℕ → Thread E → Bool
  is_completed this t = (t.coroutines this).completed
