-- ===== src/Executors/Workers.antt =====
-- futures/futures/await/executors/helpers.cpp: `WorkersHandler`, the count of the tasks that are
-- scheduled or running. Each operation holds `mutex_` throughout, so it is one step.
use tpcc.Prelude.{ℕ, Bool, ◌==◌, inc64, dec64}

pub record WorkersHandler : Type 0 where
  pub current_number : ℕ  -- size_t

unfoldable pub release_worker : WorkersHandler → WorkersHandler
release_worker h = record { current_number = dec64 h.current_number }

unfoldable pub acquire_worker : WorkersHandler → WorkersHandler
acquire_worker h = record { current_number = inc64 h.current_number }

-- `EverybodyHome` returns once this holds.
unfoldable pub everybody_home : WorkersHandler → Bool
everybody_home h = h.current_number == 0
