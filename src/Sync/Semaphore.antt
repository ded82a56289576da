-- ===== src/Sync/Semaphore.antt =====
-- condvar/semaphore/semaphore.hpp: `Semaphore`. Each operation holds `mutex_` but while it waits, so
-- it is one step: a call of `Acquire` has its step when its predicate holds.
use tpcc.Prelude.{ℕ, Option, none, some, if◌then◌else◌, ltb, inc64, dec64}

pub record Semaphore : Type 0 where
  pub current_number : ℕ  -- size_t

abbrev pub semaphore : ℕ → Semaphore
semaphore initial = record { current_number = initial }

-- `none` while the caller stays blocked.
unfoldable pub acquire : Semaphore → Option Semaphore
acquire s =
    if ltb 0 s.current_number
    then some (record { current_number = dec64 s.current_number })
    else none

unfoldable pub release : Semaphore → Semaphore
release s = record { current_number = inc64 s.current_number }
