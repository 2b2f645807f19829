-- ===== src/Semaphore.antt =====
-- soulseek-rs-lib/src/utils/semaphore.rs. A thread in `acquire` goes on when there is a permit; until
-- then it waits. `Permit`s in use are counted.
pub mod Holders
mod Tests
use soulseek_rs_lib.Base.{ℕ, zero, suc, Option, none, some}

pub record Semaphore : Type 0 where
  pub permits : ℕ

abbrev pub new : ℕ → Semaphore
new permits = record { permits = permits }

-- `acquire` behind its wait, or `none` where it waits on.
abbrev pub acquire_from : ℕ → Option Semaphore
acquire_from zero = none
acquire_from (suc left) = some (record { permits = left })

unfoldable pub acquire : Semaphore → Option Semaphore
acquire s = acquire_from s.permits

-- `Permit::drop`
unfoldable pub release : Semaphore → Semaphore
release s = record { permits = suc s.permits }
