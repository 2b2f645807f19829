-- ===== src/Semaphore/Holders.antt =====
-- How many threads hold a permit, over every interleaving.
use soulseek_rs_lib.Base.{ℕ, zero, suc, ◌+◌, ◌≡◌, ap, Option, none, some, arith}
use soulseek_rs_lib.Semaphore.{Semaphore, new, acquire, acquire_from, release}

-- The semaphore and how many hold a permit, after some interleaving of acquisitions and drops.
pub data Reachable (n : ℕ) : Semaphore → ℕ → Type 0 where
  starts : Reachable n (new n) 0
  acquires :
      (s t : Semaphore) (held : ℕ)
      → Reachable n s held
      → acquire s ≡ some t
      → Reachable n t (suc held)
  drops : (s : Semaphore) (held : ℕ) → Reachable n s (suc held) → Reachable n (release s) held

acquire_from-permits : (k : ℕ) (t : Semaphore) → acquire_from k ≡ some t → k ≡ suc t.permits
acquire_from-permits zero t e = cc
acquire_from-permits (suc left) t e = ap suc (ap permits_of e)
  where
    permits_of : Option Semaphore → ℕ
    permits_of none = 0
    permits_of (some s) = s.permits

-- The permits that are free and those that are held are as many as at the start, in every state
-- that threads can reach: no more than that many hold one at once.
pub Reachable-total : (n : ℕ) (s : Semaphore) (held : ℕ) → Reachable n s held → s.permits + held ≡ n
unfolding acquire release
Reachable-total n _ _ Reachable.starts = omega arith
Reachable-total n _ _ (Reachable.acquires s t held r e) =
    omega (arith, Reachable-total n s held r, acquire_from-permits s.permits t e)
Reachable-total n _ _ (Reachable.drops s held r) = omega (arith, Reachable-total n s (suc held) r)
