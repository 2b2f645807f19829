-- ===== src/Semaphore/Tests.antt =====
-- One permit, taken once.
use soulseek_rs_lib.Base.{◌+◌, ◌≡◌, refl}
use soulseek_rs_lib.Semaphore.{new, acquire}
use soulseek_rs_lib.Semaphore.Holders.{Reachable, Reachable-total}

Reachable-total_example : (new 1).permits + 1 ≡ 2
unfolding acquire
Reachable-total_example =
    Reachable-total 2 (new 1) 1 (Reachable.acquires (new 2) (new 1) 0 Reachable.starts refl)
