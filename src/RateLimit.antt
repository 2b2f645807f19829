-- ===== src/RateLimit.antt =====
-- soulseek-rs-lib/src/utils/rate_limit.rs: the bucket of tokens that paces a transfer. Instants are
-- milliseconds, and each round of `take` reads the next one of a list: what stands between two of
-- them is the sleep and whatever else delayed the thread. The tokens, 64 bits in the source, are
-- taken as unbounded: callers hand back only what they were granted before.
pub mod Pace
mod Tests
use soulseek_rs_lib.Base.{
  ℕ, ◌+◌, ◌-◌, ◌/◌, Bool, true, false, ◌||◌, Option, none, some, List, [], ◌∷◌, min, max, leb, ltb,
  ◌==◌, if◌then◌else◌,
}

abbrev pub tick : ℕ
tick = 100

abbrev pub ticks_per_second : ℕ
ticks_per_second = 1_000 / tick

pub record RateLimit : Type 0 where
  pub bytes_per_second : ℕ
  pub tokens : ℕ
  pub refilled : Option ℕ

abbrev pub set : ℕ → RateLimit → RateLimit
set bytes_per_second r = record r { bytes_per_second = bytes_per_second }

abbrev pub since : ℕ → Option ℕ → ℕ
since now none = tick
since now (some at_time) = now - at_time

unfoldable pub refill : ℕ → RateLimit → RateLimit
refill now r =
    if leb tick (since now r.refilled)
    then record r { tokens = max (r.bytes_per_second / ticks_per_second) 1; refilled = some now }
    else r

-- One round of the loop: what is granted, or nothing, after which the thread sleeps.
unfoldable pub take_once : ℕ → ℕ → RateLimit → Option ℕ × RateLimit
unfolding refill
take_once now want r =
    if r.bytes_per_second == 0
    then (some want, r)
    else (let full = refill now r in
        if ltb 0 full.tokens
        then (
          some (min full.tokens want),
          record full { tokens = full.tokens - min full.tokens want },
        )
        else (none, full))

abbrev pub retry : (RateLimit → Option ℕ × RateLimit) → Option ℕ × RateLimit → Option ℕ × RateLimit
retry again (none, r) = again r
retry again (some grant, r) = (some grant, r)

unfoldable pub take_at : List ℕ → ℕ → RateLimit → Option ℕ × RateLimit
unfolding take_once
take_at [] want r = (none, r)
take_at (now ∷ later) want r = retry (take_at later want) (take_once now want r)

unfoldable pub give_back : ℕ → RateLimit → RateLimit
give_back unused r =
    if unused == 0 || r.bytes_per_second == 0 then r else record r { tokens = r.tokens + unused }
