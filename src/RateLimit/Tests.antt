-- ===== src/RateLimit/Tests.antt =====
-- A limit of a thousand bytes a second.
use soulseek_rs_lib.Base.{◌+◌, ◌≡◌, refl, some, List, [], ◌∷◌, arith}
use soulseek_rs_lib.RateLimit.{RateLimit, take_once, take_at, refill, give_back}
use soulseek_rs_lib.RateLimit.Pace.{Use, total, after, total-tokens, take_at-after}

abbrev limit : RateLimit
limit = record { bytes_per_second = 1_000; tokens = 60; refilled = some 500 }

-- Two callers take 40 and 20 bytes, one hands 15 back, and the other takes them.
abbrev uses : List Use
uses = Use.round 510 40 ∷ Use.round 520 40 ∷ Use.hand_back 15 ∷ Use.round 530 40 ∷ []

total-tokens_example : total uses limit + (after uses limit).tokens ≡ 60 + 15
total-tokens_example = total-tokens uses 500 limit (λ e. absurd (omega arith)) refl (omega arith)

total-uses : total uses limit ≡ 75
unfolding take_once refill give_back
total-uses = refl

take_at-after_example : (take_at (605 ∷ []) 40 (after uses limit)).0 ≡ some 40
take_at-after_example =
    take_at-after uses 605 40 500 [] limit (λ e. absurd (omega arith)) refl (omega arith)
      (omega arith)
