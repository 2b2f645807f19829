-- ===== src/RateLimit/Pace.antt =====
-- What the callers that share a bucket get of it within a tick, and what the first of them gets when
-- the tick is over.
use soulseek_rs_lib.Base.{
  ℕ, ◌+◌, ◌/◌, ◌≤◌, ◌<◌, ◌≡◌, ◌≢◌, refl, sym, ap, ◌∙◌, inl, inr, true, false, Option, none, some,
  List, [], ◌∷◌, All, min, max, leb, ltb, ◌==◌, arith, Bool-cases,
}
use soulseek_rs_lib.RateLimit.{
  RateLimit, tick, ticks_per_second, since, refill, take_once, take_at, retry, give_back,
}

abbrev pub granted : Option ℕ → ℕ
granted none = 0
granted (some grant) = grant

-- What the callers that share the bucket do with it, one after another: a round of `take` at an
-- instant, or handing back what was not needed.
pub data Use : Type 0 where
  round : (now want : ℕ) → Use
  hand_back : (unused : ℕ) → Use

abbrev pub use_bucket : Use → RateLimit → ℕ × RateLimit
use_bucket (round now want) r = let (o, next) = take_once now want r in (granted o, next)
use_bucket (hand_back unused) r = (0, give_back unused r)

-- What a series of uses grants in all.
abbrev pub total : List Use → RateLimit → ℕ
total [] r = 0
total (u ∷ rest) r = let (grant, next) = use_bucket u r in grant + total rest next

abbrev pub after : List Use → RateLimit → RateLimit
after [] r = r
after (u ∷ rest) r = after rest (use_bucket u r).1

abbrev given : Use → ℕ
given (round now want) = 0
given (hand_back unused) = unused

-- What a series of uses hands back in all.
abbrev pub handed_back : List Use → ℕ
handed_back [] = 0
handed_back (u ∷ rest) = given u + handed_back rest

-- A round before this instant.
abbrev pub IsBefore : ℕ → Use → Type 0
IsBefore end (round now want) = now < end
IsBefore end (hand_back unused) = Unit

-- A round within the tick of the last refill spends what it grants, and refills nothing.
same_tick :
    (now want start : ℕ) (r : RateLimit)
    → r.bytes_per_second ≢ 0
    → r.refilled ≡ some start
    → now < start + tick
    → let (o, next) = take_once now want r in
      (granted o + next.tokens ≡ r.tokens)
      × (next.refilled ≡ some start)
      × (next.bytes_per_second ≡ r.bytes_per_second)
unfolding take_once refill
same_tick now want start r limited e h =
    let inside : leb tick (since now r.refilled) ≡ false = rw e (ground arith) in
    let on : (r.bytes_per_second == 0) ≡ false = ground arith in
    elim (Bool-cases (ltb 0 r.tokens)) [
      | inl some_left ↦ rw (on, inside, some_left) (omega arith, e, refl)
      | inr none_left ↦ rw (on, inside, none_left) (omega arith, e, refl)
    ]

same_tick-use :
    (u : Use) (start : ℕ) (r : RateLimit)
    → r.bytes_per_second ≢ 0
    → r.refilled ≡ some start
    → IsBefore (start + tick) u
    → let (grant, next) = use_bucket u r in
      (grant + next.tokens ≡ r.tokens + given u)
      × (next.refilled ≡ some start)
      × (next.bytes_per_second ≡ r.bytes_per_second)
same_tick-use (round now want) start r limited e h =
    let (spent, kept, same) = same_tick now want start r limited e h in
    (omega (arith, spent), kept, same)
same_tick-use (hand_back unused) start r limited e h = unfold give_back in ground arith

-- Until a tick after the last refill, where a limit is set: what the callers were granted and what
-- the bucket holds then are together what it held and what they handed back, however they
-- interleave.
pub total-tokens :
    (uses : List Use) (start : ℕ) (r : RateLimit)
    → r.bytes_per_second ≢ 0
    → r.refilled ≡ some start
    → All (IsBefore (start + tick)) uses
    → total uses r + (after uses r).tokens ≡ r.tokens + handed_back uses
total-tokens [] start r limited e h = omega arith
total-tokens (u ∷ rest) start r limited e (h, later) =
    let (spent, kept, same) = same_tick-use u start r limited e h in
    let next : RateLimit = (use_bucket u r).1 in
    let ih : total rest next + (after rest next).tokens ≡ next.tokens + handed_back rest =
      total-tokens rest start next (λ z. limited (sym same ∙ z)) kept later in
    omega (arith, spent, ih)

same_tick-after :
    (uses : List Use) (start : ℕ) (r : RateLimit)
    → r.bytes_per_second ≢ 0
    → r.refilled ≡ some start
    → All (IsBefore (start + tick)) uses
    → ((after uses r).refilled ≡ some start)
      × ((after uses r).bytes_per_second ≡ r.bytes_per_second)
same_tick-after [] start r limited e h = (e, refl)
same_tick-after (u ∷ rest) start r limited e (h, later) =
    let (spent, kept, same) = same_tick-use u start r limited e h in
    let (still, limit) =
      same_tick-after rest start (use_bucket u r).1 (λ z. limited (sym same ∙ z)) kept later in
    (still, limit ∙ same)

-- A round at which the bucket is refilled grants from the whole of a tick's tokens.
refilled_grants :
    (now want : ℕ) (r : RateLimit)
    → r.bytes_per_second ≢ 0
    → leb tick (since now r.refilled) ≡ true
    → (take_once now want r).0 ≡ some (min (max (r.bytes_per_second / ticks_per_second) 1) want)
unfolding take_once refill
refilled_grants now want r limited due =
    let on : (r.bytes_per_second == 0) ≡ false = ground arith in
    let full : ltb 0 (max (r.bytes_per_second / ticks_per_second) 1) ≡ true = ground arith in
    rw (on, due, full) refl

retried :
    (again : RateLimit → Option ℕ × RateLimit) (p : Option ℕ × RateLimit) (grant : ℕ)
    → p.0 ≡ some grant
    → (retry again p).0 ≡ some grant
retried again (none, r) grant h = cc
retried again (some other, r) grant h = h

-- Where a limit is set: however the callers used the bucket within a tick of its last refill, the
-- first `take` that reads the clock when the tick is over returns at once, with what it wants up to
-- a tenth of the limit and at least one byte of it.
pub take_at-after :
    (uses : List Use) (now want start : ℕ) (later : List ℕ) (r : RateLimit)
    → r.bytes_per_second ≢ 0
    → r.refilled ≡ some start
    → All (IsBefore (start + tick)) uses
    → start + tick ≤ now
    → (take_at (now ∷ later) want (after uses r)).0
      ≡ some (min (max (r.bytes_per_second / 10) 1) want)
unfolding take_at
take_at-after uses now want start later r limited e h over =
    let (kept, same) = same_tick-after uses start r limited e h in
    let s : RateLimit = after uses r in
    let due : leb tick (since now s.refilled) ≡ true = rw kept (ground arith) in
    retried (take_at later want) (take_once now want s) _ (
      refilled_grants now want s (λ z. limited (sym same ∙ z)) due
      ∙ ap (λ b. some (min (max (b / 10) 1) want)) same)
