-- ===== src/Base/Int.antt =====
-- Signed integers over the native numbers, and the casts between `i32` and `u32`.
use soulseek_rs_lib.Base.{ℕ, ◌-◌, ◌%◌, ◌^◌, ◌<◌, ◌≡◌, Option, none, some, arith, ltb, if◌then◌else◌}

-- `negsuc n` is -(n + 1).
pub data ℤ : Type 0 where
  pos : ℕ → ℤ
  negsuc : ℕ → ℤ

-- `w as i32` of a `u32`
unfoldable pub signed32 : ℕ → ℤ
signed32 w = if ltb w (2 ^ 31) then pos w else negsuc (2 ^ 32 - w - 1)

-- `i as u32` of an `i32`
unfoldable pub unsigned32 : ℤ → ℕ
unsigned32 (pos n) = n % 2 ^ 32
unsigned32 (negsuc n) = 2 ^ 32 - 1 - n % 2 ^ 32

-- `u32::try_from(i).ok()`
unfoldable pub u32_from : ℤ → Option ℕ
u32_from (pos n) = some n
u32_from (negsuc n) = none

-- The integers that an `i32` holds.
abbrev pub IsI32 : ℤ → Type 0
IsI32 (pos n) = n < 2 ^ 31
IsI32 (negsuc n) = n < 2 ^ 31

pub signed32-unsigned32 : (i : ℤ) → IsI32 i → signed32 (unsigned32 i) ≡ i
unfolding signed32 unsigned32
signed32-unsigned32 (pos n) h = ground arith
signed32-unsigned32 (negsuc n) h = ground arith

pub unsigned32-lt : (i : ℤ) → unsigned32 i < 2 ^ 32
unfolding unsigned32
unsigned32-lt (pos n) = omega arith
unsigned32-lt (negsuc n) = omega arith
