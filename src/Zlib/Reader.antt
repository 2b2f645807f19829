-- ===== src/Zlib/Reader.antt =====
-- `BitReader` of soulseek-rs-lib/src/utils/zlib.rs. Bytes and bits are numbers; a word that is put
-- together by `|=` from parts that do not overlap is their sum.
pub mod Stream
pub mod Safe
pub mod Decodes
use soulseek_rs_lib.Base.{
  ℕ, zero, suc, ◌+◌, ◌-◌, ◌*◌, ◌/◌, ◌%◌, Option, none, some, List, get_elem?, ◌==◌, if◌then◌else◌,
}
use soulseek_rs_lib.Zlib.Result.{InflateError, end_of_data, Result, done, refused, and_then}

pub record BitReader : Type 0 where
  pub mem : List ℕ
  pub pos : ℕ
  pub b : ℕ
  pub numbits : ℕ

abbrev pub new : List ℕ → BitReader
new mem = record { mem = mem; pos = 0; b = 0; numbits = 0 }

-- A computation that reads: it may fail, and leaves the reader further on.
abbrev pub Inflate {ℓ} : Type ℓ → Type ℓ
Inflate A = BitReader → Result (A × BitReader)

module _ {ℓ} {A : Type ℓ} where
  abbrev pub pure : A → Inflate A
  pure a r = done (a, r)

  abbrev pub fail : InflateError → Inflate A
  fail e r = refused e

module _ {ℓ κ} {A : Type ℓ} {B : Type κ} where
  infixl 5 ◌>>=◌
  abbrev pub ◌>>=◌ : Inflate A → (A → Inflate B) → Inflate B
  (p >>= f) r = and_then (p r) λ (a, s). f a s

  infixl 5 ◌>>◌
  abbrev pub ◌>>◌ : Inflate A → Inflate B → Inflate B
  (p >> q) r = and_then (p r) λ (_, s). q s

abbrev byte_from : Option ℕ → Inflate ℕ
byte_from none r = refused end_of_data
byte_from (some byte) r = done (byte, record r { pos = suc r.pos; numbits = 0 })

-- The unread bits of the byte before are discarded.
unfoldable pub read_byte : Inflate ℕ
read_byte r = byte_from (get_elem? r.mem r.pos) r

abbrev pub shift_out : BitReader → ℕ × BitReader
shift_out r = (r.b % 2, record r { b = r.b / 2; numbits = r.numbits - 1 })

abbrev pub loaded : ℕ → BitReader → BitReader
loaded byte r = record r { b = byte; numbits = 8 }

unfoldable pub read_bit : Inflate ℕ
unfolding read_byte
read_bit r =
    if r.numbits == 0
    then and_then (read_byte r) (λ (byte, s). done (shift_out (loaded byte s)))
    else done (shift_out r)

unfoldable pub read_bits : ℕ → Inflate ℕ
read_bits zero = pure 0
read_bits (suc n) = do bit ← read_bit; rest ← read_bits n; pure (bit + 2 * rest)

unfoldable pub read_bytes : ℕ → Inflate ℕ
read_bytes zero = pure 0
read_bytes (suc n) = do byte ← read_byte; rest ← read_bytes n; pure (byte + 256 * rest)
