-- ===== src/Zlib/Writer.antt =====
-- `BitWriter` of soulseek-rs-lib/src/utils/zlib.rs. The bits that `|=` adds lie above those that are
-- held, so that the word is their sum.
pub mod Written
use soulseek_rs_lib.Base.{
  ℕ, zero, suc, ◌+◌, ◌-◌, ◌*◌, ◌/◌, ◌%◌, ◌^◌, List, [], ◌∷◌, ◌++◌, ltb, ◌==◌, if◌then◌else◌,
}
use soulseek_rs_lib.Bytes.{le_bytes}
use soulseek_rs_lib.Zlib.Inflate.{reversed}

pub record BitWriter : Type 0 where
  pub out : List ℕ
  pub bit : ℕ
  pub held : ℕ

abbrev pub new : BitWriter
new = record { out = 120 ∷ 1 ∷ []; bit = 0; held = 0 }

abbrev pub push_byte : BitWriter → BitWriter
push_byte w = record { out = w.out ++ (w.held % 256 ∷ []); bit = w.bit - 8; held = w.held / 256 }

-- The loop ends after as many rounds as there are whole bytes; there are no more of these than bits.
unfoldable pub flush : ℕ → BitWriter → BitWriter
flush zero w = w
flush (suc fuel) w = if ltb w.bit 8 then w else flush fuel (push_byte w)

abbrev pub hold : ℕ → ℕ → BitWriter → BitWriter
hold value count w = record w { held = w.held + value * 2 ^ w.bit; bit = w.bit + count }

-- Extra bits, least significant first.
unfoldable pub put : ℕ → ℕ → BitWriter → BitWriter
unfolding flush
put value count w = let next = hold value count w in flush next.bit next

-- A Huffman code, most significant bit first.
unfoldable pub code : ℕ → ℕ → BitWriter → BitWriter
unfolding put
code value zero w = w
code value (suc i) w = code value i (put (value / 2 ^ i % 2) 1 w)

abbrev pub padded : BitWriter → List ℕ
padded w = if w.bit == 0 then w.out else w.out ++ (w.held % 256 ∷ [])

abbrev pub be_bytes : ℕ → List ℕ
be_bytes v = reversed (le_bytes 4 v)

unfoldable pub finish : ℕ → BitWriter → List ℕ
finish trailer w = padded w ++ be_bytes trailer
