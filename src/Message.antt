-- ===== src/Message.antt =====
-- soulseek-rs-lib/src/message/mod.rs: a frame's bytes with a read position. A reader that indexes
-- out of range panics; `Message.Total` shows that none of them does. Positions and lengths are
-- `usize`, and stay far below 2 ^ 64, since a `Vec` holds at most 2 ^ 63 - 1 bytes.
pub mod Utf8
pub mod Index
pub mod Total
pub mod Parses
pub mod Writes
pub mod Loop
pub mod WellFormed
pub mod Safety
pub mod RoundTrip
pub mod Local
mod Tests
use soulseek_rs_lib.Base.{
  ℕ, zero, suc, ◌+◌, ◌-◌, ◌%◌, ◌^◌, ◌≤◌, Bool, true, false, ◌&&◌, Option, none, some, List, [], ◌∷◌,
  ◌++◌, length, get_elem?, take, drop, ltb, leb, ◌==◌, if◌then◌else◌,
}
use soulseek_rs_lib.Base.Text.{Text}
use soulseek_rs_lib.Base.Outcome.{Outcome, ok, panic, and_then}
use soulseek_rs_lib.Bytes.{le_bytes, from_le}
use Utf8.{decode_text}

pub record Message : Type 0 where
  pub bytes : List ℕ
  pub pointer : ℕ

abbrev pub new : Message
new = record { bytes = []; pointer = 0 }

abbrev pub new_with_data : List ℕ → Message
new_with_data bytes = record { bytes = bytes; pointer = 0 }

abbrev pub set_pointer : ℕ → Message → Message
set_pointer pointer m = record m { pointer = pointer }

abbrev pub get_pointer : Message → ℕ
get_pointer m = m.pointer

abbrev pub get_data : Message → List ℕ
get_data m = m.bytes

abbrev pub get_size : Message → ℕ
get_size m = length m.bytes

unfoldable pub get_message_code : Message → ℕ
get_message_code m = if ltb (length m.bytes) 8 then 0 else from_le (take 4 (drop 4 m.bytes))

unfoldable pub get_init_code : Message → ℕ
get_init_code m = elim (get_elem? m.bytes 4) [ none ↦ 0 | some b ↦ b ]

-- `data[i]`
unfoldable pub byte_at : List ℕ → ℕ → Outcome ℕ
byte_at bytes i = elim (get_elem? bytes i) [ none ↦ panic | some b ↦ ok b ]

-- `[data[i], data[i + 1], …]`, `count` of them
unfoldable pub bytes_at : ℕ → List ℕ → ℕ → Outcome (List ℕ)
unfolding byte_at
bytes_at zero bytes i = ok []
bytes_at (suc count) bytes i =
    and_then (byte_at bytes i) λ b. and_then (bytes_at count bytes (i + 1)) λ bs. ok (b ∷ bs)

-- `data[from..to]`
unfoldable pub slice : List ℕ → ℕ → ℕ → Outcome (List ℕ)
slice bytes from to =
    if leb from to && leb to (length bytes) then ok (take (to - from) (drop from bytes)) else panic

unfoldable pub get_slice : Message → ℕ → ℕ → Outcome (List ℕ)
unfolding slice
get_slice m from to = slice m.bytes from to

unfoldable pub get_buffer : Message → List ℕ
get_buffer m = le_bytes 4 (length m.bytes % 2 ^ 32) ++ m.bytes

-- A method that reads from `&mut self`: the value and the message after it.
abbrev pub Read {ℓ} : Type ℓ → Type ℓ
Read A = Message → Outcome (A × Message)

module _ {ℓ} {A : Type ℓ} where
  abbrev pub pure : A → Read A
  pure a m = ok (a, m)

module _ {ℓ κ} {A : Type ℓ} {B : Type κ} where
  infixl 5 ◌>>=◌ ◌>>◌
  abbrev pub ◌>>=◌ : Read A → (A → Read B) → Read B
  ◌>>=◌ p f m = and_then (p m) λ (a, n). f a n

  abbrev pub ◌>>◌ : Read A → Read B → Read B
  p >> q = p >>= λ _. q

-- A little-endian word of `width` bytes; short input reads as 0 and leaves the pointer.
unfoldable pub read_word : ℕ → Read ℕ
unfolding bytes_at
read_word width m =
    if ltb (length m.bytes) (m.pointer + width)
    then ok (0, m)
    else and_then (bytes_at width m.bytes m.pointer)
        λ bs. ok (from_le bs, record m { pointer = m.pointer + width })

unfoldable pub read_int32 : Read ℕ
unfolding read_word
read_int32 m = read_word 4 m

unfoldable pub read_int64 : Read ℕ
unfolding read_word
read_int64 m = read_word 8 m

unfoldable pub read_int8 : Read ℕ
unfolding byte_at
read_int8 m =
    if leb (length m.bytes) m.pointer
    then ok (0, m)
    else and_then (byte_at m.bytes m.pointer) λ b. ok (b, record m { pointer = m.pointer + 1 })

unfoldable pub read_bool : Read Bool
unfolding byte_at
read_bool m =
    if leb (length m.bytes) m.pointer
    then ok (false, m)
    else and_then (byte_at m.bytes m.pointer) λ b. ok (b == 1, record m { pointer = m.pointer + 1 })

-- The body of a string whose length prefix said `size`, read from `start`.
unfoldable pub read_text : ℕ → ℕ → Read Text
unfolding slice decode_text
read_text start size m =
    if ltb (length m.bytes) (start + size)
    then ok ([], record m { pointer = length m.bytes })
    else and_then (slice m.bytes start (start + size))
        λ bs. ok (decode_text bs, record m { pointer = start + size })

unfoldable pub read_string : Read Text
unfolding bytes_at read_text
read_string m =
    if ltb (length m.bytes) (m.pointer + 4)
    then ok ([], record m { pointer = length m.bytes })
    else and_then (bytes_at 4 m.bytes m.pointer) λ bs. read_text (m.pointer + 4) (from_le bs) m

unfoldable pub write_raw_bytes : List ℕ → Message → Message
write_raw_bytes value m = record m { bytes = m.bytes ++ value }

unfoldable pub write_string : Text → Message → Message
unfolding write_raw_bytes
write_string val m = write_raw_bytes val (write_raw_bytes (le_bytes 4 (length val % 2 ^ 32)) m)

unfoldable pub write_int8 : ℕ → Message → Message
unfolding write_raw_bytes
write_int8 value m = write_raw_bytes (le_bytes 1 value) m

unfoldable pub write_int32 : ℕ → Message → Message
unfolding write_raw_bytes
write_int32 value m = write_raw_bytes (le_bytes 4 value) m

unfoldable pub write_int64 : ℕ → Message → Message
unfolding write_raw_bytes
write_int64 value m = write_raw_bytes (le_bytes 8 value) m

unfoldable pub write_bool : Bool → Message → Message
unfolding write_raw_bytes
write_bool value m = write_raw_bytes ((if value then 1 else 0) ∷ []) m
