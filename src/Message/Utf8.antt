-- ===== src/Message/Utf8.antt =====
-- `String::from_utf8` with the byte-per-character fallback of `Message::read_string`
-- (soulseek-rs-lib/src/message/mod.rs). `valid_utf8` is the standard library's check: the table of
-- well-formed byte sequences of the Unicode standard, read as an automaton.
use soulseek_rs_lib.Base.{
  ℕ, ◌+◌, ◌-◌, ◌/◌, ◌%◌, ◌≡◌, refl, ◌∙◌, ◌<◌, Bool, true, false, ◌&&◌, Option, none, some, List, [],
  ◌∷◌, All, arith, ltb, leb, ◌==◌, if◌then◌else◌,
}
use soulseek_rs_lib.Base.Text.{Text}
use soulseek_rs_lib.Bytes.{IsByte}

-- How many continuation bytes are due, and the range of the next one.
pub record Pending : Type 0 where
  pub due : ℕ
  pub low : ℕ
  pub high : ℕ

abbrev pub between_characters : Pending
between_characters = record { due = 0; low = 0x80; high = 0xBF }

abbrev expect : ℕ → ℕ → ℕ → Option Pending
expect due low high = some (record { due = due; low = low; high = high })

unfoldable pub lead_byte : ℕ → Option Pending
lead_byte b =
    if ltb b 0x80
    then expect 0 0x80 0xBF
    else if ltb b 0xC2
    then none
    else if ltb b 0xE0
    then expect 1 0x80 0xBF
    else if b == 0xE0
    then expect 2 0xA0 0xBF
    else if b == 0xED
    then expect 2 0x80 0x9F
    else if ltb b 0xF0
    then expect 2 0x80 0xBF
    else if b == 0xF0
    then expect 3 0x90 0xBF
    else if ltb b 0xF4
    then expect 3 0x80 0xBF
    else if b == 0xF4
    then expect 3 0x80 0x8F
    else none

unfoldable pub utf8_step : Pending → ℕ → Option Pending
unfolding lead_byte
utf8_step p b =
    if p.due == 0
    then lead_byte b
    else if leb p.low b && leb b p.high
    then expect (p.due - 1) 0x80 0xBF
    else none

unfoldable pub utf8_from : Pending → Text → Bool
unfolding utf8_step
utf8_from p [] = p.due == 0
utf8_from p (b ∷ bs) = elim (utf8_step p b) [ none ↦ false | some q ↦ utf8_from q bs ]

unfoldable pub valid_utf8 : Text → Bool
unfolding utf8_from
valid_utf8 s = utf8_from between_characters s

-- `b as char`, pushed to a `String`: the code points below 256 take one byte or two.
unfoldable pub push_latin1 : ℕ → Text → Text
push_latin1 b rest = if ltb b 0x80 then b ∷ rest else (0xC0 + b / 64) ∷ (0x80 + b % 64) ∷ rest

unfoldable pub from_latin1 : List ℕ → Text
unfolding push_latin1
from_latin1 [] = []
from_latin1 (b ∷ bs) = push_latin1 b (from_latin1 bs)

unfoldable pub decode_text : List ℕ → Text
unfolding valid_utf8 from_latin1
decode_text bs = if valid_utf8 bs then bs else from_latin1 bs

-- One character of the fallback leaves the automaton between characters.
utf8_from-push_latin1 :
    (b : ℕ) (rest : Text)
    → b < 256
    → utf8_from between_characters (push_latin1 b rest) ≡ utf8_from between_characters rest
unfolding utf8_from push_latin1
utf8_from-push_latin1 b rest h = ground arith

pub from_latin1-valid :
    (bs : List ℕ) → All IsByte bs → utf8_from between_characters (from_latin1 bs) ≡ true
unfolding from_latin1
from_latin1-valid [] h = unfold utf8_from in refl
from_latin1-valid (b ∷ bs) h =
    utf8_from-push_latin1 b (from_latin1 bs) h.0 ∙ from_latin1-valid bs h.1

-- Whatever the bytes, what `read_string` hands on is well-formed UTF-8.
pub decode_text-valid : (bs : List ℕ) → All IsByte bs → valid_utf8 (decode_text bs) ≡ true
unfolding decode_text
decode_text-valid bs h = ground (arith, from_latin1-valid bs h)
