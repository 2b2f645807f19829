-- ===== src/Message/WellFormed.antt =====
-- Well-formed UTF-8 consists of bytes, and so does what the writers append.
use soulseek_rs_lib.Base.{
  ℕ, ◌<◌, ◌≡◌, true, false, Option, none, some, List, [], ◌∷◌, All, All-append, arith, length, ◌%◌,
  ◌^◌,
}
use soulseek_rs_lib.Base.Text.{Text}
use soulseek_rs_lib.Bytes.{IsByte, le_bytes, le_bytes-IsByte}
use soulseek_rs_lib.Message.Utf8.{Pending, lead_byte, utf8_step, utf8_from, valid_utf8}
use soulseek_rs_lib.Message.Parses.{string_bytes}
use soulseek_rs_lib.Message.Loop.{encode_all}

abbrev Accepts : ℕ → Option Pending → Type 0
Accepts b none = Unit
Accepts b (some q) = (b < 256) × (q.high < 256)

lead_byte-Accepts : (b : ℕ) → Accepts b (lead_byte b)
unfolding lead_byte
lead_byte-Accepts b = ground arith

utf8_step-Accepts : (p : Pending) (b : ℕ) → p.high < 256 → Accepts b (utf8_step p b)
unfolding utf8_step
utf8_step-Accepts p b h = ground (arith, lead_byte-Accepts b)

utf8_from-IsByte : (p : Pending) (bs : Text) → p.high < 256 → utf8_from p bs ≡ true → All IsByte bs
unfolding utf8_from
utf8_from-IsByte p [] h e = tt
utf8_from-IsByte p (b ∷ bs) h e =
    go (utf8_step p b) (utf8_step-Accepts p b h) (λ q. utf8_from-IsByte q bs) e
  where
    go :
        (o : Option Pending)
        → Accepts b o
        → ((q : Pending) → q.high < 256 → utf8_from q bs ≡ true → All IsByte bs)
        → (elim o [ none ↦ false | some q ↦ utf8_from q bs ]) ≡ true
        → All IsByte (b ∷ bs)
    go none a rest e = cc
    go (some q) (byte, high) rest e = (byte, rest q high e)

pub valid_utf8-IsByte : (s : Text) → valid_utf8 s ≡ true → All IsByte s
unfolding valid_utf8
valid_utf8-IsByte s e = utf8_from-IsByte _ s (omega arith) e

pub string_bytes-IsByte : (s : Text) → valid_utf8 s ≡ true → All IsByte (string_bytes s)
string_bytes-IsByte s e =
    All-append IsByte (le_bytes 4 (length s % 2 ^ 32)) s (le_bytes-IsByte 4 (length s % 2 ^ 32))
      (valid_utf8-IsByte s e)

pub encode_all-IsByte :
    {A : Type 0} (P : A → Type 0) (encode : A → List ℕ)
    → ((a : A) → P a → All IsByte (encode a))
    → (xs : List A) → All P xs
    → All IsByte (encode_all encode xs)
encode_all-IsByte P encode f [] h = tt
encode_all-IsByte P encode f (x ∷ xs) (h, hs) =
    All-append IsByte (encode x) (encode_all encode xs) (f x h) (encode_all-IsByte P encode f xs hs)
