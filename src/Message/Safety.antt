-- ===== src/Message/Safety.antt =====
-- `read_string` on the bytes of an untrusted peer.
use soulseek_rs_lib.Base.{
  ℕ, zero, suc, ◌+◌, ◌-◌, ◌≤◌, ◌≡◌, refl, true, inl, inr, List, [], ◌∷◌, length, take, drop, All,
  arith, Bool-cases, ltb,
}
use soulseek_rs_lib.Base.Text.{Text}
use soulseek_rs_lib.Base.Outcome.{Outcome, ok, panic}
use soulseek_rs_lib.Bytes.{IsByte}
use soulseek_rs_lib.Message.{Message, read_text, read_string}
use soulseek_rs_lib.Message.Utf8.{valid_utf8, decode_text-valid}
use soulseek_rs_lib.Message.Index.{bytes_at-eq, slice-eq}

take-IsByte : (n : ℕ) (bs : List ℕ) → All IsByte bs → All IsByte (take n bs)
take-IsByte zero bs h = tt
take-IsByte (suc n) [] h = tt
take-IsByte (suc n) (b ∷ bs) h = (h.0, take-IsByte n bs h.1)

drop-IsByte : (n : ℕ) (bs : List ℕ) → All IsByte bs → All IsByte (drop n bs)
drop-IsByte zero bs h = h
drop-IsByte (suc n) [] h = tt
drop-IsByte (suc n) (b ∷ bs) h = drop-IsByte n bs h.1

-- The read returned a well-formed text, left the bytes, and its pointer is within the message.
abbrev pub ReadsText : Message → Outcome (Text × Message) → Type 0
ReadsText m (ok (s, n)) = (valid_utf8 s ≡ true) × (n.bytes ≡ m.bytes) × (n.pointer ≤ length m.bytes)
ReadsText m panic = ⊥

empty-valid : valid_utf8 [] ≡ true
unfolding valid_utf8
empty-valid = refl

read_text-valid :
    (m : Message) (start size : ℕ) → All IsByte m.bytes → ReadsText m (read_text start size m)
unfolding read_text
read_text-valid m start size h = ground (
  arith,
  empty-valid,
  slice-eq m.bytes start (start + size),
  decode_text-valid (take (start + size - start) (drop start m.bytes))
      (take-IsByte (start + size - start) (drop start m.bytes) (drop-IsByte start m.bytes h)),
)

-- Whatever bytes the message holds and wherever its pointer stands, reading a string does not
-- panic, gives well-formed UTF-8, and leaves the pointer within the message.
pub read_string-valid : (m : Message) → All IsByte m.bytes → ReadsText m (read_string m)
unfolding read_string
read_string-valid m h = elim (Bool-cases (ltb (length m.bytes) (m.pointer + 4))) [
  | inl short ↦ rw short (empty-valid, refl, omega arith)
  | inr long ↦
      rw (long, bytes_at-eq 4 m.bytes m.pointer (ground arith))
        (read_text-valid m (m.pointer + 4) _ h)
]
