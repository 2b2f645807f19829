-- ===== src/Message/Local.antt =====
-- What the readers of message/mod.rs give depends on the bytes behind the pointer alone, not on what
-- was read before.
use soulseek_rs_lib.Base.{
  ℕ, suc, ◌+◌, ◌-◌, ◌≤◌, ◌≡◌, refl, sym, ap, ◌∙◌, inl, inr, Bool, true, false, Bool-cases, List, [],
  ◌∷◌, ◌++◌, length, take, drop, arith, ltb, leb, if◌then◌else◌, append_assoc, append-nil,
  length-append, length-take, take-append-drop, drop-append,
}
use soulseek_rs_lib.Base.Outcome.{ok}
use soulseek_rs_lib.Bytes.{from_le}
use soulseek_rs_lib.Message.{
  Read, read_word, read_int8, read_int32, read_text, read_string, pure, ◌>>=◌,
}
use soulseek_rs_lib.Message.Index.{bytes_at-eq, slice-eq}
use soulseek_rs_lib.Message.Utf8.{decode_text}
use soulseek_rs_lib.Message.Parses.{cursor, byte_room, byte_window}

-- On `tail`, wherever it stands: the value read, the bytes passed, and those left.
pub record Reads {ℓ} {A : Type ℓ} (p : Read A) (tail : List ℕ) : Type ℓ where
  pub value : A
  pub passed : List ℕ
  pub left : List ℕ
  pub whole : tail ≡ passed ++ left
  pub at : (pre : List ℕ) → p (cursor pre tail) ≡ ok (value, cursor (pre ++ passed) left)

abbrev pub IsLocal {ℓ} : {A : Type ℓ} → Read A → Type ℓ
IsLocal p = (tail : List ℕ) → Reads p tail

-- The cursor `k` bytes further.
cursor-on :
    (pre tail : List ℕ) (k : ℕ)
    → k ≤ length tail
    → record (cursor pre tail) { pointer = length pre + k }
      ≡ cursor (pre ++ take k tail) (drop k tail)
cursor-on pre tail k h =
    let size : length (pre ++ take k tail) ≡ length pre + k =
      omega (arith, length-append pre (take k tail), length-take k tail) in
    rw (size, append_assoc pre (take k tail) (drop k tail), take-append-drop k tail) refl

drop-past : (pre xs : List ℕ) (n : ℕ) → drop (length pre + n) (pre ++ xs) ≡ drop n xs
drop-past [] xs n = ap (λ k. drop k xs) (omega arith)
drop-past (x ∷ pre) xs n =
    let next : suc (length pre) + n ≡ suc (length pre + n) = omega arith in
    rw next (drop-past pre xs n)

module _ {ℓ} {A : Type ℓ} where
  pub pure-IsLocal : (a : A) → IsLocal (pure a)
  pure-IsLocal a tail = record {
    value = a;
    passed = [];
    left = tail;
    whole = refl;
    at = λ pre. rw append-nil;
  }

  pub if-IsLocal : (t : Bool) (p q : Read A) → IsLocal p → IsLocal q → IsLocal (if t then p else q)
  if-IsLocal true p q hp hq = hp
  if-IsLocal false p q hp hq = hq

module _ {ℓ κ} {A : Type ℓ} {B : Type κ} where
  pub bind-IsLocal :
      (p : Read A) (f : A → Read B) → IsLocal p → ((a : A) → IsLocal (f a)) → IsLocal (p >>= f)
  bind-IsLocal p f hp hf tail =
      let first = hp tail in
      let next = hf first.value first.left in
      record {
        value = next.value;
        passed = first.passed ++ next.passed;
        left = next.left;
        whole =
            first.whole
            ∙ ap (λ t. first.passed ++ t) next.whole
            ∙ sym (append_assoc first.passed next.passed next.left);
        at = λ pre.
            rw (first.at pre, next.at (pre ++ first.passed))
              (rw (append_assoc pre first.passed next.passed));
      }

read_word-IsLocal : (width : ℕ) → IsLocal (read_word width)
unfolding read_word
read_word-IsLocal width tail = elim (Bool-cases (ltb (length tail) width)) [
  | inl short ↦ record {
    value = 0;
    passed = [];
    left = tail;
    whole = refl;
    at = λ pre.
        let outside : ltb (length (pre ++ tail)) (length pre + width) ≡ true =
          ground (arith, length-append pre tail) in
        rw (outside, append-nil) refl;
  }
  | inr long ↦ record {
    value = from_le (take width tail);
    passed = take width tail;
    left = drop width tail;
    whole = sym (take-append-drop width tail);
    at = λ pre.
        let inside : ltb (length (pre ++ tail)) (length pre + width) ≡ false =
          ground (arith, length-append pre tail) in
        let enough : width ≤ length tail = ground arith in
        rw
          (
            inside,
            bytes_at-eq width (pre ++ tail) (length pre)
                (omega (arith, length-append pre tail, enough)),
            drop-append pre tail,
          )
          (ap (λ m. ok (from_le (take width tail), m)) (cursor-on pre tail width enough));
  }
]

pub read_int32-IsLocal : IsLocal read_int32
unfolding read_int32
read_int32-IsLocal = read_word-IsLocal 4

pub read_int8-IsLocal : IsLocal read_int8
unfolding read_int8
read_int8-IsLocal [] = record {
  value = 0;
  passed = [];
  left = [];
  whole = refl;
  at = λ pre.
      let outside : leb (length (pre ++ [])) (length pre) ≡ true =
        ground (arith, length-append pre []) in
      rw (outside, append-nil pre, append-nil pre) refl;
}
read_int8-IsLocal (b ∷ rest) = record {
  value = b;
  passed = b ∷ [];
  left = rest;
  whole = refl;
  at = λ pre.
      rw (byte_room b pre rest, byte_window b pre rest)
        (ap (λ m. ok (b, m)) (cursor-on pre (b ∷ rest) 1 (omega arith)));
}

-- A text whose prefix or body is cut off moves the pointer to the end.
to_end :
    (pre tail : List ℕ)
    → record (cursor pre tail) { pointer = length (pre ++ tail) } ≡ cursor (pre ++ tail) []
to_end pre tail = rw (append-nil (pre ++ tail)) refl

pub read_string-IsLocal : IsLocal read_string
unfolding read_string read_text
read_string-IsLocal tail = elim (Bool-cases (ltb (length tail) 4)) [
  | inl short ↦ cut (λ pre.
      let outside : ltb (length (pre ++ tail)) (length pre + 4) ≡ true =
        ground (arith, length-append pre tail) in
      rw outside (ap (λ m. ok ([], m)) (to_end pre tail)))
  | inr long ↦ elim (Bool-cases (ltb (length tail) (4 + size))) [
    | inl short ↦ cut (λ pre.
        let outside : ltb (length (pre ++ tail)) (length pre + 4 + size) ≡ true =
          ground (arith, length-append pre tail) in
        prefixed pre (ground arith) ∙ rw outside (ap (λ m. ok ([], m)) (to_end pre tail)))
    | inr enough ↦ record {
      value = decode_text (take size (drop 4 tail));
      passed = take (4 + size) tail;
      left = drop (4 + size) tail;
      whole = sym (take-append-drop (4 + size) tail);
      at = λ pre. prefixed pre (ground arith) ∙ body pre (ground arith);
    }
  ]
]
  where
    size : ℕ
    size = from_le (take 4 tail)

    cut :
        ((pre : List ℕ) → read_string (cursor pre tail) ≡ ok ([], cursor (pre ++ tail) []))
        → Reads read_string tail
    cut h = record { value = []; passed = tail; left = []; whole = sym (append-nil tail); at = h }

    prefixed :
        (pre : List ℕ)
        → 4 ≤ length tail
        → read_string (cursor pre tail) ≡ read_text (length pre + 4) size (cursor pre tail)
    prefixed pre h =
        let inside : ltb (length (pre ++ tail)) (length pre + 4) ≡ false =
          ground (arith, length-append pre tail) in
        rw
          (
            inside,
            bytes_at-eq 4 (pre ++ tail) (length pre) (omega (arith, length-append pre tail, h)),
            drop-append pre tail,
          )
          refl

    body :
        (pre : List ℕ)
        → 4 + size ≤ length tail
        → read_text (length pre + 4) size (cursor pre tail)
          ≡ ok (
            decode_text (take size (drop 4 tail)),
            cursor (pre ++ take (4 + size) tail) (drop (4 + size) tail),
          )
    body pre h =
        let start : ℕ = length pre + 4 in
        let inside : ltb (length (pre ++ tail)) (start + size) ≡ false =
          ground (arith, length-append pre tail) in
        let span : start + size - start ≡ size = omega arith in
        let place : start + size ≡ length pre + (4 + size) = omega arith in
        rw
          (
            inside,
            slice-eq (pre ++ tail) start (start + size) (omega arith)
                (omega (arith, length-append pre tail, h)),
            span,
            drop-past pre tail 4,
            place,
          )
          (ap (λ m. ok (decode_text (take size (drop 4 tail)), m))
            (cursor-on pre tail (4 + size) h))
