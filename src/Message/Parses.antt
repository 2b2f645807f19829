-- ===== src/Message/Parses.antt =====
-- What the readers of message/mod.rs make of what its writers wrote, wherever it stands in a frame.
use soulseek_rs_lib.Base.{
  ℕ, ◌+◌, ◌-◌, ◌%◌, ◌^◌, ◌≤◌, ◌<◌, ◌≡◌, ◌∙◌, refl, ap, Bool, true, false, List, [], ◌∷◌, ◌++◌,
  length, get_elem?, take, drop, arith, if◌then◌else◌, leb, ◌==◌, append_assoc, append-nil,
  length-append, take-append, drop-append, get_elem?-append, le→ltb,
}
use soulseek_rs_lib.Base.Text.{Text}
use soulseek_rs_lib.Base.Outcome.{ok}
use soulseek_rs_lib.Bytes.{le_bytes, from_le, length-le_bytes, from_le-le_bytes}
use soulseek_rs_lib.Message.{
  Message, Read, byte_at, read_word, read_int8, read_int32, read_int64, read_bool, read_text,
  read_string, pure, ◌>>=◌,
}
use soulseek_rs_lib.Message.Utf8.{valid_utf8, decode_text}
use soulseek_rs_lib.Message.Index.{byte_at-eq, bytes_at-eq, slice-eq}

-- A message read up to the end of `pre`.
abbrev pub cursor : List ℕ → List ℕ → Message
cursor pre post = record { bytes = pre ++ post; pointer = length pre }

-- `p` reads `a` off the encoding `bs` and leaves the cursor behind it.
pub record Parses {ℓ} {A : Type ℓ} (p : Read A) (bs : List ℕ) (a : A) : Type ℓ where
  pub at : (pre rest : List ℕ) → p (cursor pre (bs ++ rest)) ≡ ok (a, cursor (pre ++ bs) rest)

-- The bytes behind the cursor.
window : (pre bs rest : List ℕ) → take (length bs) (drop (length pre) (pre ++ (bs ++ rest))) ≡ bs
window pre bs rest = rw (drop-append pre (bs ++ rest)) (take-append bs rest)

room : (pre bs rest : List ℕ) → length pre + length bs ≤ length (pre ++ (bs ++ rest))
room pre bs rest = rw (length-append pre (bs ++ rest), length-append bs rest) (omega arith)

-- Moving the cursor behind what was read.
advance :
    (pre bs rest : List ℕ) (n : ℕ)
    → length bs ≡ n
    → record (cursor pre (bs ++ rest)) { pointer = length pre + n } ≡ cursor (pre ++ bs) rest
advance pre bs rest n h = cc (append_assoc pre bs rest, length-append pre bs, h)

read_word-Parses :
    (bs : List ℕ) (width : ℕ) → length bs ≡ width → Parses (read_word width) bs (from_le bs)
unfolding read_word
read_word-Parses bs width h = record {
  at = λ pre rest.
      let fits : length pre + width ≤ length (pre ++ (bs ++ rest)) = rw (← h) (room pre bs rest) in
      rw (
        le→ltb (length (pre ++ (bs ++ rest))) (length pre + width) fits,
        bytes_at-eq width (pre ++ (bs ++ rest)) (length pre) fits,
        advance pre bs rest width h,
        ← h,
        window pre bs rest,
      );
}

pub read_int32-Parses : (v : ℕ) → v < 2 ^ 32 → Parses read_int32 (le_bytes 4 v) v
unfolding read_int32
read_int32-Parses v h =
    rw (from_le-le_bytes 4 v h) at (read_word-Parses (le_bytes 4 v) 4 (length-le_bytes 4 v))

pub read_int64-Parses : (v : ℕ) → v < 2 ^ 64 → Parses read_int64 (le_bytes 8 v) v
unfolding read_int64
read_int64-Parses v h =
    rw (from_le-le_bytes 8 v h) at (read_word-Parses (le_bytes 8 v) 8 (length-le_bytes 8 v))

-- One byte behind the cursor.
module _ (b : ℕ) (pre rest : List ℕ) where
  pub byte_room : leb (length (pre ++ (b ∷ rest))) (length pre) ≡ false
  byte_room = ground (arith, length-append pre (b ∷ rest))

  pub byte_window : byte_at (pre ++ (b ∷ rest)) (length pre) ≡ ok b
  byte_window =
      byte_at-eq (pre ++ (b ∷ rest)) (length pre) b
        (ap (get_elem? (pre ++ (b ∷ rest))) (omega arith) ∙ get_elem?-append pre (b ∷ rest) 0)

pub read_int8-Parses : (v : ℕ) → v < 2 ^ 8 → Parses read_int8 (le_bytes 1 v) v
unfolding read_int8 le_bytes
read_int8-Parses v h =
    let small : v % 256 ≡ v = omega arith in
    record {
      at = λ pre rest. rw (
        byte_room (v % 256) pre rest,
        byte_window (v % 256) pre rest,
        advance pre (v % 256 ∷ []) rest 1 refl,
        small,
      );
    }

pub read_bool-Parses : (v : Bool) → Parses read_bool ((if v then 1 else 0) ∷ []) v
unfolding read_bool
read_bool-Parses v = record {
  at = λ pre rest.
      let b : ℕ = if v then 1 else 0 in
      let reads : (b == 1) ≡ v = ground arith in
      rw (byte_room b pre rest, byte_window b pre rest, advance pre (b ∷ []) rest 1 refl, reads);
}

-- The bytes that `write_string` appends.
abbrev pub string_bytes : Text → List ℕ
string_bytes s = le_bytes 4 (length s % 2 ^ 32) ++ s

-- The texts that a length prefix can announce and that a Rust `String` can hold.
pub record IsText (s : Text) : Type 0 where
  pub short : length s < 2 ^ 32
  pub utf8 : valid_utf8 s ≡ true

read_text-eq :
    (m : Message) (start size : ℕ) (s : Text)
    → start + size ≤ length m.bytes
    → take size (drop start m.bytes) ≡ s
    → valid_utf8 s ≡ true
    → read_text start size m ≡ ok (s, record m { pointer = start + size })
unfolding read_text
read_text-eq m start size s fits body valid =
    let exact : start + size - start ≡ size = omega arith in
    rw
      (
        le→ltb (length m.bytes) (start + size) fits,
        slice-eq m.bytes start (start + size) (omega arith) fits,
        exact,
        body,
      )
      (unfold decode_text in rw valid)

-- What `write_string` wrote reads back, and so does every frame that contains it.
pub read_string-Parses : (s : Text) → IsText s → Parses read_string (string_bytes s) s
unfolding read_string
read_string-Parses s t = record { at = go }
  where
    prefix : List ℕ
    prefix = le_bytes 4 (length s % 2 ^ 32)

    four : length prefix ≡ 4
    four = length-le_bytes 4 (length s % 2 ^ 32)

    size : from_le prefix ≡ length s
    size = from_le-le_bytes 4 (length s % 2 ^ 32) (omega arith) ∙ (let h = t.short in omega arith)

    go :
        (pre rest : List ℕ)
        → read_string (cursor pre (string_bytes s ++ rest))
          ≡ ok (s, cursor (pre ++ string_bytes s) rest)
    go pre rest =
        let whole : List ℕ = pre ++ (string_bytes s ++ rest) in
        let split = append_assoc prefix s rest in
        let fits = room pre (string_bytes s) rest in
        let count = length-append prefix s in
        let head : take 4 (drop (length pre) whole) ≡ prefix =
          rw split (rw four at (window pre prefix (s ++ rest))) in
        let place : length pre + 4 ≡ length (pre ++ prefix) =
          omega (arith, length-append pre prefix, four) in
        let shape : whole ≡ (pre ++ prefix) ++ (s ++ rest) =
          cc (split, append_assoc pre prefix (s ++ rest)) in
        let body : take (length s) (drop (length pre + 4) whole) ≡ s =
          rw (place, shape) (window (pre ++ prefix) s rest) in
        let behind : length pre + 4 + length s ≡ length (pre ++ string_bytes s) =
          omega (arith, length-append pre (string_bytes s), count, four) in
        rw
          (
            le→ltb (length whole) (length pre + 4) (omega (arith, fits, count, four)),
            bytes_at-eq 4 whole (length pre) (omega (arith, fits, count, four)),
            head,
            size,
            read_text-eq (cursor pre (string_bytes s ++ rest)) (length pre + 4) (length s) s
                (omega (arith, fits, count, four)) body t.utf8,
          )
          (cc (append_assoc pre (string_bytes s) rest, behind))

module _ {ℓ} {A : Type ℓ} where
  pub pure-Parses : (a : A) → Parses (pure a) [] a
  pure-Parses a = record { at = λ pre rest. rw append-nil }

module _ {ℓ κ} {A : Type ℓ} {B : Type κ} where
  -- Two encodings in a row are read by two readers in a row.
  pub bind-Parses :
      (p : Read A) (f : A → Read B) {xs ys : List ℕ} {a : A} {b : B}
      → Parses p xs a
      → Parses (f a) ys b
      → Parses (p >>= f) (xs ++ ys) b
  bind-Parses p f {xs} {ys} hp hf = record {
    at = λ pre rest.
        rw (append_assoc xs ys rest, hp.at pre (ys ++ rest), hf.at (pre ++ xs) rest)
          (rw (append_assoc pre xs ys));
  }

  -- The last read of a sequence, whose value goes into the result.
  pub last-Parses :
      (p : Read A) (g : A → B) {xs : List ℕ} {a : A}
      → Parses p xs a
      → Parses (p >>= λ x. pure (g x)) xs (g a)
  last-Parses p g hp = record { at = λ pre rest. rw (hp.at pre rest) }

  -- The same, where the result is known by an equation.
  pub result-Parses :
      (p : Read A) (g : A → B) {xs : List ℕ} {a : A} {b : B}
      → Parses p xs a
      → g a ≡ b
      → Parses (p >>= λ x. pure (g x)) xs b
  result-Parses p g hp e = record { at = λ pre rest. rw (hp.at pre rest, e) }
