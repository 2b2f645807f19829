-- ===== src/Zlib/Trailer.antt =====
-- The Adler-32 trailer: where it is read, and which trailers the check accepts.
use soulseek_rs_lib.Base.{
  ℕ, zero, suc, ◌+◌, ◌/◌, ◌%◌, ◌^◌, ◌<◌, ◌≡◌, refl, sym, ap, ◌∙◌, inl, inr, Bool-cases, some, List,
  [], ◌∷◌, ◌++◌, length, length-append, length-drop, drop, drop-append, get_elem?, All, arith, ◌==◌,
  ==_iff, if◌then◌else◌,
}
use soulseek_rs_lib.Base.Text.{text_eq, text_eq_iff}
use soulseek_rs_lib.Bytes.{IsByte, le_bytes, from_le}
use soulseek_rs_lib.Zlib.Result.{done, refused, adler_checksum}
use soulseek_rs_lib.Zlib.Reader.{BitReader, read_byte, read_bytes}
use soulseek_rs_lib.Zlib.Reader.Stream.{bits, bytes_bits, stream, Stands}
use soulseek_rs_lib.Zlib.Reader.Safe.{length-bits}
use soulseek_rs_lib.Zlib.Inflate.{adler_sums, adler32, swap_bytes, check_adler}
use soulseek_rs_lib.Zlib.Inflate.Total.{length-bytes_bits}
use soulseek_rs_lib.Zlib.Writer.{be_bytes}

adler_sums-lt :
    (a b : ℕ) (bytes : List ℕ)
    → a < 65_521
    → b < 65_521
    → ((adler_sums a b bytes).0 < 65_521) × ((adler_sums a b bytes).1 < 65_521)
unfolding adler_sums
adler_sums-lt a b [] h k = (h, k)
adler_sums-lt a b (x ∷ xs) h k =
    adler_sums-lt ((a + x) % 65_521) ((b + (a + x) % 65_521) % 65_521) xs (omega arith)
      (omega arith)

-- The checksum is a word of 32 bits.
pub adler32-lt : (bytes : List ℕ) → adler32 bytes < 2 ^ 32
unfolding adler32
adler32-lt bytes =
    let (h, k) = adler_sums-lt 1 0 bytes (omega arith) (omega arith) in omega (arith, h, k)

swap_four :
    (a b c d : ℕ)
    → a < 256
    → b < 256
    → c < 256
    → d < 256
    → swap_bytes (from_le (a ∷ b ∷ c ∷ d ∷ [])) ≡ from_le (d ∷ c ∷ b ∷ a ∷ [])
unfolding swap_bytes from_le le_bytes
swap_four a b c d h i j k = omega arith

same_four :
    (v a b c d : ℕ)
    → a < 256
    → b < 256
    → c < 256
    → d < 256
    → from_le (d ∷ c ∷ b ∷ a ∷ []) ≡ v
    → be_bytes v ≡ a ∷ b ∷ c ∷ d ∷ []
unfolding from_le le_bytes
same_four v a b c d h i j k e =
    let e0 : v % 256 ≡ d = omega arith in
    let e1 : v / 256 % 256 ≡ c = omega arith in
    let e2 : v / 256 / 256 % 256 ≡ b = omega arith in
    let e3 : v / 256 / 256 / 256 % 256 ≡ a = omega arith in rw (e0, e1, e2, e3) refl

from_be : (v : ℕ) → v < 2 ^ 32 → swap_bytes (from_le (be_bytes v)) ≡ v
unfolding swap_bytes from_le le_bytes
from_be v h = omega arith

module _ (a b c d : ℕ) (bytes : All IsByte (a ∷ b ∷ c ∷ d ∷ [])) where
  same_test :
      (v : ℕ)
      → v < 2 ^ 32
      → (swap_bytes (from_le (a ∷ b ∷ c ∷ d ∷ [])) == v) ≡ text_eq (a ∷ b ∷ c ∷ d ∷ []) (be_bytes v)
  same_test v small =
      let (h, (i, (j, (k, end)))) = bytes in
      let swapped = swap_four a b c d h i j k in
      elim (Bool-cases (text_eq (a ∷ b ∷ c ∷ d ∷ []) (be_bytes v))) [
        | inl e ↦
            let t = (text_eq_iff (a ∷ b ∷ c ∷ d ∷ []) (be_bytes v)).0 e in
            (==_iff (swap_bytes (from_le (a ∷ b ∷ c ∷ d ∷ []))) v).1
              (ap (λ t. swap_bytes (from_le t)) t ∙ from_be v small)
            ∙ sym e
        | inr e ↦ elim (Bool-cases (swap_bytes (from_le (a ∷ b ∷ c ∷ d ∷ [])) == v)) [
          | inr f ↦ f ∙ sym e
          | inl f ↦
              let g : from_le (d ∷ c ∷ b ∷ a ∷ []) ≡ v =
                sym swapped ∙ (==_iff (swap_bytes (from_le (a ∷ b ∷ c ∷ d ∷ []))) v).0 f in
              f
              ∙ sym (
                  (text_eq_iff (a ∷ b ∷ c ∷ d ∷ []) (be_bytes v)).1
                    (sym (same_four v a b c d h i j k g)))
        ]
      ]

  -- The check of a trailer of four bytes accepts the big-endian checksum only.
  pub check_adler-text_eq :
      (out : List ℕ) (r : BitReader)
      → check_adler out (from_le (a ∷ b ∷ c ∷ d ∷ [])) r ≡ (
          if text_eq (a ∷ b ∷ c ∷ d ∷ []) (be_bytes (adler32 out))
          then done (out, r)
          else refused adler_checksum)
  check_adler-text_eq out r =
      let test = same_test (adler32 out) (adler32-lt out) in
      elim (Bool-cases (text_eq (a ∷ b ∷ c ∷ d ∷ []) (be_bytes (adler32 out)))) [
        | inl e ↦ rw (test, e) refl
        | inr e ↦ rw (test, e) refl
      ]

read_bytes-at :
    (bs : List ℕ) (r : BitReader)
    → drop r.pos r.mem ≡ bs
    → (s : BitReader) × (read_bytes (length bs) r ≡ done (from_le bs, s))
unfolding read_bytes read_byte from_le
read_bytes-at [] r h = (r, refl)
read_bytes-at (b ∷ bs) r h =
    let at : get_elem? r.mem r.pos ≡ some b = get-drop r.mem r.pos b bs h in
    let (s, rest) =
      read_bytes-at bs (record r { pos = suc r.pos; numbits = 0 }) (behind r.mem r.pos b bs h) in
    (s, rw (at, rest) refl)
  where
    get-drop : (xs : List ℕ) (i b : ℕ) (bs : List ℕ) → drop i xs ≡ b ∷ bs → get_elem? xs i ≡ some b
    get-drop [] zero b bs h = cc
    get-drop [] (suc i) b bs h = cc
    get-drop (x ∷ xs) zero b bs h = cc
    get-drop (x ∷ xs) (suc i) b bs h = get-drop xs i b bs h

    behind : (xs : List ℕ) (i b : ℕ) (bs : List ℕ) → drop i xs ≡ b ∷ bs → drop (suc i) xs ≡ bs
    behind [] zero b bs h = cc
    behind [] (suc i) b bs h = cc
    behind (x ∷ xs) zero b bs h = cc
    behind (x ∷ xs) (suc i) b bs h = behind xs i b bs h

-- Behind the padding of the last byte, the reader stands before the bytes of the trailer.
Stands-before :
    (front trailer pad : List ℕ) (s : BitReader)
    → length pad < 8
    → 0 < length trailer
    → Stands (front ++ trailer) (pad ++ bytes_bits trailer) s
    → drop s.pos s.mem ≡ trailer
Stands-before front trailer pad s short some_left h =
    let all : length (stream s) ≡ length (pad ++ bytes_bits trailer) = ap length h.ahead in
    let size : length s.mem ≡ length (front ++ trailer) = ap length h.source in
    let at : s.pos ≡ length front = omega (
      arith,
      all,
      size,
      h.few,
      length-append (bits s.numbits s.b) (bytes_bits (drop s.pos s.mem)),
      length-bits s.numbits s.b,
      length-bytes_bits (drop s.pos s.mem),
      length-append pad (bytes_bits trailer),
      length-bytes_bits trailer,
      length-append front trailer,
      length-drop s.pos s.mem,
    ) in
    ap (λ n. drop n s.mem) at ∙ ap (drop (length front)) h.source ∙ drop-append front trailer

-- The trailer is read as the bytes that stand behind the padding.
pub read_bytes-trailer :
    (front trailer pad : List ℕ) (s : BitReader)
    → length pad < 8
    → 0 < length trailer
    → Stands (front ++ trailer) (pad ++ bytes_bits trailer) s
    → (t : BitReader) × (read_bytes (length trailer) s ≡ done (from_le trailer, t))
read_bytes-trailer front trailer pad s short some_left h =
    read_bytes-at trailer s (Stands-before front trailer pad s short some_left h)
