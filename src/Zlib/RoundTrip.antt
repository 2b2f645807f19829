-- ===== src/Zlib/RoundTrip.antt =====
-- Deflating and inflating again.
pub mod Streams
use soulseek_rs_lib.Base.{
  ℕ, zero, suc, ◌+◌, ◌-◌, ◌*◌, ◌%◌, ◌/◌, ◌^◌, ◌≤◌, ◌<◌, ◌≡◌, refl, sym, ap, subst, ◌∙◌, inl, inr,
  Bool, true, false, Bool-cases, List, [], ◌∷◌, ◌++◌, append_assoc, take, length, length-append,
  take-append, All, arith, ltb, ltb→lt, ◌==◌, if◌then◌else◌,
}
use soulseek_rs_lib.Base.Text.{text_eq, text_eq_refl}
use soulseek_rs_lib.Bytes.{IsByte, le_bytes, le_bytes-IsByte, from_le}
use soulseek_rs_lib.Zlib.Result.{Result, done, refused, too_big, adler_checksum, and_then}
use soulseek_rs_lib.Zlib.Reader.{BitReader, new, read_byte, read_bytes}
use soulseek_rs_lib.Zlib.Reader.Stream.{bits, bytes_bits, stream, Stands}
use soulseek_rs_lib.Zlib.Inflate.{
  adler32, all_blocks, check_adler, inflate_stream, inflate_limited, outcome,
}
use soulseek_rs_lib.Zlib.Writer.{be_bytes}
use soulseek_rs_lib.Zlib.Writer.Written.{bytes_bits-append}
use soulseek_rs_lib.Zlib.Deflate.{deflate}
use soulseek_rs_lib.Zlib.Blocks.{block_bits, all_blocks-Ends}
use soulseek_rs_lib.Zlib.Trailer.{check_adler-text_eq, read_bytes-trailer}
use soulseek_rs_lib.Zlib.RoundTrip.Streams.{IsDeflated, deflate-IsDeflated}

-- What a stream for `bytes` with the trailer `t` has to come to.
abbrev pub verdict : ℕ → List ℕ → List ℕ → Result (List ℕ)
verdict max_out bytes t =
    if ltb max_out (length bytes)
    then refused too_big
    else if text_eq t (be_bytes (adler32 bytes))
    then done bytes
    else refused adler_checksum

-- Behind the header.
abbrev behind_header : List ℕ → BitReader
behind_header mem = record { mem = mem; pos = 2; b = 0; numbits = 0 }

inflate_limited-header :
    (max_out : ℕ) (rest : List ℕ)
    → inflate_limited (120 ∷ 1 ∷ rest) max_out
      ≡ outcome (
          and_then
            (all_blocks max_out (behind_header (120 ∷ 1 ∷ rest)))
            λ (out, s). and_then (read_bytes 4 s) λ (trailer, u). check_adler out trailer u)
unfolding inflate_limited inflate_stream read_byte
inflate_limited-header max_out rest = refl

Stands-behind_header :
    (body pad ys t : List ℕ)
    → bytes_bits body ≡ ys ++ pad
    → Stands
        (120 ∷ 1 ∷ (body ++ t))
        (ys ++ (pad ++ bytes_bits t))
        (behind_header (120 ∷ 1 ∷ (body ++ t)))
unfolding bits
Stands-behind_header body pad ys t e = record {
  ahead =
      bytes_bits-append body t
      ∙ ap (λ zs. zs ++ bytes_bits t) e
      ∙ append_assoc ys pad (bytes_bits t);
  few = omega arith;
  source = refl;
}

outcome-if :
    (t : Bool) (out : List ℕ) (r : BitReader)
    → outcome (if t then done (out, r) else refused adler_checksum)
      ≡ (if t then done out else refused adler_checksum)
outcome-if true out r = refl
outcome-if false out r = refl

module _ (a b c d : ℕ) (is_bytes : All IsByte (a ∷ b ∷ c ∷ d ∷ [])) where
  abbrev four : List ℕ
  four = a ∷ b ∷ c ∷ d ∷ []

  inflate_limited-body :
      (max_out : ℕ) (bytes front : List ℕ) (x : IsDeflated bytes front)
      → inflate_limited (120 ∷ 1 ∷ (x.body ++ four)) max_out ≡ verdict max_out bytes four
  inflate_limited-body max_out bytes front x =
      let mem = 120 ∷ 1 ∷ (x.body ++ four) in
      let stands = Stands-behind_header x.body x.pad (block_bits x.zs) four x.block in
      let ends =
        all_blocks-Ends max_out mem bytes x.zs (x.pad ++ bytes_bits four) (behind_header mem)
          x.codes stands in
      inflate_limited-header max_out (x.body ++ four)
      ∙ elim (Bool-cases (ltb max_out (length bytes))) [
        | inl over ↦ rw (over, ends.1 (ltb→lt max_out (length bytes) over)) refl
        | inr within ↦
            let (s, runs, at_s) = ends.0 (ground arith) in
            let (u, read) =
              read_bytes-trailer (120 ∷ 1 ∷ x.body) four x.pad s x.short (omega arith) at_s in
            rw (within, runs)
              (rw (read, check_adler-text_eq a b c d is_bytes bytes u)
                (outcome-if (text_eq four (be_bytes (adler32 bytes))) bytes u))
      ]

  -- A stream for `bytes` whose last four bytes are these.
  inflate_limited-verdict :
      (max_out : ℕ) (bytes front : List ℕ)
      → IsDeflated bytes front
      → inflate_limited (front ++ four) max_out ≡ verdict max_out bytes four
  inflate_limited-verdict max_out bytes front x =
      ap (λ begin. inflate_limited (begin ++ four) max_out) x.header
      ∙ inflate_limited-body max_out bytes front x

-- The stream without its last four bytes, and others in their place.
abbrev pub with_trailer : List ℕ → List ℕ → List ℕ
with_trailer zs t = take (length zs - 4) zs ++ t

four_bytes :
    (v : ℕ)
    → be_bytes v ≡ v / 256 / 256 / 256 % 256 ∷ v / 256 / 256 % 256 ∷ v / 256 % 256 ∷ v % 256 ∷ []
unfolding le_bytes
four_bytes v = refl

-- Deflating bytes and inflating the stream again gives the bytes where they are within the ceiling, and
-- the refusal of what is too big where they are not.
pub inflate_limited-deflate :
    (bytes : List ℕ) (max_out : ℕ)
    → All IsByte bytes
    → and_then (deflate bytes) (λ zs. inflate_limited zs max_out)
      ≡ (if ltb max_out (length bytes) then refused too_big else done bytes)
inflate_limited-deflate bytes max_out all =
    let (front, runs, x) = deflate-IsDeflated bytes all in
    let v = adler32 bytes in
    let whole = text_eq_refl (be_bytes v) in
    let small : (n : ℕ) → n % 256 < 256 = λ n. omega arith in
    rw runs (
      ap (λ t. inflate_limited (front ++ t) max_out) (four_bytes v)
      ∙ inflate_limited-verdict _ _ _ _
          (small (v / 256 / 256 / 256), (small (v / 256 / 256), (small (v / 256), (small v, tt))))
          max_out bytes front x
      ∙ ap (verdict max_out bytes) (sym (four_bytes v))
      ∙ rw whole refl)

-- Where the last four bytes of the stream that was written for some bytes are replaced by four bytes,
-- inflating it is refused for its size where the bytes are above the ceiling, gives the bytes where the
-- four are their checksum, and is refused for the checksum otherwise.
pub inflate_limited-with_trailer :
    (bytes : List ℕ) (max_out a b c d : ℕ)
    → All IsByte bytes
    → All IsByte (a ∷ b ∷ c ∷ d ∷ [])
    → and_then
        (deflate bytes)
        (λ zs. inflate_limited (with_trailer zs (a ∷ b ∷ c ∷ d ∷ [])) max_out)
      ≡ verdict max_out bytes (a ∷ b ∷ c ∷ d ∷ [])
inflate_limited-with_trailer bytes max_out a b c d all is_bytes =
    let (front, runs, x) = deflate-IsDeflated bytes all in
    let t = be_bytes (adler32 bytes) in
    let size : length t ≡ 4 = ap length (four_bytes (adler32 bytes)) in
    let long : length (front ++ t) - 4 ≡ length front =
      omega (arith, size, length-append front t) in
    rw runs (
      ap (λ n. inflate_limited (take n (front ++ t) ++ (a ∷ b ∷ c ∷ d ∷ [])) max_out) long
      ∙ ap (λ begin. inflate_limited (begin ++ (a ∷ b ∷ c ∷ d ∷ [])) max_out) (take-append front t)
      ∙ inflate_limited-verdict a b c d is_bytes max_out bytes front x)
