-- ===== src/Zlib/RoundTrip/Streams.antt =====
-- The streams that `deflate` writes: a header, one block of codes that lead to the bytes, and padding,
-- with the checksum behind them.
use soulseek_rs_lib.Base.{
  ℕ, ◌%◌, ◌≤◌, ◌<◌, ◌≡◌, refl, sym, ap, ◌∙◌, inl, inr, Bool-cases, List, [], ◌∷◌, ◌++◌, append-nil,
  length, All, arith, ◌==◌,
}
use soulseek_rs_lib.Bytes.{IsByte}
use soulseek_rs_lib.Zlib.Result.{done}
use soulseek_rs_lib.Zlib.Reader.Stream.{bits, bytes_bits, tail_of}
use soulseek_rs_lib.Zlib.Inflate.{adler32}
use soulseek_rs_lib.Zlib.Writer.{BitWriter, new, put, padded, be_bytes, finish}
use soulseek_rs_lib.Zlib.Writer.Written.{IsSettled, written}
use soulseek_rs_lib.Zlib.Deflate.{opened, symbol, hash_bits, no_chains, deflate}
use soulseek_rs_lib.Zlib.Deflate.Codes.{Codes, Adds, Adds-then, put-Adds, symbol-Adds, symbol_bits}
use soulseek_rs_lib.Zlib.Deflate.Search.{no_chains-IsChained}
use soulseek_rs_lib.Zlib.Deflate.Writes.{deflate_from-Codes}
use soulseek_rs_lib.Zlib.Blocks.{padded-bits, block_bits}

-- What stands before the checksum of a stream for `bytes`.
pub record IsDeflated (bytes front : List ℕ) : Type 0 where
  pub body : List ℕ
  pub zs : List ℕ
  pub pad : List ℕ
  pub header : front ≡ 120 ∷ 1 ∷ body
  pub block : bytes_bits body ≡ block_bits zs ++ pad
  pub short : length pad < 8
  pub codes : Codes bytes [] zs

append_cancel : (xs ys zs : List ℕ) → xs ++ ys ≡ xs ++ zs → ys ≡ zs
append_cancel [] ys zs e = e
append_cancel (x ∷ xs) ys zs e = append_cancel xs ys zs (tail_of e)

padded-out : (w : BitWriter) → (cs : List ℕ) × (padded w ≡ w.out ++ cs)
padded-out w = elim (Bool-cases (w.bit == 0)) [
  | inl e ↦ ([], rw e (sym (append-nil w.out)))
  | inr e ↦ (w.held % 256 ∷ [], rw e refl)
]

opened-Adds : Adds new (1 ∷ 1 ∷ 0 ∷ []) opened
unfolding bits
opened-Adds =
    let start : IsSettled new = record { short = omega arith; clean = omega arith } in
    let one = put-Adds 1 1 new (omega arith) start in
    Adds-then new (put 1 1 new) opened (1 ∷ []) (1 ∷ 0 ∷ []) one
      (put-Adds 1 2 (put 1 1 new) (omega arith) one.settled)

-- Everything that was written, from the header on, is such a front.
padded-IsDeflated :
    (bytes zs : List ℕ) (w : BitWriter)
    → Codes bytes [] zs
    → Adds new (block_bits zs) w
    → IsDeflated bytes (padded w)
unfolding bits bytes_bits
padded-IsDeflated bytes zs w codes a =
    let (pad, written_out, short) = padded-bits w a.settled in
    let (bs, grown) = a.extends in
    let (cs, e) = padded-out w in
    let header : padded w ≡ 120 ∷ 1 ∷ (bs ++ cs) = e ∙ ap (λ out. out ++ cs) grown in
    let all : bytes_bits (120 ∷ 1 ∷ (bs ++ cs)) ≡ (written new ++ block_bits zs) ++ pad =
      ap bytes_bits (sym header) ∙ written_out ∙ ap (λ ys. ys ++ pad) a.added in
    record {
      body = bs ++ cs;
      zs = zs;
      pad = pad;
      header = header;
      block =
          append_cancel (bits 8 120 ++ bits 8 1) (bytes_bits (bs ++ cs)) (block_bits zs ++ pad) all;
      short = short;
      codes = codes;
    }

hash_bits-le : (n : ℕ) → hash_bits n ≤ 32
unfolding hash_bits
hash_bits-le n = omega arith

-- Deflating ends, with such a front and the checksum.
pub deflate-IsDeflated :
    (bytes : List ℕ)
    → All IsByte bytes
    → (front : List ℕ) × (deflate bytes ≡ done (front ++ be_bytes (adler32 bytes)))
      × IsDeflated bytes front
unfolding deflate finish
deflate-IsDeflated bytes all =
    let n = hash_bits (length bytes) in
    let begin = opened-Adds in
    let (v, zs, runs, a, codes) =
      deflate_from-Codes bytes n (hash_bits-le (length bytes)) all (length bytes) 0
        (no_chains n (length bytes)) opened (omega arith) (omega arith)
        (no_chains-IsChained n bytes) begin.settled in
    let last = symbol-Adds 256 v a.settled in
    let w = symbol 256 v in
    let rest = Adds-then opened v w zs (symbol_bits 256) a last in
    (
      padded w,
      rw runs refl,
      padded-IsDeflated bytes zs w codes
          (Adds-then new opened w (1 ∷ 1 ∷ 0 ∷ []) (zs ++ symbol_bits 256) begin rest),
    )
