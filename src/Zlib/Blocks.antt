-- ===== src/Zlib/Blocks.antt =====
-- A stream of one fixed block: what `deflate` wraps around its codes, and how the reader takes it off.
use soulseek_rs_lib.Base.{
  ℕ, suc, ◌+◌, ◌-◌, ◌*◌, ◌%◌, ◌^◌, ◌≤◌, ◌<◌, ◌≡◌, refl, sym, ap, subst, ◌∙◌, inl, inr, false,
  Bool-cases, List, [], ◌∷◌, ◌++◌, append-nil, append_assoc, length, length-append, arith, ltb,
  ◌==◌,
}
use native.Mathlib.Nat.{pow-le-pow_right}
use soulseek_rs_lib.Zlib.Result.{Result, and_then}
use soulseek_rs_lib.Zlib.Reader.{BitReader, Inflate, read_bit, read_bits}
use soulseek_rs_lib.Zlib.Reader.Stream.{bits, bytes_bits, Stands, read_bit-Gives}
use soulseek_rs_lib.Zlib.Reader.Safe.{left, length-bits}
use soulseek_rs_lib.Zlib.Reader.Decodes.{read_bits-Gives}
use soulseek_rs_lib.Zlib.Inflate.{
  rounds, inflate_block, inflate_block_fixed, inflate_blocks, after_block, all_blocks,
}
use soulseek_rs_lib.Zlib.Inflate.Total.{left-bound}
use soulseek_rs_lib.Zlib.Inflate.Fixed.{fixed_trees-IsFixed}
use soulseek_rs_lib.Zlib.Inflate.Follows.{Ends, then-Ends, inflate_block_data-Ends}
use soulseek_rs_lib.Zlib.Writer.{BitWriter, padded}
use soulseek_rs_lib.Zlib.Writer.Written.{IsSettled, written, bits_above, bytes_bits_snoc}
use soulseek_rs_lib.Zlib.Deflate.Codes.{Codes, symbol_bits}

padding : (n h : ℕ) → n < 8 → h < 2 ^ n → bits 8 (h % 256) ≡ bits n h ++ bits (8 - n) 0
padding n h k l =
    let top : 2 ^ n ≤ 2 ^ 8 = pow-le-pow_right (omega arith) {j = 8} (omega arith) in
    let same : h % 256 ≡ h + 0 * 2 ^ n = omega arith in
    let whole : 8 ≡ n + (8 - n) = omega arith in
    ap (bits 8) same ∙ ap (λ m. bits m (h + 0 * 2 ^ n)) whole ∙ bits_above n (8 - n) h 0 l

no_bits : (n h : ℕ) → n ≡ 0 → bits n h ≡ []
unfolding bits
no_bits n h e = ap (λ m. bits m h) e

-- Finishing pads the last byte with fewer than eight bits.
pub padded-bits :
    (w : BitWriter)
    → IsSettled w
    → (pad : List ℕ) × (bytes_bits (padded w) ≡ written w ++ pad) × (length pad < 8)
padded-bits w s = elim (Bool-cases (w.bit == 0)) [
  | inl e ↦
      let none_held = no_bits w.bit w.held (ground arith) in
      (
        [],
        rw e (
            sym (
              append-nil (written w)
              ∙ ap (λ zs. bytes_bits w.out ++ zs) none_held
              ∙ append-nil (bytes_bits w.out))),
        omega arith,
      )
  | inr e ↦ (
    bits (8 - w.bit) 0,
    rw e (
        bytes_bits_snoc w.out (w.held % 256)
        ∙ ap (λ zs. bytes_bits w.out ++ zs) (padding w.bit w.held s.short s.clean)
        ∙ sym (append_assoc (bytes_bits w.out) (bits w.bit w.held) (bits (8 - w.bit) 0))),
    ground (arith, length-bits (8 - w.bit) 0),
  )
]

-- Reading a fixed block gives what its codes lead to.
inflate_block_fixed-Ends :
    (max_out : ℕ) (mem whole zs rest : List ℕ) (r : BitReader)
    → Codes whole [] zs
    → Stands mem (zs ++ (symbol_bits 256 ++ rest)) r
    → Ends max_out mem rest whole (inflate_block_fixed [] max_out r)
unfolding inflate_block_fixed
inflate_block_fixed-Ends max_out mem whole zs rest r c s =
    let (lit, dist, trees, fixed) = fixed_trees-IsFixed in
    let before : left r ≡ length (zs ++ (symbol_bits 256 ++ rest)) = ap length s.ahead in
    rw trees (
      inflate_block_data-Ends lit dist fixed max_out mem (rounds r) whole [] zs rest r c
        (omega (arith, left-bound r s.few, before, length-append zs (symbol_bits 256 ++ rest))) s)

after_block-Ends :
    (again : List ℕ → Inflate (List ℕ)) (max_out : ℕ) (mem rest whole : List ℕ)
    (o : Result (List ℕ × BitReader))
    → Ends max_out mem rest whole o
    → Ends max_out mem rest whole (and_then o λ (out, s). after_block again max_out 1 out s)
after_block-Ends again max_out mem rest whole o (fits, over) = (
  (λ k.
      let (t, runs, stands) = fits k in
      let within : ltb max_out (length whole) ≡ false = ground arith in
      rw runs (rw within (t, refl, stands))),
  (λ k. rw (over k) refl),
)

-- The bits that open the block, its codes and its end.
abbrev pub block_bits : List ℕ → List ℕ
block_bits zs = 1 ∷ 1 ∷ 0 ∷ (zs ++ symbol_bits 256)

inflate_blocks-Ends :
    (fuel max_out : ℕ) (mem whole zs rest : List ℕ) (r : BitReader)
    → Codes whole [] zs
    → Stands mem (1 ∷ 1 ∷ 0 ∷ (zs ++ (symbol_bits 256 ++ rest))) r
    → Ends max_out mem rest whole (inflate_blocks max_out (suc fuel) [] r)
unfolding inflate_blocks inflate_block bits
inflate_blocks-Ends fuel max_out mem whole zs rest r c s =
    then-Ends max_out mem (1 ∷ 0 ∷ (zs ++ (symbol_bits 256 ++ rest))) rest whole 1 (read_bit r) _
      (read_bit-Gives mem 1 (1 ∷ 0 ∷ (zs ++ (symbol_bits 256 ++ rest))) r s)
      λ t at_t.
        then-Ends max_out mem (zs ++ (symbol_bits 256 ++ rest)) rest whole 1 (read_bits 2 t) _
          (read_bits-Gives 2 1 mem (zs ++ (symbol_bits 256 ++ rest)) t (omega arith) at_t)
          λ u at_u.
            after_block-Ends (inflate_blocks max_out fuel) max_out mem rest whole
              (inflate_block_fixed [] max_out u)
              (inflate_block_fixed-Ends max_out mem whole zs rest u c at_u)

-- Reading all blocks, where there is this one.
pub all_blocks-Ends :
    (max_out : ℕ) (mem whole zs rest : List ℕ) (r : BitReader)
    → Codes whole [] zs
    → Stands mem (block_bits zs ++ rest) r
    → Ends max_out mem rest whole (all_blocks max_out r)
unfolding all_blocks
all_blocks-Ends max_out mem whole zs rest r c s =
    let e : rounds r ≡ suc (8 * length r.mem + 7) = omega arith in
    rw e (
      inflate_blocks-Ends (8 * length r.mem + 7) max_out mem whole zs rest r c
        (subst (λ xs. Stands mem (1 ∷ 1 ∷ 0 ∷ xs) r) (append_assoc zs (symbol_bits 256) rest) s))
