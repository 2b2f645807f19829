-- ===== src/Zlib/Inflate/Blocks.antt =====
-- Inflating a whole stream is safe on every input and keeps to its ceiling.
use soulseek_rs_lib.Base.{
  ℕ, zero, suc, ◌+◌, ◌*◌, ◌%◌, ◌/◌, ◌≤◌, ◌<◌, inl, inr, List, [], length, arith, ltb, ◌==◌,
  Bool-cases,
}
use soulseek_rs_lib.Zlib.Result.{
  Result, done, refused, panics, spins, invalid_btype, invalid_cm, invalid_cinfo, header_checksum,
  preset_dictionary, adler_checksum,
}
use soulseek_rs_lib.Zlib.Reader.{
  BitReader, Inflate, new, read_byte, read_bit, read_bits, read_bytes,
}
use soulseek_rs_lib.Zlib.Reader.Safe.{
  left, Uses, IsSafe, Any, bind-IsSafe, pure-IsSafe, fewer-Uses, fewer-IsSafe, read_bit-IsSafe,
  read_bits-IsSafe, read_byte-IsSafe, read_bytes-IsSafe, then-Uses,
}
use soulseek_rs_lib.Zlib.Huffman.{Node}
use soulseek_rs_lib.Zlib.Inflate.{
  lift, rounds, repeated, decode_trees, with_trees, inflate_block_dynamic, fixed_lengths,
  fixed_trees, inflate_block_fixed, inflate_block, after_block, inflate_blocks, all_blocks,
  check_cmf, check_flg, inflate_stream, inflate_limited, outcome, adler32, swap_bytes,
}
use soulseek_rs_lib.Zlib.Inflate.Total.{
  fail-IsSafe, if-IsSafe, left-bound, inflate_block_no_compression-IsSafe, with_trees-IsSafe,
}
use soulseek_rs_lib.Zlib.Inflate.Trees.{BothRoots, trees_of-IsSafe, decode_trees-IsSafe}

with_both-IsSafe :
    (max_out : ℕ) (out : List ℕ) (t : Node × Node)
    → BothRoots t
    → IsSafe 0 Any (with_trees max_out out t)
with_both-IsSafe max_out out (lit, dist) (lit_root, dist_root) =
    with_trees-IsSafe lit dist max_out lit_root dist_root out

inflate_block-IsSafe :
    (btype : ℕ) (out : List ℕ) (max_out : ℕ) → IsSafe 0 Any (inflate_block btype out max_out)
unfolding inflate_block inflate_block_fixed inflate_block_dynamic fixed_trees
inflate_block-IsSafe btype out max_out =
    if-IsSafe 0 (btype == 0) _ _ (inflate_block_no_compression-IsSafe out max_out) (
      if-IsSafe 0 (btype == 1) _ _
        (bind-IsSafe 0 0 (lift fixed_trees) (with_trees max_out out)
          (trees_of-IsSafe fixed_lengths (repeated 30 5)) (with_both-IsSafe max_out out))
        (if-IsSafe 0 (btype == 2) _ _
          (bind-IsSafe 0 0 decode_trees (with_trees max_out out) decode_trees-IsSafe
            (with_both-IsSafe max_out out))
          (fail-IsSafe 0 invalid_btype)))

abbrev Fits : ℕ → List ℕ → Type 0
Fits max_out out = length out ≤ max_out

after_block-Uses :
    (again : List ℕ → Inflate (List ℕ)) (max_out bfinal : ℕ) (out : List ℕ) (t : BitReader)
    → (length out ≤ max_out → Uses 0 (Fits max_out) t (again out t))
    → t.numbits < 8
    → Uses 0 (Fits max_out) t (after_block again max_out bfinal out t)
after_block-Uses again max_out bfinal out t next few =
    elim (Bool-cases (ltb max_out (length out))) [
      | inl over ↦ rw over tt
      | inr under ↦ elim (Bool-cases (bfinal == 0)) [
        | inl more ↦ rw (under, more) (next (ground arith))
        | inr end ↦ rw (under, end) (ground arith, few, omega arith)
      ]
    ]

inflate_blocks-Uses :
    (max_out fuel : ℕ) (out : List ℕ) (r : BitReader)
    → r.numbits < 8
    → left r < fuel
    → Uses 0 (Fits max_out) r (inflate_blocks max_out fuel out r)
unfolding inflate_blocks
inflate_blocks-Uses max_out zero out r few enough = absurd (omega arith)
inflate_blocks-Uses max_out (suc fuel) out r few enough =
    fewer-Uses (Fits max_out) 0 (1 + (2 + (0 + 0))) r _ (omega arith) (
      then-Uses (Fits max_out) 1 (2 + (0 + 0)) r (read_bit r) _ (read_bit-IsSafe.at r few)
        λ bfinal s h few1 less1.
          then-Uses (Fits max_out) 2 (0 + 0) s (read_bits 2 s) _ ((read_bits-IsSafe 2).at s few1)
            λ btype t k few2 less2.
              then-Uses (Fits max_out) 0 0 t (inflate_block btype out max_out t) _
                ((inflate_block-IsSafe btype out max_out).at t few2)
                λ next u g few3 less3.
                  after_block-Uses (inflate_blocks max_out fuel) max_out bfinal next u
                    (λ fits. inflate_blocks-Uses max_out fuel next u few3 (omega arith)) few3)

all_blocks-IsSafe : (max_out : ℕ) → IsSafe 0 (Fits max_out) (all_blocks max_out)
unfolding all_blocks
all_blocks-IsSafe max_out = record {
  at = λ r few. inflate_blocks-Uses max_out (rounds r) [] r few (left-bound r few);
}

inflate_stream-IsSafe : (max_out : ℕ) → IsSafe 0 (Fits max_out) (inflate_stream max_out)
unfolding inflate_stream
inflate_stream-IsSafe max_out =
    fewer-IsSafe 0 (8 + (0 + (8 + (0 + (0 + (0 + 0)))))) (inflate_stream max_out) (omega arith) (
      bind-IsSafe 8 _ read_byte _ read_byte-IsSafe λ cmf h1.
        bind-IsSafe {Q = Any} 0 _ (check_cmf cmf) _
          (if-IsSafe 0 (cmf % 16 == 8) _ _
            (if-IsSafe 0 (ltb 7 (cmf / 16 % 16)) _ _ (fail-IsSafe 0 invalid_cinfo)
              (pure-IsSafe cmf tt))
            (fail-IsSafe 0 invalid_cm))
          λ c h2. bind-IsSafe 8 _ read_byte _ read_byte-IsSafe λ flg h3.
            bind-IsSafe {Q = Any} 0 _ (check_flg cmf flg) _
              (if-IsSafe 0 ((cmf * 256 + flg) % 31 == 0) _ _
                (if-IsSafe 0 (flg / 32 % 2 == 0) _ _ (pure-IsSafe flg tt)
                  (fail-IsSafe 0 preset_dictionary))
                (fail-IsSafe 0 header_checksum))
              λ d h4. bind-IsSafe 0 _ (all_blocks max_out) _ (all_blocks-IsSafe max_out) λ out fits.
                bind-IsSafe 0 0 (read_bytes 4) _ (read_bytes-IsSafe 4) λ trailer h6.
                  if-IsSafe 0 (swap_bytes trailer == adler32 out) _ _ (pure-IsSafe out fits)
                    (fail-IsSafe 0 adler_checksum))

-- What `inflate_limited` may come to: bytes within the ceiling, or a refusal.
abbrev pub Bounded : ℕ → Result (List ℕ) → Type 0
Bounded max_out (done out) = length out ≤ max_out
Bounded max_out (refused e) = Unit
Bounded max_out panics = ⊥
Bounded max_out spins = ⊥

-- Whatever bytes a peer sends, inflating them ends, without an index out of range and without a loop
-- that outlives its input: with at most `max_out` bytes, or with a refusal.
pub inflate_limited-Bounded :
    (input : List ℕ) (max_out : ℕ) → Bounded max_out (inflate_limited input max_out)
unfolding inflate_limited
inflate_limited-Bounded input max_out =
    after (inflate_stream max_out (new input))
      ((inflate_stream-IsSafe max_out).at (new input) (omega arith))
  where
    after :
        (o : Result (List ℕ × BitReader))
        → Uses 0 (Fits max_out) (new input) o
        → Bounded max_out (outcome o)
    after (done (out, r)) u = u.0
    after (refused e) u = tt
    after panics u = u
    after spins u = u
