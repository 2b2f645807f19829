-- ===== src/Zlib/Inflate.antt =====
-- Inflating: `inflate_limited` and what it calls, of soulseek-rs-lib/src/utils/zlib.rs. A loop runs on
-- fuel for as many rounds as there are bits to read: each round takes one at least
-- (`Zlib.Inflate.Total`).
pub mod Total
pub mod Trees
pub mod Blocks
pub mod Fixed
pub mod Follows
use soulseek_rs_lib.Base.{
  ℕ, zero, suc, ◌+◌, ◌-◌, ◌*◌, ◌/◌, ◌%◌, ◌^◌, Bool, true, false, Option, none, some, List, [], ◌∷◌,
  ◌++◌, length, get_elem?, take, drop, ltb, leb, ◌==◌, if◌then◌else◌,
}
use soulseek_rs_lib.Zlib.Result.{
  InflateError, Result, done, refused, panics, spins, and_then, invalid_cm, invalid_cinfo,
  header_checksum, preset_dictionary, adler_checksum, invalid_btype, too_big, invalid_length,
  invalid_distance, distance_too_large, no_previous_length, invalid_symbol,
}
use soulseek_rs_lib.Bytes.{le_bytes, from_le}
use soulseek_rs_lib.Zlib.Reader.{
  BitReader, Inflate, new, pure, fail, ◌>>=◌, ◌>>◌, read_byte, read_bit, read_bits, read_bytes,
}
use soulseek_rs_lib.Zlib.Huffman.{Node, decode_symbol, bl_list_to_tree, index, assign, zeros}

abbrev pub max_inflated : ℕ
max_inflated = 128 * 1_024 * 1_024

abbrev pub max_inflated_listing : ℕ
max_inflated_listing = 2 * 1_024 * 1_024 * 1_024

abbrev pub lift : {A : Type 0} → Result A → Inflate A
lift o r = and_then o λ a. done (a, r)

-- Rounds for a loop that takes a bit in each.
abbrev pub rounds : BitReader → ℕ
rounds r = 8 * length r.mem + 8

unfoldable pub adler_sums : ℕ → ℕ → List ℕ → ℕ × ℕ
adler_sums a b [] = (a, b)
adler_sums a b (byte ∷ rest) =
    let next = (a + byte) % 65_521 in adler_sums next ((b + next) % 65_521) rest

unfoldable pub adler32 : List ℕ → ℕ
unfolding adler_sums
adler32 bytes = let (a, b) = adler_sums 1 0 bytes in b * 2 ^ 16 + a

abbrev pub reversed : List ℕ → List ℕ
reversed [] = []
reversed (b ∷ bs) = reversed bs ++ (b ∷ [])

-- `u32::swap_bytes`
unfoldable pub swap_bytes : ℕ → ℕ
swap_bytes v = from_le (reversed (le_bytes 4 v))

-- The ceiling is asked for before the bytes are read.
unfoldable pub copy_stored : ℕ → List ℕ → Inflate (List ℕ)
copy_stored zero out = pure out
copy_stored (suc n) out = do byte ← read_byte; copy_stored n (out ++ (byte ∷ []))

unfoldable pub inflate_block_no_compression : List ℕ → ℕ → Inflate (List ℕ)
unfolding copy_stored
inflate_block_no_compression out max_out = do
  len ← read_bytes 2
  nlen ← read_bytes 2
  if ltb max_out (length out + len) then fail too_big else copy_stored len out

abbrev pub length_extra_bits : List ℕ
length_extra_bits =
    0 ∷ 0 ∷ 0 ∷ 0 ∷ 0 ∷ 0 ∷ 0 ∷ 0 ∷ 1 ∷ 1 ∷ 1 ∷ 1 ∷ 2 ∷ 2 ∷ 2 ∷ 2 ∷ 3 ∷ 3 ∷ 3 ∷ 3 ∷ 4 ∷ 4 ∷ 4 ∷ 4
    ∷ 5 ∷ 5 ∷ 5 ∷ 5 ∷ 0 ∷ []

abbrev pub length_base : List ℕ
length_base =
    3 ∷ 4 ∷ 5 ∷ 6 ∷ 7 ∷ 8 ∷ 9 ∷ 10 ∷ 11 ∷ 13 ∷ 15 ∷ 17 ∷ 19 ∷ 23 ∷ 27 ∷ 31 ∷ 35 ∷ 43 ∷ 51 ∷ 59 ∷ 67
    ∷ 83 ∷ 99 ∷ 115 ∷ 131 ∷ 163 ∷ 195 ∷ 227 ∷ 258 ∷ []

abbrev pub distance_extra_bits : List ℕ
distance_extra_bits =
    0 ∷ 0 ∷ 0 ∷ 0 ∷ 1 ∷ 1 ∷ 2 ∷ 2 ∷ 3 ∷ 3 ∷ 4 ∷ 4 ∷ 5 ∷ 5 ∷ 6 ∷ 6 ∷ 7 ∷ 7 ∷ 8 ∷ 8 ∷ 9 ∷ 9 ∷ 10 ∷ 10
    ∷ 11 ∷ 11 ∷ 12 ∷ 12 ∷ 13 ∷ 13 ∷ []

abbrev pub distance_base : List ℕ
distance_base =
    1 ∷ 2 ∷ 3 ∷ 4 ∷ 5 ∷ 7 ∷ 9 ∷ 13 ∷ 17 ∷ 25 ∷ 33 ∷ 49 ∷ 65 ∷ 97 ∷ 129 ∷ 193 ∷ 257 ∷ 385 ∷ 513 ∷ 769
    ∷ 1025 ∷ 1537 ∷ 2049 ∷ 3073 ∷ 4097 ∷ 6145 ∷ 8193 ∷ 12289 ∷ 16385 ∷ 24577 ∷ []

-- A length or a distance: the base of its symbol and the extra bits behind it.
abbrev pub from_base : Option ℕ → InflateError → Result ℕ → Inflate ℕ
from_base none e base = fail e
from_base (some extra) e base = do more ← read_bits extra; start ← lift base; pure (more + start)

unfoldable pub read_length : ℕ → Inflate ℕ
read_length sym =
    from_base (get_elem? length_extra_bits (sym - 257)) invalid_length
      (index length_base (sym - 257))

unfoldable pub read_distance : ℕ → Inflate ℕ
read_distance sym =
    from_base (get_elem? distance_extra_bits sym) invalid_distance (index distance_base sym)

-- `out.len() - dist` is not negative here: the distance was checked.
unfoldable pub copy_back : ℕ → ℕ → List ℕ → Result (List ℕ)
copy_back zero dist out = done out
copy_back (suc n) dist out =
    and_then (index out (length out - dist)) λ byte. copy_back n dist (out ++ (byte ∷ []))

module _ (literal_length_tree distance_tree : Node) (max_out : ℕ) where
  unfoldable pub copy_pair : ℕ → List ℕ → Inflate (List ℕ)
  unfolding read_length read_distance
  copy_pair sym out = do
    len ← read_length sym
    dist_sym ← decode_symbol distance_tree
    dist ← read_distance dist_sym
    if ltb (length out) dist then fail distance_too_large else lift (copy_back len dist out)

  -- What a symbol does, with the loop behind it.
  abbrev pub after_symbol : (List ℕ → Inflate (List ℕ)) → List ℕ → ℕ → Inflate (List ℕ)
  after_symbol again out sym =
      if leb sym 255
      then again (out ++ (sym ∷ []))
      else if sym == 256
      then pure out
      else (copy_pair sym out >>= again)

  unfoldable pub inflate_block_data : ℕ → List ℕ → Inflate (List ℕ)
  unfolding copy_pair
  inflate_block_data zero out r = spins
  inflate_block_data (suc fuel) out r =
      if ltb max_out (length out)
      then refused too_big
      else (decode_symbol literal_length_tree >>= after_symbol (inflate_block_data fuel) out) r

abbrev pub code_length_codes_order : List ℕ
code_length_codes_order =
    16 ∷ 17 ∷ 18 ∷ 0 ∷ 8 ∷ 7 ∷ 9 ∷ 6 ∷ 10 ∷ 5 ∷ 11 ∷ 4 ∷ 12 ∷ 3 ∷ 13 ∷ 2 ∷ 14 ∷ 1 ∷ 15 ∷ []

abbrev pub range_from : ℕ → ℕ → List ℕ
range_from i zero = []
range_from i (suc n) = i ∷ range_from (suc i) n

-- `(0..n).collect()`
abbrev pub range : ℕ → List ℕ
range n = range_from 0 n

-- The first `n` places of the order get a length of three bits each.
unfoldable pub read_code_lengths : ℕ → List ℕ → List ℕ → Inflate (List ℕ)
read_code_lengths zero order bl r = done (bl, r)
read_code_lengths (suc n) [] bl r = panics
read_code_lengths (suc n) (i ∷ order) bl r =
    (do v ← read_bits 3; next ← lift (assign bl i v); read_code_lengths n order next) r

abbrev pub repeated : ℕ → ℕ → List ℕ
repeated zero v = []
repeated (suc n) v = v ∷ repeated n v

abbrev pub last : List ℕ → Option ℕ
last [] = none
last (v ∷ []) = some v
last (v ∷ w ∷ rest) = last (w ∷ rest)

abbrev pub repeat_last : Option ℕ → List ℕ → Inflate (List ℕ)
repeat_last none bl = fail no_previous_length
repeat_last (some v) bl = do n ← read_bits 2; pure (bl ++ repeated (n + 3) v)

-- What one symbol of the code length alphabet adds.
unfoldable pub add_lengths : List ℕ → ℕ → Inflate (List ℕ)
add_lengths bl sym =
    if leb sym 15
    then pure (bl ++ (sym ∷ []))
    else if sym == 16
    then repeat_last (last bl) bl
    else if sym == 17
    then (read_bits 3 >>= λ n. pure (bl ++ repeated (n + 3) 0))
    else if sym == 18
    then (read_bits 7 >>= λ n. pure (bl ++ repeated (n + 11) 0))
    else fail invalid_symbol

unfoldable pub read_lengths : Node → ℕ → ℕ → List ℕ → Inflate (List ℕ)
unfolding add_lengths
read_lengths tree total zero bl r = if ltb (length bl) total then spins else done (bl, r)
read_lengths tree total (suc fuel) bl r =
    if ltb (length bl) total
    then (do sym ← decode_symbol tree; next ← add_lengths bl sym; read_lengths tree total fuel next)
        r
    else done (bl, r)

-- `&bl[..n]` and `&bl[n..]`
abbrev pub slice_at : ℕ → List ℕ → Result (List ℕ × List ℕ)
slice_at n bl = if ltb (length bl) n then panics else done (take n bl, drop n bl)

abbrev pub trees_of : List ℕ → List ℕ → Result (Node × Node)
trees_of lengths distances = and_then (bl_list_to_tree lengths (range 286)) λ literal_length_tree.
    and_then (bl_list_to_tree distances (range 30))
      λ distance_tree. done (literal_length_tree, distance_tree)

-- Each round of the loop adds a length at least, so that their number is fuel enough.
unfoldable pub decode_trees : Inflate (Node × Node)
unfolding read_code_lengths read_lengths
decode_trees = do
  hlit ← read_bits 5
  hdist ← read_bits 5
  hclen ← read_bits 4
  code_length_bl ← read_code_lengths (hclen + 4) code_length_codes_order (zeros 19)
  code_length_tree ← lift (bl_list_to_tree code_length_bl (range 19))
  bl ← read_lengths code_length_tree (hlit + 257 + (hdist + 1)) (hlit + 257 + (hdist + 1)) []
  parts ← lift (slice_at (hlit + 257) bl)
  lift (trees_of parts.0 parts.1)

abbrev pub with_trees : ℕ → List ℕ → Node × Node → Inflate (List ℕ)
with_trees max_out out (literal_length_tree, distance_tree) r =
    inflate_block_data literal_length_tree distance_tree max_out (rounds r) out r

unfoldable pub inflate_block_dynamic : List ℕ → ℕ → Inflate (List ℕ)
unfolding decode_trees inflate_block_data
inflate_block_dynamic out max_out = decode_trees >>= with_trees max_out out

abbrev pub fixed_lengths : List ℕ
fixed_lengths = repeated 144 8 ++ repeated 112 9 ++ repeated 24 7 ++ repeated 8 8

unfoldable pub fixed_trees : Result (Node × Node)
fixed_trees = trees_of fixed_lengths (repeated 30 5)

unfoldable pub inflate_block_fixed : List ℕ → ℕ → Inflate (List ℕ)
unfolding fixed_trees inflate_block_data
inflate_block_fixed out max_out = lift fixed_trees >>= with_trees max_out out

unfoldable pub inflate_block : ℕ → List ℕ → ℕ → Inflate (List ℕ)
unfolding inflate_block_no_compression inflate_block_fixed inflate_block_dynamic
inflate_block btype out max_out =
    if btype == 0
    then inflate_block_no_compression out max_out
    else if btype == 1
    then inflate_block_fixed out max_out
    else if btype == 2
    then inflate_block_dynamic out max_out
    else fail invalid_btype

-- The turn of the loop behind a block: the ceiling, and whether it was the last.
abbrev pub after_block : (List ℕ → Inflate (List ℕ)) → ℕ → ℕ → List ℕ → Inflate (List ℕ)
after_block again max_out bfinal out =
    if ltb max_out (length out) then fail too_big else if bfinal == 0 then again out else pure out

unfoldable pub inflate_blocks : ℕ → ℕ → List ℕ → Inflate (List ℕ)
unfolding inflate_block
inflate_blocks max_out zero out r = spins
inflate_blocks max_out (suc fuel) out r =
    (do
      bfinal ← read_bit
      btype ← read_bits 2
      next ← inflate_block btype out max_out
      after_block (inflate_blocks max_out fuel) max_out bfinal next)
      r

-- The checks of the first byte of the header, and of both.
abbrev pub check_cmf : ℕ → Inflate ℕ
check_cmf cmf =
    if cmf % 16 == 8
    then (if ltb 7 (cmf / 16 % 16) then fail invalid_cinfo else pure cmf)
    else fail invalid_cm

abbrev pub check_flg : ℕ → ℕ → Inflate ℕ
check_flg cmf flg =
    if (cmf * 256 + flg) % 31 == 0
    then (if flg / 32 % 2 == 0 then pure flg else fail preset_dictionary)
    else fail header_checksum

unfoldable pub all_blocks : ℕ → Inflate (List ℕ)
unfolding inflate_blocks
all_blocks max_out r = inflate_blocks max_out (rounds r) [] r

-- `read_bytes` assembles little-endian; the trailer is big-endian.
abbrev pub check_adler : List ℕ → ℕ → Inflate (List ℕ)
check_adler out trailer =
    if swap_bytes trailer == adler32 out then pure out else fail adler_checksum

unfoldable pub inflate_stream : ℕ → Inflate (List ℕ)
unfolding all_blocks adler32 swap_bytes
inflate_stream max_out = do
  cmf ← read_byte
  check_cmf cmf
  flg ← read_byte
  check_flg cmf flg
  out ← all_blocks max_out
  trailer ← read_bytes 4
  check_adler out trailer

abbrev pub outcome : Result (List ℕ × BitReader) → Result (List ℕ)
outcome o = and_then o λ (out, r). done out

unfoldable pub inflate_limited : List ℕ → ℕ → Result (List ℕ)
unfolding inflate_stream
inflate_limited input max_out = outcome (inflate_stream max_out (new input))

abbrev pub inflate : List ℕ → Result (List ℕ)
inflate input = inflate_limited input max_inflated
