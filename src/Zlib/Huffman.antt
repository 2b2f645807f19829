-- ===== src/Zlib/Huffman.antt =====
-- Huffman codes of soulseek-rs-lib/src/utils/zlib.rs: `HuffmanTree`, `decode_symbol` and
-- `bl_list_to_tree`.
pub mod Total
use soulseek_rs_lib.Base.{
  ℕ, zero, suc, ◌+◌, ◌-◌, ◌*◌, ◌/◌, ◌%◌, ◌^◌, max, Bool, true, false, Option, none, some, List, [],
  ◌∷◌, get_elem?, set_elem, ltb, ◌==◌, if◌then◌else◌,
}
use soulseek_rs_lib.Zlib.Result.{Result, done, refused, panics, and_then, invalid_code, no_symbol}
use soulseek_rs_lib.Zlib.Reader.{BitReader, Inflate, read_bit}

-- `Option<Box<Node>>`
pub data Node : Type 0 where
  missing : Node
  node : Option ℕ → Node → Node → Node

-- An empty tree: a root that is no code.
abbrev pub empty_tree : Node
empty_tree = node none missing missing

-- A child that is missing is a fresh node from then on.
abbrev pub fresh : Node → Node
fresh missing = empty_tree
fresh (node symbol left right) = node symbol left right

abbrev pub name_node : ℕ → Node → Node
name_node s missing = missing
name_node s (node symbol left right) = node (some s) left right

abbrev pub child : Bool → Node → Node
child to_left missing = missing
child true (node symbol left right) = left
child false (node symbol left right) = right

abbrev pub with_child : Bool → Node → Node → Node
with_child to_left c missing = missing
with_child true c (node symbol left right) = node symbol c right
with_child false c (node symbol left right) = node symbol left c

-- The bits of `codeword` from the highest of `n` down lead to the node that gets the symbol.
unfoldable pub insert : ℕ → ℕ → ℕ → Node → Node
insert codeword zero symbol t = name_node symbol (fresh t)
insert codeword (suc i) symbol t =
    let to_left = codeword / 2 ^ i % 2 == 0 in
    with_child to_left (insert codeword i symbol (child to_left (fresh t))) (fresh t)

abbrev pub is_leaf : Node → Node → Bool
is_leaf missing missing = true
is_leaf _ _ = false

abbrev pub symbol_of : Option ℕ → Inflate ℕ
symbol_of none r = refused no_symbol
symbol_of (some s) r = done (s, r)

unfoldable pub decode_symbol : Node → Inflate ℕ
decode_symbol missing r = refused invalid_code
decode_symbol (node symbol left right) r = elim (is_leaf left right) [
  | true ↦ symbol_of symbol r
  | false ↦
      and_then (read_bit r)
        λ (b, s). elim (b == 0) [ true ↦ decode_symbol left s | false ↦ decode_symbol right s ]
]

-- `bl.iter().max().unwrap_or(&0)`
abbrev pub longest : List ℕ → ℕ
longest [] = 0
longest (n ∷ rest) = max n (longest rest)

abbrev pub found : {A : Type 0} → Option A → Result A
found none = panics
found (some v) = done v

-- `xs[i]`, and `xs[i] = v`
abbrev pub index : {A : Type 0} → List A → ℕ → Result A
index xs i = found (get_elem? xs i)

abbrev pub assign : {A : Type 0} → List A → ℕ → A → Result (List A)
assign xs i v = and_then (index xs i) λ _. done (set_elem xs i v)

abbrev pub bump : List ℕ → ℕ → Result (List ℕ)
bump xs i = and_then (index xs i) λ v. done (set_elem xs i (v + 1))

abbrev pub zeros : ℕ → List ℕ
zeros zero = []
zeros (suc n) = 0 ∷ zeros n

unfoldable pub count_lengths : List ℕ → List ℕ → Result (List ℕ)
count_lengths [] bl_count = done bl_count
count_lengths (bitlen ∷ rest) bl_count =
    and_then (if bitlen == 0 then done bl_count else bump bl_count bitlen) (count_lengths rest)

-- The first code of each length, from the count and the first code of the length before. `<<` drops
-- what leaves the 32 bits.
unfoldable pub first_codes : ℕ → ℕ → List ℕ → List ℕ → Result (List ℕ)
first_codes zero bits bl_count next_code = done next_code
first_codes (suc n) bits bl_count next_code = and_then (index next_code (bits - 1)) λ code.
    and_then (index bl_count (bits - 1)) λ count.
      and_then (assign next_code bits ((code + count) * 2 % 2 ^ 32))
        (first_codes n (bits + 1) bl_count)

-- The lengths and the symbols they belong to, side by side; lengths beyond the alphabet do nothing.
unfoldable pub insert_codes : List ℕ → List ℕ → List ℕ → Node → Result Node
unfolding insert
insert_codes [] alphabet next_code t = done t
insert_codes (bitlen ∷ rest) [] next_code t = done t
insert_codes (bitlen ∷ rest) (symbol ∷ alphabet) next_code t =
    let again = insert_codes rest alphabet in
    if bitlen == 0
    then again next_code t
    else and_then (index next_code bitlen)
        λ code. and_then (bump next_code bitlen) λ codes. again codes (insert code bitlen symbol t)

unfoldable pub bl_list_to_tree : List ℕ → List ℕ → Result Node
unfolding count_lengths first_codes insert_codes
bl_list_to_tree bl alphabet =
    let max_bits = longest bl in
    and_then (count_lengths bl (zeros (max_bits + 1))) λ bl_count.
      and_then (first_codes (max_bits - 1) 2 bl_count (zeros (max_bits + 1)))
        λ next_code. insert_codes bl alphabet next_code empty_tree
