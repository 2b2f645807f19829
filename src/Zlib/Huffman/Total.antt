-- ===== src/Zlib/Huffman/Total.antt =====
-- Whatever lengths a stream announces, its codes form a tree, and a symbol takes at least one bit.
use soulseek_rs_lib.Base.{
  ℕ, zero, suc, ◌+◌, ◌-◌, ◌*◌, ◌%◌, ◌^◌, ◌≤◌, ◌<◌, ◌≡◌, refl, ap, ◌∙◌, inl, inr, Bool, true, false,
  Option, none, some, List, [], ◌∷◌, length, set_elem, length-set_elem, get_elem?-some, All, arith,
  ◌==◌, Bool-cases,
}
use soulseek_rs_lib.Zlib.Result.{Result, done, refused, panics, spins, and_then}
use soulseek_rs_lib.Zlib.Reader.{BitReader, read_bit}
use soulseek_rs_lib.Zlib.Reader.Safe.{Uses, IsSafe, Any, bind-Uses, fewer-Uses, read_bit-IsSafe}
use soulseek_rs_lib.Zlib.Huffman.{
  Node, missing, node, empty_tree, fresh, with_child, insert, is_leaf, symbol_of, decode_symbol,
  longest, index, assign, bump, zeros, count_lengths, first_codes, insert_codes, bl_list_to_tree,
}

-- The root is no code of length zero.
abbrev pub IsRoot : Node → Type 0
IsRoot missing = ⊥
IsRoot (node none left right) = Unit
IsRoot (node (some s) left right) = ⊥

with_child-IsRoot : (to_left : Bool) (c t : Node) → IsRoot t → IsRoot (with_child to_left c t)
with_child-IsRoot true c (node none left right) h = tt
with_child-IsRoot false c (node none left right) h = tt
with_child-IsRoot _ c missing h = h
with_child-IsRoot _ c (node (some s) left right) h = absurd h

fresh-IsRoot : (t : Node) → IsRoot t → IsRoot (fresh t)
fresh-IsRoot missing h = absurd h
fresh-IsRoot (node s left right) h = h

insert-IsRoot :
    (codeword i symbol : ℕ) (t : Node) → IsRoot t → IsRoot (insert codeword (suc i) symbol t)
unfolding insert
insert-IsRoot codeword i symbol t h = with_child-IsRoot _ _ (fresh t) (fresh-IsRoot t h)

-- A list of numbers that a loop keeps as long as it is.
abbrev Fills : ℕ → Result (List ℕ) → Type 0
Fills n (done xs) = length xs ≡ n
Fills n (refused e) = ⊥
Fills n panics = ⊥
Fills n spins = ⊥

index-done : (xs : List ℕ) (i : ℕ) → i < length xs → (v : ℕ) × (index xs i ≡ done v)
index-done xs i h = let (v, e) = get_elem?-some xs i h in (v, rw e)

bump-Fills : (xs : List ℕ) (i : ℕ) → i < length xs → Fills (length xs) (bump xs i)
bump-Fills xs i h = let (v, e) = index-done xs i h in rw e (length-set_elem xs i (v + 1))

assign-Fills : (xs : List ℕ) (i v : ℕ) → i < length xs → Fills (length xs) (assign xs i v)
assign-Fills xs i v h = let (w, e) = index-done xs i h in rw e (length-set_elem xs i v)

then-Fills :
    (m n : ℕ) (o : Result (List ℕ)) (f : List ℕ → Result (List ℕ))
    → Fills m o
    → ((xs : List ℕ) → length xs ≡ m → Fills n (f xs))
    → Fills n (and_then o f)
then-Fills m n (done xs) f h g = g xs h
then-Fills m n (refused e) f h g = h
then-Fills m n panics f h g = h
then-Fills m n spins f h g = h

abbrev AtMost : ℕ → ℕ → Type 0
AtMost m n = n ≤ m

longest-AtMost : (bl : List ℕ) (m : ℕ) → longest bl ≤ m → All (AtMost m) bl
longest-AtMost [] m h = tt
longest-AtMost (n ∷ rest) m h = (omega arith, longest-AtMost rest m (omega arith))

count_lengths-Fills :
    (bl bl_count : List ℕ) (m : ℕ)
    → All (AtMost m) bl
    → length bl_count ≡ m + 1
    → Fills (m + 1) (count_lengths bl bl_count)
unfolding count_lengths
count_lengths-Fills [] bl_count m h e = e
count_lengths-Fills (n ∷ rest) bl_count m (h, hs) e = elim (Bool-cases (n == 0)) [
  | inl z ↦ rw z (count_lengths-Fills rest bl_count m hs e)
  | inr z ↦ rw z (
      then-Fills (length bl_count) (m + 1) (bump bl_count n) (count_lengths rest)
        (bump-Fills bl_count n (omega (arith, e)))
        (λ xs k. count_lengths-Fills rest xs m hs (k ∙ e)))
]

first_codes-Fills :
    (n bits m : ℕ) (bl_count next_code : List ℕ)
    → bits + n ≤ m + 1
    → 1 ≤ bits
    → length bl_count ≡ m + 1
    → length next_code ≡ m + 1
    → Fills (m + 1) (first_codes n bits bl_count next_code)
unfolding first_codes
first_codes-Fills zero bits m bl_count next_code h k e f = f
first_codes-Fills (suc n) bits m bl_count next_code h k e f =
    let (code, got) = index-done next_code (bits - 1) (omega (arith, f)) in
    let (count, counted) = index-done bl_count (bits - 1) (omega (arith, e)) in
    rw (got, counted)
      (then-Fills (length next_code) (m + 1) (assign next_code bits ((code + count) * 2 % 2 ^ 32))
        (first_codes n (bits + 1) bl_count) (assign-Fills next_code bits _ (omega (arith, f)))
        (λ xs g.
          first_codes-Fills n (bits + 1) m bl_count xs (omega arith) (omega arith) e (g ∙ f)))

length-zeros : (n : ℕ) → length (zeros n) ≡ n
length-zeros zero = refl
length-zeros (suc n) = ap suc (length-zeros n)

-- A tree was built, with an empty root.
abbrev pub Builds : Result Node → Type 0
Builds (done t) = IsRoot t
Builds (refused e) = ⊥
Builds panics = ⊥
Builds spins = ⊥

insert_codes-Builds :
    (bl alphabet next_code : List ℕ) (t : Node) (m : ℕ)
    → All (AtMost m) bl
    → length next_code ≡ m + 1
    → IsRoot t
    → Builds (insert_codes bl alphabet next_code t)
unfolding insert_codes
insert_codes-Builds [] alphabet next_code t m h e root = root
insert_codes-Builds (n ∷ rest) [] next_code t m h e root = root
insert_codes-Builds (zero ∷ rest) (symbol ∷ alphabet) next_code t m (h, hs) e root =
    insert_codes-Builds rest alphabet next_code t m hs e root
insert_codes-Builds (suc n ∷ rest) (symbol ∷ alphabet) next_code t m (h, hs) e root =
    let (code, got) = index-done next_code (suc n) (omega (arith, e)) in
    let bumped : (suc n == 0) ≡ false = ground arith in
    rw (bumped, got)
      (insert_codes-Builds rest alphabet (set_elem next_code (suc n) (code + 1))
        (insert code (suc n) symbol t) m hs (length-set_elem next_code (suc n) (code + 1) ∙ e)
        (insert-IsRoot code n symbol t root))

-- No code length is out of range: the tree is built.
pub bl_list_to_tree-Builds : (bl alphabet : List ℕ) → Builds (bl_list_to_tree bl alphabet)
unfolding bl_list_to_tree
bl_list_to_tree-Builds bl alphabet =
    let m = longest bl in
    let within = longest-AtMost bl m (omega arith) in
    counted m within (count_lengths bl (zeros (m + 1)))
      (count_lengths-Fills bl (zeros (m + 1)) m within (length-zeros (m + 1)))
  where
    coded :
        (m : ℕ)
        → All (AtMost m) bl
        → (o : Result (List ℕ)) → Fills (m + 1) o
        → Builds (and_then o λ next_code. insert_codes bl alphabet next_code empty_tree)
    coded m within (done codes) e = insert_codes-Builds bl alphabet codes empty_tree m within e tt
    coded m within (refused e) f = f
    coded m within panics f = f
    coded m within spins f = f

    counted :
        (m : ℕ)
        → All (AtMost m) bl
        → (o : Result (List ℕ)) → Fills (m + 1) o
        → Builds (
            and_then o λ bl_count.
              and_then
                (first_codes (m - 1) 2 bl_count (zeros (m + 1)))
                λ next_code. insert_codes bl alphabet next_code empty_tree)
    counted zero within (done counts) e = coded 0 within (done (zeros 1)) refl
    counted (suc m) within (done counts) e =
        coded (suc m) within (first_codes (suc m - 1) 2 counts (zeros (suc m + 1))) (
          first_codes-Fills (suc m - 1) 2 (suc m) counts (zeros (suc m + 1)) (omega arith)
            (omega arith) e (length-zeros (suc m + 1)))
    counted m within (refused e) f = f
    counted m within panics f = f
    counted m within spins f = f

-- One step down the tree, or the end of the walk.
turn-Uses :
    (k : ℕ) (left right : Node) (r : BitReader)
    → ((s : BitReader) → s.numbits < 8 → Uses 0 Any s (decode_symbol left s))
    → ((s : BitReader) → s.numbits < 8 → Uses 0 Any s (decode_symbol right s))
    → r.numbits < 8
    → k ≤ 1
    → Uses k Any r (
        and_then
          (read_bit r)
          λ (b, s). elim (b == 0) [ true ↦ decode_symbol left s | false ↦ decode_symbol right s ])
turn-Uses k left right r at_left at_right few small = fewer-Uses Any k (1 + 0) r _ (omega arith) (
    bind-Uses 1 0 r (read_bit r)
      (λ b s. elim (b == 0) [ true ↦ decode_symbol left s | false ↦ decode_symbol right s ])
      (read_bit-IsSafe.at r few)
      (λ b h. record {
        at = λ s k'. elim (Bool-cases (b == 0)) [
          | inl e ↦ rw e (at_left s k')
          | inr e ↦ rw e (at_right s k')
        ];
      }))

decode_symbol-Uses : (t : Node) (r : BitReader) → r.numbits < 8 → Uses 0 Any r (decode_symbol t r)
unfolding decode_symbol
decode_symbol-Uses missing r few = tt
decode_symbol-Uses (node symbol left right) r few = elim (Bool-cases (is_leaf left right)) [
  | inl leaf ↦ rw (decode_symbol, leaf) (named symbol)
  | inr inner ↦
      rw (decode_symbol, inner)
        (turn-Uses 0 left right r (decode_symbol-Uses left) (decode_symbol-Uses right) few
          (omega arith))
]
  where
    named : (o : Option ℕ) → Uses 0 Any r (symbol_of o r)
    named none = tt
    named (some s) = (tt, few, omega arith)

-- Decoding a symbol with a tree that was built takes a bit at least, or fails.
pub decode_symbol-IsSafe : (t : Node) → IsRoot t → IsSafe 1 Any (decode_symbol t)
unfolding decode_symbol
decode_symbol-IsSafe missing h = absurd h
decode_symbol-IsSafe (node (some s) left right) h = absurd h
decode_symbol-IsSafe (node none left right) h = record {
  at = λ r few. elim (Bool-cases (is_leaf left right)) [
    | inl leaf ↦ rw (decode_symbol, leaf) tt
    | inr inner ↦
        rw (decode_symbol, inner)
          (turn-Uses 1 left right r (decode_symbol-Uses left) (decode_symbol-Uses right) few
            (omega arith))
  ];
}
