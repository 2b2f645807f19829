-- ===== src/Zlib/Inflate/Fixed.antt =====
-- The fixed trees decode the fixed codes.
use soulseek_rs_lib.Base.{
  ℕ, zero, suc, ◌<◌, ◌≡◌, refl, ap, ◌∙◌, inl, inr, Bool, true, false, ◌&&◌, not, Bool-cases, Option,
  none, some, List, [], ◌∷◌, ◌++◌, arith, ◌==◌, ==_iff, if◌then◌else◌,
}
use soulseek_rs_lib.Zlib.Result.{Result, done, refused, panics, spins}
use soulseek_rs_lib.Zlib.Reader.{BitReader, read_bit}
use soulseek_rs_lib.Zlib.Reader.Stream.{Stands, Gives, read_bit-Gives}
use soulseek_rs_lib.Zlib.Reader.Decodes.{then-Gives}
use soulseek_rs_lib.Zlib.Huffman.{Node, missing, node, is_leaf, symbol_of, decode_symbol}
use soulseek_rs_lib.Zlib.Inflate.{fixed_trees}
use soulseek_rs_lib.Zlib.Writer.Written.{msb}
use soulseek_rs_lib.Zlib.Deflate.Codes.{symbol_bits}

abbrev names : Option ℕ → ℕ → Bool
names none s = false
names (some t) s = t == s

-- The bits lead from the root to the leaf of the symbol, and no further.
abbrev pub leads : Node → List ℕ → ℕ → Bool
leads missing bs s = false
leads (node symbol left right) [] s = is_leaf left right && names symbol s
leads (node symbol left right) (b ∷ bs) s =
    not (is_leaf left right) && (if b == 0 then leads left bs s else leads right bs s)

-- Decoding bits that lead to a symbol gives the symbol.
pub decode_symbol-Gives :
    (t : Node) (bs : List ℕ) (s : ℕ) (mem rest : List ℕ) (r : BitReader)
    → leads t bs s ≡ true
    → Stands mem (bs ++ rest) r
    → Gives mem rest s (decode_symbol t r)
unfolding decode_symbol
decode_symbol-Gives missing bs s mem rest r h stands = absurd (ground arith)
decode_symbol-Gives (node none left right) [] s mem rest r h stands = absurd (ground arith)
decode_symbol-Gives (node (some t) left right) [] s mem rest r h stands =
    let leaf : is_leaf left right ≡ true = ground arith in
    let named : t ≡ s = ground arith in
    rw (decode_symbol, leaf) (r, ap (λ v. done (v, r)) named, stands)
decode_symbol-Gives (node symbol left right) (b ∷ bs) s mem rest r h stands =
    let inner : is_leaf left right ≡ false = ground arith in
    rw (decode_symbol, inner)
      (then-Gives mem (bs ++ rest) rest b s (read_bit r) _
        (read_bit-Gives mem b (bs ++ rest) r stands)
        λ u there. elim (Bool-cases (b == 0)) [
          | inl e ↦
              rw (decode_symbol, e) (decode_symbol-Gives left bs s mem rest u (ground arith) there)
          | inr e ↦
              rw (decode_symbol, e) (decode_symbol-Gives right bs s mem rest u (ground arith) there)
        ])

-- Every number below `n` passes.
abbrev all_below : ℕ → (ℕ → Bool) → Bool
all_below zero p = true
all_below (suc n) p = p n && all_below n p

below-all : (n : ℕ) (p : ℕ → Bool) (k : ℕ) → all_below n p ≡ true → k < n → p k ≡ true
below-all zero p k h l = absurd (omega arith)
below-all (suc n) p k h l = elim (Bool-cases (k == n)) [
  | inl e ↦ ap p ((==_iff k n).0 e) ∙ ground arith
  | inr e ↦ below-all n p k (ground arith) (ground arith)
]

-- What the fixed trees have to do: lead the code of each symbol, and of each distance, to it.
abbrev decodes : Result (Node × Node) → Bool
decodes (done (lit, dist)) =
    all_below 286 (λ s. leads lit (symbol_bits s) s) && all_below 30 (λ d. leads dist (msb d 5) d)
decodes (refused e) = false
decodes panics = false
decodes spins = false

fixed_trees-decodes : decodes fixed_trees ≡ true
unfolding fixed_trees soulseek_rs_lib.Zlib.Huffman.bl_list_to_tree
fixed_trees-decodes = refl

-- Trees that decode every symbol and every distance.
pub record IsFixed (lit dist : Node) : Type 0 where
  pub symbols : (s : ℕ) → s < 286 → leads lit (symbol_bits s) s ≡ true
  pub distances : (d : ℕ) → d < 30 → leads dist (msb d 5) d ≡ true

decodes-IsFixed :
    (o : Result (Node × Node))
    → decodes o ≡ true
    → (lit : Node) × (dist : Node) × (o ≡ done (lit, dist)) × IsFixed lit dist
decodes-IsFixed (done (lit, dist)) h =
    let (symbols, distances) = both_true _ _ h in
    (
      lit,
      dist,
      refl,
      record {
        symbols = λ s l. below-all 286 (λ s. leads lit (symbol_bits s) s) s symbols l;
        distances = λ d l. below-all 30 (λ d. leads dist (msb d 5) d) d distances l;
      },
    )
  where
    both_true : (a b : Bool) → (a && b) ≡ true → (a ≡ true) × (b ≡ true)
    both_true a b h = ground arith
decodes-IsFixed (refused e) h = absurd (ground arith)
decodes-IsFixed panics h = absurd (ground arith)
decodes-IsFixed spins h = absurd (ground arith)

-- The trees that a fixed block is read with are such trees.
pub fixed_trees-IsFixed :
    (lit : Node) × (dist : Node) × (fixed_trees ≡ done (lit, dist)) × IsFixed lit dist
fixed_trees-IsFixed = decodes-IsFixed fixed_trees fixed_trees-decodes
