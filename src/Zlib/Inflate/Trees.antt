-- ===== src/Zlib/Inflate/Trees.antt =====
-- Reading the codes of a dynamic block is safe on every input.
use soulseek_rs_lib.Base.{
  ℕ, zero, suc, ◌+◌, ◌≤◌, ◌<◌, ◌≡◌, refl, ap, inl, inr, Bool, true, false, ◌&&◌, Option, none, some,
  List, [], ◌∷◌, ◌++◌, length, length-append, take, drop, get_elem?-some, set_elem, length-set_elem,
  arith, ltb, leb, ◌==◌, Bool-cases,
}
use soulseek_rs_lib.Zlib.Result.{
  Result, done, refused, panics, spins, no_previous_length, invalid_symbol,
}
use soulseek_rs_lib.Zlib.Reader.{Inflate, pure, ◌>>=◌, read_bits}
use soulseek_rs_lib.Zlib.Reader.Safe.{
  IsSafe, Any, bind-IsSafe, pure-IsSafe, fewer-IsSafe, read_bits-IsSafe,
}
use soulseek_rs_lib.Zlib.Huffman.{Node, decode_symbol, bl_list_to_tree, assign, zeros}
use soulseek_rs_lib.Zlib.Huffman.Total.{
  IsRoot, Builds, bl_list_to_tree-Builds, decode_symbol-IsSafe,
}
use soulseek_rs_lib.Zlib.Inflate.{
  lift, code_length_codes_order, range, read_code_lengths, repeated, last, repeat_last, add_lengths,
  read_lengths, slice_at, trees_of, decode_trees,
}
use soulseek_rs_lib.Zlib.Inflate.Total.{fail-IsSafe, if-IsSafe, lift-IsSafe}

abbrev all_under : ℕ → List ℕ → Bool
all_under n [] = true
all_under n (i ∷ rest) = ltb i n && all_under n rest

assigned : (bl : List ℕ) (i v : ℕ) → i < length bl → assign bl i v ≡ done (set_elem bl i v)
assigned bl i v h = let (w, e) = get_elem?-some bl i h in rw e

read_code_lengths-IsSafe :
    (n : ℕ) (order bl : List ℕ)
    → n ≤ length order
    → all_under (length bl) order ≡ true
    → IsSafe 0 Any (read_code_lengths n order bl)
unfolding read_code_lengths
read_code_lengths-IsSafe zero order bl h k = pure-IsSafe bl tt
read_code_lengths-IsSafe (suc n) [] bl h k = absurd (omega arith)
read_code_lengths-IsSafe (suc n) (i ∷ order) bl h k =
    let same : (v : ℕ) → length (set_elem bl i v) ≡ length bl = λ v. length-set_elem bl i v in
    let later : (v : ℕ) → all_under (length (set_elem bl i v)) order ≡ true =
      λ v. rw (same v) (ground arith) in
    fewer-IsSafe 0 (3 + (0 + 0)) (read_code_lengths (suc n) (i ∷ order) bl) (omega arith) (
      bind-IsSafe 3 (0 + 0) (read_bits 3) _ (read_bits-IsSafe 3) λ v below.
        bind-IsSafe {Q = λ next. next ≡ set_elem bl i v} 0 0 (lift (assign bl i v)) _
          (lift-IsSafe (assign bl i v) (set_elem bl i v) (assigned bl i v (ground arith)) refl)
          λ next e.
            rw e (read_code_lengths-IsSafe n order (set_elem bl i v) (omega arith) (later v)))

length-repeated : (n v : ℕ) → length (repeated n v) ≡ n
length-repeated zero v = refl
length-repeated (suc n) v = ap suc (length-repeated n v)

abbrev Longer : List ℕ → List ℕ → Type 0
Longer bl next = length bl < length next

repeated-Longer : (bl : List ℕ) (n v : ℕ) → 1 ≤ n → Longer bl (bl ++ repeated n v)
repeated-Longer bl n v h = omega (arith, length-append bl (repeated n v), length-repeated n v)

repeat_last-IsSafe : (o : Option ℕ) (bl : List ℕ) → IsSafe 0 (Longer bl) (repeat_last o bl)
repeat_last-IsSafe none bl = fail-IsSafe 0 no_previous_length
repeat_last-IsSafe (some v) bl = fewer-IsSafe 0 (2 + 0) (repeat_last (some v) bl) (omega arith) (
    bind-IsSafe 2 0 (read_bits 2) _ (read_bits-IsSafe 2)
      λ n h. pure-IsSafe (bl ++ repeated (n + 3) v) (repeated-Longer bl (n + 3) v (omega arith)))

zeros-IsSafe :
    (width least : ℕ) (bl : List ℕ)
    → 1 ≤ least
    → IsSafe 0 (Longer bl) (read_bits width >>= λ n. pure (bl ++ repeated (n + least) 0))
zeros-IsSafe width least bl k = fewer-IsSafe 0 (width + 0) _ (omega arith) (
    bind-IsSafe width 0 (read_bits width) _ (read_bits-IsSafe width) λ n h.
      pure-IsSafe (bl ++ repeated (n + least) 0) (repeated-Longer bl (n + least) 0 (omega arith)))

add_lengths-IsSafe : (bl : List ℕ) (symbol : ℕ) → IsSafe 0 (Longer bl) (add_lengths bl symbol)
unfolding add_lengths
add_lengths-IsSafe bl symbol =
    if-IsSafe 0 (leb symbol 15) _ _
      (pure-IsSafe (bl ++ (symbol ∷ [])) (omega (arith, length-append bl (symbol ∷ []))))
      (if-IsSafe 0 (symbol == 16) _ _ (repeat_last-IsSafe (last bl) bl) (
        if-IsSafe 0 (symbol == 17) _ _ (zeros-IsSafe 3 3 bl (omega arith)) (
          if-IsSafe 0 (symbol == 18) _ _ (zeros-IsSafe 7 11 bl (omega arith))
            (fail-IsSafe 0 invalid_symbol))))

abbrev Reaches : ℕ → List ℕ → Type 0
Reaches total bl = total ≤ length bl

read_lengths-IsSafe :
    (tree : Node) (total fuel : ℕ) (bl : List ℕ)
    → IsRoot tree
    → total ≤ length bl + fuel
    → IsSafe 0 (Reaches total) (read_lengths tree total fuel bl)
unfolding read_lengths
read_lengths-IsSafe tree total zero bl root h = record {
  at = λ r few.
      let enough : ltb (length bl) total ≡ false = ground arith in
      rw enough (omega arith, few, omega arith);
}
read_lengths-IsSafe tree total (suc fuel) bl root h = record {
  at = λ r few. elim (Bool-cases (ltb (length bl) total)) [
    | inr enough ↦ rw enough (ground arith, few, omega arith)
    | inl short ↦ rw short (
        (round (read_lengths tree total fuel)
            (λ next k. read_lengths-IsSafe tree total fuel next root k)).at
          r few)
  ];
}
  where
    round :
        (again : List ℕ → Inflate (List ℕ))
        → ((next : List ℕ) → total ≤ length next + fuel → IsSafe 0 (Reaches total) (again next))
        → IsSafe 0
            (Reaches total)
            (decode_symbol tree >>= λ symbol. add_lengths bl symbol >>= again)
    round again safe = fewer-IsSafe 0 (1 + (0 + 0)) _ (omega arith) (
        bind-IsSafe 1 (0 + 0) (decode_symbol tree) _ (decode_symbol-IsSafe tree root) λ symbol h'.
          bind-IsSafe 0 0 (add_lengths bl symbol) again (add_lengths-IsSafe bl symbol)
            λ next longer. safe next (omega (arith, h, longer)))

abbrev pub BothRoots : Node × Node → Type 0
BothRoots (lit, dist) = IsRoot lit × IsRoot dist

-- A tree that is built, whatever the lengths.
pub built : (bl alphabet : List ℕ) → (t : Node) × (bl_list_to_tree bl alphabet ≡ done t) × IsRoot t
built bl alphabet = take_it (bl_list_to_tree bl alphabet) (bl_list_to_tree-Builds bl alphabet)
  where
    take_it : (o : Result Node) → Builds o → (t : Node) × (o ≡ done t) × IsRoot t
    take_it (done t) root = (t, refl, root)
    take_it (refused e) b = absurd b
    take_it panics b = absurd b
    take_it spins b = absurd b

pub trees_of-IsSafe :
    (lengths distances : List ℕ) → IsSafe 0 BothRoots (lift (trees_of lengths distances))
trees_of-IsSafe lengths distances =
    let (lit, e, lit_root) = built lengths (range 286) in
    let (dist, f, dist_root) = built distances (range 30) in
    lift-IsSafe (trees_of lengths distances) (lit, dist) (rw (e, f)) (lit_root, dist_root)

pub decode_trees-IsSafe : IsSafe 0 BothRoots decode_trees
unfolding decode_trees
decode_trees-IsSafe =
    fewer-IsSafe 0 (5 + (5 + (4 + (0 + (0 + (0 + (0 + 0))))))) decode_trees (omega arith) (
      bind-IsSafe 5 _ (read_bits 5) _ (read_bits-IsSafe 5) λ hlit h1.
        bind-IsSafe 5 _ (read_bits 5) _ (read_bits-IsSafe 5) λ hdist h2.
          bind-IsSafe 4 _ (read_bits 4) _ (read_bits-IsSafe 4) λ hclen h3.
            bind-IsSafe 0 _ (read_code_lengths (hclen + 4) code_length_codes_order (zeros 19)) _
              (read_code_lengths-IsSafe (hclen + 4) code_length_codes_order (zeros 19) (omega arith)
                refl)
              λ bl h4.
                let (tree, e, root) = built bl (range 19) in
                bind-IsSafe 0 _ (lift (bl_list_to_tree bl (range 19))) _
                  (lift-IsSafe {Q = IsRoot} _ tree e root)
                  λ t t_root.
                    bind-IsSafe 0 _
                      (read_lengths t (hlit + 257 + (hdist + 1)) (hlit + 257 + (hdist + 1)) []) _
                      (read_lengths-IsSafe t (hlit + 257 + (hdist + 1)) (hlit + 257 + (hdist + 1))
                        [] t_root (omega arith))
                      λ all reaches.
                        let within : ltb (length all) (hlit + 257) ≡ false = ground arith in
                        bind-IsSafe {Q = Any} 0 0 (lift (slice_at (hlit + 257) all)) _
                          (lift-IsSafe (slice_at (hlit + 257) all)
                            (take (hlit + 257) all, drop (hlit + 257) all) (rw within) tt)
                          λ parts h5. trees_of-IsSafe parts.0 parts.1)
