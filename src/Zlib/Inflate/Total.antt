-- ===== src/Zlib/Inflate/Total.antt =====
-- Inflating ends on every input: no index is out of range, no loop outlives the bits it reads, and
-- what comes out respects the ceiling.
use soulseek_rs_lib.Base.{
  ℕ, zero, suc, ◌+◌, ◌-◌, ◌*◌, ◌≤◌, ◌<◌, ◌≡◌, refl, inl, inr, Bool, true, false, ◌&&◌, Option, none,
  some, List, [], ◌∷◌, ◌++◌, length, length-append, length-drop, drop, get_elem?, get_elem?-some,
  arith, ltb, leb, ◌==◌, Bool-cases, if◌then◌else◌,
}
use soulseek_rs_lib.Zlib.Result.{
  InflateError, Result, done, invalid_length, invalid_distance, distance_too_large, too_big,
}
use soulseek_rs_lib.Zlib.Reader.{BitReader, Inflate, fail, read_byte, read_bits, read_bytes}
use soulseek_rs_lib.Zlib.Reader.Stream.{bits, bytes_bits}
use soulseek_rs_lib.Zlib.Reader.Safe.{
  left, Uses, IsSafe, Any, bind-IsSafe, pure-IsSafe, fewer-Uses, fewer-IsSafe, read_bits-IsSafe,
  read_byte-IsSafe, read_bytes-IsSafe, length-bits, then-Uses, Any-IsSafe,
}
use soulseek_rs_lib.Zlib.Huffman.{Node, decode_symbol, index}
use soulseek_rs_lib.Zlib.Huffman.Total.{IsRoot, decode_symbol-IsSafe}
use soulseek_rs_lib.Zlib.Inflate.{
  lift, rounds, copy_stored, inflate_block_no_compression, length_base, length_extra_bits,
  distance_base, distance_extra_bits, from_base, read_length, read_distance, copy_back, copy_pair,
  after_symbol, inflate_block_data, with_trees,
}

pub fail-IsSafe : {A : Type 0} {Q : A → Type 0} (k : ℕ) (e : InflateError) → IsSafe k Q (fail e)
fail-IsSafe k e = record { at = λ r few. tt }

pub if-IsSafe :
    {A : Type 0} {Q : A → Type 0} (k : ℕ) (b : Bool) (p q : Inflate A)
    → IsSafe k Q p
    → IsSafe k Q q
    → IsSafe k Q (if b then p else q)
if-IsSafe k true p q h g = h
if-IsSafe k false p q h g = g

pub lift-IsSafe :
    {A : Type 0} {Q : A → Type 0} (o : Result A) (a : A) → o ≡ done a → Q a → IsSafe 0 Q (lift o)
lift-IsSafe o a e q = record { at = λ r few. rw e (q, few, omega arith) }

pub length-bytes_bits : (bs : List ℕ) → length (bytes_bits bs) ≡ 8 * length bs
unfolding bytes_bits
length-bytes_bits [] = refl
length-bytes_bits (b ∷ bs) =
    omega (arith, length-append (bits 8 b) (bytes_bits bs), length-bits 8 b, length-bytes_bits bs)

-- The reader never has more to come than the loops have fuel.
pub left-bound : (r : BitReader) → r.numbits < 8 → left r < rounds r
left-bound r few = omega (
  arith,
  few,
  length-append (bits r.numbits r.b) (bytes_bits (drop r.pos r.mem)),
  length-bits r.numbits r.b,
  length-bytes_bits (drop r.pos r.mem),
  length-drop r.pos r.mem,
)

copy_stored-IsSafe : (n : ℕ) (out : List ℕ) → IsSafe 0 Any (copy_stored n out)
unfolding copy_stored
copy_stored-IsSafe zero out = pure-IsSafe out tt
copy_stored-IsSafe (suc n) out = fewer-IsSafe 0 (8 + 0) (copy_stored (suc n) out) (omega arith) (
    bind-IsSafe 8 0 read_byte _ read_byte-IsSafe
      λ byte h. copy_stored-IsSafe n (out ++ (byte ∷ [])))

pub inflate_block_no_compression-IsSafe :
    (out : List ℕ) (max_out : ℕ) → IsSafe 0 Any (inflate_block_no_compression out max_out)
unfolding inflate_block_no_compression
inflate_block_no_compression-IsSafe out max_out =
    bind-IsSafe 0 0 (read_bytes 2) _ (read_bytes-IsSafe 2) λ len h.
      bind-IsSafe 0 0 (read_bytes 2) _ (read_bytes-IsSafe 2) λ nlen k.
        if-IsSafe 0 (ltb max_out (length out + len)) (fail too_big) (copy_stored len out)
          (fail-IsSafe 0 too_big) (copy_stored-IsSafe len out)

from_base-IsSafe :
    (o : Option ℕ) (e : InflateError) (base : Result ℕ)
    → ((extra : ℕ) → o ≡ some extra → (start : ℕ) × (base ≡ done start) × (1 ≤ start))
    → IsSafe 0 (λ v. 1 ≤ v) (from_base o e base)
from_base-IsSafe none e base h = fail-IsSafe 0 e
from_base-IsSafe (some extra) e base h =
    let (start, found, positive) = h extra refl in
    fewer-IsSafe 0 (extra + (0 + 0)) (from_base (some extra) e base) (omega arith) (
      bind-IsSafe extra (0 + 0) (read_bits extra) _ (read_bits-IsSafe extra) λ more k.
        bind-IsSafe 0 0 (lift base) _ (lift-IsSafe {Q = λ v. 1 ≤ v} base start found positive)
          λ v q. pure-IsSafe (more + v) (omega arith))

-- The two tables are as long as each other, and no base is zero.
abbrev fits : List ℕ → List ℕ → Bool
fits [] bases = true
fits (extra ∷ rest) [] = false
fits (extra ∷ rest) (base ∷ bases) = leb 1 base && fits rest bases

base_at :
    (extras bases : List ℕ) (i extra : ℕ)
    → fits extras bases ≡ true
    → get_elem? extras i ≡ some extra
    → (start : ℕ) × (index bases i ≡ done start) × (1 ≤ start)
base_at [] bases i extra h e = cc
base_at (x ∷ extras) [] i extra h e = cc
base_at (x ∷ extras) (base ∷ bases) zero extra h e = (base, refl, ground arith)
base_at (x ∷ extras) (base ∷ bases) (suc i) extra h e =
    base_at extras bases i extra (ground arith) e

read_length-IsSafe : (symbol : ℕ) → IsSafe 0 Any (read_length symbol)
unfolding read_length
read_length-IsSafe symbol = Any-IsSafe 0 (read_length symbol) (
    from_base-IsSafe (get_elem? length_extra_bits (symbol - 257)) invalid_length
      (index length_base (symbol - 257))
      λ extra e. base_at length_extra_bits length_base (symbol - 257) extra refl e)

read_distance-IsSafe : (symbol : ℕ) → IsSafe 0 (λ v. 1 ≤ v) (read_distance symbol)
unfolding read_distance
read_distance-IsSafe symbol =
    from_base-IsSafe (get_elem? distance_extra_bits symbol) invalid_distance
      (index distance_base symbol)
      λ extra e. base_at distance_extra_bits distance_base symbol extra refl e

copy_back-done :
    (n dist : ℕ) (out : List ℕ)
    → 1 ≤ dist
    → dist ≤ length out
    → (longer : List ℕ) × (copy_back n dist out ≡ done longer)
unfolding copy_back
copy_back-done zero dist out h k = (out, refl)
copy_back-done (suc n) dist out h k =
    let (byte, e) = get_elem?-some out (length out - dist) (omega arith) in
    let (longer, g) =
      copy_back-done n dist (out ++ (byte ∷ [])) h (omega (arith, length-append out (byte ∷ []))) in
    (longer, rw e g)

module _ (lit dist : Node) (max_out : ℕ) (lit_root : IsRoot lit) (dist_root : IsRoot dist) where
  copied-IsSafe :
      (len d : ℕ) (out : List ℕ)
      → 1 ≤ d
      → IsSafe 0 Any
          (if ltb (length out) d then fail distance_too_large else lift (copy_back len d out))
  copied-IsSafe len d out h = elim (Bool-cases (ltb (length out) d)) [
    | inl far ↦ rw far (fail-IsSafe 0 distance_too_large)
    | inr near ↦
        let (longer, e) = copy_back-done len d out h (ground arith) in
        rw near (lift-IsSafe (copy_back len d out) longer e tt)
  ]

  copy_pair-IsSafe :
      (symbol : ℕ) (out : List ℕ) → IsSafe 1 Any (copy_pair lit dist max_out symbol out)
  unfolding copy_pair
  copy_pair-IsSafe symbol out =
      bind-IsSafe 0 (1 + (0 + 0)) (read_length symbol) _ (read_length-IsSafe symbol) λ len h.
        bind-IsSafe 1 (0 + 0) (decode_symbol dist) _ (decode_symbol-IsSafe dist dist_root)
          λ dist_symbol k.
            bind-IsSafe 0 0 (read_distance dist_symbol) _ (read_distance-IsSafe dist_symbol)
              λ d positive. copied-IsSafe len d out positive

  after_symbol-Uses :
      (fuel : ℕ) (next : List ℕ → Inflate (List ℕ))
      → ((out : List ℕ) (t : BitReader) → t.numbits < 8 → left t < fuel → Uses 0 Any t (next out t))
      → (out : List ℕ) (symbol : ℕ) (t : BitReader) → t.numbits < 8
      → left t < fuel
      → Uses 0 Any t (after_symbol lit dist max_out next out symbol t)
  after_symbol-Uses fuel next again out symbol t few enough = elim (Bool-cases (leb symbol 255)) [
    | inl literal ↦ rw literal (again (out ++ (symbol ∷ [])) t few enough)
    | inr other ↦ elim (Bool-cases (symbol == 256)) [
      | inl end ↦ rw (other, end) (tt, few, omega arith)
      | inr pair ↦
          rw (other, pair)
            (fewer-Uses Any 0 (1 + 0) t _ (omega arith) (
              then-Uses Any 1 0 t (copy_pair lit dist max_out symbol out t) next
                ((copy_pair-IsSafe symbol out).at t few)
                (λ longer u h few' less. again longer u few' (omega arith))))
    ]
  ]

  -- The loop has enough fuel: each of its rounds takes a bit.
  inflate_block_data-Uses :
      (fuel : ℕ) (out : List ℕ) (r : BitReader)
      → r.numbits < 8
      → left r < fuel
      → Uses 0 Any r (inflate_block_data lit dist max_out fuel out r)
  unfolding inflate_block_data
  inflate_block_data-Uses zero out r few enough = absurd (omega arith)
  inflate_block_data-Uses (suc fuel) out r few enough =
      elim (Bool-cases (ltb max_out (length out))) [
        | inl over ↦ rw over tt
        | inr under ↦ rw under (
            fewer-Uses Any 0 (1 + 0) r _ (omega arith) (
              then-Uses Any 1 0 r (decode_symbol lit r)
                (after_symbol lit dist max_out (inflate_block_data lit dist max_out fuel) out)
                ((decode_symbol-IsSafe lit lit_root).at r few)
                (λ symbol t h few' less.
                  after_symbol-Uses fuel (inflate_block_data lit dist max_out fuel)
                    (inflate_block_data-Uses fuel) out symbol t few' (omega arith))))
      ]

  pub with_trees-IsSafe : (out : List ℕ) → IsSafe 0 Any (with_trees max_out out (lit, dist))
  with_trees-IsSafe out = record {
    at = λ r few. inflate_block_data-Uses (rounds r) out r few (left-bound r few);
  }
