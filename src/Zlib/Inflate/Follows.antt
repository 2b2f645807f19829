-- ===== src/Zlib/Inflate/Follows.antt =====
-- A block of codes inflates to the bytes they lead to, or is refused where these are too many.
use soulseek_rs_lib.Base.{
  ℕ, zero, suc, ◌+◌, ◌-◌, ◌≤◌, ◌<◌, ◌≡◌, refl, sym, ap, subst, ◌∙◌, inl, inr, true, false,
  Bool-cases, some, List, [], ◌∷◌, ◌++◌, append_assoc, length, length-append, get_elem?,
  get_elem?-some, arith, ltb, leb, ◌==◌,
}
use soulseek_rs_lib.Zlib.Result.{
  InflateError, Result, done, refused, and_then, too_big, invalid_length, invalid_distance,
}
use soulseek_rs_lib.Zlib.Reader.{BitReader, Inflate, ◌>>=◌, read_bits}
use soulseek_rs_lib.Zlib.Reader.Stream.{bits, Stands, Gives}
use soulseek_rs_lib.Zlib.Reader.Decodes.{then-Gives, read_bits-Gives}
use soulseek_rs_lib.Zlib.Huffman.{Node, decode_symbol, index}
use soulseek_rs_lib.Zlib.Inflate.{
  length_extra_bits, length_base, distance_extra_bits, distance_base, from_base, read_length,
  read_distance, copy_back, copy_pair, after_symbol, inflate_block_data,
}
use soulseek_rs_lib.Zlib.Inflate.Fixed.{IsFixed, decode_symbol-Gives}
use soulseek_rs_lib.Zlib.Writer.Written.{msb}
use soulseek_rs_lib.Zlib.Deflate.Tables.{Expresses}
use soulseek_rs_lib.Zlib.Deflate.Codes.{Codes, symbol_bits, IsLength, IsDistance}

from_base-Gives :
    (bases extras : List ℕ) (e : InflateError) (v k : ℕ) (x : Expresses bases extras v k)
    (mem rest : List ℕ) (r : BitReader)
    → Stands mem (bits x.extra (v - x.base) ++ rest) r
    → Gives mem rest v (from_base (get_elem? extras k) e (index bases k) r)
from_base-Gives bases extras e v k x mem rest r s =
    let whole : v - x.base + x.base ≡ v = omega (arith, x.not_above) in
    rw (x.extra_of, x.base_of)
      (then-Gives mem rest rest (v - x.base) v (read_bits x.extra r) _
        (read_bits-Gives x.extra (v - x.base) mem rest r x.fits s)
        λ t there. (t, ap (λ w. done (w, t)) whole, there))

module _ {A : Type 0} where
  get_elem?-lt : (xs : List A) (i : ℕ) (x : A) → get_elem? xs i ≡ some x → i < length xs
  get_elem?-lt [] i x h = cc
  get_elem?-lt (y ∷ ys) zero x h = omega arith
  get_elem?-lt (y ∷ ys) (suc i) x h = omega (arith, get_elem?-lt ys i x h)

pair-longer : (a b c z : List ℕ) → 7 ≤ length a → length z < length ((a ++ b) ++ (c ++ z))
pair-longer a b c z h =
    omega (arith, length-append (a ++ b) (c ++ z), length-append a b, length-append c z)

pairs_assoc :
    (a b c d z t : List ℕ) → ((a ++ b) ++ ((c ++ d) ++ z)) ++ t ≡ a ++ (b ++ (c ++ (d ++ (z ++ t))))
pairs_assoc a b c d z t = simp append_assoc

module _ (lit dist : Node) (fixed : IsFixed lit dist) (max_out : ℕ) (mem : List ℕ) where
  copy_pair-Gives :
      (out next : List ℕ) (len distance l d : ℕ) (x : IsLength len l) (y : IsDistance distance d)
      (rest : List ℕ) (r : BitReader)
      → distance ≤ length out
      → copy_back len distance out ≡ done next
      → Stands mem
          (bits x.extra (len - x.base) ++ (msb d 5 ++ (bits y.extra (distance - y.base) ++ rest)))
          r
      → Gives mem rest next (copy_pair lit dist max_out (257 + l) out r)
  unfolding copy_pair read_length read_distance
  copy_pair-Gives out next len distance l d x y rest r near copied s =
      let e : (257 + l) - 257 ≡ l = omega arith in
      let small : d < 30 = get_elem?-lt distance_base d y.base y.base_of in
      let ok : ltb (length out) distance ≡ false = ground arith in
      rw e (
        then-Gives mem _ rest len next _ _
          (from_base-Gives length_base length_extra_bits invalid_length len l x mem _ r s)
          λ t at_t.
            then-Gives mem _ rest d next (decode_symbol dist t) _
              (decode_symbol-Gives dist (msb d 5) d mem _ t (fixed.distances d small) at_t)
              λ u at_u.
                then-Gives mem rest rest distance next _ _
                  (from_base-Gives distance_base distance_extra_bits invalid_distance distance d y
                    mem rest u at_u)
                  λ v at_v. rw (ok, copied) (v, refl, at_v))

length-msb : (v n : ℕ) → length (msb v n) ≡ n
length-msb v zero = refl
length-msb v (suc n) = ap suc (length-msb v n)

symbol_bits-long : (s : ℕ) → 7 ≤ length (symbol_bits s)
symbol_bits-long s = ground (
  arith,
  length-msb (48 + s) 8,
  length-msb (400 + s - 144) 9,
  length-msb (s - 256) 7,
  length-msb (192 + s - 280) 8,
)

module _ {A : Type 0} where
  done_of : {a b : A} → done a ≡ done b → a ≡ b
  done_of e = cc

copy_back-grows :
    (n dist : ℕ) (out next : List ℕ)
    → dist ≤ length out
    → 0 < dist
    → copy_back n dist out ≡ done next
    → length next ≡ length out + n
unfolding copy_back
copy_back-grows zero dist out next h p e = ap length (sym (done_of e)) ∙ omega arith
copy_back-grows (suc n) dist out next h p e =
    let (b, at) = get_elem?-some out (length out - dist) (omega arith) in
    let longer = length-append out (b ∷ []) in
    let here : copy_back (suc n) dist out ≡ copy_back n dist (out ++ (b ∷ [])) = rw at refl in
    omega (
      arith,
      longer,
      copy_back-grows n dist (out ++ (b ∷ [])) next (omega (arith, longer)) p (sym here ∙ e),
    )

-- Codes only add to the output.
pub Codes-grow : (whole out zs : List ℕ) → Codes whole out zs → length out ≤ length whole
Codes-grow whole _ [] Codes.finished = omega arith
Codes-grow whole out _ (Codes.literal _ b ws h c) =
    omega (arith, length-append out (b ∷ []), Codes-grow whole (out ++ (b ∷ [])) ws c)
Codes-grow whole out _ (Codes.pair _ next len dist l d x y ws positive near copied c) =
    omega
      (arith, copy_back-grows len dist out next near positive copied, Codes-grow whole next ws c)

-- What comes out: the whole, where it fits, with `rest` to come, and otherwise the refusal.
abbrev pub Ends : ℕ → List ℕ → List ℕ → List ℕ → Result (List ℕ × BitReader) → Type 0
Ends max_out mem rest whole o =
    (length whole ≤ max_out → Gives mem rest whole o)
    × (max_out < length whole → o ≡ refused too_big)

pub then-Ends :
    {A : Type 0} (max_out : ℕ) (mem xs rest whole : List ℕ) (a : A) (o : Result (A × BitReader))
    (f : A → Inflate (List ℕ))
    → Gives mem xs a o
    → ((s : BitReader) → Stands mem xs s → Ends max_out mem rest whole (f a s))
    → Ends max_out mem rest whole (and_then o λ (c, s). f c s)
then-Ends max_out mem xs rest whole a o f (s, runs, there) next = rw runs (next s there)

module _ (lit dist : Node) (fixed : IsFixed lit dist) (max_out : ℕ) (mem : List ℕ) where
  -- What a turn of the loop with `again` behind it has to know of the shorter codes to come.
  abbrev Follows : (List ℕ → Inflate (List ℕ)) → List ℕ → List ℕ → ℕ → Type 0
  Follows again whole rest n =
      (out zs : List ℕ) (t : BitReader)
      → Codes whole out zs
      → length zs < n
      → Stands mem (zs ++ (symbol_bits 256 ++ rest)) t
      → Ends max_out mem rest whole (again out t)

  turn-Ends :
      (again : List ℕ → Inflate (List ℕ)) (whole out zs rest : List ℕ) (r : BitReader)
      → Codes whole out zs
      → Follows again whole rest (length zs)
      → length out ≤ max_out
      → Stands mem (zs ++ (symbol_bits 256 ++ rest)) r
      → Ends max_out mem rest whole
          ((decode_symbol lit >>= after_symbol lit dist max_out again out) r)
  turn-Ends again whole _ _ rest r Codes.finished next w s =
      then-Ends max_out mem rest rest whole 256 (decode_symbol lit r)
        (after_symbol lit dist max_out again whole)
        (decode_symbol-Gives lit (symbol_bits 256) 256 mem rest r (fixed.symbols 256 (omega arith))
          s)
        λ t there. ((λ fits. (t, refl, there)), λ over. absurd (omega arith))
  turn-Ends again whole out _ rest r (Codes.literal _ b ws h c) next w s =
      let tail = ws ++ (symbol_bits 256 ++ rest) in
      let byte : leb b 255 ≡ true = ground arith in
      then-Ends max_out mem tail rest whole b (decode_symbol lit r)
        (after_symbol lit dist max_out again out)
        (decode_symbol-Gives lit (symbol_bits b) b mem tail r (fixed.symbols b (omega arith)) (
          subst (λ xs. Stands mem xs r) (append_assoc (symbol_bits b) ws (symbol_bits 256 ++ rest))
            s))
        λ t there. rw byte (
          next (out ++ (b ∷ [])) ws t c
            (omega (arith, length-append (symbol_bits b) ws, symbol_bits-long b)) there)
  turn-Ends again whole out _ rest r
        (Codes.pair _ longer len distance l d x y ws positive near copied c) next w s =
      let tail = ws ++ (symbol_bits 256 ++ rest) in
      let last = msb d 5 ++ (bits y.extra (distance - y.base) ++ tail) in
      let small : l < 29 = get_elem?-lt length_base l x.base x.base_of in
      let no_byte : leb (257 + l) 255 ≡ false = ground arith in
      let no_end : (257 + l == 256) ≡ false = ground arith in
      let apart =
        pairs_assoc (symbol_bits (257 + l)) (bits x.extra (len - x.base)) (msb d 5)
          (bits y.extra (distance - y.base)) ws (symbol_bits 256 ++ rest) in
      then-Ends max_out mem (bits x.extra (len - x.base) ++ last) rest whole (257 + l)
        (decode_symbol lit r) (after_symbol lit dist max_out again out)
        (decode_symbol-Gives lit (symbol_bits (257 + l)) (257 + l) mem
          (bits x.extra (len - x.base) ++ last) r (fixed.symbols (257 + l) (omega arith))
          (subst (λ xs. Stands mem xs r) apart s))
        λ t there.
          rw (no_byte, no_end)
            (then-Ends max_out mem tail rest whole longer
              (copy_pair lit dist max_out (257 + l) out t) again
              (copy_pair-Gives lit dist fixed max_out mem out longer len distance l d x y tail t
                near copied there)
              λ u behind.
                next longer ws u c
                  (pair-longer (symbol_bits (257 + l)) (bits x.extra (len - x.base))
                    (msb d 5 ++ bits y.extra (distance - y.base)) ws (symbol_bits-long (257 + l)))
                  behind)

  -- Reading codes and the end of the block, with a round for each bit, ends with what they lead to.
  pub inflate_block_data-Ends :
      (fuel : ℕ) (whole out zs rest : List ℕ) (r : BitReader)
      → Codes whole out zs
      → length zs < fuel
      → Stands mem (zs ++ (symbol_bits 256 ++ rest)) r
      → Ends max_out mem rest whole (inflate_block_data lit dist max_out fuel out r)
  unfolding inflate_block_data
  inflate_block_data-Ends zero whole out zs rest r c l s = absurd (omega arith)
  inflate_block_data-Ends (suc fuel) whole out zs rest r c l s =
      elim (Bool-cases (ltb max_out (length out))) [
        | inl over ↦
            rw over ((λ fits. absurd (ground (arith, Codes-grow whole out zs c))), λ k. refl)
        | inr within ↦ rw within (
            turn-Ends (inflate_block_data lit dist max_out fuel) whole out zs rest r c
              (λ out zs t c shorter.
                inflate_block_data-Ends fuel whole out zs rest t c (omega arith))
              (ground arith) s)
      ]
