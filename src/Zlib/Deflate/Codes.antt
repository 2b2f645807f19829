-- ===== src/Zlib/Deflate/Codes.antt =====
-- A block as bits: literals, and pairs of a length and a distance, up to the end of the block.
use soulseek_rs_lib.Base.{
  ℕ, ◌+◌, ◌-◌, ◌^◌, ◌≤◌, ◌<◌, ◌≡◌, refl, ap, ◌∙◌, false, List, [], ◌∷◌, ◌++◌, append_assoc, length,
  arith, ltb,
}
use soulseek_rs_lib.Zlib.Result.{done}
use soulseek_rs_lib.Zlib.Reader.Stream.{bits}
use soulseek_rs_lib.Zlib.Inflate.{
  length_extra_bits, length_base, distance_extra_bits, distance_base, copy_back,
}
use soulseek_rs_lib.Zlib.Writer.{BitWriter, put, code}
use soulseek_rs_lib.Zlib.Writer.Written.{
  written, IsSettled, msb, put-written, put-IsSettled, code-written, code-IsSettled, Extends,
  Extends-trans, put-Extends, code-Extends,
}
use soulseek_rs_lib.Zlib.Deflate.{symbol_code, symbol, put_extra, emit_match}
use soulseek_rs_lib.Zlib.Deflate.Tables.{Expresses, length_symbol, distance_symbol}

-- The bits of a symbol.
abbrev pub symbol_bits : ℕ → List ℕ
symbol_bits s = let (value, count) = symbol_code s in msb value count

-- The extra bits of a value above the base of its symbol.
abbrev pub extra_of : (bases extras : List ℕ) (v k : ℕ) → Expresses bases extras v k → List ℕ
extra_of bases extras v k x = bits x.extra (v - x.base)

abbrev pub IsLength : ℕ → ℕ → Type 0
IsLength = Expresses length_base length_extra_bits

abbrev pub IsDistance : ℕ → ℕ → Type 0
IsDistance = Expresses distance_base distance_extra_bits

abbrev pub length_bits : (len l : ℕ) → IsLength len l → List ℕ
length_bits len l x = symbol_bits (257 + l) ++ bits x.extra (len - x.base)

abbrev pub distance_bits : (dist d : ℕ) → IsDistance dist d → List ℕ
distance_bits dist d y = msb d 5 ++ bits y.extra (dist - y.base)

-- The bits `zs` lead from the output `out` to the output `whole`.
pub data Codes (whole : List ℕ) : List ℕ → List ℕ → Type 0 where
  finished : Codes whole whole []
  literal :
      (out : List ℕ) (b : ℕ) (zs : List ℕ)
      → b < 256
      → Codes whole (out ++ (b ∷ [])) zs
      → Codes whole out (symbol_bits b ++ zs)
  pair :
      (out next : List ℕ) (len dist l d : ℕ) (x : IsLength len l) (y : IsDistance dist d)
      (zs : List ℕ)
      → 0 < dist
      → dist ≤ length out
      → copy_back len dist out ≡ done next
      → Codes whole next zs
      → Codes whole out (length_bits len l x ++ (distance_bits dist d y ++ zs))

-- `v` is `w` with the bits `zs` written behind.
pub record Adds (w : BitWriter) (zs : List ℕ) (v : BitWriter) : Type 0 where
  pub settled : IsSettled v
  pub added : written v ≡ written w ++ zs
  pub extends : Extends w v

pub Adds-then :
    (u v w : BitWriter) (xs ys : List ℕ) → Adds u xs v → Adds v ys w → Adds u (xs ++ ys) w
Adds-then u v w xs ys a b = record {
  settled = b.settled;
  added = b.added ∙ ap (λ zs. zs ++ ys) a.added ∙ append_assoc (written u) xs ys;
  extends = Extends-trans u v w a.extends b.extends;
}

pub put-Adds : (v c : ℕ) (w : BitWriter) → v < 2 ^ c → IsSettled w → Adds w (bits c v) (put v c w)
put-Adds v c w h s = record {
  settled = put-IsSettled v c w h s;
  added = put-written v c w s;
  extends = put-Extends v c w;
}

code-Adds : (v n : ℕ) (w : BitWriter) → IsSettled w → Adds w (msb v n) (code v n w)
code-Adds v n w s = record {
  settled = code-IsSettled v n w s;
  added = code-written v n w s;
  extends = code-Extends v n w;
}

pub symbol-Adds : (s : ℕ) (w : BitWriter) → IsSettled w → Adds w (symbol_bits s) (symbol s w)
unfolding symbol
symbol-Adds s w settled = code-Adds (symbol_code s).0 (symbol_code s).1 w settled

put_extra-Adds :
    (bases extras : List ℕ) (k v : ℕ) (w : BitWriter) (x : Expresses bases extras v k)
    → IsSettled w
    → (u : BitWriter) × (put_extra bases extras k v w ≡ done u)
      × Adds w (bits x.extra (v - x.base)) u
put_extra-Adds bases extras k v w x s =
    let enough : ltb v x.base ≡ false = ground (arith, x.not_above) in
    (
      put (v - x.base) x.extra w,
      rw (x.base_of, enough, x.extra_of) refl,
      put-Adds (v - x.base) x.extra w x.fits s,
    )

-- Writing a match writes the symbols and extra bits of its length and distance.
pub emit_match-Adds :
    (len dist : ℕ) (w : BitWriter)
    → 3 ≤ len
    → len ≤ 258
    → 1 ≤ dist
    → dist ≤ 32_768
    → IsSettled w
    → (l : ℕ) × (d : ℕ) × (x : IsLength len l) × (y : IsDistance dist d) × (v : BitWriter)
      × (emit_match len dist w ≡ done v)
      × Adds w (length_bits len l x ++ distance_bits dist d y) v
unfolding emit_match
emit_match-Adds len dist w h1 h2 h3 h4 s =
    let (l, at_l, x) = length_symbol len h1 h2 in
    let (d, at_d, y) = distance_symbol dist h3 h4 in
    let a = symbol-Adds (257 + l) w s in
    let (v, runs, b) =
      put_extra-Adds length_base length_extra_bits l len (symbol (257 + l) w) x a.settled in
    let c = code-Adds d 5 v b.settled in
    let (u, runs', e) =
      put_extra-Adds distance_base distance_extra_bits d dist (code d 5 v) y c.settled in
    (
      l,
      d,
      x,
      y,
      u,
      rw (at_l, at_d) (rw runs runs'),
      Adds-then w v u _ _ (Adds-then w (symbol (257 + l) w) v _ _ a b)
          (Adds-then v (code d 5 v) u _ _ c e),
    )
