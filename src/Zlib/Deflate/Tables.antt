-- ===== src/Zlib/Deflate/Tables.antt =====
-- The tables of bases and extra bits cover every length and distance that can be written.
use soulseek_rs_lib.Base.{
  ℕ, zero, suc, ◌+◌, ◌-◌, ◌^◌, ◌≤◌, ◌<◌, ◌≡◌, refl, sym, ◌∙◌, inl, inr, Bool, true, false, ◌&&◌,
  none, some, Option-cases, List, [], ◌∷◌, get_elem?, arith, leb, ltb, if◌then◌else◌,
}
use soulseek_rs_lib.Zlib.Inflate.{
  length_extra_bits, length_base, distance_extra_bits, distance_base,
}
use soulseek_rs_lib.Zlib.Deflate.{rposition}

-- The extra bits of each base reach the next, and those of the last reach past `limit`.
abbrev covers : ℕ → List ℕ → List ℕ → Bool
covers limit [] extras = false
covers limit (b ∷ bs) [] = false
covers limit (b ∷ []) (e ∷ es) = ltb limit (b + 2 ^ e)
covers limit (b ∷ c ∷ bs) (e ∷ es) = leb c (b + 2 ^ e) && covers limit (c ∷ bs) es

-- The symbol `k` can express `v`: its base is not above `v`, and the rest fits in its extra bits.
pub record Expresses (bases extras : List ℕ) (v k : ℕ) : Type 0 where
  pub base : ℕ
  pub extra : ℕ
  pub base_of : get_elem? bases k ≡ some base
  pub extra_of : get_elem? extras k ≡ some extra
  pub not_above : base ≤ v
  pub fits : v - base < 2 ^ extra

Expresses-suc :
    (b e : ℕ) (bases extras : List ℕ) (v k : ℕ)
    → Expresses bases extras v k
    → Expresses (b ∷ bases) (e ∷ extras) v (suc k)
Expresses-suc b e bases extras v k x = record {
  base = x.base;
  extra = x.extra;
  base_of = x.base_of;
  extra_of = x.extra_of;
  not_above = x.not_above;
  fits = x.fits;
}

rposition-none : (b : ℕ) (bs : List ℕ) (v : ℕ) → rposition (b ∷ bs) v ≡ none → v < b
unfolding rposition
rposition-none b bs v h = ground arith

pub some_of {ℓ} : {A : Type ℓ} {a b : A} → some a ≡ some b → a ≡ b
some_of e = cc

-- The first base expresses what lies below the next.
Expresses-first :
    (b e : ℕ) (bs es : List ℕ) (v k : ℕ)
    → v - b < 2 ^ e
    → (if leb b v then some 0 else none) ≡ some k
    → Expresses (b ∷ bs) (e ∷ es) v k
Expresses-first b e bs es v zero fit h = record {
  base = b;
  extra = e;
  base_of = refl;
  extra_of = refl;
  not_above = ground arith;
  fits = fit;
}
Expresses-first b e bs es v (suc k) fit h = absurd (ground arith)

-- Where the tables cover a value, the last base that is not above it expresses it.
rposition-some :
    (limit b : ℕ) (bases extras : List ℕ) (v k : ℕ)
    → covers limit (b ∷ bases) extras ≡ true
    → v ≤ limit
    → rposition (b ∷ bases) v ≡ some k
    → Expresses (b ∷ bases) extras v k
unfolding rposition
rposition-some limit b [] [] v k c l h = absurd (ground arith)
rposition-some limit b (d ∷ bs) [] v k c l h = absurd (ground arith)
rposition-some limit b [] (e ∷ es) v k c l h = Expresses-first b e [] es v k (ground arith) h
rposition-some limit b (d ∷ bs) (e ∷ es) v k c l h = elim (Option-cases (rposition (d ∷ bs) v)) [
  | inl none_of ↦
      let below : v < d = rposition-none d bs v none_of in
      let here : rposition (b ∷ d ∷ bs) v ≡ (if leb b v then some 0 else none) = rw none_of refl in
      Expresses-first b e (d ∷ bs) es v k (ground arith) (sym here ∙ h)
  | inr (j, found) ↦
      let here : rposition (b ∷ d ∷ bs) v ≡ some (suc j) = rw found refl in
      let same : suc j ≡ k = some_of (sym here ∙ h) in
      rw (sym same) (
        Expresses-suc b e (d ∷ bs) es v j (rposition-some limit d bs es v j (ground arith) l found))
]

rposition-Expresses :
    (limit b : ℕ) (bases extras : List ℕ) (v : ℕ)
    → covers limit (b ∷ bases) extras ≡ true
    → b ≤ v
    → v ≤ limit
    → (k : ℕ) × (rposition (b ∷ bases) v ≡ some k) × Expresses (b ∷ bases) extras v k
rposition-Expresses limit b bases extras v c h l = elim (Option-cases (rposition (b ∷ bases) v)) [
  | inl none_of ↦ let below : v < b = rposition-none b bases v none_of in absurd (omega arith)
  | inr (k, found) ↦ (k, found, rposition-some limit b bases extras v k c l found)
]

pub length_symbol :
    (v : ℕ)
    → 3 ≤ v
    → v ≤ 258
    → (k : ℕ) × (rposition length_base v ≡ some k) × Expresses length_base length_extra_bits v k
length_symbol v h l = rposition-Expresses 258 _ _ length_extra_bits v refl h l

pub distance_symbol :
    (v : ℕ)
    → 1 ≤ v
    → v ≤ 32_768
    → (k : ℕ) × (rposition distance_base v ≡ some k)
      × Expresses distance_base distance_extra_bits v k
distance_symbol v h l = rposition-Expresses 32_768 _ _ distance_extra_bits v refl h l
