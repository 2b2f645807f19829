-- ===== src/Zlib/Deflate/Matches.antt =====
-- What a match says: the bytes at two positions agree, so that copying from the first is reading
-- on at the second.
use soulseek_rs_lib.Base.{
  ℕ, zero, suc, ◌+◌, ◌-◌, ◌≤◌, ◌<◌, ◌≡◌, refl, sym, ap, ◌∙◌, inl, inr, Bool-cases, some, List, [],
  ◌∷◌, ◌++◌, length, length-take, take, get_elem?, get_elem?-some, arith, ◌==◌, ==_iff,
}
use soulseek_rs_lib.Zlib.Result.{done}
use soulseek_rs_lib.Zlib.Inflate.{copy_back}
use soulseek_rs_lib.Zlib.Deflate.{common, window, max_match}

-- The same byte stands at both positions.
abbrev pub SameAt : List ℕ → ℕ → ℕ → Type 0
SameAt bytes c i = (x : ℕ) × (get_elem? bytes c ≡ some x) × (get_elem? bytes i ≡ some x)

abbrev pub Same : ℕ → List ℕ → ℕ → ℕ → Type 0
Same zero bytes c i = Unit
Same (suc n) bytes c i = SameAt bytes c i × Same n bytes (suc c) (suc i)

-- Counting what two positions have in common ends within bounds, and is right.
pub common-Same :
    (n : ℕ) (bytes : List ℕ) (c i : ℕ)
    → c ≤ i
    → i + n ≤ length bytes
    → (len : ℕ) × (common n bytes c i ≡ done len) × (len ≤ n) × Same len bytes c i
unfolding common
common-Same zero bytes c i h k = (0, refl, omega arith, tt)
common-Same (suc n) bytes c i h k =
    let (a, at_c) = get_elem?-some bytes c (omega arith) in
    let (b, at_i) = get_elem?-some bytes i (omega arith) in
    elim (Bool-cases (a == b)) [
      | inl e ↦
          let (len, rest, less, same) =
            common-Same n bytes (suc c) (suc i) (omega arith) (omega arith) in
          let agree : a ≡ b = (==_iff a b).0 e in
          (
            suc len,
            rw (at_c, at_i) (rw (e, rest) refl),
            omega arith,
            ((a, at_c, at_i ∙ ap some (sym agree)), same),
          )
      | inr e ↦ (0, rw (at_c, at_i) (rw e refl), omega arith, tt)
    ]

take-suc :
    (bytes : List ℕ) (i x : ℕ)
    → get_elem? bytes i ≡ some x
    → take i bytes ++ (x ∷ []) ≡ take (suc i) bytes
take-suc [] i x h = cc
take-suc (y ∷ ys) zero x h = cc
take-suc (y ∷ ys) (suc i) x h = ap (λ t. y ∷ t) (take-suc ys i x h)

get_elem?-take : (bytes : List ℕ) (i c : ℕ) → c < i → get_elem? (take i bytes) c ≡ get_elem? bytes c
get_elem?-take bytes zero c h = absurd (omega arith)
get_elem?-take [] (suc i) c h = refl
get_elem?-take (y ∷ ys) (suc i) zero h = refl
get_elem?-take (y ∷ ys) (suc i) (suc c) h = get_elem?-take ys i c (omega arith)

pub take_snoc :
    (bytes : List ℕ) (i x : ℕ)
    → get_elem? bytes i ≡ some x
    → take i bytes ++ (x ∷ []) ≡ take (suc i) bytes
take_snoc = take-suc

length-prefix : (bytes : List ℕ) (i : ℕ) → i ≤ length bytes → length (take i bytes) ≡ i
length-prefix bytes i h = omega (arith, length-take i bytes)

-- Copying a match back writes the bytes that stand there.
pub copy_back-Same :
    (len dist : ℕ) (bytes : List ℕ) (c i : ℕ)
    → c + dist ≡ i
    → 0 < dist
    → i + len ≤ length bytes
    → Same len bytes c i
    → copy_back len dist (take i bytes) ≡ done (take (i + len) bytes)
unfolding copy_back
copy_back-Same zero dist bytes c i e p k s = ap (λ n. done (take n bytes)) (omega arith)
copy_back-Same (suc n) dist bytes c i e p k ((x, at_c, at_i), s) =
    let from : length (take i bytes) - dist ≡ c = omega (arith, length-prefix bytes i) in
    let read : get_elem? (take i bytes) c ≡ some x =
      get_elem?-take bytes i c (omega arith) ∙ at_c in
    let on : i + suc n ≡ suc i + n = omega arith in
    rw (from, read, take-suc bytes i x at_i, on)
      (copy_back-Same n dist bytes (suc c) (suc i) (omega arith) p (omega arith) s)

-- A match of the bytes at `i`: an earlier position within the window with the same bytes.
pub record Matches (bytes : List ℕ) (i len dist : ℕ) : Type 0 where
  pub start : ℕ
  pub back : start + dist ≡ i
  pub positive : 0 < dist
  pub near : dist ≤ window
  pub short : len ≤ max_match
  pub within : i + len ≤ length bytes
  pub same : Same len bytes start i
