-- ===== src/Zlib/Deflate/Search.antt =====
-- The search for a match: its positions lie before the one that is looked at, every index is within
-- bounds, and what it finds matches.
use soulseek_rs_lib.Base.{
  ℕ, zero, suc, ◌+◌, ◌-◌, ◌*◌, ◌/◌, ◌%◌, ◌^◌, min, ◌≤◌, ◌<◌, ◌≡◌, refl, sym, ap, subst, ◌∙◌, inl,
  inr, true, false, ◌||◌, Bool-cases, Option, none, some, List, [], ◌∷◌, length, set_elem,
  length-set_elem, get_elem?, get_elem?-some, All, All-map, arith, ltb, leb, ◌==◌,
}
use soulseek_rs_lib.Zlib.Result.{done}
use soulseek_rs_lib.Zlib.Writer.Written.{pow_add}
use soulseek_rs_lib.Zlib.Deflate.{
  Chains, window, nice_match, min_match, max_match, match_tries, walk, hash, three_bytes,
  trailing_zeros, remember, remember_each, best_match, no_positions, no_chains,
}
use native.Mathlib.Nat.{pow-suc, one-le-pow, div-lt_iff_lt-mul}
use soulseek_rs_lib.Zlib.Deflate.Tables.{some_of}
use soulseek_rs_lib.Zlib.Deflate.Matches.{Matches, common-Same}

-- A position in a chain lies before `i`.
abbrev pub Earlier : ℕ → Option ℕ → Type 0
Earlier i none = Unit
Earlier i (some c) = c < i

pub record IsChained (bits : ℕ) (bytes : List ℕ) (i : ℕ) (t : Chains) : Type 0 where
  pub heads : length t.head ≡ 2 ^ bits
  pub prevs : length t.prev ≡ length bytes
  pub head_before : All (Earlier i) t.head
  pub prev_before : All (Earlier i) t.prev

-- What was found so far: nothing, or a match.
abbrev pub Found : List ℕ → ℕ → ℕ × ℕ → Type 0
Found bytes i best = 0 < best.0 → Matches bytes i best.0 best.1

module _ {A : Type 0} (P : A → Type 0) where
  pub All-get_elem? : (xs : List A) (i : ℕ) (x : A) → All P xs → get_elem? xs i ≡ some x → P x
  All-get_elem? [] i x h e = cc
  All-get_elem? (y ∷ ys) zero x (h, hs) e = subst P (some_of e) h
  All-get_elem? (y ∷ ys) (suc i) x (h, hs) e = All-get_elem? ys i x hs e

  All-set_elem : (xs : List A) (i : ℕ) (x : A) → All P xs → P x → All P (set_elem xs i x)
  All-set_elem [] i x h p = tt
  All-set_elem (y ∷ ys) zero x (h, hs) p = (p, hs)
  All-set_elem (y ∷ ys) (suc i) x (h, hs) p = (h, All-set_elem ys i x hs p)

hash-done :
    (bits : ℕ) (bytes : List ℕ) (i : ℕ)
    → bits ≤ 32
    → i + 3 ≤ length bytes
    → (h : ℕ) × (hash bytes i bits ≡ done h) × (h < 2 ^ bits)
unfolding hash
hash-done bits bytes i k l =
    let (a, at_a) = get_elem?-some bytes i (omega arith) in
    let (b, at_b) = get_elem?-some bytes (i + 1) (omega arith) in
    let (c, at_c) = get_elem?-some bytes (i + 2) (omega arith) in
    let three = three_bytes a b c * 2_654_435_761 in
    let e : bits + (32 - bits) ≡ 32 = omega arith in
    let p : 2 ^ 32 ≡ 2 ^ bits * 2 ^ (32 - bits) =
      ap (λ n. 2 ^ n) (sym e) ∙ pow_add bits (32 - bits) in
    let below : three % 2 ^ 32 / 2 ^ (32 - bits) < 2 ^ bits =
      (div-lt_iff_lt-mul (one-le-pow (32 - bits) 2 (omega arith))).1
        (subst (λ n. three % 2 ^ 32 < n) p (omega arith)) in
    (three % 2 ^ 32 / 2 ^ (32 - bits), rw (at_a, at_b, at_c) refl, below)

trailing_zeros-pow : (n k : ℕ) → k < n → trailing_zeros n (2 ^ k) ≡ k
unfolding trailing_zeros
trailing_zeros-pow zero k h = absurd (omega arith)
trailing_zeros-pow (suc n) zero h = refl
trailing_zeros-pow (suc n) (suc k) h =
    let p : 2 ^ suc k ≡ 2 ^ k * 2 = pow-suc 2 k in
    let even : (2 ^ suc k % 2 == 0) ≡ true = ground arith in
    let half : 2 ^ suc k / 2 ≡ 2 ^ k = omega arith in
    rw (trailing_zeros, even, half) (ap suc (trailing_zeros-pow n k (omega arith)))

Earlier-suc : (i : ℕ) (o : Option ℕ) → Earlier i o → Earlier (suc i) o
Earlier-suc i none h = tt
Earlier-suc i (some c) h = omega arith

IsChained-suc :
    (bits : ℕ) (bytes : List ℕ) (i : ℕ) (t : Chains)
    → IsChained bits bytes i t
    → IsChained bits bytes (suc i) t
IsChained-suc bits bytes i t h = record {
  heads = h.heads;
  prevs = h.prevs;
  head_before = All-map (Earlier-suc i) t.head h.head_before;
  prev_before = All-map (Earlier-suc i) t.prev h.prev_before;
}

-- Remembering a position keeps the chains in order.
pub remember-IsChained :
    (bits : ℕ) (bytes : List ℕ) (i : ℕ) (t : Chains)
    → bits ≤ 32
    → IsChained bits bytes i t
    → (u : Chains) × (remember bytes i t ≡ done u) × IsChained bits bytes (suc i) u
unfolding remember
remember-IsChained bits bytes i t b c = elim (Bool-cases (ltb (length bytes) (i + min_match))) [
  | inl e ↦ (t, rw e refl, IsChained-suc bits bytes i t c)
  | inr e ↦
      let (h, hashed, small) = hash-done bits bytes i b (ground arith) in
      let zeros : trailing_zeros 64 (length t.head) ≡ bits =
        ap (trailing_zeros 64) c.heads ∙ trailing_zeros-pow 64 bits (omega arith) in
      let (latest, at_h) = get_elem?-some t.head h (omega (arith, c.heads)) in
      let (old, at_i) = get_elem?-some t.prev i (ground (arith, c.prevs)) in
      let before : Earlier i latest =
        All-get_elem? (Earlier i) t.head h latest c.head_before at_h in
      let s = IsChained-suc bits bytes i t c in
      (
        record { head = set_elem t.head h (some i); prev = set_elem t.prev i latest },
        rw (e, zeros, hashed) (rw at_h (rw at_i refl)),
        record {
          heads = length-set_elem t.head h (some i) ∙ c.heads;
          prevs = length-set_elem t.prev i latest ∙ c.prevs;
          head_before =
              All-set_elem (Earlier (suc i)) t.head h (some i) s.head_before (omega arith);
          prev_before =
              All-set_elem (Earlier (suc i)) t.prev i latest s.prev_before
                (Earlier-suc i latest before);
        },
      )
]

pub remember_each-IsChained :
    (bits n : ℕ) (bytes : List ℕ) (i : ℕ) (t : Chains)
    → bits ≤ 32
    → IsChained bits bytes i t
    → (u : Chains) × (remember_each n bytes i t ≡ done u) × IsChained bits bytes (i + n) u
unfolding remember_each
remember_each-IsChained bits zero bytes i t b c =
    let e : i ≡ i + 0 = omega arith in (t, refl, subst (λ j. IsChained bits bytes j t) e c)
remember_each-IsChained bits (suc n) bytes i t b c =
    let (u, first, d) = remember-IsChained bits bytes i t b c in
    let (v, others, f) = remember_each-IsChained bits n bytes (suc i) u b d in
    let e : suc i + n ≡ i + suc n = omega arith in
    (v, rw (first, others) refl, subst (λ j. IsChained bits bytes j v) e f)

module _ (bytes : List ℕ) (prev : List (Option ℕ)) (i longest : ℕ)
    (prevs : length prev ≡ length bytes) (before : All (Earlier i) prev)
    (within : i + longest ≤ length bytes) (short : longest ≤ max_match) where
  -- The walk ends with a match, or with nothing.
  walk-Found :
      (tries : ℕ) (candidate : Option ℕ) (best : ℕ × ℕ)
      → Earlier i candidate
      → Found bytes i best
      → (b : ℕ × ℕ) × (walk tries bytes prev i longest candidate best ≡ done b) × Found bytes i b
  unfolding walk
  walk-Found zero candidate best c f = (best, refl, f)
  walk-Found (suc tries) none best c f = (best, refl, f)
  walk-Found (suc tries) (some c) best less f =
      let apart : ltb i c ≡ false = ground arith in
      elim (Bool-cases (ltb window (i - c))) [
        | inl far ↦ (best, rw (apart, far) refl, f)
        | inr near ↦
            let (len, counted, less_eq, same) =
              common-Same longest bytes c i (omega arith) within in
            let (next, at_c) = get_elem?-some prev c (omega (arith, prevs)) in
            let earlier : Earlier i next = All-get_elem? (Earlier i) prev c next before at_c in
            let found : Found bytes i (len, i - c) = λ p. record {
              start = c;
              back = omega arith;
              positive = omega arith;
              near = ground arith;
              short = omega arith;
              within = omega arith;
              same = same;
            } in
            elim (Bool-cases (ltb best.0 len)) [
              | inl better ↦ elim (Bool-cases ((len == longest) || leb nice_match len)) [
                | inl enough ↦ ((len, i - c), rw (apart, near, counted, better, enough) refl, found)
                | inr more ↦
                    let (b, runs, g) = walk-Found tries next (len, i - c) earlier found in
                    (b, rw (apart, near, counted, better, more) (rw (at_c, runs) refl), g)
              ]
              | inr worse ↦
                  let (b, runs, g) = walk-Found tries next best earlier f in
                  (b, rw (apart, near, counted, worse) (rw (at_c, runs) refl), g)
            ]
      ]

-- The search at a position ends without an index out of range, with a match or with nothing.
pub best_match-Found :
    (bits : ℕ) (bytes : List ℕ) (i : ℕ) (t : Chains)
    → bits ≤ 32
    → IsChained bits bytes i t
    → i ≤ length bytes
    → (b : ℕ × ℕ) × (best_match bytes bits t i ≡ done b) × Found bytes i b
unfolding best_match
best_match-Found bits bytes i t k c l = elim (Bool-cases (leb (i + min_match) (length bytes))) [
  | inr e ↦ ((0, 0), rw e refl, λ p. absurd (omega arith))
  | inl e ↦
      let (h, hashed, small) = hash-done bits bytes i k (ground arith) in
      let (latest, at_h) = get_elem?-some t.head h (omega (arith, c.heads)) in
      let (b, runs, f) =
        walk-Found bytes t.prev i (min max_match (length bytes - i)) c.prevs c.prev_before
          (omega arith) (omega arith) match_tries latest (0, 0)
          (All-get_elem? (Earlier i) t.head h latest c.head_before at_h)
          (λ p. absurd (omega arith)) in
      (b, rw (e, hashed) (rw (at_h, runs) refl), f)
]

length-no_positions : (n : ℕ) → length (no_positions n) ≡ n
length-no_positions zero = refl
length-no_positions (suc n) = ap suc (length-no_positions n)

no_positions-Earlier : (i n : ℕ) → All (Earlier i) (no_positions n)
no_positions-Earlier i zero = tt
no_positions-Earlier i (suc n) = (tt, no_positions-Earlier i n)

pub no_chains-IsChained :
    (bits : ℕ) (bytes : List ℕ) → IsChained bits bytes 0 (no_chains bits (length bytes))
no_chains-IsChained bits bytes = record {
  heads = length-no_positions (2 ^ bits);
  prevs = length-no_positions (length bytes);
  head_before = no_positions-Earlier 0 (2 ^ bits);
  prev_before = no_positions-Earlier 0 (length bytes);
}
