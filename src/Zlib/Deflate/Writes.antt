-- ===== src/Zlib/Deflate/Writes.antt =====
-- Deflating ends, without an index out of range, and writes bits that lead to the bytes it was given.
use soulseek_rs_lib.Base.{
  ℕ, zero, suc, ◌+◌, ◌-◌, ◌≤◌, ◌<◌, ◌≡◌, refl, sym, ap, subst, inl, inr, true, false, Bool-cases,
  List, [], ◌∷◌, ◌++◌, append-nil, append_assoc, length, length-take, take, get_elem?-some, All,
  arith, ltb, ltb→lt,
}
use soulseek_rs_lib.Bytes.{IsByte}
use soulseek_rs_lib.Zlib.Result.{Result, done}
use soulseek_rs_lib.Zlib.Writer.{BitWriter}
use soulseek_rs_lib.Zlib.Writer.Written.{IsSettled, written}
use soulseek_rs_lib.Zlib.Deflate.{Chains, deflate_from, write_best, symbol, min_match}
use soulseek_rs_lib.Zlib.Deflate.Matches.{Matches, copy_back-Same, take_snoc}
use soulseek_rs_lib.Zlib.Deflate.Search.{
  IsChained, Found, best_match-Found, remember-IsChained, remember_each-IsChained, All-get_elem?,
}
use soulseek_rs_lib.Zlib.Deflate.Codes.{
  Codes, Adds, Adds-then, symbol-Adds, symbol_bits, emit_match-Adds, length_bits, distance_bits,
}

pub take_all : (bytes : List ℕ) (n : ℕ) → length bytes ≤ n → take n bytes ≡ bytes
take_all [] zero h = refl
take_all [] (suc n) h = refl
take_all (x ∷ xs) zero h = absurd (omega arith)
take_all (x ∷ xs) (suc n) h = ap (λ t. x ∷ t) (take_all xs n (omega arith))

-- From the position `i` on, the loop writes bits that lead from the bytes before it to all of them.
abbrev Completes : List ℕ → ℕ → BitWriter → Result BitWriter → Type 0
Completes bytes i w o =
    (v : BitWriter) × (zs : List ℕ) × (o ≡ done v) × Adds w zs v × Codes bytes (take i bytes) zs

module _ (bytes : List ℕ) (bits : ℕ) (small : bits ≤ 32) (all : All IsByte bytes) where
  abbrev Continues : (ℕ → Chains → BitWriter → Result BitWriter) → ℕ → Type 0
  Continues again i =
      (j : ℕ) (t : Chains) (w : BitWriter)
      → i < j
      → j ≤ length bytes
      → IsChained bits bytes j t
      → IsSettled w
      → Completes bytes j w (again j t w)

  write_literal :
      (again : ℕ → Chains → BitWriter → Result BitWriter) (i : ℕ) (t : Chains) (w : BitWriter)
      (best : ℕ × ℕ)
      → Continues again i
      → i < length bytes
      → IsChained bits bytes (suc i) t
      → IsSettled w
      → best.0 < 3
      → Completes bytes i w (write_best bytes bits again i t w best)
  write_literal again i t w best next h c s short =
      let few : ltb best.0 min_match ≡ true = ground arith in
      let (b, at_i) = get_elem?-some bytes i h in
      let a = symbol-Adds b w s in
      let on : i + 1 ≡ suc i = omega arith in
      let (v, zs, runs, more, codes) =
        next (suc i) t (symbol b w) (omega arith) (omega arith) c a.settled in
      let whole : Codes bytes (take i bytes ++ (b ∷ [])) zs =
        subst (λ out. Codes bytes out zs) (sym (take_snoc bytes i b at_i)) codes in
      (
        v,
        symbol_bits b ++ zs,
        rw (few, at_i, on) runs,
        Adds-then w (symbol b w) v _ _ a more,
        Codes.literal (take i bytes) b zs (All-get_elem? IsByte bytes i b all at_i) whole,
      )

  write_pair :
      (again : ℕ → Chains → BitWriter → Result BitWriter) (i : ℕ) (t : Chains) (w : BitWriter)
      (best : ℕ × ℕ)
      → Continues again i
      → IsChained bits bytes (suc i) t
      → IsSettled w
      → 3 ≤ best.0
      → Matches bytes i best.0 best.1
      → Completes bytes i w (write_best bytes bits again i t w best)
  write_pair again i t w (len, dist) next c s long m =
      let many : ltb len min_match ≡ false = ground arith in
      let (l, d, x, y, u, emitted, a) =
        emit_match-Adds len dist w long m.short m.positive m.near s in
      let (p, remembered, e) = remember_each-IsChained bits (len - 1) bytes (suc i) t small c in
      let at : suc i + (len - 1) ≡ i + len = omega arith in
      let on : i + 1 ≡ suc i = omega arith in
      let (v, zs, runs, more, codes) =
        next (i + len) p u (omega arith) m.within (subst (λ j. IsChained bits bytes j p) at e)
          a.settled in
      let before : length (take i bytes) ≡ i = omega (arith, length-take i bytes, m.within) in
      let copied = copy_back-Same len dist bytes m.start i m.back m.positive m.within m.same in
      (
        v,
        length_bits len l x ++ (distance_bits dist d y ++ zs),
        rw (many, emitted, on, remembered) runs,
        subst (λ ys. Adds w ys v) (append_assoc (length_bits len l x) (distance_bits dist d y) zs)
            (Adds-then w u v (length_bits len l x ++ distance_bits dist d y) zs a more),
        Codes.pair (take i bytes) (take (i + len) bytes) len dist l d x y zs m.positive
            (omega (arith, before, m.back)) copied codes,
      )

  -- At the end of the bytes nothing is written any more.
  at_end : (i : ℕ) (w : BitWriter) → length bytes ≤ i → IsSettled w → Completes bytes i w (done w)
  at_end i w h s = (
    w,
    [],
    refl,
    record {
      settled = s;
      added = sym (append-nil (written w));
      extends = ([], sym (append-nil w.out));
    },
    subst (λ out. Codes bytes out []) (sym (take_all bytes i h)) Codes.finished,
  )

  write_best-Completes :
      (again : ℕ → Chains → BitWriter → Result BitWriter) (i : ℕ) (t : Chains) (w : BitWriter)
      (best : ℕ × ℕ)
      → Continues again i
      → i < length bytes
      → IsChained bits bytes (suc i) t
      → IsSettled w
      → Found bytes i best
      → Completes bytes i w (write_best bytes bits again i t w best)
  write_best-Completes again i t w best next h c s found = elim (Bool-cases (ltb best.0 3)) [
    | inl short ↦ write_literal again i t w best next h c s (ground arith)
    | inr long ↦ write_pair again i t w best next c s (ground arith) (found (ground arith))
  ]

  pub deflate_from-Codes :
      (fuel i : ℕ) (t : Chains) (w : BitWriter)
      → length bytes ≤ i + fuel
      → i ≤ length bytes
      → IsChained bits bytes i t
      → IsSettled w
      → (v : BitWriter) × (zs : List ℕ) × (deflate_from bytes bits fuel i t w ≡ done v)
        × Adds w zs v
        × Codes bytes (take i bytes) zs
  unfolding deflate_from
  deflate_from-Codes zero i t w enough h c s =
      let over : ltb i (length bytes) ≡ false = ground arith in rw over (at_end i w (omega arith) s)
  deflate_from-Codes (suc fuel) i t w enough h c s = elim (Bool-cases (ltb i (length bytes))) [
    | inr over ↦ rw over (at_end i w (ground arith) s)
    | inl more ↦
        let (best, searched, found) = best_match-Found bits bytes i t small c h in
        let (u, remembered, e) = remember-IsChained bits bytes i t small c in
        rw (more, searched, remembered)
          (write_best-Completes (deflate_from bytes bits fuel) i u w best
            (λ j t w further within chained settled.
              deflate_from-Codes fuel j t w (omega arith) within chained settled)
            (ltb→lt i (length bytes) more) e s found)
  ]
