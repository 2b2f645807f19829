-- ===== src/Zlib/Reader/Stream.antt =====
-- The bits that a reader has before it, and what reading takes from them.
use soulseek_rs_lib.Base.{
  false, ℕ, zero, suc, ◌-◌, ◌/◌, ◌%◌, ◌<◌, ◌≡◌, refl, sym, ap, ◌∙◌, inl, inr, none, some, List, [],
  ◌∷◌, ◌++◌, get_elem?, drop, arith, ◌==◌, Option-cases,
}
use soulseek_rs_lib.Zlib.Result.{Result, done, refused, end_of_data}
use soulseek_rs_lib.Zlib.Reader.{BitReader, read_byte, read_bit}

-- The `n` lowest bits of `v`, lowest first.
unfoldable pub bits : ℕ → ℕ → List ℕ
bits zero v = []
bits (suc n) v = v % 2 ∷ bits n (v / 2)

unfoldable pub bytes_bits : List ℕ → List ℕ
unfolding bits
bytes_bits [] = []
bytes_bits (byte ∷ rest) = bits 8 byte ++ bytes_bits rest

abbrev pub stream : BitReader → List ℕ
stream r = bits r.numbits r.b ++ bytes_bits (drop r.pos r.mem)

-- `r` reads `mem` and has exactly the bits `xs` before it, fewer than eight of them already loaded.
pub record Stands (mem : List ℕ) (xs : List ℕ) (r : BitReader) : Type 0 where
  pub ahead : stream r ≡ xs
  pub few : r.numbits < 8
  pub source : r.mem ≡ mem

-- A read that gives `a` and leaves `xs`.
abbrev pub Gives {ℓ} : {A : Type ℓ} → List ℕ → List ℕ → A → Result (A × BitReader) → Type ℓ
Gives {A = A} mem xs a o = (r : BitReader) × (o ≡ done (a, r)) × Stands mem xs r

pub drop-get : (xs : List ℕ) (i x : ℕ) → get_elem? xs i ≡ some x → drop i xs ≡ x ∷ drop (suc i) xs
drop-get [] i x h = cc
drop-get (y ∷ ys) zero x h = cc
drop-get (y ∷ ys) (suc i) x h = drop-get ys i x h

pub drop-none : (xs : List ℕ) (i : ℕ) → get_elem? xs i ≡ none → drop i xs ≡ []
drop-none [] zero h = refl
drop-none [] (suc i) h = refl
drop-none (y ∷ ys) zero h = cc
drop-none (y ∷ ys) (suc i) h = drop-none ys i h

abbrev at : List ℕ → ℕ → ℕ → ℕ → BitReader
at mem pos b n = record { mem = mem; pos = pos; b = b; numbits = n }

-- Two lists that are equal begin alike.
pub head_of {ℓ} : {A : Type ℓ} {y z : A} {ys zs : List A} → y ∷ ys ≡ z ∷ zs → y ≡ z
head_of e = cc

pub tail_of {ℓ} : {A : Type ℓ} {y z : A} {ys zs : List A} → y ∷ ys ≡ z ∷ zs → ys ≡ zs
tail_of e = cc

pub not_nil {ℓ} : {A : Type ℓ} {y : A} {ys : List A} → y ∷ ys ≡ [] → ⊥
not_nil e = cc

read_bit-fresh :
    (mem : List ℕ) (pos b x : ℕ) (xs : List ℕ)
    → bytes_bits (drop pos mem) ≡ x ∷ xs
    → Gives mem xs x (read_bit (at mem pos b 0))
unfolding read_bit read_byte bytes_bits bits
read_bit-fresh mem pos b x xs h = elim (Option-cases (get_elem? mem pos)) [
  | inl e ↦ absurd (not_nil (sym h ∙ ap bytes_bits (drop-none mem pos e)))
  | inr (byte, e) ↦
      let whole : bits 8 byte ++ bytes_bits (drop (suc pos) mem) ≡ x ∷ xs =
        sym (ap bytes_bits (drop-get mem pos byte e)) ∙ h in
      (
        at mem (suc pos) (byte / 2) 7,
        rw e (ap (λ b. done (b, at mem (suc pos) (byte / 2) 7)) (head_of whole)),
        record { ahead = tail_of whole; few = omega arith; source = refl },
      )
]

read_bit-loaded :
    (mem : List ℕ) (pos b n x : ℕ) (xs : List ℕ)
    → stream (at mem pos b (suc n)) ≡ x ∷ xs
    → suc n < 8
    → Gives mem xs x (read_bit (at mem pos b (suc n)))
unfolding read_bit bits
read_bit-loaded mem pos b n x xs h k =
    let left : (suc n == 0) ≡ false = ground arith in
    let less : suc n - 1 ≡ n = omega arith in
    (
      at mem pos (b / 2) n,
      rw (left, less) (ap (λ c. done (c, at mem pos (b / 2) n)) (head_of h)),
      record { ahead = tail_of h; few = omega arith; source = refl },
    )

Gives-source {ℓ} :
    {A : Type ℓ} (mem given : List ℕ) (xs : List ℕ) (a : A) (o : Result (A × BitReader))
    → given ≡ mem
    → Gives given xs a o
    → Gives mem xs a o
Gives-source mem given xs a o e (r, runs, s) =
    (r, runs, record { ahead = s.ahead; few = s.few; source = s.source ∙ e })

read_bit-at :
    (mem : List ℕ) (pos b n x : ℕ) (xs : List ℕ)
    → stream (at mem pos b n) ≡ x ∷ xs
    → n < 8
    → Gives mem xs x (read_bit (at mem pos b n))
read_bit-at mem pos b zero x xs h k = read_bit-fresh mem pos b x xs (unfold bits in h)
read_bit-at mem pos b (suc n) x xs h k = read_bit-loaded mem pos b n x xs h k

-- Reading a bit takes the first of the stream.
pub read_bit-Gives :
    (mem : List ℕ) (x : ℕ) (xs : List ℕ) (r : BitReader)
    → Stands mem (x ∷ xs) r
    → Gives mem xs x (read_bit r)
read_bit-Gives mem x xs r s =
    Gives-source mem r.mem xs x (read_bit r) s.source
      (read_bit-at r.mem r.pos r.b r.numbits x xs s.ahead s.few)

read_bit-at_end :
    (mem : List ℕ) (pos b n : ℕ)
    → stream (at mem pos b n) ≡ []
    → read_bit (at mem pos b n) ≡ refused end_of_data
unfolding read_bit read_byte bits bytes_bits
read_bit-at_end mem pos b (suc n) h = absurd (not_nil h)
read_bit-at_end mem pos b zero h = elim (Option-cases (get_elem? mem pos)) [
  | inl e ↦ rw e
  | inr (byte, e) ↦ absurd (not_nil (sym (ap bytes_bits (drop-get mem pos byte e)) ∙ h))
]

-- Without a bit left, it is refused.
pub read_bit-end :
    (mem : List ℕ) (r : BitReader) → Stands mem [] r → read_bit r ≡ refused end_of_data
read_bit-end mem r s = read_bit-at_end r.mem r.pos r.b r.numbits s.ahead
