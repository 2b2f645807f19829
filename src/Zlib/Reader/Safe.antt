-- ===== src/Zlib/Reader/Safe.antt =====
-- Reads that neither panic nor run on: what they give, and how many bits they use at least.
use native.Mathlib.Nat.{pow-suc}
use soulseek_rs_lib.Base.{
  ℕ, zero, suc, ◌+◌, ◌*◌, ◌/◌, ◌^◌, ◌≤◌, ◌<◌, ◌≡◌, refl, ap, inl, inr, List, [], ◌∷◌, ◌++◌, length,
  length-append, All, All-append, drop, get_elem?, arith, Option-cases,
}
use soulseek_rs_lib.Zlib.Result.{Result, done, refused, panics, spins, and_then}
use soulseek_rs_lib.Zlib.Reader.{
  BitReader, Inflate, pure, ◌>>=◌, read_byte, read_bit, read_bits, read_bytes,
}
use soulseek_rs_lib.Zlib.Reader.Stream.{
  bits, bytes_bits, stream, read_bit-Gives, read_bit-end, drop-get,
}

abbrev pub left : BitReader → ℕ
left r = length (stream r)

-- Over `r`: refused, or a value in `Q` with at least `k` bits fewer to come.
abbrev pub Uses : {A : Type 0} → ℕ → (A → Type 0) → BitReader → Result (A × BitReader) → Type 0
Uses k Q r (done (a, t)) = Q a × (t.numbits < 8) × (left t + k ≤ left r)
Uses k Q r (refused e) = Unit
Uses k Q r panics = ⊥
Uses k Q r spins = ⊥

pub record IsSafe {A : Type 0} (k : ℕ) (Q : A → Type 0) (p : Inflate A) : Type 0 where
  pub at : (r : BitReader) → r.numbits < 8 → Uses k Q r (p r)

abbrev pub Any : {A : Type 0} → A → Type 0
Any a = Unit

module _ {A B : Type 0} {Q : A → Type 0} (S : B → Type 0) where
  -- What follows a read may know how much the read has used.
  pub then-Uses :
      (j k : ℕ) (r : BitReader) (o : Result (A × BitReader)) (f : A → Inflate B)
      → Uses j Q r o
      → ((a : A) (t : BitReader) → Q a → t.numbits < 8 → left t + j ≤ left r → Uses k S t (f a t))
      → Uses (j + k) S r (and_then o λ (a, s). f a s)
  then-Uses j k r (done (a, t)) f (q, few, less) g = after (f a t) (g a t q few less)
    where
      after : (o : Result (B × BitReader)) → Uses k S t o → Uses (j + k) S r o
      after (done (b, u)) (s, few', less') = (s, few', omega (arith, less, less'))
      after (refused e) u = tt
      after panics u = u
      after spins u = u
  then-Uses j k r (refused e) f u g = tt
  then-Uses j k r panics f u g = u
  then-Uses j k r spins f u g = u

module _ {A B : Type 0} {Q : A → Type 0} {S : B → Type 0} where
  pub bind-Uses :
      (j k : ℕ) (r : BitReader) (o : Result (A × BitReader)) (f : A → Inflate B)
      → Uses j Q r o
      → ((a : A) → Q a → IsSafe k S (f a))
      → Uses (j + k) S r (and_then o λ (a, s). f a s)
  bind-Uses j k r o f u g = then-Uses S j k r o f u λ a t q few less. (g a q).at t few

  pub bind-IsSafe :
      (j k : ℕ) (p : Inflate A) (f : A → Inflate B)
      → IsSafe j Q p
      → ((a : A) → Q a → IsSafe k S (f a))
      → IsSafe (j + k) S (p >>= f)
  bind-IsSafe j k p f h g = record { at = λ r few. bind-Uses j k r (p r) f (h.at r few) g }

module _ {A : Type 0} where
  pub pure-IsSafe : {Q : A → Type 0} (a : A) → Q a → IsSafe 0 Q (pure a)
  pure-IsSafe a q = record { at = λ r few. (q, few, omega arith) }

  pub fewer-Uses :
      (Q : A → Type 0) (j k : ℕ) (r : BitReader) (o : Result (A × BitReader))
      → j ≤ k
      → Uses k Q r o
      → Uses j Q r o
  fewer-Uses Q j k r (done (a, t)) h (q, few, less) = (q, few, omega (arith, less, h))
  fewer-Uses Q j k r (refused e) h u = tt
  fewer-Uses Q j k r panics h u = u
  fewer-Uses Q j k r spins h u = u

  pub weaken-Uses :
      (Q S : A → Type 0) (k : ℕ) (r : BitReader) (o : Result (A × BitReader))
      → ((a : A) → Q a → S a)
      → Uses k Q r o
      → Uses k S r o
  weaken-Uses Q S k r (done (a, t)) f (q, few, less) = (f a q, few, less)
  weaken-Uses Q S k r (refused e) f u = tt
  weaken-Uses Q S k r panics f u = u
  weaken-Uses Q S k r spins f u = u

  pub Any-IsSafe : {Q : A → Type 0} (k : ℕ) (p : Inflate A) → IsSafe k Q p → IsSafe k Any p
  Any-IsSafe {Q = Q} k p h = record {
    at = λ r few. weaken-Uses Q Any k r (p r) (λ a q. tt) (h.at r few);
  }

  pub fewer-IsSafe :
      {Q : A → Type 0} (j k : ℕ) (p : Inflate A) → j ≤ k → IsSafe k Q p → IsSafe j Q p
  fewer-IsSafe {Q = Q} j k p h s = record { at = λ r few. fewer-Uses Q j k r (p r) h (s.at r few) }

abbrev pub Below : ℕ → ℕ → Type 0
Below n v = v < n

bits-Below : (n v : ℕ) → All (Below 2) (bits n v)
unfolding bits
bits-Below zero v = tt
bits-Below (suc n) v = (omega arith, bits-Below n (v / 2))

bytes_bits-Below : (bs : List ℕ) → All (Below 2) (bytes_bits bs)
unfolding bytes_bits
bytes_bits-Below [] = tt
bytes_bits-Below (b ∷ bs) =
    All-append (Below 2) (bits 8 b) (bytes_bits bs) (bits-Below 8 b) (bytes_bits-Below bs)

read_bit-Uses :
    (r : BitReader) (xs : List ℕ)
    → stream r ≡ xs
    → All (Below 2) xs
    → r.numbits < 8
    → Uses 1 (Below 2) r (read_bit r)
read_bit-Uses r [] e h few =
    rw (read_bit-end r.mem r (record { ahead = e; few = few; source = refl })) tt
read_bit-Uses r (x ∷ xs) e (h, hs) few =
    let (t, runs, s) =
      read_bit-Gives r.mem x xs r (record { ahead = e; few = few; source = refl }) in
    let now : left t ≡ length xs = ap length s.ahead in
    let before : left r ≡ suc (length xs) = ap length e in
    rw runs (h, s.few, omega (arith, now, before))

pub read_bit-IsSafe : IsSafe 1 (Below 2) read_bit
read_bit-IsSafe = record {
  at = λ r few.
      read_bit-Uses r (stream r) refl
        (All-append (Below 2) (bits r.numbits r.b) (bytes_bits (drop r.pos r.mem))
          (bits-Below r.numbits r.b) (bytes_bits-Below (drop r.pos r.mem)))
        few;
}

pub read_bits-IsSafe : (n : ℕ) → IsSafe n (Below (2 ^ n)) (read_bits n)
unfolding read_bits
read_bits-IsSafe zero = pure-IsSafe 0 (omega arith)
read_bits-IsSafe (suc n) =
    let last : (bit rest : ℕ) → bit < 2 → rest < 2 ^ n → bit + 2 * rest < 2 ^ suc n =
      λ bit rest h k. omega (arith, pow-suc 2 n) in
    fewer-IsSafe (suc n) (1 + (n + 0)) (read_bits (suc n)) (omega arith) (
      bind-IsSafe 1 (n + 0) read_bit _ read_bit-IsSafe λ bit h.
        bind-IsSafe n 0 (read_bits n) _ (read_bits-IsSafe n)
          λ rest k. pure-IsSafe (bit + 2 * rest) (last bit rest h k))

pub length-bits : (n v : ℕ) → length (bits n v) ≡ n
unfolding bits
length-bits zero v = refl
length-bits (suc n) v = omega (arith, length-bits n (v / 2))

left-stale :
    (mem : List ℕ) (pos b byte n : ℕ)
    → drop pos mem ≡ byte ∷ drop (suc pos) mem
    → length (bytes_bits (drop (suc pos) mem)) + 8
      ≤ left (record { mem = mem; pos = pos; b = b; numbits = n })
unfolding bytes_bits
left-stale mem pos b byte n h =
    let whole : length (bytes_bits (drop pos mem))
        ≡ length (bits 8 byte ++ bytes_bits (drop (suc pos) mem)) =
      ap (λ bs. length (bytes_bits bs)) h in
    omega (
      arith,
      whole,
      length-append (bits n b) (bytes_bits (drop pos mem)),
      length-append (bits 8 byte) (bytes_bits (drop (suc pos) mem)),
      length-bits 8 byte,
    )

-- A byte uses the eight bits of it, and those that it discards.
pub read_byte-IsSafe : IsSafe 8 Any read_byte
unfolding read_byte bits bytes_bits
read_byte-IsSafe = record {
  at = λ r few. elim (Option-cases (get_elem? r.mem r.pos)) [
    | inl e ↦ rw e tt
    | inr (byte, e) ↦
        rw e
          (tt, omega arith, left-stale r.mem r.pos r.b byte r.numbits (drop-get r.mem r.pos byte e))
  ];
}

pub read_bytes-IsSafe : (n : ℕ) → IsSafe 0 Any (read_bytes n)
unfolding read_bytes
read_bytes-IsSafe zero = pure-IsSafe 0 tt
read_bytes-IsSafe (suc n) = fewer-IsSafe 0 (8 + (0 + 0)) (read_bytes (suc n)) (omega arith) (
    bind-IsSafe 8 (0 + 0) read_byte _ read_byte-IsSafe λ byte h.
      bind-IsSafe 0 0 (read_bytes n) _ (read_bytes-IsSafe n)
        λ rest k. pure-IsSafe (byte + 256 * rest) tt)
