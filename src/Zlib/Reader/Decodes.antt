-- ===== src/Zlib/Reader/Decodes.antt =====
-- Reading what stands before the reader: one read after the other, and words of bits.
use soulseek_rs_lib.Base.{
  ℕ, zero, suc, ◌+◌, ◌*◌, ◌/◌, ◌%◌, ◌^◌, ◌<◌, ◌≡◌, refl, ap, subst, List, ◌++◌, arith,
}
use native.Mathlib.Nat.{pow-suc}
use soulseek_rs_lib.Zlib.Result.{Result, done, and_then}
use soulseek_rs_lib.Zlib.Reader.{BitReader, Inflate, pure, read_bit, read_bits}
use soulseek_rs_lib.Zlib.Reader.Stream.{bits, Stands, Gives, read_bit-Gives}

-- What follows a read that gives `a` goes on behind it.
pub then-Gives :
    {A B : Type 0} (mem xs ys : List ℕ) (a : A) (b : B) (o : Result (A × BitReader))
    (f : A → Inflate B)
    → Gives mem xs a o
    → ((s : BitReader) → Stands mem xs s → Gives mem ys b (f a s))
    → Gives mem ys b (and_then o λ (c, s). f c s)
then-Gives mem xs ys a b o f (s, runs, stands) next =
    let (t, on, there) = next s stands in (t, rw runs on, there)

pub pure-Gives :
    {A : Type 0} (mem xs : List ℕ) (a : A) (r : BitReader)
    → Stands mem xs r
    → Gives mem xs a (pure a r)
pure-Gives mem xs a r s = (r, refl, s)

-- A word of `n` bits.
pub read_bits-Gives :
    (n v : ℕ) (mem rest : List ℕ) (r : BitReader)
    → v < 2 ^ n
    → Stands mem (bits n v ++ rest) r
    → Gives mem rest v (read_bits n r)
unfolding read_bits bits
read_bits-Gives zero v mem rest r h s =
    let e : 0 ≡ v = omega arith in subst (λ w. Gives mem rest w (done (0, r))) e (r, refl, s)
read_bits-Gives (suc n) v mem rest r h s =
    let p : 2 ^ suc n ≡ 2 ^ n * 2 = pow-suc 2 n in
    let whole : v % 2 + 2 * (v / 2) ≡ v = omega arith in
    then-Gives mem (bits n (v / 2) ++ rest) rest (v % 2) v (read_bit r) _
      (read_bit-Gives mem (v % 2) (bits n (v / 2) ++ rest) r s)
      λ t there.
        then-Gives mem rest rest (v / 2) v (read_bits n t) _
          (read_bits-Gives n (v / 2) mem rest t (omega arith) there)
          λ u last. (u, ap (λ w. done (w, u)) whole, last)
