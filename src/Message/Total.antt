-- ===== src/Message/Total.antt =====
-- The readers of message/mod.rs on any input, however short or malformed: none of them panics.
use soulseek_rs_lib.Base.{
  ℕ, ◌+◌, ◌≤◌, ◌≡◌, ◌∙◌, refl, ap, Bool, true, false, inl, inr, length, arith, Bool-cases,
  if◌then◌else◌, ltb, get_elem?-some,
}
use soulseek_rs_lib.Base.Outcome.{Outcome, ok, panic, and_then}
use soulseek_rs_lib.Message.{
  Message, Read, read_word, read_int8, read_int32, read_int64, read_bool, read_text, read_string,
  pure, ◌>>=◌,
}
use soulseek_rs_lib.Message.Index.{bytes_at-eq, slice-eq}

-- A read from `m` that returned: the bytes are untouched, and a position within the message moves
-- forward and stays within it.
abbrev pub Lands {ℓ} : {A : Type ℓ} → Message → Outcome (A × Message) → Type 0
Lands m (ok (a, n)) =
    (n.bytes ≡ m.bytes)
    × (m.pointer ≤ length m.bytes → (m.pointer ≤ n.pointer) × (n.pointer ≤ length m.bytes))
Lands m panic = ⊥

pub record IsTotal {ℓ} {A : Type ℓ} (p : Read A) : Type ℓ where
  pub at : (m : Message) → Lands m (p m)

pub read_word-IsTotal : (width : ℕ) → IsTotal (read_word width)
unfolding read_word
read_word-IsTotal width = record { at = λ m. ground (arith, bytes_at-eq width m.bytes m.pointer) }

pub read_int8-IsTotal : IsTotal read_int8
unfolding read_int8
read_int8-IsTotal = record { at = λ m. ground (arith, get_elem?-some m.bytes m.pointer) }

pub read_text-IsTotal :
    (m : Message) (start size : ℕ) → m.pointer ≤ start → Lands m (read_text start size m)
unfolding read_text
read_text-IsTotal m start size h = ground (arith, slice-eq m.bytes start (start + size))

pub read_int32-IsTotal : IsTotal read_int32
unfolding read_int32
read_int32-IsTotal = read_word-IsTotal 4

pub read_int64-IsTotal : IsTotal read_int64
unfolding read_int64
read_int64-IsTotal = read_word-IsTotal 8

pub read_bool-IsTotal : IsTotal read_bool
unfolding read_bool
read_bool-IsTotal = record { at = λ m. ground (arith, get_elem?-some m.bytes m.pointer) }

-- A length prefix that outruns the message is no panic either.
pub read_string-IsTotal : IsTotal read_string
unfolding read_string
read_string-IsTotal = record {
  at = λ m. elim (Bool-cases (ltb (length m.bytes) (m.pointer + 4))) [
    | inl short ↦ rw short (ground arith)
    | inr long ↦
        rw (long, bytes_at-eq 4 m.bytes m.pointer (ground arith))
          (read_text-IsTotal m (m.pointer + 4) _ (omega arith))
  ];
}

module _ {ℓ} {A : Type ℓ} where
  pub pure-IsTotal : (a : A) → IsTotal (pure a)
  pure-IsTotal a = record { at = λ m. (refl, λ h. (omega arith, h)) }

  pub if-IsTotal : (b : Bool) (p q : Read A) → IsTotal p → IsTotal q → IsTotal (if b then p else q)
  if-IsTotal true p q hp hq = hp
  if-IsTotal false p q hp hq = hq

module _ {ℓ} {A B : Type ℓ} where
  bind-Lands :
      (m : Message) (o : Outcome (A × Message)) (f : A → Read B)
      → Lands m o
      → ((a : A) → IsTotal (f a))
      → Lands m (and_then o λ (a, n). f a n)
  bind-Lands m panic f l h = l
  bind-Lands m (ok (a, n)) f l h = Lands-trans (f a n) ((h a).at n)
    where
      Lands-trans : (o : Outcome (B × Message)) → Lands n o → Lands m o
      Lands-trans panic k = k
      Lands-trans (ok (b, r)) k = (
        k.0 ∙ l.0,
        λ inside.
            let here = l.1 inside in
            let there = k.1 (rw (ap length l.0) here.1) in
            (omega arith, rw (ap length l.0) at there.1),
      )

  -- A sequence of total readers is total.
  pub bind-IsTotal :
      (p : Read A) (f : A → Read B) → IsTotal p → ((a : A) → IsTotal (f a)) → IsTotal (p >>= f)
  bind-IsTotal p f hp hf = record { at = λ m. bind-Lands m (p m) f (hp.at m) hf }

pub ruleset total_rules = (
  read_int8-IsTotal, read_int32-IsTotal, read_int64-IsTotal, read_bool-IsTotal, read_string-IsTotal,
  pure-IsTotal, if-IsTotal, bind-IsTotal,
)

-- What a total read gives, as an equation.
pub Lands-ok {ℓ} :
    {A : Type ℓ} (m : Message) (o : Outcome (A × Message))
    → Lands m o
    → (a : A) × (n : Message) × (o ≡ ok (a, n)) × (n.bytes ≡ m.bytes)
Lands-ok m panic l = absurd l
Lands-ok m (ok (a, n)) l = (a, n, refl, l.0)
