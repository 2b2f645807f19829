-- ===== src/Message/Loop.antt =====
-- The loop of the parsers that read an announced number of entries and break when the payload runs
-- out: `for _ in 0..count { if test { break; } ...; entries.push(entry); }`.
use soulseek_rs_lib.Base.{
  ℕ, zero, suc, ◌+◌, ◌≤◌, ◌<◌, ◌≡◌, refl, ap, Bool, false, inl, inr, List, [], ◌∷◌, ◌++◌, length,
  All, arith, Bool-cases, if◌then◌else◌, ltb, leb, append_assoc, append-nil,
}
use soulseek_rs_lib.Base.Outcome.{Outcome, ok, panic, and_then}
use soulseek_rs_lib.Message.{Message, Read, get_size, pure, ◌>>=◌}
use soulseek_rs_lib.Message.Total.{Lands, IsTotal, bind-IsTotal, pure-IsTotal}
use soulseek_rs_lib.Message.Parses.{cursor, Parses}

-- `pointer >= size`
abbrev pub at_end : Message → Bool
at_end m = leb (get_size m) m.pointer

-- `pointer + 8 > size`
abbrev pub lacks_pair : Message → Bool
lacks_pair m = ltb (get_size m) (m.pointer + 8)

abbrev pub unless {ℓ} : {A : Type ℓ} → (Message → Bool) → A → Read A → Read A
unless test result p m = if test m then ok (result, m) else p m

-- A read that moves the pointer on.
abbrev pub Moves {ℓ} : {A : Type ℓ} → Message → Outcome (A × Message) → Type 0
Moves m (ok (a, n)) = m.pointer < n.pointer
Moves m panic = ⊥

-- The entries read are no more than the bytes that the pointer passed.
abbrev pub Counts {ℓ} : {A : Type ℓ} → Message → Outcome (List A × Message) → Type 0
Counts m (ok (entries, n)) = m.pointer + length entries ≤ n.pointer
Counts m panic = ⊥

module _ {ℓ} {A : Type ℓ} (test : Message → Bool) (p : Read A) where
  unfoldable pub read_up_to : ℕ → Read (List A)
  read_up_to zero m = ok ([], m)
  read_up_to (suc count) m =
      unless test [] (p >>= λ a. read_up_to count >>= λ rest. pure (a ∷ rest)) m

  -- However many entries are announced, the loop does not panic.
  pub read_up_to-IsTotal : IsTotal p → (count : ℕ) → IsTotal (read_up_to count)
  unfolding read_up_to
  read_up_to-IsTotal h zero = record { at = λ m. (refl, λ k. (omega arith, k)) }
  read_up_to-IsTotal h (suc count) =
      let ih = read_up_to-IsTotal h count in
      let body : (a : A) → IsTotal (read_up_to count >>= λ rest. pure (a ∷ rest)) =
        λ a. bind-IsTotal (read_up_to count) _ ih (λ rest. pure-IsTotal (a ∷ rest)) in
      let whole = bind-IsTotal p _ h body in
      record {
        at = λ m. elim (Bool-cases (test m)) [
          | inl stop ↦ rw (stop) (refl, λ k. (omega arith, k))
          | inr go ↦ rw (go) (whole.at m)
        ];
      }

  -- `p` moves the pointer wherever the loop does not break.
  pub record Consumes : Type ℓ where
    pub at : (m : Message) → test m ≡ false → m.pointer ≤ length m.bytes → Moves m (p m)

module _ {ℓ} {A : Type ℓ} where
  -- One more entry in front of those that `o` read.
  Counts-cons :
      (m n : Message) (a : A) (o : Outcome (List A × Message))
      → m.pointer < n.pointer
      → Counts n o
      → Counts m (and_then o λ (rest, k). ok (a ∷ rest, k))
  Counts-cons m n a panic h c = c
  Counts-cons m n a (ok (rest, k)) h c = omega arith

  Counts-after :
      (m : Message) (o : Outcome (A × Message)) (loop : Read (List A))
      → m.pointer ≤ length m.bytes
      → Lands m o
      → Moves m o
      → ((n : Message) → n.pointer ≤ length n.bytes → Counts n (loop n))
      → Counts m (and_then o λ (a, n). and_then (loop n) λ (rest, k). ok (a ∷ rest, k))
  Counts-after m panic loop inside l v ih = l
  Counts-after m (ok (a, n)) loop inside l v ih =
      let within : n.pointer ≤ length n.bytes = omega (arith, ap length l.0, (l.1 inside).1) in
      Counts-cons m n a (loop n) v (ih n within)

  -- A hostile count cannot make the loop produce more entries than there are bytes.
  pub read_up_to-Counts :
      (test : Message → Bool) (p : Read A)
      → IsTotal p
      → Consumes test p
      → (count : ℕ) (m : Message) → m.pointer ≤ length m.bytes
      → Counts m (read_up_to test p count m)
  unfolding read_up_to
  read_up_to-Counts test p t c zero m h = omega arith
  read_up_to-Counts test p t c (suc count) m h = elim (Bool-cases (test m)) [
    | inl stop ↦ rw stop (omega arith)
    | inr go ↦ rw go (
        Counts-after m (p m) (read_up_to test p count) h (t.at m) (c.at m go h)
          (read_up_to-Counts test p t c count))
  ]

-- Readers whose first read moves the pointer move it as a whole.
module _ {ℓ κ} {A : Type ℓ} {B : Type κ} where
  bind-Moves :
      (m : Message) (o : Outcome (A × Message)) (f : A → Read B)
      → m.pointer ≤ length m.bytes
      → Lands m o
      → Moves m o
      → ((a : A) → IsTotal (f a))
      → Moves m (and_then o λ (a, n). f a n)
  bind-Moves m panic f inside l v t = l
  bind-Moves m (ok (a, n)) f inside l v t = later (f a n) ((t a).at n)
    where
      later : (o : Outcome (B × Message)) → Lands n o → Moves m o
      later panic k = k
      later (ok (b, r)) k = omega (arith, (k.1 (omega (arith, ap length l.0, (l.1 inside).1))).0)

  pub bind-Consumes :
      (test : Message → Bool) (p : Read A) (f : A → Read B)
      → IsTotal p
      → Consumes test p
      → ((a : A) → IsTotal (f a))
      → Consumes test (p >>= f)
  bind-Consumes test p f t c tf = record {
    at = λ m go inside. bind-Moves m (p m) f inside (t.at m) (c.at m go inside) tf;
  }

-- The bytes of a list of entries.
abbrev pub encode_all {ℓ} : {A : Type ℓ} → (A → List ℕ) → List A → List ℕ
encode_all encode [] = []
encode_all encode (a ∷ xs) = encode a ++ encode_all encode xs

module _ {ℓ} {A : Type ℓ} (test : Message → Bool) (p : Read A) (encode : A → List ℕ) where
  -- An entry that `p` reads back and at whose bytes the loop goes on.
  pub record ReadsBack (a : A) : Type ℓ where
    pub parses : Parses p (encode a) a
    pub goes_on : (pre rest : List ℕ) → test (cursor pre (encode a ++ rest)) ≡ false

  pub read_up_to-Parses :
      (xs : List A)
      → All ReadsBack xs
      → Parses (read_up_to test p (length xs)) (encode_all encode xs) xs
  unfolding read_up_to
  read_up_to-Parses [] h = record { at = λ pre rest. rw append-nil }
  read_up_to-Parses (a ∷ xs) (first, others) =
      let ih = read_up_to-Parses xs others in
      record {
        at = λ pre rest. rw (
          append_assoc (encode a) (encode_all encode xs) rest,
          first.goes_on pre (encode_all encode xs ++ rest),
          first.parses.at pre (encode_all encode xs ++ rest),
          ih.at (pre ++ encode a) rest,
          append_assoc pre (encode a) (encode_all encode xs),
        );
      }
