-- ===== src/Base/Assoc.antt =====
-- A `HashMap` keyed by `K` as an association list that holds each key once. The order of the
-- entries stands for the map's unspecified iteration order.
use Prim.Native.Nat.{ℕ, suc, ◌≤◌}
use mathlib.Core.Path.{◌≡◌, refl}
use mathlib.Core.Logic.{◌↔◌}
use mathlib.Core.Bool.{Bool, true, false}
use mathlib.Core.Option.{Option, none, some}
use mathlib.Core.List.{List, [], ◌∷◌}
use native.Mathlib.Omega.{arith}
use soulseek_rs_lib.Base.Tests.{◌==◌, ==_iff, if◌then◌else◌}
use soulseek_rs_lib.Base.Lists.{length, retain}
use soulseek_rs_lib.Base.Text.{Text, text_eq, text_eq_iff}

-- A type of keys with a test that decides equality.
pub record Eq {ℓ} (K : Type ℓ) : Type ℓ where
  pub beq : K → K → Bool
  pub beq_iff : (a b : K) → (beq a b ≡ true) ↔ (a ≡ b)

instance abbrev pub nat_eq : Eq ℕ
nat_eq = record { beq = ◌==◌; beq_iff = ==_iff }

instance abbrev pub text_key : Eq Text
text_key = record { beq = text_eq; beq_iff = text_eq_iff }

abbrev pub Map {ℓ κ} : Type ℓ → Type κ → Type (ℓ ⊔ κ)
Map K V = List (K × V)

module _ {ℓ κ} {K : Type ℓ} {V : Type κ} ⦃e : Eq K⦄ where
  unfoldable pub lookup : K → Map K V → Option V
  lookup k [] = none
  lookup k ((j, v) ∷ m) = if e.beq j k then some v else lookup k m

  unfoldable pub remove : K → Map K V → Map K V
  remove k [] = []
  remove k ((j, v) ∷ m) = let rest = remove k m in if e.beq j k then rest else (j, v) ∷ rest

  -- An insertion replaces the entry of its key in place, or adds one.
  unfoldable pub insert : K → V → Map K V → Map K V
  insert k v [] = (k, v) ∷ []
  insert k v ((j, w) ∷ m) = if e.beq j k then (j, v) ∷ m else (j, w) ∷ insert k v m

  unfoldable pub contains : K → Map K V → Bool
  contains k [] = false
  contains k ((j, v) ∷ m) = if e.beq j k then true else contains k m

  pub lookup-remove :
      (k j : K) (m : Map K V) → lookup j (remove k m) ≡ (if e.beq k j then none else lookup j m)
  unfolding lookup remove
  lookup-remove k j [] = ground arith
  lookup-remove k j ((i, v) ∷ m) =
      ground (arith, lookup-remove k j m, e.beq_iff i k, e.beq_iff i j, e.beq_iff k j)

  pub lookup-insert :
      (k j : K) (v : V) (m : Map K V)
      → lookup j (insert k v m) ≡ (if e.beq k j then some v else lookup j m)
  unfolding lookup insert
  lookup-insert k j v [] = refl
  lookup-insert k j v ((i, w) ∷ m) =
      ground (arith, lookup-insert k j v m, e.beq_iff i k, e.beq_iff i j, e.beq_iff k j)

  -- No key stands twice.
  abbrev pub Distinct : Map K V → Type 0
  Distinct [] = Unit
  Distinct ((j, v) ∷ m) = (contains j m ≡ false) × Distinct m

  pub contains-remove :
      (k j : K) (m : Map K V)
      → contains j (remove k m) ≡ (if e.beq k j then false else contains j m)
  unfolding contains remove
  contains-remove k j [] = ground arith
  contains-remove k j ((i, v) ∷ m) =
      ground (arith, contains-remove k j m, e.beq_iff i k, e.beq_iff i j, e.beq_iff k j)

  pub contains-insert :
      (k j : K) (v : V) (m : Map K V)
      → contains j (insert k v m) ≡ (if e.beq k j then true else contains j m)
  unfolding contains insert
  contains-insert k j v [] = refl
  contains-insert k j v ((i, w) ∷ m) =
      ground (arith, contains-insert k j v m, e.beq_iff i k, e.beq_iff i j, e.beq_iff k j)

  pub remove-Distinct : (k : K) (m : Map K V) → Distinct m → Distinct (remove k m)
  unfolding remove
  remove-Distinct k [] d = tt
  remove-Distinct k ((j, v) ∷ m) d = ground (arith, remove-Distinct k m d.1, contains-remove k j m)

  pub insert-Distinct : (k : K) (v : V) (m : Map K V) → Distinct m → Distinct (insert k v m)
  unfolding insert contains
  insert-Distinct k v [] d = (refl, tt)
  insert-Distinct k v ((j, w) ∷ m) d =
      ground
        (arith, insert-Distinct k v m d.1, contains-insert k j v m, e.beq_iff j k, e.beq_iff k j)

  pub length-insert :
      (k : K) (v : V) (m : Map K V)
      → length (insert k v m) ≡ (if contains k m then length m else suc (length m))
  unfolding insert contains
  length-insert k v [] = refl
  length-insert k v ((j, w) ∷ m) = ground (arith, length-insert k v m)

  pub length-remove-le : (k : K) (m : Map K V) → length (remove k m) ≤ length m
  unfolding remove
  length-remove-le k [] = omega arith
  length-remove-le k ((j, w) ∷ m) = ground (arith, length-remove-le k m)

  -- In a map with distinct keys a removal takes exactly the entry of its key.
  pub remove_absent : (k : K) (m : Map K V) → contains k m ≡ false → remove k m ≡ m
  unfolding remove contains
  remove_absent k [] h = refl
  remove_absent k ((j, v) ∷ m) h = ground (arith, remove_absent k m)

  pub lookup-contains : (k : K) (m : Map K V) → lookup k m ≡ none → contains k m ≡ false
  unfolding lookup contains
  lookup-contains k [] h = refl
  lookup-contains k ((j, v) ∷ m) h = ground (arith, lookup-contains k m)

  pub contains-lookup : (k : K) (m : Map K V) (v : V) → lookup k m ≡ some v → contains k m ≡ true
  unfolding lookup contains
  contains-lookup k [] v h = cc
  contains-lookup k ((j, w) ∷ m) v h = ground (arith, contains-lookup k m v)

  pub contains-retain :
      (p : K × V → Bool) (k : K) (m : Map K V)
      → contains k m ≡ false
      → contains k (retain p m) ≡ false
  unfolding contains
  contains-retain p k [] h = refl
  contains-retain p k ((j, v) ∷ m) h = ground (arith, contains-retain p k m)

  pub retain-Distinct : (p : K × V → Bool) (m : Map K V) → Distinct m → Distinct (retain p m)
  retain-Distinct p [] d = tt
  retain-Distinct p ((j, v) ∷ m) d = ground (arith, retain-Distinct p m d.1, contains-retain p j m)

  -- The first entry of a key stays the first when others are filtered out.
  pub lookup-retain :
      (p : K × V → Bool) (k : K) (v : V) (m : Map K V)
      → ((j : K) → p (j, v) ≡ true)
      → lookup k m ≡ some v
      → lookup k (retain p m) ≡ some v
  unfolding lookup
  lookup-retain p k v [] h l = l
  lookup-retain p k v ((j, w) ∷ m) h l = ground (arith, lookup-retain p k v m h, h j, e.beq_iff j k)
