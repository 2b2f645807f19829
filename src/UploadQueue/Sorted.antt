-- ===== src/UploadQueue/Sorted.antt =====
-- `serve_order` is a stable sort of the queue by rank, and `next_to_serve` is its head.
use mathlib.Core.List.{Perm}
use mathlib.Core.List.Perm
use soulseek_rs_lib.Base.{
  ℕ, suc, ◌+◌, ◌≡◌, refl, ap, ◌∙◌, inl, inr, Bool, true, false, Option, none, some, List, [], ◌∷◌,
  map, All, arith, if◌then◌else◌, Bool-cases, take, drop, get_elem?, ◌++◌,
}
use soulseek_rs_lib.UploadQueue.Order.{
  QueuedUpload, rank_le, insert_by, sort_by, enumerate, ranked, min_from, next_to_serve,
}

pub rank_le_total : (a b : QueuedUpload) → rank_le a b ≡ false → rank_le b a ≡ true
unfolding rank_le
rank_le_total a b h = ground arith

pub rank_le_trans :
    (a b c : QueuedUpload) → rank_le a b ≡ true → rank_le b c ≡ true → rank_le a c ≡ true
unfolding rank_le
rank_le_trans a b c h k = ground arith

rank_lt_trans :
    (a b c : QueuedUpload) → rank_le a b ≡ false → rank_le b c ≡ false → rank_le a c ≡ false
unfolding rank_le
rank_lt_trans a b c h k = ground arith

-- The peers still waiting, in the order in which they will be served.
abbrev pub waiting : List QueuedUpload → List QueuedUpload
waiting queue = sort_by rank_le queue

-- Each entry's rank is at most that of every later one.
abbrev pub IsSorted : List QueuedUpload → Type 0
IsSorted [] = Unit
IsSorted (a ∷ rest) = All (λ b. rank_le a b ≡ true) rest × IsSorted rest

All-insert_by :
    (P : QueuedUpload → Type 0) (a : QueuedUpload) (bs : List QueuedUpload)
    → P a
    → All P bs
    → All P (insert_by rank_le a bs)
unfolding insert_by
All-insert_by P a [] p h = (p, tt)
All-insert_by P a (b ∷ bs) p h = elim (Bool-cases (rank_le a b)) [
  | inl le ↦ rw le (p, (h.0, h.1))
  | inr gt ↦ rw gt (h.0, All-insert_by P a bs p h.1)
]

pub All-le :
    (a b : QueuedUpload) (bs : List QueuedUpload)
    → rank_le a b ≡ true
    → All (λ c. rank_le b c ≡ true) bs
    → All (λ c. rank_le a c ≡ true) bs
All-le a b [] h k = tt
All-le a b (c ∷ bs) h k = (rank_le_trans a b c h k.0, All-le a b bs h k.1)

insert_by-IsSorted :
    (a : QueuedUpload) (bs : List QueuedUpload) → IsSorted bs → IsSorted (insert_by rank_le a bs)
unfolding insert_by
insert_by-IsSorted a [] h = (tt, tt)
insert_by-IsSorted a (b ∷ bs) h = elim (Bool-cases (rank_le a b)) [
  | inl le ↦ rw le ((le, All-le a b bs le h.0), h)
  | inr gt ↦ rw gt (
    All-insert_by (λ c. rank_le b c ≡ true) a bs (rank_le_total a b gt) h.0,
    insert_by-IsSorted a bs h.1,
  )
]

pub waiting-IsSorted : (queue : List QueuedUpload) → IsSorted (waiting queue)
unfolding sort_by
waiting-IsSorted [] = tt
waiting-IsSorted (a ∷ rest) = insert_by-IsSorted a (waiting rest) (waiting-IsSorted rest)

module _ {ℓ} {A : Type ℓ} (le : A → A → Bool) where
  insert_by-perm : (a : A) (bs : List A) → Perm (insert_by le a bs) (a ∷ bs)
  unfolding insert_by
  insert_by-perm a [] = Perm.refl (a ∷ [])
  insert_by-perm a (b ∷ bs) = elim (Bool-cases (le a b)) [
    | inl h ↦ rw h (Perm.refl (a ∷ b ∷ bs))
    | inr h ↦ rw h (Perm.trans (Perm.cons b (insert_by-perm a bs)) (Perm.swap a b bs))
  ]

  pub sort_by-perm : (given : List A) → Perm (sort_by le given) given
  unfolding sort_by
  sort_by-perm [] = Perm.refl []
  sort_by-perm (a ∷ rest) =
      Perm.trans (insert_by-perm a (sort_by le rest)) (Perm.cons a (sort_by-perm rest))

-- Sorting by a key and then taking the keys is sorting the keys.
module _ {ℓ κ} {A : Type ℓ} {B : Type κ} (f : A → B) (le : B → B → Bool) where
  map-insert_by :
      (a : A) (bs : List A)
      → map f (insert_by (λ x y. le (f x) (f y)) a bs) ≡ insert_by le (f a) (map f bs)
  unfolding insert_by
  map-insert_by a [] = refl
  map-insert_by a (b ∷ bs) = elim (Bool-cases (le (f a) (f b))) [
    | inl h ↦ rw h
    | inr h ↦ rw (h, map-insert_by a bs)
  ]

  pub map-sort_by :
      (given : List A) → map f (sort_by (λ x y. le (f x) (f y)) given) ≡ sort_by le (map f given)
  unfolding sort_by
  map-sort_by [] = refl
  map-sort_by (a ∷ rest) =
      map-insert_by a (sort_by (λ x y. le (f x) (f y)) rest)
      ∙ ap (insert_by le (f a)) (map-sort_by rest)

map-enumerate :
    (i : ℕ) (queue : List QueuedUpload)
    → map (λ (e : ℕ × QueuedUpload). e.1) (enumerate i queue) ≡ queue
map-enumerate i [] = refl
map-enumerate i (a ∷ rest) = ap (λ t. a ∷ t) (map-enumerate (suc i) rest)

pub ranked-waiting :
    (queue : List QueuedUpload) → map (λ (e : ℕ × QueuedUpload). e.1) (ranked queue) ≡ waiting queue
unfolding ranked
ranked-waiting queue =
    map-sort_by (λ (e : ℕ × QueuedUpload). e.1) rank_le (enumerate 0 queue)
    ∙ ap (sort_by rank_le) (map-enumerate 0 queue)

-- The first of the least entries, with its index.
abbrev pub sooner : QueuedUpload → Option (ℕ × QueuedUpload) → ℕ × QueuedUpload
sooner a none = (0, a)
sooner a (some (k, m)) = if rank_le a m then (0, a) else (suc k, m)

unfoldable pub least : List QueuedUpload → Option (ℕ × QueuedUpload)
least [] = none
least (a ∷ rest) = some (sooner a (least rest))

abbrev shifted : ℕ → ℕ × QueuedUpload → Option (ℕ × QueuedUpload) → ℕ × QueuedUpload
shifted i best none = best
shifted i best (some (k, m)) = if rank_le best.1 m then best else (i + k, m)

shifted-sooner :
    (i : ℕ) (best : ℕ × QueuedUpload) (e : QueuedUpload) (o : Option (ℕ × QueuedUpload))
    → shifted (suc i) (if rank_le best.1 e then best else (i, e)) o
      ≡ shifted i best (some (sooner e o))
shifted-sooner i best e none = elim (Bool-cases (rank_le best.1 e)) [
  | inl h ↦ rw h
  | inr h ↦ rw h (ap (λ n. (n, e)) (omega arith))
]
shifted-sooner i best e (some (k, m)) = elim (Bool-cases (rank_le best.1 e)) [
  | inl h ↦ elim (Bool-cases (rank_le e m)) [
    | inl g ↦ rw (h, g, h, rank_le_trans best.1 e m h g)
    | inr g ↦ rw (h, g) (ap (λ n. if rank_le best.1 m then best else (n, m)) (omega arith))
  ]
  | inr h ↦ elim (Bool-cases (rank_le e m)) [
    | inl g ↦ rw (h, g, h) (ap (λ n. (n, e)) (omega arith))
    | inr g ↦ rw (h, g, rank_lt_trans best.1 e m h g) (ap (λ n. (n, m)) (omega arith))
  ]
]

min_from-least :
    (i : ℕ) (best : ℕ × QueuedUpload) (rest : List QueuedUpload)
    → min_from best (enumerate i rest) ≡ shifted i best (least rest)
unfolding min_from least
min_from-least i best [] = refl
min_from-least i best (e ∷ rest) =
    min_from-least (suc i) (if rank_le best.1 e then best else (i, e)) rest
    ∙ shifted-sooner i best e (least rest)

shifted_start : (a : QueuedUpload) (o : Option (ℕ × QueuedUpload)) → shifted 1 (0, a) o ≡ sooner a o
shifted_start a none = refl
shifted_start a (some (k, m)) = ap (λ n. if rank_le a m then (0, a) else (n, m)) (omega arith)

-- `next_to_serve` finds the least entry.
pub next_to_serve-least :
    (queue : List QueuedUpload)
    → next_to_serve queue ≡ (elim (least queue) [ none ↦ none | some e ↦ some e.0 ])
unfolding next_to_serve least
next_to_serve-least [] = refl
next_to_serve-least (job ∷ rest) =
    ap (λ (e : ℕ × QueuedUpload). some e.0)
      (min_from-least 1 (0, job) rest ∙ shifted_start job (least rest))

-- Taking out the least entry leaves the order of the others.
abbrev pub without : ℕ → List QueuedUpload → List QueuedUpload
without i queue = take i queue ++ drop (suc i) queue

abbrev pub Splits : List QueuedUpload → Option (ℕ × QueuedUpload) → Type 0
Splits queue none = queue ≡ []
Splits queue (some (k, m)) =
    (waiting queue ≡ m ∷ waiting (without k queue)) × (get_elem? queue k ≡ some m)

sooner-Splits :
    (a : QueuedUpload) (rest : List QueuedUpload) (o : Option (ℕ × QueuedUpload))
    → Splits rest o
    → Splits (a ∷ rest) (some (sooner a o))
unfolding sort_by
sooner-Splits a rest none e = (rw e, refl)
sooner-Splits a rest (some (j, b)) (order, found) = elim (Bool-cases (rank_le a b)) [
  | inl h ↦ rw h (rw (order, h), refl)
  | inr h ↦ rw h (rw (order, h), found)
]

-- The least entry comes first, and without it the order of the others is unchanged.
pub waiting-least : (queue : List QueuedUpload) → Splits queue (least queue)
unfolding least
waiting-least [] = refl
waiting-least (a ∷ rest) = sooner-Splits a rest (least rest) (waiting-least rest)
