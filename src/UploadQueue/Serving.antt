-- ===== src/UploadQueue/Serving.antt =====
-- `serve_order` against `next_to_serve`, and the order it promises.
use mathlib.Core.List.{Perm}
use soulseek_rs_lib.Base.{
  ℕ, suc, ◌+◌, ◌≤◌, ◌⊎◌, All, true, false, ◌≡◌, refl, sym, ap, subst, ◌∙◌, inl, inr, Option, none,
  some, List, [], ◌∷◌, map, get_elem?, arith, Bool-cases, if◌then◌else◌,
}
use soulseek_rs_lib.UploadQueue.Order.{
  QueuedUpload, rank_le, insert_by, sort_by, enumerate, ranked, serve_order, next_to_serve,
}
use soulseek_rs_lib.UploadQueue.Sorted.{
  IsSorted, waiting, waiting-IsSorted, ranked-waiting, sort_by-perm, least, sooner,
  next_to_serve-least,
}

-- A donor stands before one who is none, and of two alike the one that asked first.
abbrev pub IsBefore : QueuedUpload → QueuedUpload → Type 0
IsBefore a b =
    (a.privileged ≡ true) × (b.privileged ≡ false)
    ⊎ ((a.privileged ≡ b.privileged) × (a.seq ≤ b.seq))

abbrev pub IsInOrder : List QueuedUpload → Type 0
IsInOrder [] = Unit
IsInOrder (a ∷ rest) = All (IsBefore a) rest × IsInOrder rest

rank_le-IsBefore : (a b : QueuedUpload) → rank_le a b ≡ true → IsBefore a b
unfolding rank_le
rank_le-IsBefore a b h = elim (Bool-cases a.privileged) [
  | inl p ↦ elim (Bool-cases b.privileged) [
    | inl q ↦ inr (p ∙ sym q, ground arith)
    | inr q ↦ inl (p, q)
  ]
  | inr p ↦ elim (Bool-cases b.privileged) [
    | inl q ↦ absurd (ground arith)
    | inr q ↦ inr (p ∙ sym q, ground arith)
  ]
]

All-IsBefore :
    (a : QueuedUpload) (bs : List QueuedUpload)
    → All (λ b. rank_le a b ≡ true) bs
    → All (IsBefore a) bs
All-IsBefore a [] h = tt
All-IsBefore a (b ∷ bs) (h, k) = (rank_le-IsBefore a b h, All-IsBefore a bs k)

sorted-IsInOrder : (queue : List QueuedUpload) → IsSorted queue → IsInOrder queue
sorted-IsInOrder [] h = tt
sorted-IsInOrder (a ∷ rest) (h, k) = (All-IsBefore a rest h, sorted-IsInOrder rest k)

-- `serve_order` visits every request that waits exactly once, every donor before the others, and
-- within each of the two groups by request number.
pub ranked-IsInOrder :
    (queue : List QueuedUpload)
    → IsInOrder (map (λ (e : ℕ × QueuedUpload). e.1) (ranked queue))
      × Perm (ranked queue) (enumerate 0 queue)
unfolding ranked
ranked-IsInOrder queue = (
  subst IsInOrder (sym (ranked-waiting queue))
      (sorted-IsInOrder (waiting queue) (waiting-IsSorted queue)),
  sort_by-perm (λ a b. rank_le a.1 b.1) (enumerate 0 queue),
)

abbrev at_index : ℕ → Option (ℕ × QueuedUpload) → Option (ℕ × QueuedUpload)
at_index i none = none
at_index i (some (k, m)) = some (i + k, m)

abbrev first_of : ℕ × QueuedUpload → Option (ℕ × QueuedUpload) → ℕ × QueuedUpload
first_of x none = x
first_of x (some y) = if rank_le x.1 y.1 then x else y

insert_by-head :
    (x : ℕ × QueuedUpload) (ys : List (ℕ × QueuedUpload))
    → get_elem? (insert_by (λ (a b : ℕ × QueuedUpload). rank_le a.1 b.1) x ys) 0
      ≡ some (first_of x (get_elem? ys 0))
unfolding insert_by
insert_by-head x [] = refl
insert_by-head x (y ∷ ys) = elim (Bool-cases (rank_le x.1 y.1)) [ inl h ↦ rw h | inr h ↦ rw h ]

first_of-sooner :
    (i : ℕ) (a : QueuedUpload) (o : Option (ℕ × QueuedUpload))
    → some (first_of (i, a) (at_index (suc i) o)) ≡ at_index i (some (sooner a o))
first_of-sooner i a none = ap (λ n. some (n, a)) (omega arith)
first_of-sooner i a (some (k, m)) = elim (Bool-cases (rank_le a m)) [
  | inl h ↦ rw h (ap (λ n. some (n, a)) (omega arith))
  | inr h ↦ rw h (ap (λ n. some (n, m)) (omega arith))
]

ranked-head :
    (i : ℕ) (queue : List QueuedUpload)
    → get_elem? (sort_by (λ (a b : ℕ × QueuedUpload). rank_le a.1 b.1) (enumerate i queue)) 0
      ≡ at_index i (least queue)
unfolding sort_by least
ranked-head i [] = refl
ranked-head i (a ∷ rest) =
    insert_by-head (i, a)
      (sort_by (λ (x y : ℕ × QueuedUpload). rank_le x.1 y.1) (enumerate (suc i) rest))
    ∙ ap (λ o. some (first_of (i, a) o)) (ranked-head (suc i) rest)
    ∙ first_of-sooner i a (least rest)

-- The request that the pump serves next is the first that `serve_order` lists.
pub serve_order-next_to_serve :
    (queue : List QueuedUpload) → get_elem? (serve_order queue) 0 ≡ next_to_serve queue
unfolding serve_order ranked
serve_order-next_to_serve queue =
    head_map (ranked queue)
    ∙ ap index_of (ranked-head 0 queue)
    ∙ from_zero (least queue)
    ∙ sym (next_to_serve-least queue)
  where
    index_of : Option (ℕ × QueuedUpload) → Option ℕ
    index_of none = none
    index_of (some e) = some e.0

    head_map :
        (xs : List (ℕ × QueuedUpload))
        → get_elem? (map (λ (e : ℕ × QueuedUpload). e.0) xs) 0 ≡ index_of (get_elem? xs 0)
    head_map [] = refl
    head_map (x ∷ xs) = refl

    from_zero :
        (o : Option (ℕ × QueuedUpload))
        → index_of (at_index 0 o) ≡ (elim o [ none ↦ none | some e ↦ some e.0 ])
    from_zero none = refl
    from_zero (some (k, m)) = ap some (omega arith)
