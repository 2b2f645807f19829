-- ===== src/UploadQueue/Order.antt =====
-- The order in which waiting peers are served (soulseek-rs-lib/src/client/upload_queue.rs): donors
-- first, then whoever asked first.
use soulseek_rs_lib.Base.{
  ℕ, suc, ◌+◌, ◌-◌, Bool, true, false, ◌&&◌, Option, none, some, List, [], ◌∷◌, map, min, leb, ◌^◌,
  if◌then◌else◌,
}
use soulseek_rs_lib.Base.Text.{Text, text_eq}

pub record QueuedUpload : Type 0 where
  pub downloader : Text
  pub virtual_path : Text
  pub real_path : Text
  pub size : ℕ
  pub privileged : Bool
  pub seq : ℕ

-- `rank(a) <= rank(b)`, where a rank is the pair `(!privileged, seq)`.
unfoldable pub rank_le : QueuedUpload → QueuedUpload → Bool
rank_le a b =
    if a.privileged
    then (if b.privileged then leb a.seq b.seq else true)
    else (if b.privileged then false else leb a.seq b.seq)

-- The standard library's stable sort: an entry goes in front of the first one it does not exceed.
module _ {ℓ} {A : Type ℓ} (le : A → A → Bool) where
  unfoldable pub insert_by : A → List A → List A
  insert_by a [] = a ∷ []
  insert_by a (b ∷ bs) = if le a b then a ∷ b ∷ bs else b ∷ insert_by a bs

  unfoldable pub sort_by : List A → List A
  unfolding insert_by
  sort_by [] = []
  sort_by (a ∷ rest) = insert_by a (sort_by rest)

-- The entries with their indices, counted from `i`.
abbrev pub enumerate {ℓ} : {A : Type ℓ} → ℕ → List A → List (ℕ × A)
enumerate i [] = []
enumerate i (a ∷ rest) = (i, a) ∷ enumerate (suc i) rest

-- `serve_order` keeps the indices; the entry that each one names stands beside it here.
unfoldable pub ranked : List QueuedUpload → List (ℕ × QueuedUpload)
unfolding rank_le sort_by
ranked queue = sort_by (λ a b. rank_le a.1 b.1) (enumerate 0 queue)

unfoldable pub serve_order : List QueuedUpload → List ℕ
unfolding ranked
serve_order queue = map (λ e. e.0) (ranked queue)

-- `min_by_key` keeps the first of the least entries.
unfoldable pub min_from : ℕ × QueuedUpload → List (ℕ × QueuedUpload) → ℕ × QueuedUpload
unfolding rank_le
min_from best [] = best
min_from best (e ∷ rest) = min_from (if rank_le best.1 e.1 then best else e) rest

unfoldable pub next_to_serve : List QueuedUpload → Option ℕ
unfolding min_from
next_to_serve [] = none
next_to_serve (job ∷ rest) = some (min_from (0, job) (enumerate 1 rest)).0

-- `u32::try_from(zero_based + 1).unwrap_or(u32::MAX)`
unfoldable pub as_place : ℕ → ℕ
as_place zero_based = min (zero_based + 1) (2 ^ 32 - 1)

abbrev pub is_request : Text → Text → QueuedUpload → Bool
is_request downloader filename job =
    text_eq job.downloader downloader && text_eq job.virtual_path filename

-- `position`
abbrev pub position {ℓ} : {A : Type ℓ} → (A → Bool) → List A → Option ℕ
position test [] = none
position test (a ∷ rest) =
    let later = position test rest in
    if test a then some 0 else (elim later [ none ↦ none | some i ↦ some (suc i) ])

unfoldable pub place_in_queue : List QueuedUpload → Text → Text → Option ℕ
unfolding ranked as_place
place_in_queue queue downloader filename =
    elim (position (λ (e : ℕ × QueuedUpload). is_request downloader filename e.1) (ranked queue)) [
      | none ↦ none
      | some i ↦ some (as_place i)
    ]
