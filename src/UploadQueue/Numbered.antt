-- ===== src/UploadQueue/Numbered.antt =====
-- Request numbers that rise along the queue, and what survives when requests leave it.
use soulseek_rs_lib.Base.{
  ℕ, zero, suc, ◌+◌, ◌≤◌, ◌<◌, ◌≡◌, refl, map, inl, inr, Bool, List, [], ◌∷◌, ◌++◌, take, drop,
  retain, All, arith, Bool-cases,
}
use soulseek_rs_lib.Base.Text.{Text}
use soulseek_rs_lib.UploadQueue.Order.{QueuedUpload}
use soulseek_rs_lib.UploadQueue.Sorted.{without}

-- The numbers of the requests rise along the queue: above `low` and up to `high`.
abbrev pub IsNumbered : ℕ → ℕ → List QueuedUpload → Type 0
IsNumbered low high [] = low ≤ high
IsNumbered low high (job ∷ rest) = (low < job.seq) × IsNumbered job.seq high rest

-- Every request carries the standing that its downloader has.
abbrev pub IsFlagged : (Text → Bool) → List QueuedUpload → Type 0
IsFlagged standing queue = All (λ job. job.privileged ≡ standing job.downloader) queue

IsNumbered-lower :
    (a b high : ℕ) (queue : List QueuedUpload)
    → a ≤ b
    → IsNumbered b high queue
    → IsNumbered a high queue
IsNumbered-lower a b high [] h n = omega arith
IsNumbered-lower a b high (job ∷ rest) h (n, r) = (omega arith, r)

pub IsNumbered-without :
    (k low high : ℕ) (queue : List QueuedUpload)
    → IsNumbered low high queue
    → IsNumbered low high (without k queue)
IsNumbered-without zero low high [] n = n
IsNumbered-without zero low high (job ∷ rest) (n, r) =
    IsNumbered-lower low job.seq high rest (omega arith) r
IsNumbered-without (suc k) low high [] n = n
IsNumbered-without (suc k) low high (job ∷ rest) (n, r) =
    (n, IsNumbered-without k job.seq high rest r)

pub IsNumbered-retain :
    (p : QueuedUpload → Bool) (low high : ℕ) (queue : List QueuedUpload)
    → IsNumbered low high queue
    → IsNumbered low high (retain p queue)
IsNumbered-retain p low high [] n = n
IsNumbered-retain p low high (job ∷ rest) (n, r) = elim (Bool-cases (p job)) [
  | inl h ↦ rw h (n, IsNumbered-retain p job.seq high rest r)
  | inr h ↦ rw h (
      IsNumbered-lower low job.seq high (retain p rest) (omega arith)
        (IsNumbered-retain p job.seq high rest r))
]

pub IsNumbered-append :
    (low high : ℕ) (queue : List QueuedUpload) (job : QueuedUpload)
    → job.seq ≡ high + 1
    → IsNumbered low high queue
    → IsNumbered low (high + 1) (queue ++ (job ∷ []))
IsNumbered-append low high [] job e n = (omega arith, omega arith)
IsNumbered-append low high (a ∷ rest) job e (n, r) = (n, IsNumbered-append a.seq high rest job e r)

module _ (P : QueuedUpload → Type 0) where
  pub All-take : (k : ℕ) (queue : List QueuedUpload) → All P queue → All P (take k queue)
  All-take zero queue h = tt
  All-take (suc k) [] h = tt
  All-take (suc k) (a ∷ rest) (p, h) = (p, All-take k rest h)

  pub All-drop : (k : ℕ) (queue : List QueuedUpload) → All P queue → All P (drop k queue)
  All-drop zero queue h = h
  All-drop (suc k) [] h = tt
  All-drop (suc k) (a ∷ rest) (p, h) = All-drop k rest h

  pub All-append : (xs ys : List QueuedUpload) → All P xs → All P ys → All P (xs ++ ys)
  All-append [] ys h g = g
  All-append (a ∷ xs) ys (p, h) g = (p, All-append xs ys h g)

  pub All-retain :
      (p : QueuedUpload → Bool) (queue : List QueuedUpload) → All P queue → All P (retain p queue)
  All-retain p [] h = tt
  All-retain p (a ∷ rest) (h, g) = elim (Bool-cases (p a)) [
    | inl e ↦ rw e (h, All-retain p rest g)
    | inr e ↦ rw e (All-retain p rest g)
  ]

-- A standing that is looked up afresh is right.
pub IsFlagged-refresh :
    (standing : Text → Bool) (queue : List QueuedUpload)
    → IsFlagged standing
        (map (λ (job : QueuedUpload). record job { privileged = standing job.downloader }) queue)
IsFlagged-refresh standing [] = tt
IsFlagged-refresh standing (job ∷ rest) = (refl, IsFlagged-refresh standing rest)

pub IsNumbered-refresh :
    (standing : Text → Bool) (low high : ℕ) (queue : List QueuedUpload)
    → IsNumbered low high queue
    → IsNumbered low high
        (map (λ (job : QueuedUpload). record job { privileged = standing job.downloader }) queue)
IsNumbered-refresh standing low high [] n = n
IsNumbered-refresh standing low high (job ∷ rest) (n, r) =
    (n, IsNumbered-refresh standing job.seq high rest r)
