-- ===== src/UploadQueue/Release.antt =====
-- What leaves the queue and the slots when a peer goes away.
use soulseek_rs_lib.Base.{
  ℕ, ◌<◌, ◌≡◌, refl, sym, inl, inr, Bool, true, false, not, ◌||◌, List, [], ◌∷◌, length, retain,
  length-retain-le, any, All, arith, Bool-cases, if◌then◌else◌,
}
use soulseek_rs_lib.Base.Text.{Text, text_eq}
use soulseek_rs_lib.Base.Assoc.{nat_eq}
use soulseek_rs_lib.UploadQueue.Order.{QueuedUpload, rank_le, insert_by, sort_by}
use soulseek_rs_lib.UploadQueue.Sorted.{waiting, All-le, IsSorted, waiting-IsSorted}
use soulseek_rs_lib.UploadQueue.{Context, UploadJob, release_upload_slots}

abbrev pub is_theirs : Text → QueuedUpload → Bool
is_theirs downloader job = text_eq job.downloader downloader

abbrev pub serves_them : Text → ℕ × UploadJob → Bool
serves_them downloader e = text_eq e.1.downloader downloader

any-retain-not {ℓ} :
    {A : Type ℓ} (p : A → Bool) (xs : List A) → any p (retain (λ x. not (p x)) xs) ≡ false
any-retain-not p [] = refl
any-retain-not p (x ∷ xs) = ground (arith, any-retain-not p xs)

length-retain_fewer {ℓ} :
    {A : Type ℓ} (p : A → Bool) (xs : List A)
    → any p xs ≡ true
    → length (retain (λ x. not (p x)) xs) < length xs
length-retain_fewer p [] h = cc
length-retain_fewer p (x ∷ xs) h =
    ground (arith, length-retain_fewer p xs, length-retain-le (λ y. not (p y)) xs)

length-retain_same {ℓ} :
    {A : Type ℓ} (p : A → Bool) (xs : List A)
    → any p xs ≡ false
    → length (retain (λ x. not (p x)) xs) ≡ length xs
length-retain_same p [] h = refl
length-retain_same p (x ∷ xs) h = ground (arith, length-retain_same p xs)

-- An entry that is at most every entry goes in front of those that a test keeps.
insert_by-front :
    (p : QueuedUpload → Bool) (a : QueuedUpload) (bs : List QueuedUpload)
    → All (λ b. rank_le a b ≡ true) bs
    → insert_by rank_le a (retain p bs) ≡ a ∷ retain p bs
unfolding insert_by
insert_by-front p a [] h = refl
insert_by-front p a (b ∷ bs) (le, h) = elim (Bool-cases (p b)) [
  | inl e ↦ rw (e, le)
  | inr e ↦ rw e (insert_by-front p a bs h)
]

retain-insert_by :
    (p : QueuedUpload → Bool) (a : QueuedUpload) (bs : List QueuedUpload)
    → IsSorted bs
    → retain p (insert_by rank_le a bs)
      ≡ (if p a then insert_by rank_le a (retain p bs) else retain p bs)
unfolding insert_by
retain-insert_by p a [] s = refl
retain-insert_by p a (b ∷ bs) (low, s) = elim (Bool-cases (rank_le a b)) [
  | inl le ↦ elim (Bool-cases (p a)) [
    | inl h ↦ rw (le, h) (sym (insert_by-front p a (b ∷ bs) (le, All-le a b bs le low)))
    | inr h ↦ rw (le, h)
  ]
  | inr gt ↦ elim (Bool-cases (p a)) [
    | inl h ↦ elim (Bool-cases (p b)) [
      | inl g ↦ rw (gt, g, h, retain-insert_by p a bs s, h, gt)
      | inr g ↦ rw (gt, g, h, retain-insert_by p a bs s, h)
    ]
    | inr h ↦ elim (Bool-cases (p b)) [
      | inl g ↦ rw (gt, g, h, retain-insert_by p a bs s, h)
      | inr g ↦ rw (gt, g, h, retain-insert_by p a bs s, h)
    ]
  ]
]

-- Requests that leave do not change the order of the others.
waiting-retain :
    (p : QueuedUpload → Bool) (queue : List QueuedUpload)
    → waiting (retain p queue) ≡ retain p (waiting queue)
unfolding sort_by
waiting-retain p [] = refl
waiting-retain p (a ∷ rest) = elim (Bool-cases (p a)) [
  | inl h ↦
      rw (h, waiting-retain p rest, retain-insert_by p a (waiting rest) (waiting-IsSorted rest), h)
  | inr h ↦
      rw (h, waiting-retain p rest, retain-insert_by p a (waiting rest) (waiting-IsSorted rest), h)
]

-- What `release_upload_slots downloader` leaves of `c`, and its answer.
pub record Released (downloader : Text) (c : Context) (freed : Bool) (d : Context) : Type 0 where
  pub waits_no_more : any (is_theirs downloader) d.upload_queue ≡ false
  pub served_no_more : any (serves_them downloader) d.uploads ≡ false
  pub others_in_order :
      waiting d.upload_queue
      ≡ retain (λ job. not (is_theirs downloader job)) (waiting c.upload_queue)
  pub answer :
      freed ≡ (any (is_theirs downloader) c.upload_queue || any (serves_them downloader) c.uploads)

-- When a downloader goes away, nothing of theirs waits or is served any more, everyone else keeps
-- their turn, and the answer says whether there was anything of theirs.
pub release_upload_slots-Released :
    (downloader : Text) (c : Context)
    → let (freed, d) = release_upload_slots downloader c in Released downloader c freed d
unfolding release_upload_slots
release_upload_slots-Released downloader c = record {
  waits_no_more = any-retain-not (is_theirs downloader) c.upload_queue;
  served_no_more = any-retain-not (serves_them downloader) c.uploads;
  others_in_order = waiting-retain (λ job. not (is_theirs downloader job)) c.upload_queue;
  answer = ground (
    arith,
    length-retain_fewer (is_theirs downloader) c.upload_queue,
    length-retain_same (is_theirs downloader) c.upload_queue,
    length-retain_fewer (serves_them downloader) c.uploads,
    length-retain_same (serves_them downloader) c.uploads,
  );
}
