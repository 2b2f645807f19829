-- ===== src/Downloads/Removal.antt =====
-- Which downloads leave the store.
use soulseek_rs_lib.Base.{
  Bool, true, false, ◌↔◌, All, not, ◌&&◌, ◌≡◌, refl, inl, inr, some, List, [], ◌∷◌, ◌++◌, length,
  retain, any, find, length-retain-le, ◌<◌, arith, Bool-cases,
}
use soulseek_rs_lib.Base.Text.{Text, text_eq_iff, text_eq_refl}
use soulseek_rs_lib.Downloads.{
  Download, DownloadStatus, DownloadStore, queued, in_progress, paused, completed, cancelled,
  failed, timed_out, is_queued, is_file, is_finished, waits_for, add, remove_first, remove_by_file,
  remove_queued_by_file,
}

-- Where no test below finds a download, retaining the others keeps the list.
retain-none :
    (p : Download → Bool) (xs : List Download) → any p (retain (λ d. not (p d)) xs) ≡ false
retain-none p [] = refl
retain-none p (x ∷ xs) = ground (arith, retain-none p xs)

shorter :
    (p : Download → Bool) (xs : List Download)
    → any p xs ≡ true
    → length (retain (λ d. not (p d)) xs) < length xs
shorter p [] h = cc
shorter p (x ∷ xs) h = ground (arith, shorter p xs, length-retain-le (λ y. not (p y)) xs)

unshortened :
    (p : Download → Bool) (xs : List Download)
    → any p xs ≡ false
    → length (retain (λ d. not (p d)) xs) ≡ length xs
unshortened p [] h = refl
unshortened p (x ∷ xs) h = ground (arith, unshortened p xs)

-- Removing the downloads of a file leaves none of them, whatever their status, and answers whether
-- there was one.
pub remove_by_file-any :
    (username filename : Text) (s : DownloadStore)
    → let (removed, after) = remove_by_file username filename s in
      (any (is_file username filename) after.downloads ≡ false)
      × (removed ≡ any (is_file username filename) s.downloads)
unfolding remove_by_file
remove_by_file-any username filename s = (
  retain-none (is_file username filename) s.downloads,
  ground (
    arith,
    shorter (is_file username filename) s.downloads,
    unshortened (is_file username filename) s.downloads,
  ),
)

-- A download of this file from this user that has not started.
abbrev pub IsWaiting : Text → Text → Download → Type 0
IsWaiting username filename d =
    (d.username ≡ username) × (d.filename ≡ filename) × (d.status ≡ queued)

-- The list around the entry that a removal takes out.
pub data Removes (P : Download → Type 0) : List Download → Bool → List Download → Type 0 where
  nothing : (xs : List Download) → All (λ d. ¬ P d) xs → Removes P xs false xs
  one :
      (before : List Download) (d : Download) (behind : List Download)
      → All (λ e. ¬ P e) before
      → P d
      → Removes P (before ++ (d ∷ behind)) true (before ++ behind)

cons-Removes :
    (P : Download → Type 0) (d : Download) (xs ys : List Download) (found : Bool)
    → ¬ P d
    → Removes P xs found ys
    → Removes P (d ∷ xs) found (d ∷ ys)
cons-Removes P d _ _ _ h (nothing xs g) = Removes.nothing (d ∷ xs) (h, g)
cons-Removes P d _ _ _ h (one before e behind g k) = Removes.one (d ∷ before) e behind (h, g) k

remove_first-Removes :
    (test : Download → Bool) (P : Download → Type 0)
    → ((d : Download) → (test d ≡ true) ↔ P d)
    → (xs : List Download) → Removes P xs (remove_first test xs).0 (remove_first test xs).1
unfolding remove_first
remove_first-Removes test P decides [] = Removes.nothing [] tt
remove_first-Removes test P decides (d ∷ rest) = elim (Bool-cases (test d)) [
  | inl h ↦ rw h (Removes.one [] d rest tt ((decides d).0 h))
  | inr h ↦
      let other : ¬ P d = λ p. let yes : test d ≡ true = (decides d).1 p in ground arith in
      rw h (cons-Removes P d rest _ _ other (remove_first-Removes test P decides rest))
]

queued_of_is_queued : (status : DownloadStatus) → is_queued status ≡ true → status ≡ queued
queued_of_is_queued queued h = refl
queued_of_is_queued (in_progress done size speed) h = cc
queued_of_is_queued (paused done size) h = cc
queued_of_is_queued completed h = cc
queued_of_is_queued cancelled h = cc
queued_of_is_queued (failed reason) h = cc
queued_of_is_queued timed_out h = cc

waits_for-IsWaiting :
    (username filename : Text) (d : Download)
    → (waits_for username filename d ≡ true) ↔ IsWaiting username filename d
waits_for-IsWaiting username filename d = (
  λ h. (
    (text_eq_iff d.username username).0 (ground arith),
    (text_eq_iff d.filename filename).0 (ground arith),
    queued_of_is_queued d.status (ground arith),
  ),
  λ (u, f, q). rw (u, f, q, text_eq_refl username, text_eq_refl filename) refl,
)

-- Removing a queued download takes out the first entry that is of this user and this file and has
-- the status `queued`, and nothing else of the store, and answers whether there was one: a download
-- of that file that runs, waits to be resumed or is over stays.
pub remove_queued_by_file-Removes :
    (username filename : Text) (s : DownloadStore)
    → let (found, after) = remove_queued_by_file username filename s in
      Removes (IsWaiting username filename) s.downloads found after.downloads
      × (after.sent ≡ s.sent)
unfolding remove_queued_by_file
remove_queued_by_file-Removes username filename s = (
  remove_first-Removes (waits_for username filename) (IsWaiting username filename)
      (waits_for-IsWaiting username filename) s.downloads,
  refl,
)

find-append :
    (p : Download → Bool) (xs : List Download) (d : Download)
    → any p xs ≡ false
    → p d ≡ true
    → find p (xs ++ (d ∷ [])) ≡ some d
find-append p [] d h g = rw g
find-append p (x ∷ xs) d h g = ground (arith, find-append p xs d)

any-only :
    (p q : Download → Bool) (xs : List Download)
    → any (λ d. not (q d) && p d) xs ≡ false
    → any p (retain (λ d. not (q d && p d)) xs) ≡ false
any-only p q [] h = refl
any-only p q (x ∷ xs) h = ground (arith, any-only p q xs)

is_file_self : (d : Download) → is_file d.username d.filename d ≡ true
is_file_self d = rw (text_eq_refl d.username, text_eq_refl d.filename)

-- Where every entry for a file is finished, a new download of it takes their place: the store finds
-- the new one by its file.
pub find-add :
    (d : Download) (s : DownloadStore)
    → any (λ e. not (is_finished e) && is_file d.username d.filename e) s.downloads ≡ false
    → find (is_file d.username d.filename) (add d s).downloads ≡ some d
unfolding add
find-add d s h =
    find-append (is_file d.username d.filename) _ d
      (any-only (is_file d.username d.filename) is_finished s.downloads h) (is_file_self d)
