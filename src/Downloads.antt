-- ===== src/Downloads.antt =====
-- soulseek-rs-lib/src/download_store.rs, and `Download` and `DownloadStatus` of
-- soulseek-rs-lib/src/types.rs. A channel is a number; what is sent on the channels is recorded. A
-- speed is the bit pattern of its float, so that `0.0` is 0. The download's directory and metadata,
-- which the store only stores, are left out.
pub mod Status
pub mod Claims
pub mod Removal
mod Tests
use soulseek_rs_lib.Base.{
  ℕ, Bool, true, false, not, ◌&&◌, ◌||◌, Option, none, some, List, [], ◌∷◌, ◌++◌, map, length,
  retain, find, ◌==◌, if◌then◌else◌,
}
use soulseek_rs_lib.Base.Text.{Text, text, text_eq}

pub data DownloadStatus : Type 0 where
  queued : DownloadStatus
  in_progress : (bytes_downloaded total_bytes speed_bytes_per_sec : ℕ) → DownloadStatus
  paused : (bytes_downloaded total_bytes : ℕ) → DownloadStatus
  completed cancelled : DownloadStatus
  failed : Option Text → DownloadStatus
  timed_out : DownloadStatus

abbrev pub is_terminal : DownloadStatus → Bool
is_terminal queued = false
is_terminal (in_progress _ _ _) = false
is_terminal (paused _ _) = false
is_terminal completed = true
is_terminal cancelled = true
is_terminal (failed _) = true
is_terminal timed_out = true

abbrev pub is_queued : DownloadStatus → Bool
is_queued queued = true
is_queued _ = false

-- Progress that comes in for a paused download.
abbrev pub resumes : DownloadStatus → DownloadStatus → Bool
resumes (paused _ _) (in_progress _ _ _) = true
resumes _ _ = false

pub record Download : Type 0 where
  pub username : Text
  pub filename : Text
  pub token : ℕ
  pub size : ℕ
  pub status : DownloadStatus
  pub sender : ℕ
  pub queue_position : Option ℕ

abbrev pub is_finished : Download → Bool
is_finished d = is_terminal d.status

unfoldable pub bytes_downloaded : Download → ℕ
bytes_downloaded d = elim d.status [
  | queued ↦ 0
  | in_progress done total speed ↦ done
  | paused done total ↦ done
  | completed ↦ d.size
  | cancelled ↦ 0
  | failed why ↦ 0
  | timed_out ↦ 0
]

-- The list of the store, and what has been sent on which channel so far.
pub record DownloadStore : Type 0 where
  pub downloads : List Download
  pub sent : List (ℕ × DownloadStatus)

abbrev pub new : DownloadStore
new = record { downloads = []; sent = [] }

abbrev pub is_file : Text → Text → Download → Bool
is_file username filename d = text_eq d.username username && text_eq d.filename filename

abbrev pub has_token : ℕ → Download → Bool
has_token token d = d.token == token

unfoldable pub add : Download → DownloadStore → DownloadStore
add download s = record s {
  downloads =
      retain (λ d. not (is_finished d && is_file download.username download.filename d)) s.downloads
      ++ (download ∷ []);
}

unfoldable pub remove : ℕ → DownloadStore → DownloadStore
remove token s = record s { downloads = retain (λ d. not (has_token token d)) s.downloads }

unfoldable pub get_by_token : ℕ → DownloadStore → Option Download
get_by_token token s = find (has_token token) s.downloads

unfoldable pub tokens : DownloadStore → List ℕ
tokens s = map (λ d. d.token) s.downloads

-- What a mutable borrow of one entry does: the answer, what is sent, and the entry behind it.
pub record Change (R : Type 0) : Type 0 where
  pub answer : R
  pub notices : List DownloadStatus
  pub entry : Download

abbrev pub unchanged : {R : Type 0} → R → Download → Change R
unchanged r d = record { answer = r; notices = []; entry = d }

-- `get_by_token_mut` and `get_by_file_mut` borrow the first entry that a test finds.
unfoldable pub change_first :
    {R : Type 0}
    → (Download → Bool)
    → R
    → (Download → Change R)
    → List Download
    → Option (Change R) × List Download
change_first test missing f [] = (none, [])
change_first test missing f (d ∷ rest) =
    let (later, others) = change_first test missing f rest in
    if test d then (some (f d), (f d).entry ∷ rest) else (later, d ∷ others)

abbrev pub settle :
    {R : Type 0} → R → DownloadStore → Option (Change R) × List Download → R × DownloadStore
settle missing s (none, downloads) = (missing, record s { downloads = downloads })
settle missing s (some c, downloads) = (
  c.answer,
  record { downloads = downloads; sent = s.sent ++ map (λ n. (c.entry.sender, n)) c.notices },
)

unfoldable pub change :
    {R : Type 0} → (Download → Bool) → R → (Download → Change R) → DownloadStore → R × DownloadStore
unfolding change_first
change test missing f s = settle missing s (change_first test missing f s.downloads)

abbrev pub status_change : DownloadStatus → Download → Change Bool
status_change status d =
    if is_terminal d.status || resumes d.status status
    then unchanged false d
    else record { answer = true; notices = []; entry = record d { status = status } }

unfoldable pub update_status : ℕ → DownloadStatus → DownloadStore → Bool × DownloadStore
update_status token status s = change (has_token token) false (status_change status) s

abbrev pub claim : Text → Download → Change (Option Download)
claim username d =
    if not (text_eq d.username username) || not (is_queued d.status)
    then unchanged none d
    else (let claimed : Download = record d { status = in_progress 0 d.size 0 } in
        record { answer = some claimed; notices = []; entry = claimed })

unfoldable pub claim_for_peer : ℕ → Text → DownloadStore → Option Download × DownloadStore
claim_for_peer token username s = change (has_token token) none (claim username) s

abbrev pub cancel : Download → Change (Option Download)
cancel d =
    if is_finished d
    then unchanged none d
    else (let gone : Download = record d { status = cancelled } in
        record { answer = some gone; notices = cancelled ∷ []; entry = gone })

unfoldable pub cancel_by_file : Text → Text → DownloadStore → Option Download × DownloadStore
cancel_by_file username filename s = change (is_file username filename) none cancel s

unfoldable pub update_queue_position : Text → Text → ℕ → DownloadStore → Bool × DownloadStore
update_queue_position username filename place s =
    change (is_file username filename) false
      (λ d. record {
        answer = true;
        notices = [];
        entry = record d { queue_position = some place };
      })
      s

-- The new status, and whether the caller is told of success.
abbrev told : DownloadStatus → Download → Change Bool
told status d = record {
  answer = true;
  notices = status ∷ [];
  entry = record d { status = status };
}

-- The `match` of `pause_by_file` on the download's status.
abbrev pub pause_at : DownloadStatus → Download → Change Bool
pause_at (in_progress done total speed) d = told (paused done total) d
pause_at (paused done total) d = unchanged true d
pause_at _ d = unchanged false d

abbrev pub pause : Download → Change Bool
pause d = pause_at d.status d

unfoldable pub pause_by_file : Text → Text → DownloadStore → Bool × DownloadStore
pause_by_file username filename s = change (is_file username filename) false pause s

-- The `match` of `resume_by_file` on the download's status.
abbrev pub resume_at : DownloadStatus → Download → Change Bool
resume_at (paused done total) d = told (in_progress done total 0) d
resume_at (in_progress done total speed) d = unchanged true d
resume_at _ d = unchanged false d

abbrev pub resume : Download → Change Bool
resume d = resume_at d.status d

unfoldable pub resume_by_file : Text → Text → DownloadStore → Bool × DownloadStore
resume_by_file username filename s = change (is_file username filename) false resume s

abbrev pub waits_for : Text → Text → Download → Bool
waits_for username filename d = is_file username filename d && is_queued d.status

-- `position` and `Vec::remove` of the first entry that a test finds.
unfoldable pub remove_first : (Download → Bool) → List Download → Bool × List Download
remove_first test [] = (false, [])
remove_first test (d ∷ rest) =
    let (found, others) = remove_first test rest in
    if test d then (true, rest) else (found, d ∷ others)

unfoldable pub remove_queued_by_file : Text → Text → DownloadStore → Bool × DownloadStore
unfolding remove_first
remove_queued_by_file username filename s =
    let (found, rest) = remove_first (waits_for username filename) s.downloads in
    (found, record s { downloads = rest })

unfoldable pub remove_by_file : Text → Text → DownloadStore → Bool × DownloadStore
remove_by_file username filename s =
    let rest = retain (λ d. not (is_file username filename d)) s.downloads in
    (not (length rest == length s.downloads), record s { downloads = rest })

abbrev pub fails_with : Text → Option Text → Download → Bool
fails_with username filename d =
    text_eq d.username username
    && (elim filename [ none ↦ true | some f ↦ text_eq d.filename f ])
    && is_queued d.status

unfoldable pub collect_failed_tokens : DownloadStore → Text → Option Text → List ℕ × DownloadStore
collect_failed_tokens s username filename =
    let hit : List Download = retain (fails_with username filename) s.downloads in
    (
      map (λ d. d.token) hit,
      record s {
        sent =
            s.sent
            ++ map
                (λ (d : Download).
                  (d.sender, failed (some (text "The upload failed on the other side"))))
                hit;
      },
    )
