-- ===== src/UploadQueue.antt =====
-- soulseek-rs-lib/src/client/upload_queue.rs: the part of `ClientContext` that hands out upload
-- slots. Instants are milliseconds. A rate of bytes per second is a float that this file only ever
-- sets to zero, so that `UploadInfo` leaves it out.
pub mod Order
pub mod Sorted
pub mod Serving
pub mod Pump
pub mod Numbered
pub mod Invariant
pub mod Release
pub mod Expiry
pub mod Places
mod Tests
use soulseek_rs_lib.Base.{
  ℕ, zero, suc, ◌+◌, ◌-◌, Bool, true, false, not, ◌&&◌, Option, none, some, List, [], ◌∷◌, ◌++◌,
  map, length, get_elem?, take, drop, retain, any, ltb, leb, ◌==◌, String, if◌then◌else◌,
}
use soulseek_rs_lib.Base.Text.{Text, text, text_eq}
use soulseek_rs_lib.Base.Assoc.{Map, lookup, insert, remove, nat_eq}
use soulseek_rs_lib.Base.Outcome.{Outcome, ok, panic, and_then}
use Order.{QueuedUpload, ranked, next_to_serve, as_place, enumerate}

pub data UploadStatus : Type 0 where
  queued : ℕ → UploadStatus
  in_progress completed cancelled : UploadStatus
  failed : Text → UploadStatus

pub record UploadInfo : Type 0 where
  pub username : Text
  pub filename : Text
  pub size : ℕ
  pub bytes_sent : ℕ
  pub status : UploadStatus

pub record UploadOffer : Type 0 where
  pub requester_key : Text
  pub token : ℕ
  pub virtual_path : Text
  pub size : ℕ

pub record UploadJob : Type 0 where
  pub downloader : Text
  pub real_path : Text
  pub virtual_path : Text
  pub size : ℕ
  pub offered : Option ℕ

-- The fields of `ClientContext` that the queue reads and writes. Of an active upload only the
-- status counts here.
pub record Context : Type 0 where
  pub upload_queue : List QueuedUpload
  pub upload_seq : ℕ
  pub uploads : Map ℕ UploadJob
  pub active_uploads : Map ℕ UploadStatus
  pub upload_slots : ℕ
  pub privileged_users : List Text
  pub upload_events : List UploadInfo

abbrev pub max_upload_events : ℕ
max_upload_events = 256

-- thirty seconds
abbrev pub offer_timeout : ℕ
offer_timeout = 30_000

unfoldable pub is_privileged : Text → Context → Bool
is_privileged username c = any (λ u. text_eq u username) c.privileged_users

unfoldable pub enqueue_upload : Text → Text → Text → ℕ → Context → Context
unfolding is_privileged
enqueue_upload downloader filename real_path size c =
    let seq = c.upload_seq + 1 in
    let job : QueuedUpload = record {
      downloader = downloader;
      virtual_path = filename;
      real_path = real_path;
      size = size;
      privileged = is_privileged downloader c;
      seq = seq;
    } in
    record c { upload_seq = seq; upload_queue = c.upload_queue ++ (job ∷ []) }

abbrev is_streaming : ℕ × UploadStatus → Bool
is_streaming (token, in_progress) = true
is_streaming (token, _) = false

unfoldable pub uploads_in_flight : Context → ℕ
uploads_in_flight c = length c.uploads + length (retain is_streaming c.active_uploads)

unfoldable pub has_free_upload_slot : Context → Bool
unfolding uploads_in_flight
has_free_upload_slot c = ltb (uploads_in_flight c) c.upload_slots

-- `Vec::remove`: the entry and the list without it; out of bounds it panics.
unfoldable pub take_out : ℕ → List QueuedUpload → Outcome (QueuedUpload × List QueuedUpload)
take_out i queue = elim (get_elem? queue i) [
  | none ↦ panic
  | some job ↦ ok (job, take i queue ++ drop (suc i) queue)
]

abbrev pub offer_of : ℕ → QueuedUpload → UploadOffer
offer_of token job = record {
  requester_key = job.downloader;
  token = token;
  virtual_path = job.virtual_path;
  size = job.size;
}

-- The slot that a job takes under `token` from `now` on.
unfoldable pub hand_over : ℕ → ℕ → QueuedUpload → List QueuedUpload → Context → Context
hand_over token now job rest c = record c {
  upload_queue = rest;
  uploads =
      insert token
        (record {
          downloader = job.downloader;
          real_path = job.real_path;
          virtual_path = job.virtual_path;
          size = job.size;
          offered = some now;
        })
        c.uploads;
}

-- The loop of `pump_uploads`. `next_token n` is what the `n`-th call of the token source gives, and
-- `clock n` the instant that is read in the same round. Each round takes one job out, so that the length of the queue is fuel enough (`UploadQueue.Pump`).
module _ (next_token clock : ℕ → ℕ) where
  unfoldable pub fill_slots : ℕ → ℕ → Context → Outcome (Context × List UploadOffer)
  fill_slots zero calls c = ok (c, [])
  fill_slots (suc fuel) calls c = elim (has_free_upload_slot c) [
    | false ↦ ok (c, [])
    | true ↦ elim (next_to_serve c.upload_queue) [
      | none ↦ ok (c, [])
      | some index ↦ and_then (take_out index c.upload_queue) λ (job, rest).
          let token = next_token calls in
          and_then (fill_slots fuel (calls + 1) (hand_over token (clock calls) job rest c))
            λ (d, offers). ok (d, offer_of token job ∷ offers)
    ]
  ]

unfoldable pub waiting_info : ℕ × (ℕ × QueuedUpload) → UploadInfo
unfolding as_place
waiting_info (place, e) = record {
  username = e.1.downloader;
  filename = e.1.virtual_path;
  size = e.1.size;
  bytes_sent = 0;
  status = queued (as_place place);
}

unfoldable pub queued_uploads : Context → List UploadInfo
unfolding waiting_info ranked
queued_uploads c = map waiting_info (enumerate 0 (ranked c.upload_queue))

abbrev is_same_request : UploadInfo → UploadInfo → Bool
is_same_request waiting seen =
    text_eq seen.username waiting.username && text_eq seen.filename waiting.filename

unfoldable pub record_waiting : List UploadInfo → List UploadInfo → List UploadInfo
record_waiting [] events = events
record_waiting (w ∷ rest) events =
    record_waiting rest (if any (is_same_request w) events then events else events ++ (w ∷ []))

-- Beyond the cap the oldest events go.
unfoldable pub cap_events : List UploadInfo → List UploadInfo
cap_events events =
    if ltb max_upload_events (length events)
    then drop (length events - max_upload_events) events
    else events

unfoldable pub note_waiting : Context → Context
unfolding queued_uploads record_waiting cap_events
note_waiting c = record c {
  upload_events = cap_events (record_waiting (queued_uploads c) c.upload_events);
}

unfoldable pub pump_uploads : (ℕ → ℕ) → (ℕ → ℕ) → Context → Outcome (Context × List UploadOffer)
pump_uploads next_token clock c =
    and_then (fill_slots next_token clock (length c.upload_queue) 0 c)
      λ (d, offers). ok (note_waiting d, offers)

unfoldable pub take_upload_events : Context → List UploadInfo × Context
take_upload_events c = (c.upload_events, record c { upload_events = [] })

unfoldable pub set_privileged_users : List Text → Context → Context
unfolding is_privileged
set_privileged_users users c =
    let d = record c { privileged_users = users } in
    record d {
      upload_queue =
          map (λ (job : QueuedUpload). record job { privileged = is_privileged job.downloader d })
            c.upload_queue;
    }

-- An offer that was sent `offer_timeout` ago and has had no answer.
unfoldable pub is_stale : ℕ → UploadJob → Bool
is_stale now job = elim job.offered [ none ↦ false | some sent ↦ leb offer_timeout (now - sent) ]

abbrev pub expired_info : UploadJob → UploadInfo
expired_info job = record {
  username = job.downloader;
  filename = job.virtual_path;
  size = job.size;
  bytes_sent = 0;
  status = failed (text "no answer to the transfer offer");
}

abbrev pub stale_tokens : ℕ → Map ℕ UploadJob → List ℕ
stale_tokens now [] = []
stale_tokens now ((token, job) ∷ rest) =
    let later = stale_tokens now rest in if is_stale now job then token ∷ later else later

unfoldable pub drop_offers : List ℕ → Context → Context
drop_offers [] c = c
drop_offers (token ∷ rest) c = drop_offers rest (elim (lookup token c.uploads) [
  | none ↦ c
  | some job ↦ record c {
    uploads = remove token c.uploads;
    upload_events = c.upload_events ++ (expired_info job ∷ []);
  }
])

abbrev pub is_empty {ℓ} : {A : Type ℓ} → List A → Bool
is_empty [] = true
is_empty (_ ∷ _) = false

unfoldable pub expire_stale_offers : ℕ → Context → Bool × Context
unfolding is_stale drop_offers
expire_stale_offers now c =
    let stale = stale_tokens now c.uploads in (not (is_empty stale), drop_offers stale c)

unfoldable pub mark_offer_answered : ℕ → Context → Context
mark_offer_answered token c = elim (lookup token c.uploads) [
  | none ↦ c
  | some job ↦ record c { uploads = insert token (record job { offered = none }) c.uploads }
]

unfoldable pub release_upload_slots : Text → Context → Bool × Context
release_upload_slots downloader c =
    let before = length c.upload_queue + length c.uploads in
    let d = record c {
      upload_queue = retain (λ job. not (text_eq job.downloader downloader)) c.upload_queue;
      uploads = retain (λ (e : ℕ × UploadJob). not (text_eq e.1.downloader downloader)) c.uploads;
    } in
    (not (before == length d.upload_queue + length d.uploads), d)
