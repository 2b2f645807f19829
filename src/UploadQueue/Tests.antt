-- ===== src/UploadQueue/Tests.antt =====
-- A queue with a donor behind another peer, and one slot.
use mathlib.Core.List.{Perm}
use soulseek_rs_lib.Base.{
  ltb, ℕ, ◌+◌, ◌≤◌, ◌≡◌, refl, true, false, none, some, List, [], ◌∷◌, ◌++◌, map, find, length,
  get_elem?,
}
use soulseek_rs_lib.Base.Text.{text, text_eq}
use soulseek_rs_lib.Base.Assoc.{Map, lookup, insert, contains, nat_eq}
use soulseek_rs_lib.Base.Outcome.{ok}
use soulseek_rs_lib.UploadQueue.Order.{
  QueuedUpload, ranked, enumerate, next_to_serve, serve_order, place_in_queue, rank_le, sort_by,
  min_from, insert_by, as_place,
}
use soulseek_rs_lib.UploadQueue.Serving.{IsInOrder, ranked-IsInOrder, serve_order-next_to_serve}
use soulseek_rs_lib.UploadQueue.Pump.{Served, pump_uploads-Served, pump_uploads-events}
use soulseek_rs_lib.UploadQueue.Invariant.{IsWellFormed, Step, Reachable, Reachable-IsWellFormed}
use soulseek_rs_lib.UploadQueue.Release.{Released, release_upload_slots-Released}
use soulseek_rs_lib.UploadQueue.Expiry.{Expires, expire_stale_offers-Expires, answered_stays}
use soulseek_rs_lib.UploadQueue.Places.{
  place_in_queue-rows, shown_place, is_row, pump_uploads-moves_up, served_before, behind,
}
use soulseek_rs_lib.UploadQueue.{
  Context, UploadInfo, UploadJob, UploadOffer, max_upload_events, pump_uploads, queued_uploads,
  enqueue_upload, release_upload_slots, expire_stale_offers, mark_offer_answered, fill_slots,
  note_waiting, has_free_upload_slot, uploads_in_flight, take_out, hand_over, cap_events,
  record_waiting, waiting_info,
}

abbrev idle : Context
idle = record {
  upload_queue = [];
  upload_seq = 0;
  uploads = [];
  active_uploads = [];
  upload_slots = 1;
  privileged_users = text "carol" ∷ [];
  upload_events = [];
}

abbrev asked_by_bob : QueuedUpload
asked_by_bob = record {
  downloader = text "bob";
  virtual_path = text "a";
  real_path = text "/a";
  size = 40;
  privileged = false;
  seq = 1;
}

abbrev asked_by_carol : QueuedUpload
asked_by_carol = record {
  downloader = text "carol";
  virtual_path = text "b";
  real_path = text "/b";
  size = 50;
  privileged = true;
  seq = 2;
}

abbrev busy : Context
busy = record idle { upload_queue = asked_by_bob ∷ asked_by_carol ∷ []; upload_seq = 2 }

abbrev ticks : ℕ → ℕ
ticks n = n + 1_000

abbrev next_tokens : ℕ → ℕ
next_tokens n = n + 7

ranked-IsInOrder_example :
    IsInOrder (map (λ (e : ℕ × QueuedUpload). e.1) (ranked busy.upload_queue))
    × Perm (ranked busy.upload_queue) (enumerate 0 busy.upload_queue)
ranked-IsInOrder_example = ranked-IsInOrder busy.upload_queue

serve_order-next_to_serve_example :
    get_elem? (serve_order busy.upload_queue) 0 ≡ next_to_serve busy.upload_queue
serve_order-next_to_serve_example = serve_order-next_to_serve busy.upload_queue

pump_uploads-Served_example :
    (d : Context) × (offers : List UploadOffer) × (served : List QueuedUpload) × (pump_uploads
        next_tokens ticks busy
      ≡ ok (d, offers))
    × Served busy d offers served
pump_uploads-Served_example = pump_uploads-Served next_tokens ticks busy

-- The donor is served, and Bob is told that he waits in the first place.
abbrev pumped : Context
pumped = record busy {
  upload_queue = asked_by_bob ∷ [];
  uploads =
      (
        7,
        record {
          downloader = text "carol";
          real_path = text "/b";
          virtual_path = text "b";
          size = 50;
          offered = some 1_000;
        },
      )
      ∷ [];
  upload_events = queued_uploads (record busy { upload_queue = asked_by_bob ∷ [] });
}

abbrev offered_to_carol : UploadOffer
offered_to_carol = record {
  requester_key = text "carol";
  token = 7;
  virtual_path = text "b";
  size = 50;
}

busy-pumped : pump_uploads next_tokens ticks busy ≡ ok (pumped, offered_to_carol ∷ [])
unfolding pump_uploads fill_slots has_free_upload_slot uploads_in_flight next_to_serve min_from
    rank_le take_out hand_over insert note_waiting cap_events record_waiting queued_uploads ranked
    sort_by insert_by waiting_info as_place text_eq
busy-pumped = refl

pump_uploads-events_example : length pumped.upload_events ≤ max_upload_events
pump_uploads-events_example =
    pump_uploads-events next_tokens ticks busy pumped (offered_to_carol ∷ []) busy-pumped

pump_uploads-moves_up_example :
    served_before (text "bob") (text "a") busy.upload_queue
    ≡ behind
        (length (offered_to_carol ∷ []))
        (served_before (text "bob") (text "a") pumped.upload_queue)
unfolding text_eq
pump_uploads-moves_up_example =
    pump_uploads-moves_up (text "bob") (text "a") next_tokens ticks busy pumped
      (offered_to_carol ∷ []) busy-pumped refl

place_in_queue-rows_example :
    place_in_queue busy.upload_queue (text "bob") (text "a")
    ≡ shown_place (find (is_row (text "bob") (text "a")) (queued_uploads busy))
place_in_queue-rows_example = place_in_queue-rows (text "bob") (text "a") busy

abbrev asked : Context
asked =
    enqueue_upload (text "carol") (text "b") (text "/b") 50
      (enqueue_upload (text "bob") (text "a") (text "/a") 40 idle)

Reachable-IsWellFormed_example : IsWellFormed (release_upload_slots (text "bob") asked).1
Reachable-IsWellFormed_example =
    Reachable-IsWellFormed (release_upload_slots (text "bob") asked).1 (
      Reachable.follows asked _
        (Reachable.follows (enqueue_upload (text "bob") (text "a") (text "/a") 40 idle) asked
          (Reachable.follows idle _ (Reachable.begins idle refl refl)
            (Step.enqueues (text "bob") (text "a") (text "/a") 40))
          (Step.enqueues (text "carol") (text "b") (text "/b") 50))
        (Step.releases (text "bob")))

release_upload_slots-Released_example :
    let (freed, d) = release_upload_slots (text "bob") busy in Released (text "bob") busy freed d
release_upload_slots-Released_example = release_upload_slots-Released (text "bob") busy

expire_stale_offers-Expires_example :
    (kept : Map ℕ UploadJob) × (infos : List UploadInfo) × Expires 40_000 pumped.uploads kept infos
    × (expire_stale_offers 40_000 pumped ≡ (
      ltb 0 (length infos),
      record pumped { uploads = kept; upload_events = pumped.upload_events ++ infos },
    ))
unfolding contains
expire_stale_offers-Expires_example = expire_stale_offers-Expires 40_000 pumped (refl, tt)

answered_stays_example :
    lookup 7 (expire_stale_offers 40_000 (mark_offer_answered 7 pumped)).1.uploads
    ≡ some (record {
      downloader = text "carol";
      real_path = text "/b";
      virtual_path = text "b";
      size = 50;
      offered = none;
    })
unfolding contains lookup
answered_stays_example =
    answered_stays 40_000 7
      (record {
        downloader = text "carol";
        real_path = text "/b";
        virtual_path = text "b";
        size = 50;
        offered = some 1_000;
      })
      pumped (refl, tt) refl
