-- ===== src/UploadQueue/Pump.antt =====
-- `pump_uploads` against the order of service: whom it serves, and when it stops.
use soulseek_rs_lib.Base.{
  ℕ, zero, suc, ◌+◌, ◌-◌, max, ◌≤◌, ◌<◌, ◌≡◌, refl, ap, ◌∙◌, ◌⊎◌, inl, inr, true, false, Option,
  none, some, List, [], ◌∷◌, ◌++◌, map, length, take, drop, get_elem?, arith, Bool-cases,
  length-append, length-take, length-drop,
}
use soulseek_rs_lib.Base.Text.{Text}
use soulseek_rs_lib.Base.Assoc.{nat_eq, length-insert}
use soulseek_rs_lib.Base.Outcome.{ok}
use soulseek_rs_lib.UploadQueue.Order.{QueuedUpload}
use soulseek_rs_lib.UploadQueue.Sorted.{
  waiting, without, least, next_to_serve-least, waiting-least, Splits,
}
use soulseek_rs_lib.UploadQueue.{
  Context, UploadOffer, max_upload_events, uploads_in_flight, has_free_upload_slot, take_out,
  offer_of, hand_over, fill_slots, note_waiting, cap_events, pump_uploads, record_waiting,
  queued_uploads, UploadInfo,
}

-- What the peer that is offered a slot is offered.
abbrev pub offer_parties : UploadOffer → Text × Text × ℕ
offer_parties o = (o.requester_key, o.virtual_path, o.size)

abbrev pub job_parties : QueuedUpload → Text × Text × ℕ
job_parties job = (job.downloader, job.virtual_path, job.size)

-- `offers` went out and led from `c` to `d`: they serve the head of the order of service, in that
-- order, and the queue that is left has the rest of it; the slots are never overdrawn; and the
-- pump stopped only because nobody waits or no slot is free.
pub record Served (c : Context) (d : Context) (offers : List UploadOffer)
    (served : List QueuedUpload) : Type 0 where
  pub in_order : waiting c.upload_queue ≡ served ++ waiting d.upload_queue
  pub offered : map offer_parties offers ≡ map job_parties served
  pub slots_kept : d.upload_slots ≡ c.upload_slots
  pub within_slots : uploads_in_flight d ≤ max (uploads_in_flight c) c.upload_slots
  pub stopped : (d.upload_queue ≡ []) ⊎ (has_free_upload_slot d ≡ false)

-- A job that is handed over takes one slot at most.
in_flight-hand_over :
    (token now : ℕ) (job : QueuedUpload) (rest : List QueuedUpload) (c : Context)
    → uploads_in_flight (hand_over token now job rest c) ≤ uploads_in_flight c + 1
unfolding uploads_in_flight hand_over
in_flight-hand_over token now job rest c = ground (
  arith,
  length-insert token
      (record {
        downloader = job.downloader;
        real_path = job.real_path;
        virtual_path = job.virtual_path;
        size = job.size;
        offered = some now;
      })
      c.uploads,
)

free→lt : (c : Context) → has_free_upload_slot c ≡ true → uploads_in_flight c < c.upload_slots
unfolding has_free_upload_slot
free→lt c h = ground arith

take_out-eq :
    (k : ℕ) (queue : List QueuedUpload) (m : QueuedUpload)
    → get_elem? queue k ≡ some m
    → take_out k queue ≡ ok (m, without k queue)
unfolding take_out
take_out-eq k queue m h = rw (h, take_out)

get_elem?-lt :
    (queue : List QueuedUpload) (k : ℕ) (m : QueuedUpload)
    → get_elem? queue k ≡ some m
    → k < length queue
get_elem?-lt [] k m h = cc
get_elem?-lt (a ∷ rest) zero m h = omega arith
get_elem?-lt (a ∷ rest) (suc k) m h = omega (arith, get_elem?-lt rest k m h)

length-without :
    (queue : List QueuedUpload) (k : ℕ)
    → k < length queue
    → suc (length (without k queue)) ≡ length queue
length-without queue k h = omega (
  arith,
  length-append (take k queue) (drop (suc k) queue),
  length-take k queue,
  length-drop (suc k) queue,
)

empty_of_length : (queue : List QueuedUpload) → length queue ≤ 0 → queue ≡ []
empty_of_length [] h = refl
empty_of_length (a ∷ rest) h = absurd (omega arith)

-- `P` survives a handover of any job that waits.
abbrev pub Keeps : (Context → Type 0) → Type 0
Keeps P =
    (token now k : ℕ) (m : QueuedUpload) (c : Context)
    → get_elem? c.upload_queue k ≡ some m
    → P c
    → P (hand_over token now m (without k c.upload_queue) c)

module _ (next_token clock : ℕ → ℕ) (P : Context → Type 0) (keeps : Keeps P) where
  -- What the loop does, from any state and with fuel for the whole queue.
  abbrev Fills : ℕ → ℕ → Context → Type 0
  Fills fuel calls c =
      (d : Context) × (offers : List UploadOffer) × (served : List QueuedUpload) × (fill_slots
          next_token clock fuel calls c
        ≡ ok (d, offers))
      × Served c d offers served
      × (P c → P d)

  nothing-Served :
      (c : Context) → (c.upload_queue ≡ []) ⊎ (has_free_upload_slot c ≡ false) → Served c c [] []
  nothing-Served c h = record {
    in_order = refl;
    offered = refl;
    slots_kept = refl;
    within_slots = omega arith;
    stopped = h;
  }

  -- One round serves the first in the order, and the rounds after it go on from there.
  hand_over-Served :
      (token now : ℕ) (m : QueuedUpload) (rest : List QueuedUpload) (c d : Context)
      (offers : List UploadOffer) (served : List QueuedUpload)
      → has_free_upload_slot c ≡ true
      → waiting c.upload_queue ≡ m ∷ waiting rest
      → Served (hand_over token now m rest c) d offers served
      → Served c d (offer_of token m ∷ offers) (m ∷ served)
  hand_over-Served token now m rest c d offers served free order s = record {
    in_order = order ∙ ap (λ t. m ∷ t) (unfold hand_over in s.in_order);
    offered = ap (λ t. job_parties m ∷ t) s.offered;
    slots_kept = unfold hand_over in s.slots_kept;
    within_slots =
        omega (
          arith,
          s.within_slots,
          in_flight-hand_over token now m rest c,
          free→lt c free,
          same_slots,
        );
    stopped = s.stopped;
  }
    where
      same_slots : (hand_over token now m rest c).upload_slots ≡ c.upload_slots
      same_slots = unfold hand_over in refl

  fill_slots-Fills :
      (fuel calls : ℕ) (c : Context) → length c.upload_queue ≤ fuel → Fills fuel calls c
  unfolding fill_slots
  fill_slots-Fills zero calls c h =
      (c, [], [], refl, nothing-Served c (inl (empty_of_length c.upload_queue h)), λ p. p)
  fill_slots-Fills (suc fuel) calls c h = elim (Bool-cases (has_free_upload_slot c)) [
    | inr full ↦ (c, [], [], rw (full, fill_slots), nothing-Served c (inr full), λ p. p)
    | inl free ↦
        round free (fill_slots-Fills fuel (calls + 1)) (least c.upload_queue) refl
          (waiting-least c.upload_queue)
  ]
    where
      round :
          has_free_upload_slot c ≡ true
          → ((b : Context) → length b.upload_queue ≤ fuel → Fills fuel (calls + 1) b)
          → (o : Option (ℕ × QueuedUpload)) → least c.upload_queue ≡ o
          → Splits c.upload_queue o
          → Fills (suc fuel) calls c
      round free ih none e empty = (
        c,
        [],
        [],
        rw (free, fill_slots, next_to_serve-least c.upload_queue, e),
        nothing-Served c (inl empty),
        λ p. p,
      )
      round free ih (some (k, m)) e (order, found) =
          let rest : List QueuedUpload = without k c.upload_queue in
          let token : ℕ = next_token calls in
          let now : ℕ = clock calls in
          let next : Context = hand_over token now m rest c in
          let shorter : length next.upload_queue ≤ fuel =
            unfold hand_over in
            omega
              (arith, length-without c.upload_queue k (get_elem?-lt c.upload_queue k m found)) in
          let (d, offers, served, runs, s, kept) = ih next shorter in
          (
            d,
            offer_of token m ∷ offers,
            m ∷ served,
            rw (
              free,
              fill_slots,
              next_to_serve-least c.upload_queue,
              e,
              take_out-eq k c.upload_queue m found,
              runs,
            ),
            hand_over-Served token now m rest c d offers served free order s,
            λ p. kept (keeps token now k m c found p),
          )

-- Recording who still waits changes neither the queue nor the slots.
noted :
    (c d : Context) (offers : List UploadOffer) (served : List QueuedUpload)
    → Served c d offers served
    → Served c (note_waiting d) offers served
unfolding note_waiting uploads_in_flight has_free_upload_slot
noted c d offers served s = record {
  in_order = s.in_order;
  offered = s.offered;
  slots_kept = s.slots_kept;
  within_slots = s.within_slots;
  stopped = s.stopped;
}

-- For every queue, token source and clock, the pump ends without a panic, and it hands out the
-- slots as `Served` says.
pub pump_uploads-Served :
    (next_token clock : ℕ → ℕ) (c : Context)
    → (d : Context) × (offers : List UploadOffer) × (served : List QueuedUpload) × (pump_uploads
          next_token clock c
        ≡ ok (d, offers))
      × Served c d offers served
unfolding pump_uploads
pump_uploads-Served next_token clock c =
    let (d, offers, served, runs, s, kept) =
      fill_slots-Fills next_token clock (λ c. Unit) (λ token now k m c found p. tt)
        (length c.upload_queue) 0 c (omega arith) in
    (note_waiting d, offers, served, rw runs, noted c d offers served s)

-- What every handover keeps holds of the state that the pump leaves, but for its events.
pub pump_uploads-keeps :
    (P : Context → Type 0) (next_token clock : ℕ → ℕ) (c d : Context) (offers : List UploadOffer)
    → Keeps P
    → P c
    → pump_uploads next_token clock c ≡ ok (d, offers)
    → (b : Context) × P b × (d ≡ note_waiting b)
unfolding pump_uploads
pump_uploads-keeps P next_token clock c d offers keeps p h =
    let (b, sent, served, runs, s, kept) =
      fill_slots-Fills next_token clock P keeps (length c.upload_queue) 0 c (omega arith) in
    let e : pump_uploads next_token clock c ≡ ok (note_waiting b, sent) = rw runs in (b, kept p, cc)

cap_events-length : (events : List UploadInfo) → length (cap_events events) ≤ max_upload_events
unfolding cap_events
cap_events-length events = ground (arith, length-drop (length events - max_upload_events) events)

-- However many peers wait and however rarely the events are taken, at most `max_upload_events` are
-- kept.
pub pump_uploads-events :
    (next_token clock : ℕ → ℕ) (c d : Context) (offers : List UploadOffer)
    → pump_uploads next_token clock c ≡ ok (d, offers)
    → length d.upload_events ≤ max_upload_events
unfolding pump_uploads
pump_uploads-events next_token clock c d offers h =
    let (b, p, e) =
      pump_uploads-keeps (λ c. Unit) next_token clock c d offers (λ token now k m c found p. tt) tt
        h in
    let capped : length (note_waiting b).upload_events ≤ max_upload_events =
      unfold note_waiting in
      cap_events-length (record_waiting (queued_uploads b) b.upload_events) in
    rw e capped
