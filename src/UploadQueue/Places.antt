-- ===== src/UploadQueue/Places.antt =====
-- The places that waiting peers are told against the order in which the pump serves them.
use soulseek_rs_lib.Base.{
  ℕ, suc, ◌+◌, ◌≡◌, refl, ap, ◌∙◌, inl, inr, Bool, false, Option, none, some, List, [], ◌∷◌, ◌++◌,
  map, find, any, length, sym, ◌&&◌, arith, Bool-cases,
}
use soulseek_rs_lib.Base.Text.{Text, text_eq}
use soulseek_rs_lib.UploadQueue.Order.{
  QueuedUpload, enumerate, ranked, is_request, position, as_place, place_in_queue,
}
use soulseek_rs_lib.UploadQueue.Sorted.{waiting, ranked-waiting}
use soulseek_rs_lib.UploadQueue.Pump.{offer_parties, job_parties, pump_uploads-Served}
use soulseek_rs_lib.Base.Outcome.{ok}
use soulseek_rs_lib.UploadQueue.{
  Context, UploadInfo, UploadOffer, queued, in_progress, completed, cancelled, failed, waiting_info,
  queued_uploads, pump_uploads,
}

-- How many of `queue` are served before the first request for that file by that peer.
abbrev pub served_before : Text → Text → List QueuedUpload → Option ℕ
served_before downloader filename queue = position (is_request downloader filename) (waiting queue)

abbrev placed : Option ℕ → Option ℕ
placed none = none
placed (some i) = some (as_place i)

position-map {ℓ κ} :
    {A : Type ℓ} {B : Type κ} (f : A → B) (test : B → Bool) (xs : List A)
    → position (λ x. test (f x)) xs ≡ position test (map f xs)
position-map f test [] = refl
position-map f test (x ∷ xs) = rw (position-map f test xs)

place_in_queue-eq :
    (queue : List QueuedUpload) (downloader filename : Text)
    → place_in_queue queue downloader filename ≡ placed (served_before downloader filename queue)
unfolding place_in_queue
place_in_queue-eq queue downloader filename = ap placed (
    position-map (λ (e : ℕ × QueuedUpload). e.1) (is_request downloader filename) (ranked queue)
    ∙ ap (position (is_request downloader filename)) (ranked-waiting queue))

-- The row of a request in the list that the user sees, and the place it shows.
abbrev pub is_row : Text → Text → UploadInfo → Bool
is_row downloader filename row = text_eq row.username downloader && text_eq row.filename filename

abbrev pub shown_place : Option UploadInfo → Option ℕ
shown_place none = none
shown_place (some row) = elim row.status [
  | queued n ↦ some n
  | in_progress ↦ none
  | completed ↦ none
  | cancelled ↦ none
  | failed why ↦ none
]

abbrev placed_from : ℕ → Option ℕ → Option ℕ
placed_from i none = none
placed_from i (some j) = some (as_place (i + j))

rows-position :
    (downloader filename : Text) (i : ℕ) (xs : List (ℕ × QueuedUpload))
    → shown_place (find (is_row downloader filename) (map waiting_info (enumerate i xs)))
      ≡ placed_from i (position (λ (e : ℕ × QueuedUpload). is_request downloader filename e.1) xs)
unfolding waiting_info
rows-position downloader filename i [] = refl
rows-position downloader filename i ((k, job) ∷ xs) =
    elim (Bool-cases (is_request downloader filename job)) [
      | inl h ↦ rw h (ap (λ n. some (as_place n)) (omega arith))
      | inr h ↦
          rw (h, rows-position downloader filename (suc i) xs)
            (shifted i (position (λ (e : ℕ × QueuedUpload). is_request downloader filename e.1) xs))
    ]
  where
    shifted :
        (i : ℕ) (o : Option ℕ)
        → placed_from (suc i) o ≡ placed_from i (elim o [ none ↦ none | some j ↦ some (suc j) ])
    shifted i none = refl
    shifted i (some j) = ap (λ n. some (as_place n)) (omega arith)

-- The place that a waiting peer is told for a file is the one that the user's list of waiting
-- uploads shows in the first row for that peer and file, and none where there is no such row.
pub place_in_queue-rows :
    (downloader filename : Text) (c : Context)
    → place_in_queue c.upload_queue downloader filename
      ≡ shown_place (find (is_row downloader filename) (queued_uploads c))
unfolding place_in_queue queued_uploads
place_in_queue-rows downloader filename c =
    from_zero (
      position (λ (e : ℕ × QueuedUpload). is_request downloader filename e.1)
        (ranked c.upload_queue))
    ∙ sym (rows-position downloader filename 0 (ranked c.upload_queue))
  where
    from_zero : (o : Option ℕ) → placed o ≡ placed_from 0 o
    from_zero none = refl
    from_zero (some i) = ap (λ n. some (as_place n)) (omega arith)

-- Whether an offer goes to that peer for that file.
abbrev pub is_offer_for : Text → Text → UploadOffer → Bool
is_offer_for downloader filename o =
    text_eq o.requester_key downloader && text_eq o.virtual_path filename

abbrev is_party : Text → Text → Text × Text × ℕ → Bool
is_party downloader filename (asker, path, size) = text_eq asker downloader && text_eq path filename

any-map {ℓ κ} :
    {A : Type ℓ} {B : Type κ} (f : A → B) (test : B → Bool) (xs : List A)
    → any test (map f xs) ≡ any (λ x. test (f x)) xs
any-map f test [] = refl
any-map f test (x ∷ xs) = rw (any-map f test xs)

any-offers :
    (downloader filename : Text) (offers : List UploadOffer) (served : List QueuedUpload)
    → map offer_parties offers ≡ map job_parties served
    → any (is_offer_for downloader filename) offers ≡ any (is_request downloader filename) served
any-offers downloader filename offers served h =
    sym (any-map offer_parties (is_party downloader filename) offers)
    ∙ ap (any (is_party downloader filename)) h
    ∙ any-map job_parties (is_party downloader filename) served

abbrev pub behind : ℕ → Option ℕ → Option ℕ
behind n none = none
behind n (some i) = some (n + i)

position-behind :
    (test : QueuedUpload → Bool) (served rest : List QueuedUpload)
    → any test served ≡ false
    → position test (served ++ rest) ≡ behind (length served) (position test rest)
position-behind test [] rest h = at_once (position test rest)
  where
    at_once : (o : Option ℕ) → o ≡ behind 0 o
    at_once none = refl
    at_once (some i) = ap some (omega arith)
position-behind test (a ∷ served) rest h = elim (Bool-cases (test a)) [
  | inl g ↦ absurd (ground arith)
  | inr g ↦
      rw (g, position-behind test served rest (ground arith))
        (one_more (length served) (position test rest))
]
  where
    one_more :
        (n : ℕ) (o : Option ℕ)
        → (elim (behind n o) [ none ↦ none | some i ↦ some (suc i) ]) ≡ behind (suc n) o
    one_more n none = refl
    one_more n (some i) = ap some (omega arith)

length-map {ℓ κ} :
    {A : Type ℓ} {B : Type κ} (f : A → B) (xs : List A) → length (map f xs) ≡ length xs
length-map f [] = refl
length-map f (x ∷ xs) = omega (arith, length-map f xs)

-- A request that the pump does not serve moves up by exactly the offers that go out: as many are
-- served before it as the pump offers a slot, and then those still served before it afterwards.
pub pump_uploads-moves_up :
    (downloader filename : Text) (next_token clock : ℕ → ℕ) (c d : Context)
    (offers : List UploadOffer)
    → pump_uploads next_token clock c ≡ ok (d, offers)
    → any (is_offer_for downloader filename) offers ≡ false
    → served_before downloader filename c.upload_queue
      ≡ behind (length offers) (served_before downloader filename d.upload_queue)
pump_uploads-moves_up downloader filename next_token clock c d offers runs h =
    let (d', offers', served, runs', s) = pump_uploads-Served next_token clock c in
    let same_state : d ≡ d' = cc in
    let same_offers : offers ≡ offers' = cc in
    let before : served_before downloader filename c.upload_queue
        ≡ behind (length served) (served_before downloader filename d'.upload_queue) =
      ap (position (is_request downloader filename)) s.in_order
      ∙ position-behind (is_request downloader filename) served (waiting d'.upload_queue) (
          sym (any-offers downloader filename offers' served s.offered)
          ∙ ap (any (is_offer_for downloader filename)) (sym same_offers)
          ∙ h) in
    let count : length offers' ≡ length served =
      sym (length-map offer_parties offers')
      ∙ ap length s.offered
      ∙ length-map job_parties served in
    rw (same_state, same_offers, count) before
