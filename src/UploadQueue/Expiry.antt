-- ===== src/UploadQueue/Expiry.antt =====
-- What leaves the slots when an offer is not answered.
use soulseek_rs_lib.Base.{
  ℕ, ◌+◌, ◌-◌, ◌≤◌, ◌<◌, ◌⊎◌, length, ltb, leb, true, ◌≡◌, refl, sym, ap, ◌∙◌, inl, inr, false, not,
  none, some, List, [], ◌∷◌, ◌++◌, map, retain, any, arith, Bool-cases, Option-cases, ◌==◌,
  append-nil, append_assoc,
}
use soulseek_rs_lib.Base.Text.{text}
use soulseek_rs_lib.Base.Assoc.{
  Map, Distinct, insert, remove, lookup, contains, nat_eq, remove_absent, lookup-retain,
  insert-Distinct, lookup-insert,
}
use soulseek_rs_lib.UploadQueue.{
  Context, UploadJob, UploadInfo, failed, is_stale, stale_tokens, drop_offers, expired_info,
  is_empty, expire_stale_offers, mark_offer_answered,
}

-- `drop_offers` works on the slots and the events alone.
abbrev with_slots : Map ℕ UploadJob → List UploadInfo → Context → Context
with_slots slots events c = record c { uploads = slots; upload_events = events }

abbrev put_back : ℕ × UploadJob → Context → Context
put_back e c = record c { uploads = e ∷ c.uploads }

stale_tokens-absent :
    (now token : ℕ) (m : Map ℕ UploadJob)
    → contains token m ≡ false
    → any (λ t. t == token) (stale_tokens now m) ≡ false
unfolding contains
stale_tokens-absent now token [] h = refl
stale_tokens-absent now token ((t, job) ∷ m) h = ground (arith, stale_tokens-absent now token m)

lookup-skip :
    (t token : ℕ) (job : UploadJob) (m : Map ℕ UploadJob)
    → (t == token) ≡ false
    → lookup t ((token, job) ∷ m) ≡ lookup t m
unfolding lookup
lookup-skip t token job m h = ground arith

remove-skip :
    (t token : ℕ) (job : UploadJob) (m : Map ℕ UploadJob)
    → (t == token) ≡ false
    → remove t ((token, job) ∷ m) ≡ (token, job) ∷ remove t m
unfolding remove
remove-skip t token job m h = ground arith

-- An upload whose token is not dropped stays where it is.
drop_offers-front :
    (stale : List ℕ) (token : ℕ) (job : UploadJob) (m : Map ℕ UploadJob) (events : List UploadInfo)
    (c : Context)
    → any (λ t. t == token) stale ≡ false
    → drop_offers stale (with_slots ((token, job) ∷ m) events c)
      ≡ put_back (token, job) (drop_offers stale (with_slots m events c))
unfolding drop_offers
drop_offers-front [] token job m events c h = refl
drop_offers-front (t ∷ rest) token job m events c h =
    let other : (t == token) ≡ false = ground arith in
    let later : any (λ s. s == token) rest ≡ false = ground arith in
    elim (Option-cases (lookup t m)) [
      | inl e ↦ rw (
        lookup-skip t token job m other,
        e,
        drop_offers-front rest token job m events c later,
        drop_offers,
      )
      | inr (found, e) ↦ rw (
        lookup-skip t token job m other,
        e,
        remove-skip t token job m other,
        drop_offers-front rest token job (remove t m) (events ++ (expired_info found ∷ [])) c later,
        drop_offers,
      )
    ]

lookup-here :
    (token : ℕ) (job : UploadJob) (m : Map ℕ UploadJob) → lookup token ((token, job) ∷ m) ≡ some job
unfolding lookup
lookup-here token job m = ground arith

remove-here :
    (token : ℕ) (job : UploadJob) (m : Map ℕ UploadJob)
    → contains token m ≡ false
    → remove token ((token, job) ∷ m) ≡ m
unfolding remove
remove-here token job m h = ground (arith, remove_absent token m h)

abbrev pub stale_infos : ℕ → Map ℕ UploadJob → List UploadInfo
stale_infos now m = map (λ (e : ℕ × UploadJob). expired_info e.1) (retain (λ e. is_stale now e.1) m)

drop_offers-stale :
    (now : ℕ) (m : Map ℕ UploadJob) (events : List UploadInfo) (c : Context)
    → Distinct m
    → drop_offers (stale_tokens now m) (with_slots m events c)
      ≡ with_slots (retain (λ e. not (is_stale now e.1)) m) (events ++ stale_infos now m) c
unfolding drop_offers
drop_offers-stale now [] events c d = ap (λ t. with_slots [] t c) (sym (append-nil events))
drop_offers-stale now ((token, job) ∷ m) events c (absent, d) =
    elim (Bool-cases (is_stale now job)) [
      | inl h ↦ rw (
        h,
        drop_offers,
        lookup-here token job m,
        remove-here token job m absent,
        drop_offers-stale now m (events ++ (expired_info job ∷ [])) c d,
        append_assoc,
      )
      | inr h ↦ rw (
        h,
        drop_offers-front (stale_tokens now m) token job m events c
            (stale_tokens-absent now token m absent),
        drop_offers-stale now m events c d,
      )
    ]

-- Where each token names one upload, the clean-up retains the uploads that are not stale.
expire_stale_offers-retain :
    (now : ℕ) (c : Context)
    → Distinct c.uploads
    → expire_stale_offers now c ≡ (
      any (λ (e : ℕ × UploadJob). is_stale now e.1) c.uploads,
      record c {
        uploads = retain (λ (e : ℕ × UploadJob). not (is_stale now e.1)) c.uploads;
        upload_events = c.upload_events ++ stale_infos now c.uploads;
      },
    )
unfolding expire_stale_offers
expire_stale_offers-retain now c d =
    ap (λ x. (x, drop_offers (stale_tokens now c.uploads) c)) (some_stale now c.uploads)
    ∙ ap (λ x. (any (λ (e : ℕ × UploadJob). is_stale now e.1) c.uploads, x))
        (drop_offers-stale now c.uploads c.upload_events c d)
  where
    some_stale :
        (now : ℕ) (m : Map ℕ UploadJob)
        → not (is_empty (stale_tokens now m)) ≡ any (λ e. is_stale now e.1) m
    some_stale now [] = refl
    some_stale now ((token, job) ∷ m) = ground (arith, some_stale now m)

-- What a clean-up at `now` makes of the slots: which uploads keep theirs, and what is reported of
-- the others.
pub data Expires (now : ℕ) : Map ℕ UploadJob → Map ℕ UploadJob → List UploadInfo → Type 0 where
  nothing : Expires now [] [] []
  answered :
      (token : ℕ) (job : UploadJob) {m kept : Map ℕ UploadJob} {infos : List UploadInfo}
      → job.offered ≡ none
      → Expires now m kept infos
      → Expires now ((token, job) ∷ m) ((token, job) ∷ kept) infos
  waiting :
      (token sent : ℕ) (job : UploadJob) {m kept : Map ℕ UploadJob} {infos : List UploadInfo}
      → job.offered ≡ some sent
      → now < sent + 30_000
      → Expires now m kept infos
      → Expires now ((token, job) ∷ m) ((token, job) ∷ kept) infos
  unanswered :
      (token sent : ℕ) (job : UploadJob) {m kept : Map ℕ UploadJob} {infos : List UploadInfo}
      → job.offered ≡ some sent
      → sent + 30_000 ≤ now
      → Expires now m kept infos
      → Expires now ((token, job) ∷ m) kept (
          record {
            username = job.downloader;
            filename = job.virtual_path;
            size = job.size;
            bytes_sent = 0;
            status = failed (text "no answer to the transfer offer");
          }
          ∷ infos)

stale-cases :
    (now : ℕ) (job : UploadJob)
    → (job.offered ≡ none) × (is_stale now job ≡ false)
      ⊎ ((sent : ℕ) × (job.offered ≡ some sent)
          × ((now < sent + 30_000) × (is_stale now job ≡ false)
              ⊎ ((sent + 30_000 ≤ now) × (is_stale now job ≡ true))))
unfolding is_stale
stale-cases now job = elim (Option-cases job.offered) [
  | inl e ↦ inl (e, rw e refl)
  | inr (sent, e) ↦ elim (Bool-cases (leb 30_000 (now - sent))) [
    | inl h ↦ inr (sent, e, inr (ground arith, rw (e, h) refl))
    | inr h ↦ inr (sent, e, inl (ground arith, rw (e, h) refl))
  ]
]

retain-Expires :
    (now : ℕ) (m : Map ℕ UploadJob)
    → Expires now m (retain (λ e. not (is_stale now e.1)) m) (stale_infos now m)
retain-Expires now [] = Expires.nothing
retain-Expires now ((token, job) ∷ m) = elim (stale-cases now job) [
  | inl (e, h) ↦ rw h (Expires.answered token job e (retain-Expires now m))
  | inr (sent, e, inl (k, h)) ↦ rw h (Expires.waiting token sent job e k (retain-Expires now m))
  | inr (sent, e, inr (k, h)) ↦ rw h (Expires.unanswered token sent job e k (retain-Expires now m))
]

some_stale :
    (now : ℕ) (m : Map ℕ UploadJob)
    → any (λ (e : ℕ × UploadJob). is_stale now e.1) m ≡ ltb 0 (length (stale_infos now m))
some_stale now [] = refl
some_stale now ((token, job) ∷ m) = ground (arith, some_stale now m)

-- Where each token names one upload, `expire_stale_offers` takes exactly the uploads out of their
-- slots whose offer was sent thirty seconds ago or more and has no answer, reports each as failed
-- with no byte sent, in their order, behind the events that were there, keeps every other upload in
-- its place, changes nothing else, and answers whether there was one.
pub expire_stale_offers-Expires :
    (now : ℕ) (c : Context)
    → Distinct c.uploads
    → (kept : Map ℕ UploadJob) × (infos : List UploadInfo) × Expires now c.uploads kept infos
      × (expire_stale_offers now c ≡ (
        ltb 0 (length infos),
        record c { uploads = kept; upload_events = c.upload_events ++ infos },
      ))
expire_stale_offers-Expires now c d = (
  retain (λ (e : ℕ × UploadJob). not (is_stale now e.1)) c.uploads,
  stale_infos now c.uploads,
  retain-Expires now c.uploads,
  rw (← some_stale now c.uploads) (expire_stale_offers-retain now c d),
)

mark_offer_answered-some :
    (token : ℕ) (job : UploadJob) (c : Context)
    → lookup token c.uploads ≡ some job
    → mark_offer_answered token c
      ≡ with_slots (insert token (record job { offered = none }) c.uploads) c.upload_events c
unfolding mark_offer_answered
mark_offer_answered-some token job c h = rw (mark_offer_answered, h)

-- Once the peer has answered the offer under `token`, that upload keeps its slot through every later
-- clean-up, where each token names one upload.
pub answered_stays :
    (now token : ℕ) (job : UploadJob) (c : Context)
    → Distinct c.uploads
    → lookup token c.uploads ≡ some job
    → lookup token (expire_stale_offers now (mark_offer_answered token c)).1.uploads
      ≡ some (record job { offered = none })
answered_stays now token job c d h =
    let answered : UploadJob = record job { offered = none } in
    let m : Map ℕ UploadJob = insert token answered c.uploads in
    rw
      (
        mark_offer_answered-some token job c h,
        expire_stale_offers-retain now (with_slots m c.upload_events c)
            (insert-Distinct token answered c.uploads d),
      )
      (lookup-retain (λ (e : ℕ × UploadJob). not (is_stale now e.1)) token answered m
        (λ t. unfold is_stale in refl)
        (ground (arith, lookup-insert token token answered c.uploads)))
