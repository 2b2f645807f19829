-- ===== src/UploadQueue/Invariant.antt =====
-- What every operation of the upload queue keeps, over the states that any run of them reaches.
use soulseek_rs_lib.Base.{
  ℕ, suc, ◌≡◌, inl, inr, refl, List, [], ◌∷◌, take, drop, any, arith, Option-cases,
}
use soulseek_rs_lib.Base.Text.{Text, text_eq}
use soulseek_rs_lib.Base.Assoc.{
  Distinct, lookup, nat_eq, insert-Distinct, remove-Distinct, retain-Distinct,
}
use soulseek_rs_lib.Base.Outcome.{ok}
use soulseek_rs_lib.UploadQueue.Numbered.{
  IsNumbered, IsFlagged, IsNumbered-without, IsNumbered-retain, IsNumbered-append, All-take,
  All-drop, All-append, All-retain, IsFlagged-refresh, IsNumbered-refresh,
}
use soulseek_rs_lib.UploadQueue.Pump.{Keeps, pump_uploads-keeps}
use soulseek_rs_lib.UploadQueue.{
  Context, UploadOffer, is_privileged, enqueue_upload, hand_over, note_waiting, pump_uploads,
  take_upload_events, set_privileged_users, drop_offers, stale_tokens, expire_stale_offers,
  mark_offer_answered, release_upload_slots,
}

pub record IsWellFormed (c : Context) : Type 0 where
  pub flagged : IsFlagged (λ u. is_privileged u c) c.upload_queue
  pub numbered : IsNumbered 0 c.upload_seq c.upload_queue
  pub one_per_token : Distinct c.uploads

-- One operation of the queue, with every answer of its environment.
pub data Step (c : Context) : Context → Type 0 where
  enqueues :
      (downloader filename real_path : Text) (size : ℕ)
      → Step c (enqueue_upload downloader filename real_path size c)
  pumps :
      (next_token clock : ℕ → ℕ) (d : Context) (offers : List UploadOffer)
      → pump_uploads next_token clock c ≡ ok (d, offers)
      → Step c d
  takes_events : Step c (take_upload_events c).1
  learns_donors : (users : List Text) → Step c (set_privileged_users users c)
  expires : (now : ℕ) → Step c (expire_stale_offers now c).1
  hears_answer : (token : ℕ) → Step c (mark_offer_answered token c)
  releases : (downloader : Text) → Step c (release_upload_slots downloader c).1

-- The states that some run of operations reaches from a client that has served nobody.
pub data Reachable : Context → Type 0 where
  begins : (c : Context) → c.upload_queue ≡ [] → c.uploads ≡ [] → Reachable c
  follows : (c d : Context) → Reachable c → Step c d → Reachable d

enqueue_upload-IsWellFormed :
    (downloader filename real_path : Text) (size : ℕ) (c : Context)
    → IsWellFormed c
    → IsWellFormed (enqueue_upload downloader filename real_path size c)
unfolding enqueue_upload is_privileged
enqueue_upload-IsWellFormed downloader filename real_path size c w = record {
  flagged = All-append _ c.upload_queue _ w.flagged (refl, tt);
  numbered = IsNumbered-append 0 c.upload_seq c.upload_queue _ refl w.numbered;
  one_per_token = w.one_per_token;
}

hand_over-IsWellFormed : Keeps IsWellFormed
unfolding hand_over is_privileged
hand_over-IsWellFormed token now k m c found w = record {
  flagged =
      All-append _ (take k c.upload_queue) (drop (suc k) c.upload_queue)
        (All-take _ k c.upload_queue w.flagged) (All-drop _ (suc k) c.upload_queue w.flagged);
  numbered = IsNumbered-without k 0 c.upload_seq c.upload_queue w.numbered;
  one_per_token = insert-Distinct token _ c.uploads w.one_per_token;
}

-- Events count nowhere.
note_waiting-IsWellFormed : (c : Context) → IsWellFormed c → IsWellFormed (note_waiting c)
unfolding note_waiting is_privileged
note_waiting-IsWellFormed c w = record {
  flagged = w.flagged;
  numbered = w.numbered;
  one_per_token = w.one_per_token;
}

take_upload_events-IsWellFormed :
    (c : Context) → IsWellFormed c → IsWellFormed (take_upload_events c).1
unfolding take_upload_events is_privileged
take_upload_events-IsWellFormed c w = record {
  flagged = w.flagged;
  numbered = w.numbered;
  one_per_token = w.one_per_token;
}

set_privileged_users-IsWellFormed :
    (users : List Text) (c : Context) → IsWellFormed c → IsWellFormed (set_privileged_users users c)
unfolding set_privileged_users is_privileged
set_privileged_users-IsWellFormed users c w = record {
  flagged = IsFlagged-refresh (λ u. any (λ v. text_eq v u) users) c.upload_queue;
  numbered =
      IsNumbered-refresh (λ u. any (λ v. text_eq v u) users) 0 c.upload_seq c.upload_queue
        w.numbered;
  one_per_token = w.one_per_token;
}

drop_offers-IsWellFormed :
    (stale : List ℕ) (c : Context) → IsWellFormed c → IsWellFormed (drop_offers stale c)
unfolding drop_offers is_privileged
drop_offers-IsWellFormed [] c w = w
drop_offers-IsWellFormed (token ∷ rest) c w = elim (Option-cases (lookup token c.uploads)) [
  | inl e ↦ rw e (drop_offers-IsWellFormed rest c w)
  | inr (job, e) ↦ rw e (
      drop_offers-IsWellFormed rest _ (record {
        flagged = w.flagged;
        numbered = w.numbered;
        one_per_token = remove-Distinct token c.uploads w.one_per_token;
      }))
]

mark_offer_answered-IsWellFormed :
    (token : ℕ) (c : Context) → IsWellFormed c → IsWellFormed (mark_offer_answered token c)
unfolding mark_offer_answered is_privileged
mark_offer_answered-IsWellFormed token c w = elim (Option-cases (lookup token c.uploads)) [
  | inl e ↦ rw (e, mark_offer_answered) w
  | inr (job, e) ↦
      rw (e, mark_offer_answered)
        (record {
          flagged = w.flagged;
          numbered = w.numbered;
          one_per_token = insert-Distinct token _ c.uploads w.one_per_token;
        })
]

release_upload_slots-IsWellFormed :
    (downloader : Text) (c : Context)
    → IsWellFormed c
    → IsWellFormed (release_upload_slots downloader c).1
unfolding release_upload_slots is_privileged
release_upload_slots-IsWellFormed downloader c w = record {
  flagged = All-retain _ _ c.upload_queue w.flagged;
  numbered = IsNumbered-retain _ 0 c.upload_seq c.upload_queue w.numbered;
  one_per_token = retain-Distinct _ c.uploads w.one_per_token;
}

Step-IsWellFormed : (c d : Context) → IsWellFormed c → Step c d → IsWellFormed d
unfolding expire_stale_offers
Step-IsWellFormed c _ w (enqueues downloader filename real_path size) =
    enqueue_upload-IsWellFormed downloader filename real_path size c w
Step-IsWellFormed c _ w (pumps next_token clock d offers h) =
    let (b, p, e) =
      pump_uploads-keeps IsWellFormed next_token clock c d offers hand_over-IsWellFormed w h in
    rw e (note_waiting-IsWellFormed b p)
Step-IsWellFormed c d w takes_events = take_upload_events-IsWellFormed c w
Step-IsWellFormed c _ w (learns_donors users) = set_privileged_users-IsWellFormed users c w
Step-IsWellFormed c _ w (expires now) = drop_offers-IsWellFormed (stale_tokens now c.uploads) c w
Step-IsWellFormed c _ w (hears_answer token) = mark_offer_answered-IsWellFormed token c w
Step-IsWellFormed c _ w (releases downloader) = release_upload_slots-IsWellFormed downloader c w

-- In every state that a run of the operations reaches from an empty queue, each request carries its
-- downloader's current standing, the request numbers rise along the queue and the newest is the
-- counter at most, and no token names two uploads.
pub Reachable-IsWellFormed : (c : Context) → Reachable c → IsWellFormed c
Reachable-IsWellFormed _ (begins c none_wait none_runs) = record {
  flagged = rw none_wait tt;
  numbered = rw none_wait (omega arith);
  one_per_token = rw none_runs tt;
}
Reachable-IsWellFormed _ (follows c d r s) = Step-IsWellFormed c d (Reachable-IsWellFormed c r) s
