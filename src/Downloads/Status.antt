-- ===== src/Downloads/Status.antt =====
-- What the operations that borrow one download do to its status, and what they leave alone.
use soulseek_rs_lib.Base.{
  ℕ, Bool, true, false, not, ◌||◌, ◌≡◌, refl, sym, ap, ◌∙◌, ◌⊎◌, inl, inr, Option, none, some, List,
  [], ◌∷◌, find, arith, Bool-cases,
}
use soulseek_rs_lib.Base.Text.{Text, text_eq}
use soulseek_rs_lib.Downloads.{
  DownloadStatus, in_progress, paused, queued, completed, cancelled, failed, timed_out, Download,
  DownloadStore, Change, is_terminal, is_queued, pause_at, resume_at, is_file, has_token, resumes,
  change_first, settle, change, status_change, update_status, claim, claim_for_peer, cancel,
  cancel_by_file, update_queue_position, pause_by_file, resume_by_file,
}

-- One operation on a download that stays in the store.
pub data Edit : Type 0 where
  updates : (token : ℕ) (status : DownloadStatus) → Edit
  claims : (token : ℕ) (username : Text) → Edit
  cancels pauses resumes_file : (username filename : Text) → Edit
  places : (username filename : Text) (place : ℕ) → Edit

abbrev pub edit : Edit → DownloadStore → DownloadStore
edit (updates token status) s = (update_status token status s).1
edit (claims token username) s = (claim_for_peer token username s).1
edit (cancels username filename) s = (cancel_by_file username filename s).1
edit (pauses username filename) s = (pause_by_file username filename s).1
edit (resumes_file username filename) s = (resume_by_file username filename s).1
edit (places username filename place) s = (update_queue_position username filename place s).1

abbrev pub edit_all : List Edit → DownloadStore → DownloadStore
edit_all [] s = s
edit_all (e ∷ rest) s = edit_all rest (edit e s)

-- `after` is `before` with another status or place, and the same status if that was terminal.
pub record Follows (before after : Download) : Type 0 where
  pub same_peer : after.username ≡ before.username
  pub same_file : after.filename ≡ before.filename
  pub same_token : after.token ≡ before.token
  pub same_size : after.size ≡ before.size
  pub same_channel : after.sender ≡ before.sender
  pub final : (is_terminal before.status ≡ false) ⊎ (after.status ≡ before.status)

-- Entry by entry.
abbrev pub Aligned : List Download → List Download → Type 0
Aligned [] [] = Unit
Aligned [] (_ ∷ _) = ⊥
Aligned (_ ∷ _) [] = ⊥
Aligned (a ∷ as') (b ∷ bs) = Follows a b × Aligned as' bs

same-Follows : (a b : Download) → a ≡ b → Follows a b
same-Follows a b h = record {
  same_peer = cc;
  same_file = cc;
  same_token = cc;
  same_size = cc;
  same_channel = cc;
  final = inr cc;
}

status-Follows :
    (a : Download) (status : DownloadStatus)
    → is_terminal a.status ≡ false
    → Follows a (record a { status = status })
status-Follows a status h = record {
  same_peer = refl;
  same_file = refl;
  same_token = refl;
  same_size = refl;
  same_channel = refl;
  final = inl h;
}

trans-Follows : (a b c : Download) → Follows a b → Follows b c → Follows a c
trans-Follows a b c h k = record {
  same_peer = k.same_peer ∙ h.same_peer;
  same_file = k.same_file ∙ h.same_file;
  same_token = k.same_token ∙ h.same_token;
  same_size = k.same_size ∙ h.same_size;
  same_channel = k.same_channel ∙ h.same_channel;
  final = elim h.final [
    | inl free ↦ inl free
    | inr same ↦ elim k.final [
      | inl free ↦ inl (ap is_terminal (sym same) ∙ free)
      | inr then_same ↦ inr (then_same ∙ same)
    ]
  ];
}

refl-Aligned : (xs : List Download) → Aligned xs xs
refl-Aligned [] = tt
refl-Aligned (x ∷ xs) = (same-Follows x x refl, refl-Aligned xs)

trans-Aligned : (xs ys zs : List Download) → Aligned xs ys → Aligned ys zs → Aligned xs zs
trans-Aligned [] [] zs h k = k
trans-Aligned (x ∷ xs) (y ∷ ys) (z ∷ zs) h k =
    (trans-Follows x y z h.0 k.0, trans-Aligned xs ys zs h.1 k.1)
trans-Aligned [] (_ ∷ _) zs h k = absurd h
trans-Aligned (_ ∷ _) [] zs h k = absurd h
trans-Aligned (_ ∷ _) (_ ∷ _) [] h k = absurd k

settle-downloads :
    {R : Type 0} (missing : R) (s : DownloadStore) (o : Option (Change R)) (xs : List Download)
    → (settle missing s (o, xs)).1.downloads ≡ xs
settle-downloads missing s none xs = refl
settle-downloads missing s (some c) xs = refl

settle-answer :
    {R : Type 0} (missing : R) (s : DownloadStore) (o : Option (Change R)) (xs : List Download)
    → (settle missing s (o, xs)).0 ≡ (elim o [ none ↦ missing | some c ↦ c.answer ])
settle-answer missing s none xs = refl
settle-answer missing s (some c) xs = refl

module _ {R : Type 0} (test : Download → Bool) (missing : R) (f : Download → Change R) where
  change_first-Aligned :
      ((d : Download) → Follows d (f d).entry)
      → (xs : List Download) → Aligned xs (change_first test missing f xs).1
  unfolding change_first
  change_first-Aligned h [] = tt
  change_first-Aligned h (d ∷ rest) = elim (Bool-cases (test d)) [
    | inl e ↦ rw e (h d, refl-Aligned rest)
    | inr e ↦ rw e (same-Follows d d refl, change_first-Aligned h rest)
  ]

  change-downloads :
      (s : DownloadStore)
      → (change test missing f s).1.downloads ≡ (change_first test missing f s.downloads).1
  unfolding change
  change-downloads s =
      settle-downloads missing s (change_first test missing f s.downloads).0
        (change_first test missing f s.downloads).1

  change-Aligned :
      ((d : Download) → Follows d (f d).entry)
      → (s : DownloadStore) → Aligned s.downloads (change test missing f s).1.downloads
  change-Aligned h s = rw (change-downloads s) (change_first-Aligned h s.downloads)

  change_first-answer :
      (xs : List Download)
      → (elim (change_first test missing f xs).0 [ none ↦ missing | some c ↦ c.answer ])
        ≡ (elim (find test xs) [ none ↦ missing | some d ↦ (f d).answer ])
  unfolding change_first
  change_first-answer [] = refl
  change_first-answer (d ∷ rest) = elim (Bool-cases (test d)) [
    | inl e ↦ rw e
    | inr e ↦ rw (e, change_first-answer rest)
  ]

  -- The answer of a borrow is that of the first entry that the test finds.
  pub change-answer :
      (s : DownloadStore)
      → (change test missing f s).0
        ≡ (elim (find test s.downloads) [ none ↦ missing | some d ↦ (f d).answer ])
  unfolding change
  change-answer s =
      settle-answer missing s (change_first test missing f s.downloads).0
        (change_first test missing f s.downloads).1
      ∙ change_first-answer s.downloads

  find-change_first :
      ((d : Download) → test (f d).entry ≡ test d)
      → (xs : List Download)
      → find test (change_first test missing f xs).1
        ≡ (elim (find test xs) [ none ↦ none | some d ↦ some (f d).entry ])
  unfolding change_first
  find-change_first h [] = refl
  find-change_first h (d ∷ rest) = elim (Bool-cases (test d)) [
    | inl e ↦ rw (e, h d, e)
    | inr e ↦ rw (e, e, find-change_first h rest)
  ]

  -- It is also the first entry afterwards, where the change does not affect the test.
  pub find-change :
      ((d : Download) → test (f d).entry ≡ test d)
      → (s : DownloadStore)
      → find test (change test missing f s).1.downloads
        ≡ (elim (find test s.downloads) [ none ↦ none | some d ↦ some (f d).entry ])
  find-change h s = ap (find test) (change-downloads s) ∙ find-change_first h s.downloads

status_change-Follows :
    (status : DownloadStatus) (d : Download) → Follows d (status_change status d).entry
status_change-Follows status d = elim (Bool-cases (is_terminal d.status)) [
  | inl e ↦ rw e (same-Follows d d refl)
  | inr e ↦ elim (Bool-cases (resumes d.status status)) [
    | inl g ↦ rw (e, g) (same-Follows d d refl)
    | inr g ↦ rw (e, g) (status-Follows d status e)
  ]
]

queued-open : (status : DownloadStatus) → is_queued status ≡ true → is_terminal status ≡ false
queued-open queued h = refl
queued-open (in_progress _ _ _) h = refl
queued-open (paused _ _) h = refl
queued-open completed h = cc
queued-open cancelled h = cc
queued-open (failed _) h = cc
queued-open timed_out h = cc

claim-Follows : (username : Text) (d : Download) → Follows d (claim username d).entry
claim-Follows username d =
    elim (Bool-cases (not (text_eq d.username username) || not (is_queued d.status))) [
      | inl e ↦ rw e (same-Follows d d refl)
      | inr e ↦
          rw e (status-Follows d (in_progress 0 d.size 0) (queued-open d.status (ground arith)))
    ]

cancel-Follows : (d : Download) → Follows d (cancel d).entry
cancel-Follows d = elim (Bool-cases (is_terminal d.status)) [
  | inl e ↦ rw e (same-Follows d d refl)
  | inr e ↦ rw e (status-Follows d cancelled e)
]

pause_at-Follows :
    (status : DownloadStatus) (d : Download)
    → d.status ≡ status
    → Follows d (pause_at status d).entry
pause_at-Follows queued d h = same-Follows d d refl
pause_at-Follows (in_progress done total speed) d h =
    status-Follows d (paused done total) (ap is_terminal h)
pause_at-Follows (paused done total) d h = same-Follows d d refl
pause_at-Follows completed d h = same-Follows d d refl
pause_at-Follows cancelled d h = same-Follows d d refl
pause_at-Follows (failed why) d h = same-Follows d d refl
pause_at-Follows timed_out d h = same-Follows d d refl

resume_at-Follows :
    (status : DownloadStatus) (d : Download)
    → d.status ≡ status
    → Follows d (resume_at status d).entry
resume_at-Follows queued d h = same-Follows d d refl
resume_at-Follows (in_progress done total speed) d h = same-Follows d d refl
resume_at-Follows (paused done total) d h =
    status-Follows d (in_progress done total 0) (ap is_terminal h)
resume_at-Follows completed d h = same-Follows d d refl
resume_at-Follows cancelled d h = same-Follows d d refl
resume_at-Follows (failed why) d h = same-Follows d d refl
resume_at-Follows timed_out d h = same-Follows d d refl

edit-Aligned : (e : Edit) (s : DownloadStore) → Aligned s.downloads (edit e s).downloads
unfolding update_status claim_for_peer cancel_by_file update_queue_position pause_by_file
    resume_by_file
edit-Aligned (updates token status) s =
    change-Aligned (has_token token) false _ (status_change-Follows status) s
edit-Aligned (claims token username) s =
    change-Aligned (has_token token) none _ (claim-Follows username) s
edit-Aligned (cancels username filename) s =
    change-Aligned (is_file username filename) none _ cancel-Follows s
edit-Aligned (pauses username filename) s =
    change-Aligned (is_file username filename) false _ (λ d. pause_at-Follows d.status d refl) s
edit-Aligned (resumes_file username filename) s =
    change-Aligned (is_file username filename) false _ (λ d. resume_at-Follows d.status d refl) s
edit-Aligned (places username filename place) s =
    change-Aligned (is_file username filename) false _
      (λ d. record {
        same_peer = refl;
        same_file = refl;
        same_token = refl;
        same_size = refl;
        same_channel = refl;
        final = inr refl;
      })
      s

-- Whatever status updates, claims, cancellations, pauses, resumptions and queue positions follow one
-- another: the store keeps its downloads in their order, each keeps its peer, file, token, size and
-- channel, and one whose status is terminal keeps that status.
pub edit_all-Aligned :
    (edits : List Edit) (s : DownloadStore) → Aligned s.downloads (edit_all edits s).downloads
edit_all-Aligned [] s = refl-Aligned s.downloads
edit_all-Aligned (e ∷ rest) s =
    trans-Aligned s.downloads (edit e s).downloads (edit_all rest (edit e s)).downloads
      (edit-Aligned e s) (edit_all-Aligned rest (edit e s))
