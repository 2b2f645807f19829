-- ===== src/Downloads/Claims.antt =====
-- Claiming a download, and pausing and resuming one.
use soulseek_rs_lib.Base.{
  ℕ, false, not, ◌||◌, ◌≡◌, refl, sym, ap, ◌∙◌, inl, inr, Option, none, some, find, arith,
  Bool-cases, Option-cases,
}
use soulseek_rs_lib.Base.Text.{Text, text_eq}
use soulseek_rs_lib.Downloads.{
  DownloadStatus, in_progress, paused, queued, completed, cancelled, failed, timed_out, pause_at,
  resume_at, Download, DownloadStore, is_queued, is_file, has_token, claim, claim_for_peer, pause,
  pause_by_file, resume, resume_by_file,
}
use soulseek_rs_lib.Downloads.Status.{change-answer, find-change}

claim-has_token :
    (token : ℕ) (username : Text) (d : Download)
    → has_token token (claim username d).entry ≡ has_token token d
claim-has_token token username d =
    elim (Bool-cases (not (text_eq d.username username) || not (is_queued d.status))) [
      | inl e ↦ rw e
      | inr e ↦ rw e
    ]

claim_twice :
    (username other : Text) (d c : Download)
    → (claim username d).answer ≡ some c
    → (claim other (claim username d).entry).answer ≡ none
claim_twice username other d c h =
    elim (Bool-cases (not (text_eq d.username username) || not (is_queued d.status))) [
      | inl e ↦ (let none_got : (claim username d).answer ≡ none = rw e in cc)
      | inr e ↦ rw e (ground arith)
    ]

-- In the store that a successful claim leaves, claiming the same download again gives nothing,
-- whoever asks.
pub claim_for_peer_once :
    (token : ℕ) (username other : Text) (d : Download) (s after : DownloadStore)
    → claim_for_peer token username s ≡ (some d, after)
    → (claim_for_peer token other after).0 ≡ none
unfolding claim_for_peer
claim_for_peer_once token username other d s after h =
    let first = change-answer (has_token token) none (claim username) s in
    let kept =
      find-change (has_token token) none (claim username) (claim-has_token token username) s in
    let then_after : after ≡ (claim_for_peer token username s).1 =
      ap (λ (r : Option Download × DownloadStore). r.1) (sym h) in
    let got : (claim_for_peer token username s).0 ≡ some d =
      ap (λ (r : Option Download × DownloadStore). r.0) h in
    elim (Option-cases (find (has_token token) s.downloads)) [
      | inl e ↦ (let lost : (claim_for_peer token username s).0 ≡ none = first ∙ rw e in cc)
      | inr (found, e) ↦
          let claimed : (claim username found).answer ≡ some d = sym (first ∙ rw e) ∙ got in
          rw
            (
              then_after,
              change-answer (has_token token) none (claim other)
                  (claim_for_peer token username s).1,
              kept,
              e,
            )
            (claim_twice username other found d claimed)
    ]

pause_at-file :
    (username filename : Text) (status : DownloadStatus) (d : Download)
    → is_file username filename (pause_at status d).entry ≡ is_file username filename d
pause_at-file username filename queued d = refl
pause_at-file username filename (in_progress _ _ _) d = refl
pause_at-file username filename (paused _ _) d = refl
pause_at-file username filename completed d = refl
pause_at-file username filename cancelled d = refl
pause_at-file username filename (failed _) d = refl
pause_at-file username filename timed_out d = refl

resume_at-file :
    (username filename : Text) (status : DownloadStatus) (d : Download)
    → is_file username filename (resume_at status d).entry ≡ is_file username filename d
resume_at-file username filename queued d = refl
resume_at-file username filename (in_progress _ _ _) d = refl
resume_at-file username filename (paused _ _) d = refl
resume_at-file username filename completed d = refl
resume_at-file username filename cancelled d = refl
resume_at-file username filename (failed _) d = refl
resume_at-file username filename timed_out d = refl

-- A running download that is paused and then resumed is where it was, with its speed unknown.
pub resume-pause :
    (username filename : Text) (d : Download) (done total speed : ℕ) (s : DownloadStore)
    → find (is_file username filename) s.downloads ≡ some d
    → d.status ≡ in_progress done total speed
    → find
        (is_file username filename)
        (resume_by_file username filename (pause_by_file username filename s).1).1.downloads
      ≡ some (record d { status = in_progress done total 0 })
unfolding pause_by_file resume_by_file
resume-pause username filename d done total speed s h k = rw (
  find-change (is_file username filename) false resume
      (λ d'. resume_at-file username filename d'.status d') (pause_by_file username filename s).1,
  find-change (is_file username filename) false pause
      (λ d'. pause_at-file username filename d'.status d') s,
  h,
  k,
)
