-- ===== src/Downloads/Tests.antt =====
-- A store with one queued and one running download.
use soulseek_rs_lib.Base.{◌≡◌, refl, false, none, some, List, [], ◌∷◌, find, any}
use soulseek_rs_lib.Base.Text.{text, text_eq}
use soulseek_rs_lib.Downloads.{
  Download, DownloadStore, queued, in_progress, cancelled, is_file, add, claim_for_peer, change,
  change_first, pause_by_file, resume_by_file, remove_by_file, remove_queued_by_file,
}
use soulseek_rs_lib.Downloads.Status.{Edit, Aligned, edit_all, edit_all-Aligned}
use soulseek_rs_lib.Downloads.Claims.{claim_for_peer_once, resume-pause}
use soulseek_rs_lib.Downloads.Removal.{
  remove_by_file-any, IsWaiting, Removes, remove_queued_by_file-Removes, find-add,
}

abbrev song : Download
song = record {
  username = text "bob";
  filename = text "song";
  token = 1;
  size = 100;
  status = queued;
  sender = 1;
  queue_position = none;
}

abbrev album : Download
album = record song { filename = text "album"; token = 2; sender = 2; status = in_progress 5 100 3 }

abbrev store : DownloadStore
store = record { downloads = song ∷ album ∷ []; sent = [] }

abbrev claimed : DownloadStore
claimed = record store { downloads = record song { status = in_progress 0 100 0 } ∷ album ∷ [] }

abbrev edits : List Edit
edits =
    Edit.claims 1 (text "bob")
    ∷ Edit.cancels (text "bob") (text "song")
    ∷ Edit.updates 1 queued
    ∷ []

edit_all-Aligned_example : Aligned store.downloads (edit_all edits store).downloads
edit_all-Aligned_example = edit_all-Aligned edits store

song-claimed :
    claim_for_peer 1 (text "bob") store
    ≡ (some (record song { status = in_progress 0 100 0 }), claimed)
unfolding claim_for_peer change change_first text_eq
song-claimed = refl

claim_for_peer_once_example : (claim_for_peer 1 (text "eve") claimed).0 ≡ none
claim_for_peer_once_example =
    claim_for_peer_once 1 (text "bob") (text "eve") (record song { status = in_progress 0 100 0 })
      store claimed song-claimed

resume-pause_example :
    find
      (is_file (text "bob") (text "album"))
      (resume_by_file
        (text "bob")
        (text "album")
        (pause_by_file (text "bob") (text "album") store).1).1.downloads
    ≡ some (record album { status = in_progress 5 100 0 })
unfolding text_eq
resume-pause_example = resume-pause (text "bob") (text "album") album 5 100 3 store refl refl

remove_by_file-any_example :
    let (removed, after) = remove_by_file (text "bob") (text "song") store in
    (any (is_file (text "bob") (text "song")) after.downloads ≡ false)
    × (removed ≡ any (is_file (text "bob") (text "song")) store.downloads)
remove_by_file-any_example = remove_by_file-any (text "bob") (text "song") store

remove_queued_by_file-Removes_example :
    let (found, after) = remove_queued_by_file (text "bob") (text "song") store in
    Removes (IsWaiting (text "bob") (text "song")) store.downloads found after.downloads
    × (after.sent ≡ store.sent)
remove_queued_by_file-Removes_example =
    remove_queued_by_file-Removes (text "bob") (text "song") store

abbrev over : DownloadStore
over = record { downloads = record song { status = cancelled } ∷ album ∷ []; sent = [] }

find-add_example : find (is_file (text "bob") (text "song")) (add song over).downloads ≡ some song
unfolding text_eq
find-add_example = find-add song over refl
