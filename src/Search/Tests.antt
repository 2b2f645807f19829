-- ===== src/Search/Tests.antt =====
-- A reply with one file.
use soulseek_rs_lib.Base.{◌≡◌, refl, some, List, [], ◌∷◌, arith}
use soulseek_rs_lib.Base.Text.{text}
use soulseek_rs_lib.Base.Outcome.{ok, and_then}
use soulseek_rs_lib.Bytes.{le_bytes}
use soulseek_rs_lib.Message.{write_int32, write_string, write_int64, write_int8}
use soulseek_rs_lib.Message.Utf8.{valid_utf8}
use soulseek_rs_lib.Listing.{write_attributes}
use soulseek_rs_lib.Replies.Payload.{received}
use soulseek_rs_lib.Search.{
  FileEntry, SearchResult, write_entries, build_file_search_response, new_from_message,
}
use soulseek_rs_lib.Search.Bounds.{Shortlist, accept_all, accept_all-Shortlist}
use soulseek_rs_lib.Search.Files.{last_value, DescribesAll}
use soulseek_rs_lib.Search.Wire.{ReplyFits, result, new_from_message-build}

abbrev songs : List FileEntry
songs = record { name = text "b.flac"; size = 456; attribs = (1, 320) ∷ (1, 187) ∷ [] } ∷ []

songs-ReplyFits : ReplyFits (text "dodigan") 7 songs 1 100
unfolding valid_utf8
songs-ReplyFits = record {
  name_fits = record { short = omega arith; utf8 = refl };
  token_fits = omega arith;
  count_fits = omega arith;
  files_fit = (
    record {
      name_fits = record { short = omega arith; utf8 = refl };
      size_fits = omega arith;
      count_fits = omega arith;
      attributes_fit = omega arith;
    },
    tt,
  );
  slots_fit = omega arith;
  speed_fits = omega arith;
}

abbrev reply : SearchResult
reply = result (text "dodigan") 7 songs 1 100 3

new_from_message-build_example :
    (found : SearchResult) × (and_then
        (build_file_search_response (text "dodigan") 7 songs 1 100 3)
        (λ m. new_from_message (received m))
      ≡ ok (some found))
    × (found.token ≡ 7)
    × (found.slots ≡ 1)
    × (found.speed ≡ 100)
    × (found.username ≡ text "dodigan")
    × DescribesAll (text "dodigan") songs found.files
unfolding write_entries write_attributes write_int32 write_string write_int64 write_int8 le_bytes
new_from_message-build_example =
    new_from_message-build (text "dodigan") 7 songs 1 100 3 songs-ReplyFits

-- The second pair with code 1 counts.
last_bitrate : last_value 1 ((1, 320) ∷ (1, 187) ∷ []) ≡ some 187
last_bitrate = refl

accept_all-Shortlist_example :
    Shortlist
      (reply ∷ reply ∷ [])
      (accept_all (reply ∷ reply ∷ []) (record { token = 7; results = [] })).results
accept_all-Shortlist_example = accept_all-Shortlist 7 (reply ∷ reply ∷ [])
