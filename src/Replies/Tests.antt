-- ===== src/Replies/Tests.antt =====
-- An empty listing, on the wire.
use soulseek_rs_lib.Base.{◌≡◌, refl, some, List, [], ◌∷◌, arith}
use soulseek_rs_lib.Base.Text.{text}
use soulseek_rs_lib.Base.Outcome.{ok, and_then}
use soulseek_rs_lib.Message.Utf8.{valid_utf8}
use soulseek_rs_lib.Message.Parses.{IsText}
use soulseek_rs_lib.Bytes.{le_bytes}
use soulseek_rs_lib.Message.{write_int32, write_string, write_int64, write_int8}
use soulseek_rs_lib.Listing.{SharedDirectory, write_directories}
use soulseek_rs_lib.Listing.RoundTrip.{ListingFits}
use soulseek_rs_lib.Replies.{
  build_shared_file_list, parse_shared_file_list, build_folder_contents, parse_folder_contents,
}
use soulseek_rs_lib.Replies.Payload.{received}
use soulseek_rs_lib.Replies.Wire.{parse-build_shared_file_list, parse-build_folder_contents}

abbrev album : List SharedDirectory
album =
    record {
      name = text "music";
      files = record { name = text "one.mp3"; size = 40; attributes = (0, 320) ∷ [] } ∷ [];
    }
    ∷ []

album-ListingFits : ListingFits album
unfolding valid_utf8
album-ListingFits = record {
  count_fits = omega arith;
  directories_fit = (
    record {
      name_fits = record { short = omega arith; utf8 = refl };
      count_fits = omega arith;
      files_fit = (
        record {
          name_fits = record { short = omega arith; utf8 = refl };
          size_fits = omega arith;
          count_fits = omega arith;
          attributes_fit = omega arith;
        },
        tt,
      );
    },
    tt,
  );
}

music-IsText : IsText (text "music")
unfolding valid_utf8
music-IsText = record { short = omega arith; utf8 = refl }

parse-build_shared_file_list_example :
    and_then (build_shared_file_list album) (λ m. parse_shared_file_list (received m)) ≡ ok album
unfolding write_directories write_int32 write_string write_int64 write_int8 le_bytes
parse-build_shared_file_list_example = parse-build_shared_file_list album album-ListingFits

parse-build_folder_contents_example :
    and_then
      (build_folder_contents 7 (text "music") album)
      (λ m. parse_folder_contents (received m))
    ≡ ok (some (7, text "music", album))
unfolding write_directories write_int32 write_string write_int64 write_int8 le_bytes
parse-build_folder_contents_example =
    parse-build_folder_contents 7 (text "music") album (omega arith) music-IsText album-ListingFits
