-- ===== src/Listing/Tests.antt =====
-- A listing with one directory.
use soulseek_rs_lib.Base.{◌≡◌, ◌≤◌, ◌+◌, refl, List, [], ◌∷◌, ◌++◌, arith, length}
use soulseek_rs_lib.Base.Text.{text}
use soulseek_rs_lib.Base.Outcome.{ok}
use soulseek_rs_lib.Message.{Message}
use soulseek_rs_lib.Message.Utf8.{valid_utf8}
use soulseek_rs_lib.Listing.{SharedDirectory, write_directories, read_directories}
use soulseek_rs_lib.Listing.Bounds.{read_directories-bounded}
use soulseek_rs_lib.Listing.RoundTrip.{read-write_directories, ListingFits}

abbrev album : List SharedDirectory
album =
    record {
      name = text "music";
      files =
          record { name = text "one.mp3"; size = 40; attributes = (0, 320) ∷ (1, 187) ∷ [] }
          ∷ record { name = text "two.flac"; size = 50; attributes = [] }
          ∷ [];
    }
    ∷ []

album-ListingFits : ListingFits album
unfolding valid_utf8
album-ListingFits = record {
  count_fits = omega arith;
  directories_fit = (
    record {
      name_fits = record { short = omega arith; utf8 = refl };
      count_fits = omega arith;
      files_fit = (
        record {
          name_fits = record { short = omega arith; utf8 = refl };
          size_fits = omega arith;
          count_fits = omega arith;
          attributes_fit = omega arith;
        },
        (
          record {
            name_fits = record { short = omega arith; utf8 = refl };
            size_fits = omega arith;
            count_fits = omega arith;
            attributes_fit = tt;
          },
          tt,
        ),
      );
    },
    tt,
  );
}

read-write_directories_example :
    let written = (write_directories album (record { bytes = 1 ∷ []; pointer = 0 })).bytes in
    read_directories (record { bytes = written ++ (9 ∷ []); pointer = 1 })
    ≡ ok (album, record { bytes = written ++ (9 ∷ []); pointer = length written })
read-write_directories_example = read-write_directories album (1 ∷ []) (9 ∷ []) album-ListingFits

-- A payload that announces four billion directories and holds nothing else.
abbrev hostile : Message
hostile = record { bytes = 255 ∷ 255 ∷ 255 ∷ 255 ∷ []; pointer = 0 }

read_directories-bounded_example :
    (dirs : List SharedDirectory) × (n : Message) × (read_directories hostile ≡ ok (dirs, n))
    × (n.bytes ≡ hostile.bytes)
    × (0 + length dirs ≤ n.pointer)
    × (n.pointer ≤ 4)
read_directories-bounded_example = read_directories-bounded hostile (omega arith)
