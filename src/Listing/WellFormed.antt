-- ===== src/Listing/WellFormed.antt =====
-- A listing is written as bytes.
use soulseek_rs_lib.Base.{ℕ, ◌%◌, ◌^◌, refl, List, [], ◌++◌, length, All, All-append}
use soulseek_rs_lib.Bytes.{IsByte, le_bytes, le_bytes-IsByte}
use soulseek_rs_lib.Message.WellFormed.{string_bytes-IsByte, encode_all-IsByte}
use soulseek_rs_lib.Message.Parses.{string_bytes}
use soulseek_rs_lib.Message.Utf8.{valid_utf8}
use soulseek_rs_lib.Listing.{SharedFileEntry, SharedDirectory}
use soulseek_rs_lib.Listing.RoundTrip.{
  AttributeFits, FileFits, DirectoryFits, ListingFits, attribute_bytes, count_bytes,
  file_fields_bytes, file_bytes, directory_rest_bytes, directory_bytes, listing_bytes,
}

both : (xs ys : List ℕ) → All IsByte xs → All IsByte ys → All IsByte (xs ++ ys)
both = All-append IsByte

attribute_bytes-IsByte : (a : ℕ × ℕ) → AttributeFits a → All IsByte (attribute_bytes a)
attribute_bytes-IsByte (code, value) h =
    both (le_bytes 4 code) (le_bytes 4 value) (le_bytes-IsByte 4 code) (le_bytes-IsByte 4 value)

pub count_bytes-IsByte : (n : ℕ) → All IsByte (count_bytes n)
count_bytes-IsByte n = le_bytes-IsByte 4 (n % 2 ^ 32)

pub file_bytes-IsByte : (f : SharedFileEntry) → FileFits f → All IsByte (file_bytes f)
file_bytes-IsByte f h = both (le_bytes 1 1) (file_fields_bytes f) (le_bytes-IsByte 1 1) (
    both (string_bytes f.name) _ (string_bytes-IsByte f.name h.name_fits.utf8) (
      both (le_bytes 8 f.size) _ (le_bytes-IsByte 8 f.size) (
        both (string_bytes []) _ (string_bytes-IsByte [] (unfold valid_utf8 in refl)) (
          both (count_bytes (length f.attributes)) _ (count_bytes-IsByte (length f.attributes)) (
            encode_all-IsByte AttributeFits attribute_bytes attribute_bytes-IsByte f.attributes
              h.attributes_fit)))))

directory_bytes-IsByte : (d : SharedDirectory) → DirectoryFits d → All IsByte (directory_bytes d)
directory_bytes-IsByte d h =
    both (string_bytes d.name) (directory_rest_bytes d)
      (string_bytes-IsByte d.name h.name_fits.utf8)
      (both (count_bytes (length d.files)) _ (count_bytes-IsByte (length d.files))
        (encode_all-IsByte FileFits file_bytes file_bytes-IsByte d.files h.files_fit))

pub listing_bytes-IsByte :
    (dirs : List SharedDirectory) → ListingFits dirs → All IsByte (listing_bytes dirs)
listing_bytes-IsByte dirs h =
    both (count_bytes (length dirs)) _ (count_bytes-IsByte (length dirs)) (
      encode_all-IsByte DirectoryFits directory_bytes directory_bytes-IsByte dirs h.directories_fit)
