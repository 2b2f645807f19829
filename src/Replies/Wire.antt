-- ===== src/Replies/Wire.antt =====
-- What one peer builds, the other parses.
use soulseek_rs_lib.Base.{
  ℕ, ◌^◌, ◌<◌, ◌≡◌, refl, Bool, true, false, none, some, List, [], ◌++◌, append-nil, length, All,
  All-append, ltb, if◌then◌else◌,
}
use soulseek_rs_lib.Base.Text.{Text}
use soulseek_rs_lib.Base.Outcome.{ok, and_then}
use soulseek_rs_lib.Bytes.{IsByte, le_bytes, le_bytes-IsByte}
use soulseek_rs_lib.Message.{
  Message, new, new_with_data, get_data, Read, write_int32, write_string, read_int32, read_string,
}
use soulseek_rs_lib.Message.Parses.{
  Parses, IsText, string_bytes, bind-Parses, last-Parses, read_int32-Parses, read_string-Parses,
}
use soulseek_rs_lib.Message.Writes.{Writes, then-Writes, write_int32-Writes, write_string-Writes}
use soulseek_rs_lib.Message.WellFormed.{string_bytes-IsByte}
use soulseek_rs_lib.Zlib.Inflate.{max_inflated, max_inflated_listing}
use soulseek_rs_lib.Listing.{SharedDirectory, write_directories, read_directories}
use soulseek_rs_lib.Listing.RoundTrip.{
  ListingFits, listing_bytes, write_directories-Writes, read_directories-Parses,
}
use soulseek_rs_lib.Listing.WellFormed.{listing_bytes-IsByte}
use soulseek_rs_lib.Replies.{
  listing_payload, build_shared_file_list, directories_of, parse_shared_file_list, folder_payload,
  build_folder_contents, read_folder_contents, contents_of, parse_folder_contents,
}
use soulseek_rs_lib.Replies.Payload.{received, deflate-Carries}

-- What was written into a new message.
pub written_into : (w : Message → Message) (bs : List ℕ) → Writes w bs → w new ≡ new_with_data bs
written_into w bs h = h.at new

-- Reading a payload from its start.
pub Parses-payload :
    {A : Type 0} (p : Read A) (bs rest : List ℕ) (a : A)
    → Parses p bs a
    → p (new_with_data (bs ++ rest)) ≡ ok (a, record { bytes = bs ++ rest; pointer = length bs })
Parses-payload p bs rest a h = h.at [] rest

abbrev listing_end : List ℕ
listing_end = le_bytes 4 0 ++ le_bytes 4 0

listing_payload-Writes :
    (dirs : List SharedDirectory)
    → listing_payload dirs ≡ new_with_data (listing_bytes dirs ++ listing_end)
listing_payload-Writes dirs =
    written_into (λ m. write_int32 0 (write_int32 0 (write_directories dirs m))) _
      (then-Writes (write_directories dirs) (λ m. write_int32 0 (write_int32 0 m))
        (write_directories-Writes dirs)
        (then-Writes (write_int32 0) (write_int32 0) (write_int32-Writes 0) (write_int32-Writes 0)))

directories_of-if :
    (t : Bool) (dirs : List SharedDirectory) (body : Message)
    → directories_of (some body) ≡ ok dirs
    → directories_of (if t then none else some body) ≡ ok (if t then [] else dirs)
directories_of-if true dirs body h = refl
directories_of-if false dirs body h = h

-- A listing that fits the wire format, built as a reply and parsed from the frame that carries it, is
-- the listing again, and an empty one where the payload is above the ceiling for listings.
pub parse-build_shared_file_list :
    (dirs : List SharedDirectory)
    → ListingFits dirs
    → and_then (build_shared_file_list dirs) (λ m. parse_shared_file_list (received m))
      ≡ ok
          (if ltb max_inflated_listing (length (get_data (listing_payload dirs))) then [] else dirs)
unfolding build_shared_file_list parse_shared_file_list
parse-build_shared_file_list dirs h =
    let payload = listing_bytes dirs ++ listing_end in
    let all : All IsByte payload =
      All-append IsByte (listing_bytes dirs) listing_end (listing_bytes-IsByte dirs h) (
        All-append IsByte (le_bytes 4 0) (le_bytes 4 0) (le_bytes-IsByte 4 0)
          (le_bytes-IsByte 4 0)) in
    let (m, built, body) = deflate-Carries 5 payload max_inflated_listing all in
    let read : directories_of (some (new_with_data payload)) ≡ ok dirs =
      rw
        (Parses-payload read_directories (listing_bytes dirs) listing_end dirs
          (read_directories-Parses dirs h))
        refl in
    rw (listing_payload-Writes dirs) (
      rw built (
        rw body (
          directories_of-if (ltb max_inflated_listing (length payload)) dirs (new_with_data payload)
            read)))

abbrev folder_bytes : ℕ → Text → List SharedDirectory → List ℕ
folder_bytes token folder dirs = le_bytes 4 token ++ (string_bytes folder ++ listing_bytes dirs)

folder_payload-Writes :
    (token : ℕ) (folder : Text) (dirs : List SharedDirectory)
    → folder_payload token folder dirs ≡ new_with_data (folder_bytes token folder dirs)
folder_payload-Writes token folder dirs = written_into (folder_payload_onto) _ (
    then-Writes (write_int32 token) (λ m. write_directories dirs (write_string folder m))
      (write_int32-Writes token)
      (then-Writes (write_string folder) (write_directories dirs) (write_string-Writes folder)
        (write_directories-Writes dirs)))
  where
    folder_payload_onto : Message → Message
    folder_payload_onto m = write_directories dirs (write_string folder (write_int32 token m))

contents_of-if :
    (t : Bool) (a : ℕ × Text × List SharedDirectory) (body : Message)
    → contents_of (some body) ≡ ok (some a)
    → contents_of (if t then none else some body) ≡ ok (if t then none else some a)
contents_of-if true a body h = refl
contents_of-if false a body h = h

read_folder_contents-Parses :
    (token : ℕ) (folder : Text) (dirs : List SharedDirectory)
    → token < 2 ^ 32
    → IsText folder
    → ListingFits dirs
    → Parses read_folder_contents (folder_bytes token folder dirs) (token, folder, dirs)
unfolding read_folder_contents
read_folder_contents-Parses token folder dirs word is_text h =
    bind-Parses read_int32 _ (read_int32-Parses token word) (
      bind-Parses read_string _ (read_string-Parses folder is_text) (
        last-Parses read_directories (λ dirs. (token, folder, dirs))
          (read_directories-Parses dirs h)))

-- A folder's contents, built as a reply and parsed from the frame that carries it, are the token, the
-- folder and the listing again, and nothing where the payload is above the ceiling.
pub parse-build_folder_contents :
    (token : ℕ) (folder : Text) (dirs : List SharedDirectory)
    → token < 2 ^ 32
    → IsText folder
    → ListingFits dirs
    → and_then (build_folder_contents token folder dirs) (λ m. parse_folder_contents (received m))
      ≡ ok (
          if ltb max_inflated (length (get_data (folder_payload token folder dirs)))
          then none
          else some (token, folder, dirs))
unfolding build_folder_contents parse_folder_contents
parse-build_folder_contents token folder dirs word is_text h =
    let payload = folder_bytes token folder dirs in
    let all : All IsByte payload =
      All-append IsByte (le_bytes 4 token) _ (le_bytes-IsByte 4 token) (
        All-append IsByte (string_bytes folder) _ (string_bytes-IsByte folder is_text.utf8)
          (listing_bytes-IsByte dirs h)) in
    let (m, built, body) = deflate-Carries 37 payload max_inflated all in
    let parsed =
      Parses-payload read_folder_contents payload [] (token, folder, dirs)
        (read_folder_contents-Parses token folder dirs word is_text h) in
    let whole : read_folder_contents (new_with_data payload)
        ≡ ok ((token, folder, dirs), record { bytes = payload; pointer = length payload }) =
      rw (append-nil payload) at parsed in
    let read : contents_of (some (new_with_data payload)) ≡ ok (some (token, folder, dirs)) =
      rw whole refl in
    rw (folder_payload-Writes token folder dirs) (
      rw built (
        rw body (
          contents_of-if (ltb max_inflated (length payload)) (token, folder, dirs)
            (new_with_data payload) read)))
