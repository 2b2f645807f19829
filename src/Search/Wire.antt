-- ===== src/Search/Wire.antt =====
-- The reply to a search that one peer builds, as the searcher reads it.
use soulseek_rs_lib.Base.{
  ℕ, ◌%◌, ◌^◌, ◌<◌, ◌≡◌, refl, Bool, true, false, none, some, List, ◌++◌, map, append_assoc, length,
  All, All-append, ltb, if◌then◌else◌,
}
use soulseek_rs_lib.Base.Text.{Text}
use soulseek_rs_lib.Base.Outcome.{ok, and_then}
use soulseek_rs_lib.Bytes.{IsByte, le_bytes, le_bytes-IsByte}
use soulseek_rs_lib.Message.{
  Message, new_with_data, get_data, write_int8, write_int32, write_string, read_int8, read_int32,
  read_string,
}
use soulseek_rs_lib.Message.Parses.{
  Parses, IsText, string_bytes, bind-Parses, last-Parses, read_int8-Parses, read_int32-Parses,
  read_string-Parses,
}
use soulseek_rs_lib.Message.Writes.{
  then-Writes, write_int8-Writes, write_int32-Writes, write_string-Writes,
}
use soulseek_rs_lib.Message.WellFormed.{string_bytes-IsByte, encode_all-IsByte}
use soulseek_rs_lib.Message.Loop.{encode_all}
use soulseek_rs_lib.Zlib.Inflate.{max_inflated}
use soulseek_rs_lib.Listing.RoundTrip.{count_bytes, count-Parses}
use soulseek_rs_lib.Listing.WellFormed.{file_bytes-IsByte, count_bytes-IsByte}
use soulseek_rs_lib.Replies.Payload.{received, deflate-Carries}
use soulseek_rs_lib.Replies.Wire.{written_into, Parses-payload}
use soulseek_rs_lib.Search.{
  FileEntry, SearchResult, write_entries, search_payload, build_file_search_response,
  read_search_files, read_search_result, result_of, new_from_message,
}
use soulseek_rs_lib.Search.Files.{
  shared, entry_bytes, EntryFits, file_of, DescribesAll, map-DescribesAll, write_entries-Writes,
  read_search_files-Parses,
}

-- What the fields of a reply can carry.
pub record ReplyFits (own_username : Text) (token : ℕ) (files : List FileEntry) (slots speed : ℕ)
    : Type 0 where
  pub name_fits : IsText own_username
  pub token_fits : token < 2 ^ 32
  pub count_fits : length files < 2 ^ 32
  pub files_fit : All EntryFits files
  pub slots_fit : slots < 2 ^ 8
  pub speed_fits : speed < 2 ^ 32

module _ (own_username : Text) (token : ℕ) (files : List FileEntry)
    (slots speed queue_length : ℕ) where
  -- What the searcher has of the reply.
  abbrev pub result : SearchResult
  result = record {
    token = token;
    files = map (file_of own_username) files;
    slots = slots;
    speed = speed;
    username = own_username;
  }

  abbrev files_bytes : List ℕ
  files_bytes = encode_all entry_bytes files ++ (le_bytes 1 slots ++ le_bytes 4 speed)

  abbrev answer_bytes : List ℕ
  answer_bytes =
      string_bytes own_username ++ (le_bytes 4 token ++ (count_bytes (length files) ++ files_bytes))

  abbrev payload_bytes : List ℕ
  payload_bytes =
      string_bytes own_username
      ++ (le_bytes 4 token
          ++ (count_bytes (length files)
              ++ (encode_all entry_bytes files
                  ++ (le_bytes 1 slots ++ (le_bytes 4 speed ++ le_bytes 4 queue_length)))))

  same_bytes : payload_bytes ≡ answer_bytes ++ le_bytes 4 queue_length
  same_bytes = simp append_assoc

  search_payload-Writes :
      search_payload own_username token files slots speed queue_length ≡ new_with_data payload_bytes
  search_payload-Writes = written_into written _ (
      then-Writes (write_string own_username) _ (write_string-Writes own_username) (
        then-Writes (write_int32 token) _ (write_int32-Writes token) (
          then-Writes (write_int32 (length files % 2 ^ 32)) _
            (write_int32-Writes (length files % 2 ^ 32))
            (then-Writes (write_entries files) _ (write_entries-Writes files) (
              then-Writes (write_int8 slots) _ (write_int8-Writes slots) (
                then-Writes (write_int32 speed) (write_int32 queue_length)
                  (write_int32-Writes speed) (write_int32-Writes queue_length)))))))
    where
      written : Message → Message
      written m = write_int32 queue_length (
          write_int32 speed (
            write_int8 slots (
              write_entries files (
                write_int32 (length files % 2 ^ 32)
                  (write_int32 token (write_string own_username m))))))

  module _ (fits : ReplyFits own_username token files slots speed) where
    read_search_result-Parses : Parses read_search_result answer_bytes result
    unfolding read_search_result read_search_files
    read_search_result-Parses =
        bind-Parses read_string _ (read_string-Parses own_username fits.name_fits) (
          bind-Parses read_int32 _ (read_int32-Parses token fits.token_fits) (
            bind-Parses read_int32 _ (count-Parses (length files) fits.count_fits) (
              bind-Parses _ _ (read_search_files-Parses own_username files fits.files_fit) (
                bind-Parses read_int8 _ (read_int8-Parses slots fits.slots_fit) (
                  last-Parses read_int32
                    (λ speed. record {
                      token = token;
                      files = map (file_of own_username) files;
                      slots = slots;
                      speed = speed;
                      username = own_username;
                    })
                    (read_int32-Parses speed fits.speed_fits))))))

    payload_bytes-IsByte : All IsByte payload_bytes
    payload_bytes-IsByte =
        both (string_bytes own_username) _ (string_bytes-IsByte own_username fits.name_fits.utf8) (
          both (le_bytes 4 token) _ (le_bytes-IsByte 4 token) (
            both (count_bytes (length files)) _ (count_bytes-IsByte (length files)) (
              both (encode_all entry_bytes files) _
                (encode_all-IsByte EntryFits entry_bytes (λ f h. file_bytes-IsByte (shared f) h)
                  files fits.files_fit)
                (both (le_bytes 1 slots) _ (le_bytes-IsByte 1 slots) (
                  both (le_bytes 4 speed) _ (le_bytes-IsByte 4 speed)
                    (le_bytes-IsByte 4 queue_length))))))
      where
        both : (xs ys : List ℕ) → All IsByte xs → All IsByte ys → All IsByte (xs ++ ys)
        both = All-append IsByte

result_of-if :
    (t : Bool) (a : SearchResult) (body : Message)
    → result_of (some body) ≡ ok (some a)
    → result_of (if t then none else some body) ≡ ok (if t then none else some a)
result_of-if true a body h = refl
result_of-if false a body h = h

-- The reply as it is read from its frame.
new_from_message-result :
    (own_username : Text) (token : ℕ) (files : List FileEntry) (slots speed queue_length : ℕ)
    → ReplyFits own_username token files slots speed
    → and_then
        (build_file_search_response own_username token files slots speed queue_length)
        (λ m. new_from_message (received m))
      ≡ ok (
          if ltb max_inflated
            (length (get_data (search_payload own_username token files slots speed queue_length)))
          then none
          else some (result own_username token files slots speed queue_length))
unfolding build_file_search_response new_from_message
new_from_message-result own_username token files slots speed queue_length fits =
    let payload = payload_bytes own_username token files slots speed queue_length in
    let a = result own_username token files slots speed queue_length in
    let bytes = answer_bytes own_username token files slots speed queue_length in
    let (m, built, body) =
      deflate-Carries 9 payload max_inflated
        (payload_bytes-IsByte own_username token files slots speed queue_length fits) in
    let parsed =
      Parses-payload read_search_result bytes (le_bytes 4 queue_length) a
        (read_search_result-Parses own_username token files slots speed queue_length fits) in
    let read : result_of (some (new_with_data payload)) ≡ ok (some a) =
      rw (same_bytes own_username token files slots speed queue_length) (rw parsed refl) in
    rw (search_payload-Writes own_username token files slots speed queue_length) (
      rw built
        (rw body (result_of-if (ltb max_inflated (length payload)) a (new_with_data payload) read)))

-- A reply to a search that fits the wire format, read from its frame, is an error where the payload is
-- above the ceiling. Otherwise it has the token, the slots, the speed and the name that were sent, and
-- for each file, in order, its name, its size, the sender's name, and under each attribute code the
-- last value that was sent with that code.
pub new_from_message-build :
    (own_username : Text) (token : ℕ) (files : List FileEntry) (slots speed queue_length : ℕ)
    → ReplyFits own_username token files slots speed
    → (found : SearchResult) × (and_then
          (build_file_search_response own_username token files slots speed queue_length)
          (λ m. new_from_message (received m))
        ≡ ok (
            if ltb max_inflated
              (length (get_data (search_payload own_username token files slots speed queue_length)))
            then none
            else some found))
      × (found.token ≡ token)
      × (found.slots ≡ slots)
      × (found.speed ≡ speed)
      × (found.username ≡ own_username)
      × DescribesAll own_username files found.files
new_from_message-build own_username token files slots speed queue_length fits = (
  result own_username token files slots speed queue_length,
  new_from_message-result own_username token files slots speed queue_length fits,
  refl,
  refl,
  refl,
  refl,
  map-DescribesAll own_username files,
)
