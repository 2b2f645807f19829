-- ===== src/Search.antt =====
-- Search replies: soulseek-rs-lib/src/message/peer/file_search_response.rs, which builds the reply that
-- peer code 9 carries, and `Search` and `SearchResult` of soulseek-rs-lib/src/types.rs, which read and
-- keep it.
pub mod Files
pub mod Wire
pub mod Bounds
mod Tests
use soulseek_rs_lib.Base.{
  ℕ, ◌+◌, ◌%◌, ◌^◌, Bool, true, false, ◌&&◌, Option, none, some, List, [], ◌∷◌, ◌++◌, length, ltb,
  if◌then◌else◌,
}
use soulseek_rs_lib.Base.Text.{Text}
use soulseek_rs_lib.Base.Assoc.{Map, insert, nat_eq}
use soulseek_rs_lib.Base.Outcome.{Outcome, ok, and_then}
use soulseek_rs_lib.Message.{
  Message, new, get_data, Read, pure, ◌>>=◌, ◌>>◌, read_int8, read_int32, read_int64, read_string,
  write_int8, write_int32, write_int64, write_string,
}
use soulseek_rs_lib.Message.Loop.{read_up_to, at_end, lacks_pair}
use soulseek_rs_lib.Zlib.Inflate.{max_inflated}
use soulseek_rs_lib.Zlib.Deflate.{deflate}
use soulseek_rs_lib.Listing.{read_attribute, write_attributes}
use soulseek_rs_lib.Replies.{reply_of, decompress_body}

-- One file to advertise.
pub record FileEntry : Type 0 where
  pub name : Text
  pub size : ℕ
  pub attribs : List (ℕ × ℕ)

pub record File : Type 0 where
  pub username : Text
  pub name : Text
  pub size : ℕ
  pub attribs : Map ℕ ℕ

pub record SearchResult : Type 0 where
  pub token : ℕ
  pub files : List File
  pub slots : ℕ
  pub speed : ℕ
  pub username : Text

unfoldable pub write_entry : FileEntry → Message → Message
write_entry f m = write_attributes f.attribs (
    write_int32 (length f.attribs % 2 ^ 32)
      (write_string [] (write_int64 f.size (write_string f.name (write_int8 1 m)))))

unfoldable pub write_entries : List FileEntry → Message → Message
unfolding write_entry
write_entries [] m = m
write_entries (f ∷ rest) m = write_entries rest (write_entry f m)

module _ (own_username : Text) (token : ℕ) (files : List FileEntry)
    (slots speed queue_length : ℕ) where
  abbrev pub search_payload : Message
  search_payload = write_int32 queue_length (
      write_int32 speed (
        write_int8 slots (
          write_entries files (
            write_int32 (length files % 2 ^ 32)
              (write_int32 token (write_string own_username new))))))

  unfoldable pub build_file_search_response : Outcome Message
  build_file_search_response = reply_of 9 (deflate (get_data search_payload))

-- The pairs in the order they are read, a later one in place of an earlier one with its code.
abbrev pub insert_all : List (ℕ × ℕ) → Map ℕ ℕ → Map ℕ ℕ
insert_all [] attribs = attribs
insert_all ((code, value) ∷ rest) attribs = insert_all rest (insert code value attribs)

unfoldable pub read_search_file : Text → Read File
read_search_file username = do
  read_int8
  name ← read_string
  size ← read_int64
  read_string
  n_attribs ← read_int32
  pairs ← read_up_to lacks_pair read_attribute n_attribs
  pure (record { username = username; name = name; size = size; attribs = insert_all pairs [] })

unfoldable pub read_search_files : Text → ℕ → ℕ → Read SearchResult
unfolding read_search_file
read_search_files username token n_files = do
  files ← read_up_to at_end (read_search_file username) n_files
  slots ← read_int8
  speed ← read_int32
  pure (record { token = token; files = files; slots = slots; speed = speed; username = username })

unfoldable pub read_search_result : Read SearchResult
unfolding read_search_files
read_search_result = do
  username ← read_string
  token ← read_int32
  n_files ← read_int32
  read_search_files username token n_files

abbrev pub result_of : Option Message → Outcome (Option SearchResult)
result_of none = ok none
result_of (some body) = and_then (read_search_result body) λ (a, m). ok (some a)

-- `none` is the error of a payload that does not inflate.
unfoldable pub new_from_message : Message → Outcome (Option SearchResult)
unfolding read_search_result
new_from_message m = and_then (decompress_body m max_inflated) result_of

pub record Search : Type 0 where
  pub token : ℕ
  pub results : List SearchResult

abbrev pub max_search_responses : ℕ
max_search_responses = 500

abbrev pub max_search_files : ℕ
max_search_files = 10_000

-- The files of all the responses.
abbrev pub total_files : List SearchResult → ℕ
total_files [] = 0
total_files (r ∷ rest) = length r.files + total_files rest

abbrev pub has_room : Search → Bool
has_room s =
    ltb (length s.results) max_search_responses && ltb (total_files s.results) max_search_files

unfoldable pub accept_response : SearchResult → Search → Search
accept_response r s = if has_room s then record s { results = s.results ++ (r ∷ []) } else s
