-- ===== src/Listing.antt =====
-- The directory listing of soulseek-rs-lib/src/message/peer/shared_file_list.rs, which peer codes 5
-- and 37 carry inside a compressed payload: what is written into the payload before it is
-- compressed, and what is read from it once it is inflated.
pub mod Bounds
pub mod RoundTrip
pub mod WellFormed
mod Tests
use soulseek_rs_lib.Base.{
  ℕ, zero, suc, ◌+◌, ◌%◌, ◌^◌, Bool, Option, none, some, List, [], ◌∷◌, length, find, ltb, leb,
  ◌==◌, if◌then◌else◌,
}
use soulseek_rs_lib.Base.Text.{Text}
use soulseek_rs_lib.Message.{
  Message, Read, get_size, pure, ◌>>=◌, ◌>>◌, read_int8, read_int32, read_int64, read_string,
  write_int8, write_int32, write_int64, write_string,
}
use soulseek_rs_lib.Message.Loop.{read_up_to, at_end, lacks_pair}

pub record SharedFileEntry : Type 0 where
  pub name : Text
  pub size : ℕ
  pub attributes : List (ℕ × ℕ)

pub record SharedDirectory : Type 0 where
  pub name : Text
  pub files : List SharedFileEntry

-- The value of attribute `code`, if the owner advertised it: the first entry with that code.
unfoldable pub attribute : ℕ → SharedFileEntry → Option ℕ
attribute code f = elim (find (λ (a : ℕ × ℕ). a.0 == code) f.attributes) [
  | none ↦ none
  | some a ↦ some a.1
]

unfoldable pub write_attributes : List (ℕ × ℕ) → Message → Message
write_attributes [] m = m
write_attributes ((code, value) ∷ rest) m =
    write_attributes rest (write_int32 value (write_int32 code m))

unfoldable pub write_file : SharedFileEntry → Message → Message
unfolding write_attributes
write_file f m = write_attributes f.attributes (
    write_int32 (length f.attributes % 2 ^ 32)
      (write_string [] (write_int64 f.size (write_string f.name (write_int8 1 m)))))

unfoldable pub write_files : List SharedFileEntry → Message → Message
unfolding write_file
write_files [] m = m
write_files (f ∷ rest) m = write_files rest (write_file f m)

unfoldable pub write_each_directory : List SharedDirectory → Message → Message
unfolding write_files
write_each_directory [] m = m
write_each_directory (d ∷ rest) m =
    write_each_directory rest
      (write_files d.files (write_int32 (length d.files % 2 ^ 32) (write_string d.name m)))

unfoldable pub write_directories : List SharedDirectory → Message → Message
unfolding write_each_directory
write_directories dirs m = write_each_directory dirs (write_int32 (length dirs % 2 ^ 32) m)

-- The loops run to the number that the payload announces, or to the end of the payload.
unfoldable pub read_attribute : Read (ℕ × ℕ)
read_attribute = do code ← read_int32; value ← read_int32; pure (code, value)

unfoldable pub read_file_fields : Read SharedFileEntry
read_file_fields = do
  name ← read_string
  size ← read_int64
  read_string
  attr_count ← read_int32
  attributes ← read_up_to lacks_pair read_attribute attr_count
  pure (record { name = name; size = size; attributes = attributes })

unfoldable pub read_file : Read SharedFileEntry
unfolding read_file_fields
read_file = do read_int8; read_file_fields

unfoldable pub read_directory_files : Text → Read SharedDirectory
read_directory_files name = do
  file_count ← read_int32
  files ← read_up_to at_end read_file file_count
  pure (record { name = name; files = files })

unfoldable pub read_directory : Read SharedDirectory
unfolding read_directory_files
read_directory = do name ← read_string; read_directory_files name

unfoldable pub read_directories : Read (List SharedDirectory)
read_directories = do dir_count ← read_int32; read_up_to at_end read_directory dir_count
