-- ===== src/Distributed.antt =====
-- soulseek-rs-lib/src/message/distributed.rs: the frames of the distributed search network, with
-- their one-byte codes.
pub mod Total
pub mod Frames
pub mod Envelope
mod Tests
use soulseek_rs_lib.Base.{
  ℕ, ◌+◌, ◌-◌, Bool, true, false, ◌||◌, Option, none, some, List, [], ◌∷◌, length, ltb, ◌==◌,
  if◌then◌else◌,
}
use soulseek_rs_lib.Base.Text.{Text}
use soulseek_rs_lib.Base.Int.{ℤ, signed32, unsigned32}
use soulseek_rs_lib.Base.Outcome.{Outcome, ok}
use soulseek_rs_lib.Message.{
  Message, Read, new, get_size, set_pointer, get_init_code, pure, ◌>>=◌, read_int8, read_int32,
  read_string, write_int8, write_int32, write_string,
}

abbrev pub search_identifier : ℕ
search_identifier = 49

pub data Distributed : Type 0 where
  search_request : Text → ℕ → Text → Distributed
  branch_level : ℤ → Distributed
  branch_root : Text → Distributed

unfoldable pub remaining : Message → ℕ
remaining m = get_size m - m.pointer

abbrev pub is_empty : Text → Bool
is_empty [] = true
is_empty (_ ∷ _) = false

-- A field of four bytes is only read where there is room for it.
unfoldable pub behind_word : Read (Option Distributed) → Read (Option Distributed)
unfolding remaining
behind_word p m = if ltb (remaining m) 4 then ok (none, m) else p m

unfoldable pub parse_query : Text → Read (Option Distributed)
parse_query username = behind_word do
  token ← read_int32
  query ← read_string
  pure (
      if is_empty username || is_empty query
      then none
      else some (search_request username token query))

unfoldable pub parse_searcher : Read (Option Distributed)
parse_searcher = do username ← read_string; parse_query username

unfoldable pub parse_search : Read (Option Distributed)
parse_search = behind_word do
  identifier ← read_int32
  if identifier == search_identifier then parse_searcher else pure none

unfoldable pub parse_level : Read (Option Distributed)
parse_level = behind_word do level ← read_int32; pure (some (branch_level (signed32 level)))

unfoldable pub parse_root : Read (Option Distributed)
parse_root = do root ← read_string; pure (if is_empty root then none else some (branch_root root))

-- The `match` on the code that is left once an envelope is off.
unfoldable pub parse_body : ℕ → Read (Option Distributed)
parse_body code =
    if code == 3
    then parse_search
    else if code == 4
    then parse_level
    else if code == 5
    then parse_root
    else pure none

unfoldable pub parse_at : ℕ → Read (Option Distributed)
parse_at code = if code == 93 then (do inner ← read_int8; parse_body inner) else parse_body code

unfoldable pub parse : Read (Option Distributed)
parse m = if ltb (get_size m) 5 then ok (none, m) else parse_at (get_init_code m) (set_pointer 5 m)

unfoldable pub build_search : Text → ℕ → Text → Message
build_search username token query =
    write_string query
      (write_int32 token (write_string username (write_int32 search_identifier (write_int8 3 new))))

unfoldable pub build_branch_level : ℤ → Message
build_branch_level level = write_int32 (unsigned32 level) (write_int8 4 new)

unfoldable pub build_branch_root : Text → Message
build_branch_root root = write_string root (write_int8 5 new)
