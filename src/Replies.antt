-- ===== src/Replies.antt =====
-- Compressed replies between peers: the whole listing (code 5) of
-- soulseek-rs-lib/src/message/peer/shared_file_list.rs, and a folder's (code 37) of
-- soulseek-rs-lib/src/message/peer/folder_contents.rs, with the request for it (code 36).
pub mod Payload
pub mod Wire
mod Tests
use soulseek_rs_lib.Base.{ℕ, Option, none, some, List, [], ◌∷◌, map}
use soulseek_rs_lib.Base.Text.{Text}
use soulseek_rs_lib.Base.Outcome.{Outcome, ok, panic, and_then}
use soulseek_rs_lib.Message.{
  Message, new, new_with_data, get_data, get_size, get_slice, Read, pure, ◌>>=◌, read_int32,
  read_string, write_int32, write_string, write_raw_bytes,
}
use soulseek_rs_lib.Zlib.Result.{Result, done, refused, panics, spins}
use soulseek_rs_lib.Zlib.Inflate.{max_inflated, max_inflated_listing, inflate_limited}
use soulseek_rs_lib.Zlib.Deflate.{deflate}
use soulseek_rs_lib.Listing.{SharedDirectory, write_directories, read_directories}

-- `.ok().map(Message::new_with_data)`. A panic goes on; a loop that is out of fuel counts as one.
abbrev pub body_of : Result (List ℕ) → Outcome (Option Message)
body_of (done bytes) = ok (some (new_with_data bytes))
body_of (refused e) = ok none
body_of panics = panic
body_of spins = panic

unfoldable pub decompress_body : Message → ℕ → Outcome (Option Message)
decompress_body m max_out =
    and_then (get_slice m m.pointer (get_size m)) λ blob. body_of (inflate_limited blob max_out)

-- The payload `deflate`d behind its code.
abbrev pub reply_of : ℕ → Result (List ℕ) → Outcome Message
reply_of code (done compressed) = ok (write_raw_bytes compressed (write_int32 code new))
reply_of code (refused e) = panic
reply_of code panics = panic
reply_of code spins = panic

abbrev pub listing_payload : List SharedDirectory → Message
listing_payload dirs = write_int32 0 (write_int32 0 (write_directories dirs new))

unfoldable pub build_shared_file_list : List SharedDirectory → Outcome Message
build_shared_file_list dirs = reply_of 5 (deflate (get_data (listing_payload dirs)))

-- The value of a read whose message is dropped.
abbrev pub value_of : {A : Type 0} → Outcome (A × Message) → Outcome A
value_of o = and_then o λ (a, m). ok a

abbrev pub directories_of : Option Message → Outcome (List SharedDirectory)
directories_of none = ok []
directories_of (some body) = value_of (read_directories body)

unfoldable pub parse_shared_file_list : Message → Outcome (List SharedDirectory)
unfolding decompress_body
parse_shared_file_list m = and_then (decompress_body m max_inflated_listing) directories_of

unfoldable pub build_folder_contents_request : ℕ → Text → Message
build_folder_contents_request token folder =
    write_string folder (write_int32 token (write_int32 36 new))

-- What the handler of code 36 reads.
unfoldable pub read_folder_contents_request : Read (ℕ × Text)
read_folder_contents_request = do token ← read_int32; folder ← read_string; pure (token, folder)

abbrev pub folder_payload : ℕ → Text → List SharedDirectory → Message
folder_payload token folder dirs =
    write_directories dirs (write_string folder (write_int32 token new))

unfoldable pub build_folder_contents : ℕ → Text → List SharedDirectory → Outcome Message
build_folder_contents token folder dirs =
    reply_of 37 (deflate (get_data (folder_payload token folder dirs)))

unfoldable pub read_folder_contents : Read (ℕ × Text × List SharedDirectory)
read_folder_contents = do
  token ← read_int32
  folder ← read_string
  dirs ← read_directories
  pure (token, folder, dirs)

abbrev pub contents_of : Option Message → Outcome (Option (ℕ × Text × List SharedDirectory))
contents_of none = ok none
contents_of (some body) = and_then (read_folder_contents body) λ (a, m). ok (some a)

unfoldable pub parse_folder_contents : Message → Outcome (Option (ℕ × Text × List SharedDirectory))
unfolding decompress_body read_folder_contents
parse_folder_contents m = and_then (decompress_body m max_inflated) contents_of
