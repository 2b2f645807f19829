-- ===== src/Framing.antt =====
-- soulseek-rs-lib/src/message/message_reader.rs: a stream of bytes cut into length-prefixed frames,
-- with the reading tick of soulseek-rs-lib/src/actor/server_actor.rs that runs over it.
pub mod Frames
pub mod Stream
mod Tests
use soulseek_rs_lib.Base.{
  ℕ, zero, suc, ◌+◌, Bool, true, false, Option, none, some, List, [], ◌∷◌, ◌++◌, length, take, drop,
  ltb, ◌==◌, if◌then◌else◌,
}
use soulseek_rs_lib.Base.Outcome.{Outcome, ok, panic, and_then}
use soulseek_rs_lib.Bytes.{from_le}
use soulseek_rs_lib.Message.{Message, new_with_data, bytes_at}

pub record MessageReader : Type 0 where
  pub buffer : List ℕ

abbrev pub new : MessageReader
new = record { buffer = [] }

abbrev pub new_with_buffer : List ℕ → MessageReader
new_with_buffer buffer = record { buffer = buffer }

pub data IoError : Type 0 where
  unexpected_eof would_block timed_out other : IoError

-- What one `read` call on the socket gave.
pub data SocketRead : Type 0 where
  received : List ℕ → SocketRead
  failed : IoError → SocketRead

-- The error, if there is one, and the reader after it.
unfoldable pub read_from_socket : SocketRead → MessageReader → Option IoError × MessageReader
read_from_socket (failed e) r = (some e, r)
read_from_socket (received chunk) r =
    if length chunk == 0
    then (some unexpected_eof, r)
    else (none, record r { buffer = r.buffer ++ chunk })

abbrev pub buffer_len : MessageReader → ℕ
buffer_len r = length r.buffer

-- `get_buffer` hands over what is left and empties the reader.
unfoldable pub get_buffer : MessageReader → List ℕ × MessageReader
get_buffer r = (r.buffer, record r { buffer = [] })

-- Behind the length check: `size` is the frame's length with its prefix.
unfoldable pub take_frame : ℕ → MessageReader → Option Message × MessageReader
take_frame size r =
    if ltb (length r.buffer) size
    then (none, r)
    else (some (new_with_data (take size r.buffer)), record r { buffer = drop size r.buffer })

unfoldable pub extract_message : MessageReader → Outcome (Option Message × MessageReader)
unfolding bytes_at take_frame
extract_message r =
    if ltb (length r.buffer) 4
    then ok (none, r)
    else and_then (bytes_at 4 r.buffer 0) λ prefix. ok (take_frame (from_le prefix + 4) r)

-- The loop runs until no whole frame is left. Each frame takes four bytes at least, so that fuel
-- above the length of the buffer is enough (`Framing.Frames.extract_all-eq`).
unfoldable pub extract_all : ℕ → MessageReader → Outcome (List Message × MessageReader)
extract_all zero r = ok ([], r)
extract_all (suc fuel) r = elim (extract_message r) [
  | panic ↦ panic
  | ok (none, s) ↦ ok ([], s)
  | ok (some m, s) ↦ and_then (extract_all fuel s) λ (ms, t). ok (m ∷ ms, t)
]

abbrev pub drain : MessageReader → Outcome (List Message × MessageReader)
drain r = extract_all (suc (length r.buffer)) r

-- What a tick of the server actor did: the messages it handed on, and whether it goes on reading.
pub record Tick : Type 0 where
  pub messages : List Message
  pub connected : Bool
  pub reader : MessageReader

abbrev finish : Bool → List Message → List Message × MessageReader → Tick
finish connected before (after, r) = record {
  messages = before ++ after;
  connected = connected;
  reader = r;
}

-- A read that only found nothing yet is followed by the loop like one that delivered.
abbrev is_fatal : Option IoError → Bool
is_fatal none = false
is_fatal (some would_block) = false
is_fatal (some timed_out) = false
is_fatal (some _) = true

-- What `disconnect` makes of the reader: bytes of a session that is over are no part of the next.
abbrev pub disconnect : MessageReader → MessageReader
disconnect r = new

after_read : List Message → Option IoError × MessageReader → Outcome Tick
unfolding extract_all
after_read before (e, r) =
    if is_fatal e
    then ok (finish false before ([], disconnect r))
    else and_then (drain r) λ t. ok (finish true before t)

-- `process_read` of the server actor. What the buffer already holds is worked off first.
unfoldable pub process_read : SocketRead → MessageReader → Outcome Tick
unfolding after_read read_from_socket
process_read event r =
    and_then (if ltb 0 (buffer_len r) then drain r else ok ([], r))
      λ (before, s). after_read before (read_from_socket event s)

-- Ticks one after another, until the connection is given up.
unfoldable pub session : List SocketRead → MessageReader → Outcome (List Message × MessageReader)
session [] r = ok ([], r)
session (event ∷ events) r = and_then (process_read event r) λ t. elim t.connected [
  | false ↦ ok (t.messages, t.reader)
  | true ↦ and_then (session events t.reader) λ (ms, s). ok (t.messages ++ ms, s)
]
