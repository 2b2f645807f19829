-- ===== src/Framing/Stream.antt =====
-- The reading ticks of the server actor over a whole stream: however the network cuts it into
-- reads, the frames that were sent come out, in order and once each.
use soulseek_rs_lib.Base.{
  ℕ, suc, ◌%◌, ◌^◌, ◌<◌, ◌≡◌, refl, ◌∙◌, Bool, true, false, inl, inr, Option, none, some, List, [],
  ◌∷◌, ◌++◌, map, All, length, take, ◌==◌, if◌then◌else◌, arith, Option-cases, append_assoc,
  append-nil, length-append, take-append, drop-append,
}
use soulseek_rs_lib.Base.Outcome.{ok}
use soulseek_rs_lib.Bytes.{le_bytes, from_le, length-le_bytes, from_le-le_bytes}
use soulseek_rs_lib.Message.{Message, new_with_data, get_buffer}
use soulseek_rs_lib.Framing.{
  MessageReader, new, SocketRead, received, failed, unexpected_eof, would_block, timed_out, other,
  Tick, process_read, session,
}
use soulseek_rs_lib.Framing.Frames.{
  frame_length, frames, split, extract_all-eq, frames-none, frames-some, split-append, frames-stops,
  frames-fuel, frame_length_bounds,
}

-- The bytes that a read adds to the stream, or `none` where it ends the connection.
abbrev pub arrived : SocketRead → Option (List ℕ)
arrived (received chunk) = if length chunk == 0 then none else some chunk
arrived (failed would_block) = some []
arrived (failed timed_out) = some []
arrived (failed unexpected_eof) = none
arrived (failed other) = none

abbrev pub followed_by : Option (List ℕ) → List ℕ → List ℕ
followed_by none later = []
followed_by (some chunk) later = chunk ++ later

-- The stream that a series of reads delivers.
abbrev pub delivered : List SocketRead → List ℕ
delivered [] = []
delivered (event ∷ events) = followed_by (arrived event) (delivered events)

abbrev pub or_later : Option (List ℕ) → Bool → Bool
or_later none later = true
or_later (some chunk) later = later

-- Whether one of the reads ends the connection.
abbrev pub is_lost : List SocketRead → Bool
is_lost [] = false
is_lost (event ∷ events) = or_later (arrived event) (is_lost events)

-- What stays in the buffer: nothing, where the connection was lost.
abbrev pub kept : Bool → List ℕ → List ℕ
kept true rest = []
kept false rest = rest

abbrev reader_of : List ℕ → MessageReader
reader_of b = record { buffer = b }

abbrev ticked : MessageReader → Option (List ℕ) → Tick
ticked r none = record { messages = []; connected = false; reader = new }
ticked r (some chunk) = record {
  messages = (split (r.buffer ++ chunk)).0;
  connected = true;
  reader = reader_of (split (r.buffer ++ chunk)).1;
}

-- A tick on a buffer that holds no whole frame.
process_read-eq :
    (event : SocketRead) (r : MessageReader)
    → frame_length r.buffer ≡ none
    → process_read event r ≡ ok (ticked r (arrived event))
unfolding process_read
process_read-eq (received chunk) r e = ground (
  arith,
  extract_all-eq (suc (length r.buffer)) r,
  extract_all-eq (suc (length (r.buffer ++ chunk))) (reader_of (r.buffer ++ chunk)),
  frames-none (suc (length r.buffer)) r.buffer e,
)
process_read-eq (failed error) r e = ground (
  arith,
  extract_all-eq (suc (length r.buffer)) r,
  frames-none (suc (length r.buffer)) r.buffer e,
  append-nil r.buffer,
)

-- The messages of a session are the frames of the stream, and what is behind the last of them is
-- kept while the connection stands.
pub session-eq :
    (events : List SocketRead) (r : MessageReader)
    → frame_length r.buffer ≡ none
    → session events r
      ≡ ok (
        (split (r.buffer ++ delivered events)).0,
        reader_of (kept (is_lost events) (split (r.buffer ++ delivered events)).1),
      )
unfolding session
session-eq [] r e = rw (append-nil r.buffer, frames-none (suc (length r.buffer)) r.buffer e)
session-eq (event ∷ events) r e = elim (Option-cases (arrived event)) [
  | inl gone ↦
      rw (process_read-eq event r e, gone, append-nil r.buffer)
        (rw (frames-none (suc (length r.buffer)) r.buffer e))
  | inr (chunk, came) ↦
      let fuel : ℕ = suc (length (r.buffer ++ chunk)) in
      let rest : List ℕ = (frames fuel (r.buffer ++ chunk)).1 in
      let stops = frames-stops fuel (r.buffer ++ chunk) (omega arith) in
      rw (
        process_read-eq event r e,
        came,
        session-eq events (reader_of rest) stops,
        ← append_assoc r.buffer chunk (delivered events),
        split-append fuel (r.buffer ++ chunk) (delivered events) (omega arith),
      )
]

-- The frames that `get_buffer` wrote for a series of messages.
abbrev pub sent : List Message → List ℕ
sent [] = []
sent (m ∷ ms) = get_buffer m ++ sent ms

-- What arrives of a message is its frame, prefix included, with the pointer at its start.
abbrev pub arriving : Message → Message
arriving m = new_with_data (get_buffer m)

abbrev pub IsShort : Message → Type 0
IsShort m = length m.bytes < 2 ^ 32

frame_length-get_buffer :
    (m : Message) (rest : List ℕ)
    → IsShort m
    → frame_length (get_buffer m ++ rest) ≡ some (length (get_buffer m))
unfolding frame_length get_buffer
frame_length-get_buffer m rest h =
    let prefix : List ℕ = le_bytes 4 (length m.bytes % 2 ^ 32) in
    let whole : List ℕ = (prefix ++ m.bytes) ++ rest in
    let four = length-le_bytes 4 (length m.bytes % 2 ^ 32) in
    let head : take 4 whole ≡ prefix =
      rw (append_assoc prefix m.bytes rest) (rw four at (take-append prefix (m.bytes ++ rest))) in
    let size : from_le prefix ≡ length m.bytes =
      from_le-le_bytes 4 (length m.bytes % 2 ^ 32) (omega arith) ∙ omega arith in
    ground (
      arith,
      four,
      head,
      size,
      length-append (prefix ++ m.bytes) rest,
      length-append prefix m.bytes,
    )

split-sent :
    (ms : List Message) (rest : List ℕ)
    → All IsShort ms
    → frame_length rest ≡ none
    → split (sent ms ++ rest) ≡ (map arriving ms, rest)
split-sent [] rest h e = frames-none (suc (length rest)) rest e
split-sent (m ∷ ms) rest h e =
    let here : List ℕ = get_buffer m in
    let later : List ℕ = sent ms ++ rest in
    let long =
      (frame_length_bounds (here ++ later) (length here) (frame_length-get_buffer m later h.0)).0 in
    rw (
      append_assoc here (sent ms) rest,
      frames-some (length (here ++ later)) (length here) (here ++ later)
          (frame_length-get_buffer m later h.0),
      take-append here later,
      drop-append here later,
      frames-fuel (length (here ++ later)) (suc (length later)) later
          (omega (arith, length-append here later)) (omega arith),
      split-sent ms rest h.1 e,
    )

-- However the network cuts the stream into reads, and whatever reads find nothing in between: the
-- frames that were sent come out complete, in order and once each. The bytes of a frame that is
-- still incomplete stay in the buffer while the connection stands, and a read that ends the
-- connection leaves the buffer empty. The messages are short enough for the 32-bit length.
pub session-sent :
    (ms : List Message) (rest : List ℕ) (events : List SocketRead)
    → All IsShort ms
    → frame_length rest ≡ none
    → delivered events ≡ sent ms ++ rest
    → session events new ≡ ok (map arriving ms, record { buffer = kept (is_lost events) rest })
session-sent ms rest events h e d =
    rw (session-eq events new (unfold frame_length in refl), d, split-sent ms rest h e)
