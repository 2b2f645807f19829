-- ===== src/Replies/Payload.antt =====
-- A payload that was deflated into a reply, as the peer that receives the frame inflates it.
use soulseek_rs_lib.Base.{
  ℕ, ◌-◌, ◌≡◌, refl, ap, Bool, true, false, none, some, List, ◌++◌, length, All, arith, ltb, leb,
  if◌then◌else◌,
}
use soulseek_rs_lib.Base.Outcome.{ok}
use soulseek_rs_lib.Bytes.{IsByte, le_bytes}
use soulseek_rs_lib.Message.{
  Message, new_with_data, set_pointer, get_buffer, get_slice, slice, write_raw_bytes, write_int32,
  new,
}
use soulseek_rs_lib.Zlib.Result.{done, refused, too_big}
use soulseek_rs_lib.Zlib.Inflate.{adler32, inflate_limited}
use soulseek_rs_lib.Zlib.Writer.{be_bytes}
use soulseek_rs_lib.Zlib.Deflate.{deflate}
use soulseek_rs_lib.Zlib.Deflate.Writes.{take_all}
use soulseek_rs_lib.Zlib.RoundTrip.{inflate_limited-deflate}
use soulseek_rs_lib.Zlib.RoundTrip.Streams.{deflate-IsDeflated}
use soulseek_rs_lib.Replies.{reply_of, body_of, decompress_body}

-- The frame of a message, with the pointer behind its length and its code.
abbrev pub received : Message → Message
received m = set_pointer 8 (new_with_data (get_buffer m))

-- Both ends of a reply: it is built, and it inflates to the payload or is refused.
abbrev pub Carries : ℕ → List ℕ → ℕ → Type 0
Carries code payload max_out =
    (m : Message) × (reply_of code (deflate payload) ≡ ok m)
    × (decompress_body (received m) max_out
        ≡ ok (if ltb max_out (length payload) then none else some (new_with_data payload)))

get_slice-received :
    (code : ℕ) (zs : List ℕ)
    → let m = received (write_raw_bytes zs (write_int32 code new)) in
      get_slice m 8 (length m.bytes) ≡ ok zs
unfolding get_slice slice get_buffer write_raw_bytes write_int32 le_bytes
get_slice-received code zs =
    let size = length (received (write_raw_bytes zs (write_int32 code new))).bytes in
    let behind : leb 8 size ≡ true = ground arith in
    let within : leb size size ≡ true = ground arith in
    rw (behind, within) (ap ok (take_all zs (size - 8) (omega arith)))

body_of-if :
    (t : Bool) (payload : List ℕ)
    → body_of (if t then refused too_big else done payload)
      ≡ ok (if t then none else some (new_with_data payload))
body_of-if true payload = refl
body_of-if false payload = refl

pub deflate-Carries :
    (code : ℕ) (payload : List ℕ) (max_out : ℕ) → All IsByte payload → Carries code payload max_out
unfolding decompress_body
deflate-Carries code payload max_out all =
    let (front, runs, x) = deflate-IsDeflated payload all in
    let zs = front ++ be_bytes (adler32 payload) in
    let inflated : inflate_limited zs max_out
        ≡ (if ltb max_out (length payload) then refused too_big else done payload) =
      rw runs at (inflate_limited-deflate payload max_out all) in
    (
      write_raw_bytes zs (write_int32 code new),
      rw runs refl,
      rw (get_slice-received code zs, inflated) (body_of-if (ltb max_out (length payload)) payload),
    )
