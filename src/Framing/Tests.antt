-- ===== src/Framing/Tests.antt =====
-- A session whose frames are cut in the middle.
use soulseek_rs_lib.Base.{◌≡◌, refl, List, [], ◌∷◌, map, arith}
use soulseek_rs_lib.Base.Outcome.{ok}
use soulseek_rs_lib.Bytes.{le_bytes}
use soulseek_rs_lib.Message.{Message, new_with_data, get_buffer}
use soulseek_rs_lib.Framing.{
  SocketRead, received, failed, would_block, timed_out, unexpected_eof, new, session,
}
use soulseek_rs_lib.Framing.Frames.{frame_length}
use soulseek_rs_lib.Framing.Stream.{arriving, session-sent}

abbrev two_messages : List Message
two_messages = new_with_data (7 ∷ 8 ∷ []) ∷ new_with_data (9 ∷ []) ∷ []

-- 2 0 0 0 7 8 1 0 0 0 9, and one byte of a third frame
abbrev cut_reads : SocketRead → List SocketRead
cut_reads last_read =
    received (2 ∷ 0 ∷ 0 ∷ [])
    ∷ failed would_block
    ∷ received (0 ∷ 7 ∷ 8 ∷ 1 ∷ [])
    ∷ received (0 ∷ 0 ∷ 0 ∷ 9 ∷ 3 ∷ [])
    ∷ last_read
    ∷ []

session-sent_example :
    session (cut_reads (failed unexpected_eof)) new
    ≡ ok (map arriving two_messages, record { buffer = [] })
unfolding frame_length get_buffer le_bytes
session-sent_example =
    session-sent two_messages (3 ∷ []) (cut_reads (failed unexpected_eof)) (omega arith) refl refl

-- While the connection stands, the partial frame stays.
incomplete_frame_stays :
    session (cut_reads (failed timed_out)) new
    ≡ ok (map arriving two_messages, record { buffer = 3 ∷ [] })
unfolding frame_length get_buffer le_bytes
incomplete_frame_stays =
    session-sent two_messages (3 ∷ []) (cut_reads (failed timed_out)) (omega arith) refl refl
