-- ===== src/Distributed/Tests.antt =====
-- A search request on its way down the tree.
use soulseek_rs_lib.Base.{◌≡◌, refl, [], ◌∷◌, ◌++◌, Option, some, none, arith}
use soulseek_rs_lib.Base.Text.{text}
use soulseek_rs_lib.Base.Outcome.{ok}
use soulseek_rs_lib.Bytes.{le_bytes}
use soulseek_rs_lib.Message.{Message, new_with_data, get_buffer}
use soulseek_rs_lib.Message.Utf8.{valid_utf8}
use soulseek_rs_lib.Distributed.{Distributed, search_request, parse}
use soulseek_rs_lib.Distributed.Total.{Reply, parse_total}
use soulseek_rs_lib.Distributed.Envelope.{envelope_once}
use soulseek_rs_lib.Distributed.Frames.{build, IsSendable, frame_of, parse-build}

abbrev wanted : Distributed
wanted = search_request (text "ann") 7 (text "flac")

wanted-IsSendable : IsSendable wanted
unfolding valid_utf8
wanted-IsSendable = (
  record { short = omega arith; utf8 = refl },
  λ e. cc,
  omega arith,
  record { short = omega arith; utf8 = refl },
  λ e. cc,
)

parse_total_example :
    (d : Option Distributed) × (n : Message) × (parse (new_with_data (1 ∷ 2 ∷ 3 ∷ [])) ≡ ok (d, n))
    × (n.bytes ≡ 1 ∷ 2 ∷ 3 ∷ [])
parse_total_example = parse_total (new_with_data (1 ∷ 2 ∷ 3 ∷ []))

parse-build_example :
    (n : Message) × (parse (new_with_data (get_buffer (build wanted))) ≡ ok (some wanted, n))
parse-build_example = parse-build wanted wanted-IsSendable

-- A level that is cut off after two bytes.
envelope_once_example :
    ((reply : Reply) × (n : Message) × (k : Message) × (parse (frame_of 4 (1 ∷ 2 ∷ []))
        ≡ ok (reply, n))
      × (parse (frame_of 93 (le_bytes 1 4 ++ (1 ∷ 2 ∷ []))) ≡ ok (reply, k)))
    × ((n : Message) × (parse (frame_of 93 (le_bytes 1 93 ++ (1 ∷ 2 ∷ []))) ≡ ok (none, n)))
envelope_once_example = envelope_once 4 (1 ∷ 2 ∷ []) (omega arith) (λ e. absurd (omega arith))
