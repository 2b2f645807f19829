-- ===== src/Message/Tests.antt =====
-- Concrete runs of the codec of message/mod.rs.
use soulseek_rs_lib.Base.{◌^◌, ◌≡◌, refl, [], ◌∷◌, ◌++◌, length, arith, true}
use soulseek_rs_lib.Base.Text.{text}
use soulseek_rs_lib.Base.Outcome.{ok}
use soulseek_rs_lib.Bytes.{from_le}
use soulseek_rs_lib.Message.{new_with_data, read_string}
use soulseek_rs_lib.Message.Utf8.{valid_utf8, decode_text}
use soulseek_rs_lib.Message.Safety.{ReadsText, read_string-valid}
use soulseek_rs_lib.Message.RoundTrip.{Fields, Fits, write_fields, read_fields, read-write_fields}

-- `test_read_string`
reads_hello :
    read_string (new_with_data (5 ∷ 0 ∷ 0 ∷ 0 ∷ text "Hello"))
    ≡ ok (text "Hello", record { bytes = 5 ∷ 0 ∷ 0 ∷ 0 ∷ text "Hello"; pointer = 9 })
unfolding read_string from_le
reads_hello = refl

-- `read_string_with_oversized_length_does_not_panic`
oversized_length :
    read_string (new_with_data (255 ∷ 255 ∷ 255 ∷ 255 ∷ []))
    ≡ ok ([], record { bytes = 255 ∷ 255 ∷ 255 ∷ 255 ∷ []; pointer = 4 })
unfolding read_string from_le
oversized_length = refl

-- A byte that is no UTF-8 becomes the character of its value: 0xB4 is two bytes.
latin1_acute : decode_text (text "in" ++ 0xB4 ∷ text "be") ≡ text "in" ++ 0xC2 ∷ 0xB4 ∷ text "be"
unfolding decode_text
latin1_acute = refl

-- A two-byte character is kept.
utf8_kept : decode_text (0xC3 ∷ 0xA9 ∷ []) ≡ 0xC3 ∷ 0xA9 ∷ []
unfolding decode_text
utf8_kept = refl

read_string-valid_example :
    ReadsText
      (new_with_data (1 ∷ 0 ∷ 0 ∷ 0 ∷ 0xB4 ∷ []))
      (read_string (new_with_data (1 ∷ 0 ∷ 0 ∷ 0 ∷ 0xB4 ∷ [])))
read_string-valid_example =
    read_string-valid (new_with_data (1 ∷ 0 ∷ 0 ∷ 0 ∷ 0xB4 ∷ [])) (omega arith)

abbrev sample : Fields
sample = record { byte = 7; word = 300; long = 2 ^ 40; flag = true; name = text "ann" }

sample-Fits : Fits sample
unfolding valid_utf8
sample-Fits = record {
  byte_fits = omega arith;
  word_fits = omega arith;
  long_fits = omega arith;
  name_fits = record { short = omega arith; utf8 = refl };
}

reads_sample :
    let written = write_fields sample (record { bytes = 1 ∷ 2 ∷ []; pointer = 2 }) in
    read_fields written ≡ ok (sample, record written { pointer = length written.bytes })
reads_sample = read-write_fields sample (1 ∷ 2 ∷ []) sample-Fits
