-- ===== src/Message/RoundTrip.antt =====
-- One frame with a field of every kind, written and read back.
use soulseek_rs_lib.Base.{
  ℕ, ◌^◌, ◌<◌, ◌≡◌, Bool, List, [], ◌∷◌, ◌++◌, length, append-nil, if◌then◌else◌,
}
use soulseek_rs_lib.Base.Text.{Text}
use soulseek_rs_lib.Base.Outcome.{ok}
use soulseek_rs_lib.Bytes.{le_bytes}
use soulseek_rs_lib.Message.{
  Message, Read, pure, ◌>>=◌, read_int8, read_int32, read_int64, read_bool, read_string, write_int8,
  write_int32, write_int64, write_bool, write_string,
}
use soulseek_rs_lib.Message.Parses.{
  Parses, IsText, string_bytes, read_int8-Parses, read_int32-Parses, read_int64-Parses,
  read_bool-Parses, read_string-Parses, bind-Parses, last-Parses,
}
use soulseek_rs_lib.Message.Writes.{
  Writes, then-Writes, write_int8-Writes, write_int32-Writes, write_int64-Writes, write_bool-Writes,
  write_string-Writes,
}

pub record Fields : Type 0 where
  pub byte : ℕ
  pub word : ℕ
  pub long : ℕ
  pub flag : Bool
  pub name : Text

pub record Fits (f : Fields) : Type 0 where
  pub byte_fits : f.byte < 2 ^ 8
  pub word_fits : f.word < 2 ^ 32
  pub long_fits : f.long < 2 ^ 64
  pub name_fits : IsText f.name

abbrev pub write_fields : Fields → Message → Message
write_fields f m =
    write_string f.name
      (write_bool f.flag (write_int64 f.long (write_int32 f.word (write_int8 f.byte m))))

abbrev pub read_fields : Read Fields
read_fields = do
  byte ← read_int8
  word ← read_int32
  long ← read_int64
  flag ← read_bool
  name ← read_string
  pure (record { byte = byte; word = word; long = long; flag = flag; name = name })

abbrev field_bytes : Fields → List ℕ
field_bytes f =
    le_bytes 1 f.byte
    ++ (le_bytes 4 f.word
        ++ (le_bytes 8 f.long ++ (((if f.flag then 1 else 0) ∷ []) ++ string_bytes f.name)))

write_fields-Writes : (f : Fields) → Writes (write_fields f) (field_bytes f)
write_fields-Writes f = then-Writes (write_int8 f.byte) _ (write_int8-Writes f.byte) (
    then-Writes (write_int32 f.word) _ (write_int32-Writes f.word) (
      then-Writes (write_int64 f.long) _ (write_int64-Writes f.long) (
        then-Writes (write_bool f.flag) (write_string f.name) (write_bool-Writes f.flag)
          (write_string-Writes f.name))))

read_fields-Parses : (f : Fields) → Fits f → Parses read_fields (field_bytes f) f
read_fields-Parses f h = bind-Parses read_int8 _ (read_int8-Parses f.byte h.byte_fits) (
    bind-Parses read_int32 _ (read_int32-Parses f.word h.word_fits) (
      bind-Parses read_int64 _ (read_int64-Parses f.long h.long_fits) (
        bind-Parses read_bool _ (read_bool-Parses f.flag) (
          last-Parses read_string
            (λ name. record {
              byte = f.byte;
              word = f.word;
              long = f.long;
              flag = f.flag;
              name = name;
            })
            (read_string-Parses f.name h.name_fits)))))

-- Fields of every kind, written one after another behind any bytes, read back as they were, and
-- the pointer ends at the end of the frame.
pub read-write_fields :
    (f : Fields) (before : List ℕ)
    → Fits f
    → let written = write_fields f (record { bytes = before; pointer = length before }) in
      read_fields written ≡ ok (f, record written { pointer = length written.bytes })
read-write_fields f before h =
    let start : Message = record { bytes = before; pointer = length before } in
    rw ((write_fields-Writes f).at start)
      (rw (append-nil, append-nil) at ((read_fields-Parses f h).at before []))
