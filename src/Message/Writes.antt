-- ===== src/Message/Writes.antt =====
-- What the writers of message/mod.rs append.
use soulseek_rs_lib.Base.{
  ℕ, ◌%◌, ◌^◌, ◌≡◌, refl, Bool, List, [], ◌∷◌, ◌++◌, length, append_assoc, append-nil,
  if◌then◌else◌,
}
use soulseek_rs_lib.Base.Text.{Text}
use soulseek_rs_lib.Bytes.{le_bytes}
use soulseek_rs_lib.Message.{
  Message, write_raw_bytes, write_string, write_int8, write_int32, write_int64, write_bool,
}
use soulseek_rs_lib.Message.Parses.{string_bytes}

-- `w` appends `bs` and leaves the pointer.
pub record Writes (w : Message → Message) (bs : List ℕ) : Type 0 where
  pub at : (m : Message) → w m ≡ record m { bytes = m.bytes ++ bs }

pub write_raw_bytes-Writes : (bs : List ℕ) → Writes (write_raw_bytes bs) bs
unfolding write_raw_bytes
write_raw_bytes-Writes bs = record { at = λ m. refl }

pub write_int8-Writes : (v : ℕ) → Writes (write_int8 v) (le_bytes 1 v)
unfolding write_int8
write_int8-Writes v = record { at = λ m. refl }

pub write_int32-Writes : (v : ℕ) → Writes (write_int32 v) (le_bytes 4 v)
unfolding write_int32
write_int32-Writes v = record { at = λ m. refl }

pub write_int64-Writes : (v : ℕ) → Writes (write_int64 v) (le_bytes 8 v)
unfolding write_int64
write_int64-Writes v = record { at = λ m. refl }

pub write_bool-Writes : (v : Bool) → Writes (write_bool v) ((if v then 1 else 0) ∷ [])
unfolding write_bool
write_bool-Writes v = record { at = λ m. refl }

pub write_string-Writes : (s : Text) → Writes (write_string s) (string_bytes s)
unfolding write_string
write_string-Writes s = record {
  at = λ m. rw (append_assoc m.bytes (le_bytes 4 (length s % 2 ^ 32)) s);
}

pub skip-Writes : Writes (λ m. m) []
skip-Writes = record { at = λ m. rw append-nil }

pub then-Writes :
    (v w : Message → Message) {xs ys : List ℕ}
    → Writes v xs
    → Writes w ys
    → Writes (λ m. w (v m)) (xs ++ ys)
then-Writes v w {xs} {ys} hv hw = record {
  at = λ m. rw (hv.at m, hw.at (record m { bytes = m.bytes ++ xs }), append_assoc m.bytes xs ys);
}
