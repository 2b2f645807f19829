-- ===== src/Zlib/Result.antt =====
-- What reading a compressed stream can come to. The source's errors are texts; each has a
-- constructor here, and the wrapper `CompressionError` that all of them end in is left out.

pub data InflateError : Type 0 where
  end_of_data invalid_cm invalid_cinfo header_checksum preset_dictionary adler_checksum
        invalid_btype :
      InflateError
  too_big invalid_code no_symbol invalid_length invalid_distance distance_too_large : InflateError
  no_previous_length invalid_symbol : InflateError

-- `panics` is an index out of range; `spins` is a loop that is still running when the fuel of the
-- model is used up.
pub data Result {ℓ} (A : Type ℓ) : Type ℓ where
  done : A → Result A
  refused : InflateError → Result A
  panics spins : Result A

abbrev pub and_then {ℓ κ} : {A : Type ℓ} {B : Type κ} → Result A → (A → Result B) → Result B
and_then (done a) f = f a
and_then (refused e) f = refused e
and_then panics f = panics
and_then spins f = spins
