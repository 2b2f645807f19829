-- ===== src/Distributed/Frames.antt =====
-- The distributed frames: no input makes the parser panic, and what a parent sends parses back.
use soulseek_rs_lib.Base.{
  ℕ, suc, ◌-◌, ◌%◌, ◌^◌, ◌≤◌, ◌<◌, ◌≡◌, ◌≢◌, ap, false, ◌||◌, none, some, List, [], ◌++◌, length,
  ltb, if◌then◌else◌, arith, length-append, append-nil,
}
use soulseek_rs_lib.Base.Text.{Text}
use soulseek_rs_lib.Base.Int.{ℤ, unsigned32, IsI32, signed32-unsigned32, unsigned32-lt}
use soulseek_rs_lib.Base.Outcome.{ok}
use soulseek_rs_lib.Bytes.{le_bytes, length-le_bytes}
use soulseek_rs_lib.Message.{
  Message, Read, new, new_with_data, get_buffer, get_init_code, read_int32, read_string, write_int8,
  write_int32, write_string,
}
use soulseek_rs_lib.Message.Parses.{
  Parses, cursor, IsText, string_bytes, read_int32-Parses, read_string-Parses, bind-Parses,
  result-Parses,
}
use soulseek_rs_lib.Message.Writes.{
  then-Writes, write_int8-Writes, write_int32-Writes, write_string-Writes,
}
use soulseek_rs_lib.Distributed.{
  Distributed, search_request, branch_level, branch_root, search_identifier, behind_word, is_empty,
  parse_query, parse_searcher, parse_search, parse_level, parse_root, parse_body, parse_at, parse,
  build_search, build_branch_level, build_branch_root,
}
use soulseek_rs_lib.Distributed.Total.{Reply}

-- The messages that a parent sends, and the bytes behind their length prefix.
abbrev pub build : Distributed → Message
build (search_request username token query) = build_search username token query
build (branch_level level) = build_branch_level level
build (branch_root root) = build_branch_root root

-- The facts that a frame can carry: texts that are not empty, a `u32` token, an `i32` level.
abbrev pub IsSendable : Distributed → Type 0
IsSendable (search_request username token query) =
    IsText username × (username ≢ []) × (token < 2 ^ 32) × IsText query × (query ≢ [])
IsSendable (branch_level level) = IsI32 level
IsSendable (branch_root root) = IsText root × (root ≢ [])

abbrev pub code_of : Distributed → ℕ
code_of (search_request _ _ _) = 3
code_of (branch_level _) = 4
code_of (branch_root _) = 5

abbrev pub body_bytes : Distributed → List ℕ
body_bytes (search_request username token query) =
    le_bytes 4 search_identifier
    ++ (string_bytes username ++ (le_bytes 4 token ++ string_bytes query))
body_bytes (branch_level level) = le_bytes 4 (unsigned32 level)
body_bytes (branch_root root) = string_bytes root

pub build-bytes :
    (d : Distributed)
    → build d ≡ record { bytes = le_bytes 1 (code_of d) ++ body_bytes d; pointer = 0 }
unfolding build_search build_branch_level build_branch_root
build-bytes (search_request username token query) =
    (then-Writes (write_int8 3) _ (write_int8-Writes 3) (
        then-Writes (write_int32 search_identifier) _ (write_int32-Writes search_identifier) (
          then-Writes (write_string username) _ (write_string-Writes username) (
            then-Writes (write_int32 token) (write_string query) (write_int32-Writes token)
              (write_string-Writes query))))).at
      new
build-bytes (branch_level level) =
    (then-Writes (write_int8 4) _ (write_int8-Writes 4) (write_int32-Writes (unsigned32 level))).at
      new
build-bytes (branch_root root) =
    (then-Writes (write_int8 5) _ (write_int8-Writes 5) (write_string-Writes root)).at new

behind_word-Parses :
    (p : Read Reply) (bs : List ℕ) (r : Reply)
    → 4 ≤ length bs
    → Parses p bs r
    → Parses (behind_word p) bs r
unfolding behind_word
behind_word-Parses p bs r h k = record {
  at = λ pre rest.
      let enough : ltb (length (pre ++ (bs ++ rest)) - length pre) 4 ≡ false =
        ground (arith, length-append pre (bs ++ rest), length-append bs rest) in
      rw enough (k.at pre rest);
}

-- Four bytes at the front are room for a word.
word_room : (v : ℕ) (rest : List ℕ) → 4 ≤ length (le_bytes 4 v ++ rest)
word_room v rest = omega (arith, length-append (le_bytes 4 v) rest, length-le_bytes 4 v)

both_given :
    (username query : Text) (r : Reply)
    → username ≢ []
    → query ≢ []
    → (if is_empty username || is_empty query then none else r) ≡ r
both_given username query r u q = ground arith

module _ (username : Text) (token : ℕ) (query : Text) (named : IsText username)
    (named_some : username ≢ []) (token_fits : token < 2 ^ 32) (asked : IsText query)
    (asked_some : query ≢ []) where
  parse_query-Parses :
      Parses
        (parse_query username)
        (le_bytes 4 token ++ string_bytes query)
        (some (search_request username token query))
  unfolding parse_query
  parse_query-Parses = behind_word-Parses _ _ _ (word_room token (string_bytes query)) (
      bind-Parses read_int32 _ (read_int32-Parses token token_fits) (
        result-Parses read_string _ (read_string-Parses query asked)
          (both_given username query _ named_some asked_some)))

  parse_search-Parses :
      Parses parse_search
        (body_bytes (search_request username token query))
        (some (search_request username token query))
  unfolding parse_search parse_searcher
  parse_search-Parses = behind_word-Parses _ _ _ (word_room search_identifier _) (
      bind-Parses read_int32 _ (read_int32-Parses search_identifier (omega arith))
        (bind-Parses read_string _ (read_string-Parses username named) parse_query-Parses))

parse_level-Parses :
    (level : ℤ)
    → IsI32 level
    → Parses parse_level (le_bytes 4 (unsigned32 level)) (some (branch_level level))
unfolding parse_level
parse_level-Parses level h =
    behind_word-Parses _ _ _ (omega (arith, length-le_bytes 4 (unsigned32 level))) (
      result-Parses read_int32 _ (read_int32-Parses (unsigned32 level) (unsigned32-lt level))
        (ap (λ i. some (branch_level i)) (signed32-unsigned32 level h)))

root_given :
    (root : Text)
    → root ≢ []
    → (if is_empty root then none else some (branch_root root)) ≡ some (branch_root root)
root_given root h = ground arith

parse_body-Parses :
    (d : Distributed) → IsSendable d → Parses (parse_body (code_of d)) (body_bytes d) (some d)
unfolding parse_body parse_root
parse_body-Parses (search_request username token query) (u, un, t, q, qn) =
    parse_search-Parses username token query u un t q qn
parse_body-Parses (branch_level level) h = parse_level-Parses level h
parse_body-Parses (branch_root root) (h, n) =
    result-Parses read_string _ (read_string-Parses root h) (root_given root n)

-- The frame as it arrives: length prefix, code, body.
abbrev pub frame_of : ℕ → List ℕ → Message
frame_of code body = new_with_data (get_buffer (new_with_data (le_bytes 1 code ++ body)))

-- `parse` on a frame looks at its code byte and reads on behind it.
pub parse-frame :
    (code : ℕ) (body : List ℕ) {n : Message} {r : Reply}
    → code < 256
    → parse_at code
        (cursor (le_bytes 4 ((length (le_bytes 1 code ++ body)) % 2 ^ 32) ++ le_bytes 1 code) body)
      ≡ ok (r, n)
    → parse (frame_of code body) ≡ ok (r, n)
unfolding parse get_buffer get_init_code le_bytes
parse-frame code body h e =
    let same : code % 256 ≡ code = omega arith in
    let long : ltb (suc (suc (suc (suc (suc (length body)))))) 5 ≡ false = ground arith in
    rw (long, same) (rw same at e)

-- The code of a frame decides how its body is read, whatever follows.
parse_frame-body :
    (code : ℕ) (body rest : List ℕ) (r : Reply)
    → code < 256
    → Parses (parse_at code) body r
    → (n : Message) × (parse (frame_of code (body ++ rest)) ≡ ok (r, n))
parse_frame-body code body rest r h k =
    let size : ℕ = length (le_bytes 1 code ++ (body ++ rest)) in
    let prefix : List ℕ = le_bytes 4 (size % 2 ^ 32) ++ le_bytes 1 code in
    (cursor (prefix ++ body) rest, parse-frame code (body ++ rest) h (k.at prefix rest))

parse_at-Parses :
    (d : Distributed) → IsSendable d → Parses (parse_at (code_of d)) (body_bytes d) (some d)
unfolding parse_at
parse_at-Parses (search_request username token query) h =
    parse_body-Parses (search_request username token query) h
parse_at-Parses (branch_level level) h = parse_body-Parses (branch_level level) h
parse_at-Parses (branch_root root) h = parse_body-Parses (branch_root root) h

code_of-lt : (d : Distributed) → code_of d < 256
code_of-lt (search_request _ _ _) = omega arith
code_of-lt (branch_level _) = omega arith
code_of-lt (branch_root _) = omega arith

-- What a parent sends down the tree, framed as `get_buffer` frames it, is decoded as it was meant.
pub parse-build :
    (d : Distributed)
    → IsSendable d
    → (n : Message) × (parse (new_with_data (get_buffer (build d))) ≡ ok (some d, n))
parse-build d h = rw (build-bytes d) (
    rw append-nil at (
      parse_frame-body (code_of d) (body_bytes d) [] (some d) (code_of-lt d) (parse_at-Parses d h)))
