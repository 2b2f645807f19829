-- ===== src/Distributed/Envelope.antt =====
-- Envelopes: frames of code 93 that carry another frame.
use soulseek_rs_lib.Base.{
  ℕ, ◌-◌, ◌%◌, ◌^◌, ◌<◌, ◌≡◌, ◌≢◌, ◌∙◌, refl, false, Bool-cases, inl, inr, none, List, [], ◌++◌,
  append-nil, length, ltb, ◌==◌, arith, length-append,
}
use soulseek_rs_lib.Base.Text.{Text}
use soulseek_rs_lib.Base.Outcome.{ok}
use soulseek_rs_lib.Bytes.{le_bytes}
use soulseek_rs_lib.Message.{Message, Read, read_int32, read_string}
use soulseek_rs_lib.Message.Parses.{cursor, read_int8-Parses}
use soulseek_rs_lib.Message.Local.{
  Reads, IsLocal, pure-IsLocal, bind-IsLocal, if-IsLocal, read_int32-IsLocal, read_string-IsLocal,
}
use soulseek_rs_lib.Distributed.{
  search_identifier, behind_word, remaining, parse_query, parse_searcher, parse_search, parse_level,
  parse_root, parse_body, parse_at, parse,
}
use soulseek_rs_lib.Distributed.Total.{Reply}
use soulseek_rs_lib.Distributed.Frames.{frame_of, parse-frame}

room : (pre tail : List ℕ) → ltb (length (pre ++ tail) - length pre) 4 ≡ ltb (length tail) 4
room pre tail =
    let left : length (pre ++ tail) - length pre ≡ length tail =
      omega (arith, length-append pre tail) in
    rw left refl

behind_word-IsLocal : (p : Read Reply) → IsLocal p → IsLocal (behind_word p)
unfolding behind_word remaining
behind_word-IsLocal p h tail = elim (Bool-cases (ltb (length tail) 4)) [
  | inl short ↦ record {
    value = none;
    passed = [];
    left = tail;
    whole = refl;
    at = λ pre. rw (room pre tail, short, append-nil pre) refl;
  }
  | inr long ↦
      let read = h tail in
      record {
        value = read.value;
        passed = read.passed;
        left = read.left;
        whole = read.whole;
        at = λ pre. rw (room pre tail, long) (read.at pre);
      }
]

parse_query-IsLocal : (username : Text) → IsLocal (parse_query username)
unfolding parse_query
parse_query-IsLocal username = behind_word-IsLocal _ (
    bind-IsLocal read_int32 _ read_int32-IsLocal
      (λ token. bind-IsLocal read_string _ read_string-IsLocal (λ query. pure-IsLocal _)))

parse_search-IsLocal : IsLocal parse_search
unfolding parse_search parse_searcher
parse_search-IsLocal = behind_word-IsLocal _ (
    bind-IsLocal read_int32 _ read_int32-IsLocal (λ identifier.
      if-IsLocal (identifier == search_identifier) _ _
        (bind-IsLocal read_string parse_query read_string-IsLocal parse_query-IsLocal)
        (pure-IsLocal none)))

parse_level-IsLocal : IsLocal parse_level
unfolding parse_level
parse_level-IsLocal =
    behind_word-IsLocal _ (bind-IsLocal read_int32 _ read_int32-IsLocal (λ level. pure-IsLocal _))

parse_root-IsLocal : IsLocal parse_root
unfolding parse_root
parse_root-IsLocal = bind-IsLocal read_string _ read_string-IsLocal (λ root. pure-IsLocal _)

parse_body-IsLocal : (code : ℕ) → IsLocal (parse_body code)
unfolding parse_body
parse_body-IsLocal code = if-IsLocal (code == 3) _ _ parse_search-IsLocal (
    if-IsLocal (code == 4) _ _ parse_level-IsLocal
      (if-IsLocal (code == 5) _ _ parse_root-IsLocal (pure-IsLocal none)))

-- What `parse_body` reads behind an envelope's inner code.
unwrapped :
    (code : ℕ) (body : List ℕ) (inner : Reads (parse_body code) body)
    → code < 256
    → (k : Message) × (parse (frame_of 93 (le_bytes 1 code ++ body)) ≡ ok (inner.value, k))
unfolding parse_at
unwrapped code body inner h =
    let size : ℕ = length (le_bytes 1 93 ++ (le_bytes 1 code ++ body)) in
    let prefix : List ℕ = le_bytes 4 (size % 2 ^ 32) ++ le_bytes 1 93 in
    (
      cursor ((prefix ++ le_bytes 1 code) ++ inner.passed) inner.left,
      parse-frame 93 (le_bytes 1 code ++ body) (omega arith)
          (rw ((read_int8-Parses code h).at prefix body) (inner.at (prefix ++ le_bytes 1 code))),
    )

-- A frame that is no envelope is decoded to the same, or to nothing as well, when it comes in an
-- envelope (code 93), whatever its code and its body; and what stands in an envelope within an
-- envelope is nobody's message.
pub envelope_once :
    (code : ℕ) (body : List ℕ)
    → code < 256
    → code ≢ 93
    → ((reply : Reply) × (n : Message) × (k : Message) × (parse (frame_of code body)
          ≡ ok (reply, n))
        × (parse (frame_of 93 (le_bytes 1 code ++ body)) ≡ ok (reply, k)))
      × ((n : Message) × (parse (frame_of 93 (le_bytes 1 93 ++ body)) ≡ ok (none, n)))
envelope_once code body h other =
    let inner = parse_body-IsLocal code body in
    let prefix : List ℕ =
      le_bytes 4 (length (le_bytes 1 code ++ body) % 2 ^ 32) ++ le_bytes 1 code in
    let plain : parse_at code (cursor prefix body) ≡ parse_body code (cursor prefix body) =
      (let no_envelope : (code == 93) ≡ false = ground arith in
        unfold parse_at in rw no_envelope refl) in
    let (k, wrapped) = unwrapped code body inner h in
    let nobody : Reads (parse_body 93) body = record {
      value = none;
      passed = [];
      left = body;
      whole = refl;
      at = λ pre. unfold parse_body in rw (append-nil pre) refl;
    } in
    (
      (
        inner.value,
        cursor (prefix ++ inner.passed) inner.left,
        k,
        parse-frame code body h (plain ∙ inner.at prefix),
        wrapped,
      ),
      unwrapped 93 body nobody (omega arith),
    )
