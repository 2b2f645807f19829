-- ===== src/Distributed/Total.antt =====
-- Decoding a distributed frame never fails.
use soulseek_rs_lib.Base.{
  ℕ, ◌≡◌, refl, Option, none, length, ltb, ◌==◌, arith, Bool-cases, inl, inr,
}
use soulseek_rs_lib.Base.Text.{Text}
use soulseek_rs_lib.Base.Outcome.{ok}
use soulseek_rs_lib.Message.{Message, Read, get_init_code, set_pointer, read_int8, read_string}
use soulseek_rs_lib.Message.Total.{
  IsTotal, Lands-ok, total_rules, bind-IsTotal, if-IsTotal, read_string-IsTotal, read_int8-IsTotal,
}
use soulseek_rs_lib.Distributed.{
  Distributed, behind_word, parse_query, parse_searcher, parse_search, parse_level, parse_root,
  parse_body, parse_at, parse,
}

abbrev pub Reply : Type 0
Reply = Option Distributed

behind_word-IsTotal : (p : Read Reply) → IsTotal p → IsTotal (behind_word p)
unfolding behind_word
behind_word-IsTotal p h = record { at = λ m. ground (arith, h.at m) }

ruleset frame_rules = (total_rules, behind_word-IsTotal)

parse_query-IsTotal : (username : Text) → IsTotal (parse_query username)
unfolding parse_query
parse_query-IsTotal username = search frame_rules depth 10

parse_searcher-IsTotal : IsTotal parse_searcher
unfolding parse_searcher
parse_searcher-IsTotal =
    bind-IsTotal read_string parse_query read_string-IsTotal parse_query-IsTotal

parse_search-IsTotal : IsTotal parse_search
unfolding parse_search
parse_search-IsTotal = search (frame_rules, parse_searcher-IsTotal) depth 10

parse_level-IsTotal : IsTotal parse_level
unfolding parse_level
parse_level-IsTotal = search frame_rules depth 10

parse_root-IsTotal : IsTotal parse_root
unfolding parse_root
parse_root-IsTotal = search total_rules

parse_body-IsTotal : (code : ℕ) → IsTotal (parse_body code)
unfolding parse_body
parse_body-IsTotal code =
    search (total_rules, parse_search-IsTotal, parse_level-IsTotal, parse_root-IsTotal)

parse_at-IsTotal : (code : ℕ) → IsTotal (parse_at code)
unfolding parse_at
parse_at-IsTotal code =
    if-IsTotal (code == 93) _ _
      (bind-IsTotal read_int8 parse_body read_int8-IsTotal parse_body-IsTotal)
      (parse_body-IsTotal code)

-- Whatever frame arrives, decoding it gives an answer and leaves its bytes.
pub parse_total :
    (m : Message) → (d : Reply) × (n : Message) × (parse m ≡ ok (d, n)) × (n.bytes ≡ m.bytes)
unfolding parse
parse_total m = elim (Bool-cases (ltb (length m.bytes) 5)) [
  | inl short ↦ (none, m, rw short, refl)
  | inr long ↦
      let inside : Message = set_pointer 5 m in
      let code = get_init_code m in
      rw long (Lands-ok inside (parse_at code inside) ((parse_at-IsTotal code).at inside))
]
