-- ===== src/Children/Tests.antt =====
-- Children whose sockets take a given number of frames and then fail.
use soulseek_rs_lib.Base.{ℕ, zero, suc, ◌≡◌, refl, true, Option, none, some, List, [], ◌∷◌}
use soulseek_rs_lib.Base.Text.{text, text_eq}
use soulseek_rs_lib.Base.Assoc.{contains, text_key}
use soulseek_rs_lib.Bytes.{le_bytes}
use soulseek_rs_lib.Message.{Message, get_buffer}
use soulseek_rs_lib.Distributed.{build_search}
use soulseek_rs_lib.Children.{Children, new, broadcast, broadcast_stance}
use soulseek_rs_lib.Children.Invariant.{Edit, IsWellFormed, edit_all, edit_all-IsWellFormed}
use soulseek_rs_lib.Children.Broadcast.{reached, broadcast-reached, broadcast_stance-reached}

abbrev takes : ℕ → List ℕ → Option ℕ
takes zero bytes = none
takes (suc left) bytes = some left

abbrev edits : List (Edit ℕ)
edits = Edit.feeds true ∷ Edit.accepts (text "ann") 1 ∷ Edit.accepts (text "bob") 0 ∷ []

edit_all-IsWellFormed_example : IsWellFormed (edit_all takes edits (new true))
edit_all-IsWellFormed_example = edit_all-IsWellFormed takes edits true

abbrev two : Children ℕ
two = record {
  links = (text "ann", 1) ∷ (text "bob", 0) ∷ [];
  max_links = 10;
  accepting = true;
  fed = true;
}

abbrev wanted : Message
wanted = build_search (text "eve") 7 (text "flac")

broadcast-reached_example :
    broadcast takes wanted two ≡ record two { links = reached takes (get_buffer wanted) two.links }
unfolding contains text_eq
broadcast-reached_example = broadcast-reached takes wanted two (refl, (refl, tt))

broadcast_stance-reached_example : broadcast_stance takes (text "root") 3 two ≡ record two {
  links =
      reached takes
        (5 ∷ 0 ∷ 0 ∷ 0 ∷ 4 ∷ 3 ∷ 0 ∷ 0 ∷ 0 ∷ [])
        (reached takes (9 ∷ 0 ∷ 0 ∷ 0 ∷ 5 ∷ 4 ∷ 0 ∷ 0 ∷ 0 ∷ text "root") two.links);
}
unfolding contains text_eq le_bytes
broadcast_stance-reached_example =
    broadcast_stance-reached takes (text "root") 3 two (refl, (refl, tt))
