-- ===== src/Leaf/Tests.antt =====
-- A leaf that the server offers two candidates.
use soulseek_rs_lib.Base.{ℕ, some, ◌-◌, ◌≤◌, ◌≡◌, refl, false, List, [], ◌∷◌, arith}
use soulseek_rs_lib.Base.Text.{Text, text, text_eq}
use soulseek_rs_lib.Base.Int.{pos}
use soulseek_rs_lib.Base.Assoc.{lookup, insert, remove, contains, text_key}
use soulseek_rs_lib.Leaf.{
  consider, consider_each, consider_one, adopt, moved_with_parent, Leaf, new, search_budget,
  branch_level, branch_root, search_from, closed, has_link,
}
use soulseek_rs_lib.Leaf.Invariant.{Event, IsWellFormed, all_happen, all_happen-IsWellFormed}
use soulseek_rs_lib.Leaf.Budget.{admitted, admitted-budget}
use soulseek_rs_lib.Leaf.Links.{all_happen-retired}

abbrev leaf : Leaf
leaf = new (text "me") 1_000

abbrev two_candidates : List (Text × Text × ℕ)
two_candidates = (text "ann", text "10.0.0.1", 2234) ∷ (text "bob", text "10.0.0.2", 2234) ∷ []

abbrev events : List Event
events =
    Event.offered two_candidates
    ∷ Event.level_told 1_100 (text "ann") 1 (pos 0)
    ∷ Event.searched (text "ann") 1
    ∷ Event.link_closed (text "ann") 1
    ∷ []

all_happen-IsWellFormed_example : IsWellFormed (all_happen events leaf)
all_happen-IsWellFormed_example = all_happen-IsWellFormed events (text "me") 1_000

admitted-budget_example :
    admitted (1_000 ∷ 1_400 ∷ 1_999 ∷ []) leaf ≤ search_budget - leaf.searches.1
admitted-budget_example =
    admitted-budget (1_000 ∷ 1_400 ∷ 1_999 ∷ []) leaf
      (omega arith, (omega arith, (omega arith, tt))) (omega arith)

-- Ann's first link was closed and she is sounded out again, over the link with number 3.
abbrev offered_again : Leaf
offered_again =
    all_happen
      (Event.link_closed (text "ann") 1
        ∷ Event.offered ((text "ann", text "10.0.0.1", 2234) ∷ [])
        ∷ [])
      (all_happen (Event.offered two_candidates ∷ []) leaf)

abbrev later_events : List Event
later_events =
    Event.level_told 1_100 (text "ann") 3 (pos 0)
    ∷ Event.root_told 1_150 (text "ann") 1 (text "eve")
    ∷ Event.searched (text "ann") 1
    ∷ Event.searched (text "ann") 3
    ∷ Event.link_closed (text "ann") 1
    ∷ []

all_happen-retired_example :
    (all_happen later_events offered_again
      ≡ all_happen
          (Event.level_told 1_100 (text "ann") 3 (pos 0) ∷ Event.searched (text "ann") 3 ∷ [])
          offered_again)
    × (has_link (text "ann") 1 (all_happen later_events offered_again) ≡ false)
unfolding has_link lookup insert remove contains consider consider_each consider_one closed text_eq
all_happen-retired_example =
    all_happen-retired later_events (text "ann") 1 offered_again (omega arith) refl

-- Ann is our parent then, for all that the closed link said.
hangs_from_ann : (all_happen later_events offered_again).parent ≡ some (text "ann")
unfolding has_link lookup insert remove contains consider consider_each consider_one closed text_eq
    branch_level branch_root search_from adopt moved_with_parent
hangs_from_ann = refl
