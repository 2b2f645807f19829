-- ===== src/Leaf/Budget.antt =====
-- How many searches a leaf answers, and whom it listens to.
use soulseek_rs_lib.Base.{
  ℕ, ◌+◌, ◌-◌, ◌%◌, ◌^◌, length, ◌≤◌, ◌<◌, ◌≡◌, refl, false, Option, none, some, List, [], ◌∷◌, All,
  leb, arith, if◌then◌else◌,
}
use soulseek_rs_lib.Base.Text.{Text}
use soulseek_rs_lib.Base.Int.{ℤ}
use soulseek_rs_lib.Base.Assoc.{lookup, text_key}
use soulseek_rs_lib.Leaf.{
  Leaf, Candidate, search_budget, admit_search, has_link, is_link, from_link, search_at,
  search_under, branch_level, branch_root, search_from, closed, is_parent,
}

-- How many of the searches that arrive at these instants are answered.
abbrev pub admitted : List ℕ → Leaf → ℕ
admitted [] l = 0
admitted (now ∷ rest) l =
    let (admit, next) = admit_search now l in (if admit then 1 else 0) + admitted rest next

same_window :
    (now : ℕ) (l : Leaf)
    → now < l.searches.0 + 1_000
    → l.searches.1 + 1 < 2 ^ 32
    → admit_search now l ≡ (
      leb (l.searches.1 + 1) search_budget,
      record l { searches = (l.searches.0, l.searches.1 + 1) },
    )
unfolding admit_search
same_window now l h small =
    let inside : leb 1_000 (now - l.searches.0) ≡ false = ground arith in
    let count : (l.searches.1 + 1) % 2 ^ 32 ≡ l.searches.1 + 1 = omega arith in
    rw (inside, count) refl

-- Within the second that the leaf counts, however many searches arrive, no more are answered than
-- the budget has left, as long as the `u32` that counts them does not wrap around.
pub admitted-budget :
    (times : List ℕ) (l : Leaf)
    → All (λ now. now < l.searches.0 + 1_000) times
    → l.searches.1 + length times < 2 ^ 32
    → admitted times l ≤ search_budget - l.searches.1
admitted-budget [] l h small = omega arith
admitted-budget (now ∷ rest) l (h, later) small =
    let next : Leaf = record l { searches = (l.searches.0, l.searches.1 + 1) } in
    let ih : admitted rest next ≤ search_budget - (l.searches.1 + 1) =
      admitted-budget rest next later (omega (arith, small)) in
    rw (same_window now l h (omega (arith, small))) (ground arith)

from_link-stale :
    (now : ℕ) (username : Text) (link : ℕ) (change : Candidate → Candidate) (o : Option Candidate)
    (l : Leaf)
    → is_link link o ≡ false
    → from_link now username link change o l ≡ (none, l)
from_link-stale now username link change none l h = refl
from_link-stale now username link change (some c) l h = rw h

search_at-stale :
    (username : Text) (link : ℕ) (o : Option Candidate) (l : Leaf)
    → is_link link o ≡ false
    → search_at username link o l ≡ (none, l)
search_at-stale username link none l h = refl
search_at-stale username link (some c) l h = rw h

search_under-stale :
    (o : Option Text) (username : Text) (link : ℕ) (l : Leaf)
    → has_link username link l ≡ false
    → search_under o username link l ≡ (none, l)
unfolding has_link
search_under-stale none username link l h =
    search_at-stale username link (lookup username l.candidates) l h
search_under-stale (some u) username link l h = refl

-- A link that is no longer the live one to its user changes nothing and moves us nowhere, whatever
-- it says.
pub stale_link :
    (now : ℕ) (username root : Text) (link : ℕ) (level : ℤ) (l : Leaf)
    → has_link username link l ≡ false
    → (branch_level now username link level l ≡ (none, l))
      × (branch_root now username link root l ≡ (none, l))
      × (search_from username link l ≡ (none, l))
      × (closed username link l ≡ (false, l))
      × (is_parent username link l ≡ false)
unfolding branch_level branch_root closed has_link is_parent
stale_link now username root link level l h = (
  from_link-stale now username link _ (lookup username l.candidates) l h,
  from_link-stale now username link _ (lookup username l.candidates) l h,
  unfold search_from in search_under-stale l.parent username link l h,
  rw h,
  ground arith,
)
