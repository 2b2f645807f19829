-- ===== src/Leaf.antt =====
-- soulseek-rs-lib/src/client/distributed.rs: `Leaf`, the place of the client in the search tree. The
-- flag that stops the thread of a candidate is its link number in `cancelled`. Instants are
-- milliseconds; the instant that `moved_with_parent` reads is an argument. Link numbers are taken
-- as unbounded: they count up from 1 in 64 bits.
pub mod Stance
pub mod Invariant
pub mod Budget
pub mod Links
mod Tests
use soulseek_rs_lib.Base.{
  ℕ, zero, ◌+◌, ◌-◌, ◌%◌, ◌^◌, Bool, true, false, not, ◌&&◌, ◌||◌, Option, none, some, List, [],
  ◌∷◌, ◌++◌, map, length, min, ltb, leb, ◌==◌, if◌then◌else◌,
}
use soulseek_rs_lib.Base.Text.{Text, text_eq}
use soulseek_rs_lib.Base.Int.{ℤ, pos, negsuc}
use soulseek_rs_lib.Base.Assoc.{Map, lookup, insert, remove, contains, text_key}

abbrev pub max_candidates : ℕ
max_candidates = 10

abbrev pub search_budget : ℕ
search_budget = 50

-- One second, in milliseconds.
abbrev pub move_interval : ℕ
move_interval = 1_000

pub record Branch : Type 0 where
  pub root : Text
  pub level : ℕ

pub record Candidate : Type 0 where
  pub link : ℕ
  pub level : Option ℕ
  pub root : Option Text

pub record Dial : Type 0 where
  pub link : ℕ
  pub username : Text
  pub host : Text
  pub port : ℕ

pub record Leaf : Type 0 where
  pub own : Text
  pub parent : Option Text
  pub branch : Branch
  pub candidates : Map Text Candidate
  pub next_link : ℕ
  pub searches : ℕ × ℕ
  pub moved : Option ℕ
  pub move_pending : Bool
  pub cancelled : List ℕ

abbrev pub under : Text → ℕ → Branch
under root level = record { root = root; level = level }

abbrev pub parentless : Text → Branch
parentless own = under own 0

abbrev pub new : Text → ℕ → Leaf
new own now = record {
  own = own;
  parent = none;
  branch = parentless own;
  candidates = [];
  next_link = 1;
  searches = (now, 0);
  moved = none;
  move_pending = false;
  cancelled = [];
}

abbrev pub is_link : ℕ → Option Candidate → Bool
is_link link none = false
is_link link (some c) = c.link == link

unfoldable pub has_link : Text → ℕ → Leaf → Bool
has_link username link l = is_link link (lookup username l.candidates)

abbrev pub is_user : Text → Option Text → Bool
is_user username none = false
is_user username (some u) = text_eq u username

unfoldable pub is_parent : Text → ℕ → Leaf → Bool
is_parent username link l = is_user username l.parent && has_link username link l

abbrev pub sounded : ℕ → Candidate
sounded link = record { link = link; level = none; root = none }

-- One candidate that the server offers.
unfoldable pub consider_one : Text → Text → ℕ → Leaf → List Dial × Leaf
consider_one username host port l =
    if contains username l.candidates || leb max_candidates (length l.candidates)
    then ([], l)
    else (
      record { link = l.next_link; username = username; host = host; port = port } ∷ [],
      record l {
        next_link = l.next_link + 1;
        candidates = insert username (sounded l.next_link) l.candidates;
      },
    )

unfoldable pub consider_each : List (Text × Text × ℕ) → Leaf → List Dial × Leaf
consider_each [] l = ([], l)
consider_each ((username, host, port) ∷ rest) l =
    let (dial, next) = consider_one username host port l in
    let (dials, last) = consider_each rest next in (dial ++ dials, last)

abbrev pub consider_under : Option Text → List (Text × Text × ℕ) → Leaf → List Dial × Leaf
consider_under none offered l = consider_each offered l
consider_under (some u) offered l = ([], l)

unfoldable pub consider : List (Text × Text × ℕ) → Leaf → List Dial × Leaf
consider offered l = consider_under l.parent offered l

unfoldable pub due_announcement : ℕ → Leaf → Option Branch × Leaf
due_announcement now l =
    if not l.move_pending
      || (elim l.moved [ none ↦ false | some at_time ↦ ltb (now - at_time) move_interval ])
    then (none, l)
    else (some l.branch, record l { move_pending = false; moved = some now })

-- `saturating_add(1)` on `u32`
unfoldable pub one_below : ℕ → ℕ
one_below level = min (level + 1) (2 ^ 32 - 1)

-- The branch that a candidate's facts put us on, once it has told both.
abbrev pub place_under : Candidate → Option Branch
place_under c = elim c.root [
  | none ↦ none
  | some root ↦ (elim c.level [ none ↦ none | some level ↦ some (under root (one_below level)) ])
]

abbrev pub same_branch : Branch → Branch → Bool
same_branch a b = text_eq a.root b.root && a.level == b.level

abbrev pub move_to : ℕ → Option Branch → Leaf → Option Branch × Leaf
move_to now none l = (none, l)
move_to now (some b) l =
    if same_branch b l.branch
    then (none, l)
    else due_announcement now (record l { branch = b; move_pending = true })

unfoldable pub moved_with_parent : ℕ → Text → Candidate → Leaf → Option Branch × Leaf
moved_with_parent now username c l =
    if is_user username l.parent then move_to now (place_under c) l else (none, l)

-- `u32::try_from(level).ok()`
abbrev pub as_level : ℤ → Option ℕ
as_level (pos n) = some n
as_level (negsuc n) = none

abbrev pub with_level : Text → ℤ → Candidate → Candidate
with_level username (pos zero) c = record c { level = some 0; root = some username }
with_level username level c = record c { level = as_level level }

abbrev pub update : ℕ → Text → Candidate → Leaf → Option Branch × Leaf
update now username c l =
    moved_with_parent now username c (record l { candidates = insert username c l.candidates })

-- `link` says what `change` makes of the candidate, if it is the live link to `username`.
abbrev pub from_link :
    ℕ → Text → ℕ → (Candidate → Candidate) → Option Candidate → Leaf → Option Branch × Leaf
from_link now username link change none l = (none, l)
from_link now username link change (some c) l =
    if c.link == link then update now username (change c) l else (none, l)

unfoldable pub branch_level : ℕ → Text → ℕ → ℤ → Leaf → Option Branch × Leaf
branch_level now username link level l =
    from_link now username link (with_level username level) (lookup username l.candidates) l

unfoldable pub branch_root : ℕ → Text → ℕ → Text → Leaf → Option Branch × Leaf
branch_root now username link root l =
    from_link now username link (λ c. record c { root = some root }) (lookup username l.candidates)
      l

abbrev links_of : Map Text Candidate → List ℕ
links_of m = map (λ (e : Text × Candidate). e.1.link) m

-- The adoption of a candidate as our parent: every other one is cancelled and forgotten.
unfoldable pub adopt : Text → Candidate → Branch → Leaf → Leaf
adopt username c b l = record l {
  cancelled = l.cancelled ++ links_of (remove username l.candidates);
  candidates = (username, c) ∷ [];
  parent = some username;
  branch = b;
}

abbrev pub adopted : Text → Candidate → Option Branch → Leaf → Option Branch × Leaf
adopted username c none l = (none, l)
adopted username c (some b) l = (some b, adopt username c b l)

abbrev pub search_at : Text → ℕ → Option Candidate → Leaf → Option Branch × Leaf
search_at username link none l = (none, l)
search_at username link (some c) l =
    if c.link == link then adopted username c (place_under c) l else (none, l)

-- We adopt only while we hang from nobody.
abbrev pub search_under : Option Text → Text → ℕ → Leaf → Option Branch × Leaf
search_under none username link l = search_at username link (lookup username l.candidates) l
search_under (some u) username link l = (none, l)

unfoldable pub search_from : Text → ℕ → Leaf → Option Branch × Leaf
search_from username link l = search_under l.parent username link l

-- The `u32` counter wraps around in a release build; a debug build panics there.
unfoldable pub admit_search : ℕ → Leaf → Bool × Leaf
admit_search now l =
    let (start, used) : ℕ × ℕ = if leb 1_000 (now - l.searches.0) then (now, 0) else l.searches in
    let count : ℕ = (used + 1) % 2 ^ 32 in
    (leb count search_budget, record l { searches = (start, count) })

unfoldable pub closed : Text → ℕ → Leaf → Bool × Leaf
closed username link l =
    if not (has_link username link l)
    then (false, l)
    else if not (is_user username l.parent)
    then (false, record l { candidates = remove username l.candidates })
    else (
      true,
      record l {
        candidates = remove username l.candidates;
        parent = none;
        branch = parentless l.own;
      },
    )

unfoldable pub reset : Leaf → Leaf
reset l = record l {
  cancelled = l.cancelled ++ links_of l.candidates;
  candidates = [];
  parent = none;
  branch = parentless l.own;
}
