-- ===== src/Leaf/Invariant.antt =====
-- Where a leaf hangs, over every run of its operations.
use soulseek_rs_lib.Base.{
  ℕ, ◌-◌, ◌≤◌, ◌≡◌, refl, inl, inr, true, false, not, ◌||◌, Option, none, some, List, [], ◌∷◌,
  length, ltb, leb, ◌==◌, arith, Bool-cases,
}
use soulseek_rs_lib.Base.Text.{Text}
use soulseek_rs_lib.Base.Int.{ℤ}
use soulseek_rs_lib.Base.Assoc.{
  Distinct, lookup, remove, contains, text_key, insert-Distinct, remove-Distinct, length-insert,
  length-remove-le, contains-lookup,
}
use soulseek_rs_lib.Leaf.{
  Leaf, Branch, move_interval, Candidate, new, sounded, max_candidates, consider_one, consider_each,
  consider_under, consider, due_announcement, move_to, place_under, same_branch, moved_with_parent,
  is_user, has_link, with_level, from_link, branch_level, branch_root, adopt, adopted, search_at,
  search_under, search_from, admit_search, closed, reset,
}
use soulseek_rs_lib.Leaf.Stance.{
  Stance, free-Stance, moved-Stance, restocked-Stance, removed-Stance,
}

pub record IsWellFormed (l : Leaf) : Type 0 where
  pub stance : Stance l.own l.parent l.branch l.candidates
  pub one_each : Distinct l.candidates
  pub few : length l.candidates ≤ max_candidates

consider_one-stays :
    (username host : Text) (port : ℕ) (l : Leaf)
    → l.parent ≡ none
    → IsWellFormed l
    → ((consider_one username host port l).1.parent ≡ none)
      × IsWellFormed (consider_one username host port l).1
unfolding consider_one
consider_one-stays username host port l p w = elim (Bool-cases (contains username l.candidates)) [
  | inl known ↦ rw (consider_one, known) (p, w)
  | inr fresh ↦ elim (Bool-cases (leb max_candidates (length l.candidates))) [
    | inl full ↦ rw (consider_one, fresh, full) (p, w)
    | inr room ↦
        rw (consider_one, fresh, room)
          (
            p,
            record {
              stance = free-Stance l.parent l.own l.branch l.candidates _ p w.stance;
              one_each = insert-Distinct username (sounded l.next_link) l.candidates w.one_each;
              few = ground (arith, length-insert username (sounded l.next_link) l.candidates);
            },
          )
  ]
]

consider_each-IsWellFormed :
    (offered : List (Text × Text × ℕ)) (l : Leaf)
    → l.parent ≡ none
    → IsWellFormed l
    → IsWellFormed (consider_each offered l).1
unfolding consider_each
consider_each-IsWellFormed [] l p w = w
consider_each-IsWellFormed ((username, host, port) ∷ rest) l p w =
    let (q, v) = consider_one-stays username host port l p w in
    consider_each-IsWellFormed rest (consider_one username host port l).1 q v

consider_under-IsWellFormed :
    (o : Option Text) (offered : List (Text × Text × ℕ)) (l : Leaf)
    → l.parent ≡ o
    → IsWellFormed l
    → IsWellFormed (consider_under o offered l).1
consider_under-IsWellFormed none offered l p w = consider_each-IsWellFormed offered l p w
consider_under-IsWellFormed (some u) offered l p w = w

due_announcement-IsWellFormed :
    (now : ℕ) (l : Leaf) → IsWellFormed l → IsWellFormed (due_announcement now l).1
unfolding due_announcement
due_announcement-IsWellFormed now l w =
    elim (Bool-cases (
      not l.move_pending
      || (elim l.moved [ none ↦ false | some at_time ↦ ltb (now - at_time) move_interval ]))) [
        | inl wait ↦ rw (due_announcement, wait) w
        | inr due ↦
            rw (due_announcement, due)
              (record { stance = w.stance; one_each = w.one_each; few = w.few })
      ]

move_to-IsWellFormed :
    (now : ℕ) (username : Text) (o : Option Branch) (l : Leaf)
    → is_user username l.parent ≡ true
    → IsWellFormed l
    → IsWellFormed (move_to now o l).1
move_to-IsWellFormed now username none l p w = w
move_to-IsWellFormed now username (some b) l p w = elim (Bool-cases (same_branch b l.branch)) [
  | inl same ↦ rw same w
  | inr new_place ↦ rw new_place (
      due_announcement-IsWellFormed now _ (record {
        stance = moved-Stance l.parent username l.own l.branch b l.candidates p w.stance;
        one_each = w.one_each;
        few = w.few;
      }))
]

moved_with_parent-IsWellFormed :
    (now : ℕ) (username : Text) (c : Candidate) (l : Leaf)
    → IsWellFormed l
    → IsWellFormed (moved_with_parent now username c l).1
unfolding moved_with_parent
moved_with_parent-IsWellFormed now username c l w = elim (Bool-cases (is_user username l.parent)) [
  | inl theirs ↦
      rw (moved_with_parent, theirs) (move_to-IsWellFormed now username (place_under c) l theirs w)
  | inr other ↦ rw (moved_with_parent, other) w
]

from_link-IsWellFormed :
    (now : ℕ) (username : Text) (link : ℕ) (change : Candidate → Candidate) (o : Option Candidate)
    (l : Leaf)
    → lookup username l.candidates ≡ o
    → IsWellFormed l
    → IsWellFormed (from_link now username link change o l).1
from_link-IsWellFormed now username link change none l e w = w
from_link-IsWellFormed now username link change (some c) l e w =
    elim (Bool-cases (c.link == link)) [
      | inr stale ↦ rw stale w
      | inl live ↦ rw live (
          moved_with_parent-IsWellFormed now username (change c) _ (record {
            stance =
                restocked-Stance l.parent username l.own l.branch l.candidates c (change c) e
                  w.stance;
            one_each = insert-Distinct username (change c) l.candidates w.one_each;
            few = ground (
              arith,
              w.few,
              length-insert username (change c) l.candidates,
              contains-lookup username l.candidates c e,
            );
          }))
    ]

adopted-IsWellFormed :
    (username : Text) (c : Candidate) (o : Option Branch) (l : Leaf)
    → IsWellFormed l
    → IsWellFormed (adopted username c o l).1
unfolding adopt contains
adopted-IsWellFormed username c none l w = w
adopted-IsWellFormed username c (some b) l w = record {
  stance = (c, refl);
  one_each = (refl, tt);
  few = omega arith;
}

search_under-IsWellFormed :
    (p : Option Text) (username : Text) (link : ℕ) (l : Leaf)
    → IsWellFormed l
    → IsWellFormed (search_under p username link l).1
search_under-IsWellFormed (some u) username link l w = w
search_under-IsWellFormed none username link l w = found (lookup username l.candidates)
  where
    found : (o : Option Candidate) → IsWellFormed (search_at username link o l).1
    found none = w
    found (some c) = elim (Bool-cases (c.link == link)) [
      | inl live ↦ rw live (adopted-IsWellFormed username c (place_under c) l w)
      | inr stale ↦ rw stale w
    ]

closed-IsWellFormed :
    (username : Text) (link : ℕ) (l : Leaf)
    → IsWellFormed l
    → IsWellFormed (closed username link l).1
unfolding closed
closed-IsWellFormed username link l w =
    let few : length (remove username l.candidates) ≤ max_candidates =
      omega (arith, w.few, length-remove-le username l.candidates) in
    let one_each = remove-Distinct username l.candidates w.one_each in
    elim (Bool-cases (has_link username link l)) [
      | inr stale ↦ rw (closed, stale) w
      | inl live ↦ elim (Bool-cases (is_user username l.parent)) [
        | inl theirs ↦
            rw (closed, live, theirs) (record { stance = refl; one_each = one_each; few = few })
        | inr other ↦
            rw (closed, live, other)
              (record {
                stance =
                    removed-Stance l.parent username l.own l.branch l.candidates link other
                      (unfold has_link in live) w.stance;
                one_each = one_each;
                few = few;
              })
      ]
    ]

-- What can happen to a leaf.
pub data Event : Type 0 where
  offered : List (Text × Text × ℕ) → Event
  level_told : (now : ℕ) (username : Text) (link : ℕ) (level : ℤ) → Event
  root_told : (now : ℕ) (username : Text) (link : ℕ) (root : Text) → Event
  searched : (username : Text) (link : ℕ) → Event
  counted announced : (now : ℕ) → Event
  link_closed : (username : Text) (link : ℕ) → Event
  session_reset : Event

abbrev pub happens : Event → Leaf → Leaf
happens (offered candidates) l = (consider candidates l).1
happens (level_told now username link level) l = (branch_level now username link level l).1
happens (root_told now username link root) l = (branch_root now username link root l).1
happens (searched username link) l = (search_from username link l).1
happens (counted now) l = (admit_search now l).1
happens (announced now) l = (due_announcement now l).1
happens (link_closed username link) l = (closed username link l).1
happens session_reset l = reset l

abbrev pub all_happen : List Event → Leaf → Leaf
all_happen [] l = l
all_happen (e ∷ rest) l = all_happen rest (happens e l)

happens-IsWellFormed : (e : Event) (l : Leaf) → IsWellFormed l → IsWellFormed (happens e l)
unfolding consider branch_level branch_root search_from admit_search reset
happens-IsWellFormed (offered candidates) l w =
    consider_under-IsWellFormed l.parent candidates l refl w
happens-IsWellFormed (level_told now username link level) l w =
    from_link-IsWellFormed now username link (with_level username level)
      (lookup username l.candidates) l refl w
happens-IsWellFormed (root_told now username link root) l w =
    from_link-IsWellFormed now username link _ (lookup username l.candidates) l refl w
happens-IsWellFormed (searched username link) l w =
    search_under-IsWellFormed l.parent username link l w
happens-IsWellFormed (counted now) l w = record {
  stance = w.stance;
  one_each = w.one_each;
  few = w.few;
}
happens-IsWellFormed (announced now) l w = due_announcement-IsWellFormed now l w
happens-IsWellFormed (link_closed username link) l w = closed-IsWellFormed username link l w
happens-IsWellFormed session_reset l w = record { stance = refl; one_each = tt; few = omega arith }

all_happen-keeps :
    (events : List Event) (l : Leaf) → IsWellFormed l → IsWellFormed (all_happen events l)
all_happen-keeps [] l w = w
all_happen-keeps (e ∷ rest) l w = all_happen-keeps rest (happens e l) (happens-IsWellFormed e l w)

-- Whatever the server offers and the candidates say, in whatever order: at most `max_candidates`
-- candidates are sounded out, no user twice; without a parent the leaf is its own branch, and with
-- one nobody else is a candidate.
pub all_happen-IsWellFormed :
    (events : List Event) (own : Text) (now : ℕ) → IsWellFormed (all_happen events (new own now))
all_happen-IsWellFormed events own now =
    all_happen-keeps events (new own now)
      (record { stance = refl; one_each = tt; few = omega arith })
