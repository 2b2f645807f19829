-- ===== src/Leaf/Links/Retired.antt =====
-- A link that the leaf has given up stays given up, whatever operation follows.
use soulseek_rs_lib.Base.{
  ℕ, ◌<◌, ◌-◌, ◌≡◌, refl, sym, ap, ◌∙◌, inl, inr, true, false, not, ◌||◌, Option, none, some, List,
  [], ◌∷◌, length, ltb, leb, ◌==◌, if◌then◌else◌, arith, Bool-cases,
}
use soulseek_rs_lib.Base.Text.{Text, text_eq, text_eq_iff}
use soulseek_rs_lib.Base.Assoc.{
  Map, lookup, insert, remove, contains, text_key, lookup-insert, lookup-remove,
}
use soulseek_rs_lib.Leaf.{
  Leaf, Branch, Candidate, sounded, max_candidates, move_interval, consider_one, consider_each,
  consider_under, due_announcement, move_to, place_under, same_branch, moved_with_parent, is_user,
  is_link, has_link, from_link, adopt, adopted, search_at, search_under, closed,
}

-- A link number that was handed out and is not the live link to this user.
abbrev pub IsRetired : Text → ℕ → Leaf → Type 0
IsRetired username link l = (link < l.next_link) × (has_link username link l ≡ false)

module _ (username : Text) (link : ℕ) where
  inserted :
      (u : Text) (c : Candidate) (m : Map Text Candidate)
      → (text_eq u username ≡ true → (c.link == link) ≡ false)
      → is_link link (lookup username m) ≡ false
      → is_link link (lookup username (insert u c m)) ≡ false
  inserted u c m other h =
      let found = lookup-insert u username c m in
      elim (Bool-cases (text_eq u username)) [
        | inl same ↦ rw (found, same) (other same)
        | inr different ↦ rw (found, different) h
      ]

  removed :
      (u : Text) (m : Map Text Candidate)
      → is_link link (lookup username m) ≡ false
      → is_link link (lookup username (remove u m)) ≡ false
  removed u m h =
      let found = lookup-remove u username m in
      elim (Bool-cases (text_eq u username)) [
        | inl same ↦ rw (found, same) refl
        | inr different ↦ rw (found, different) h
      ]

  -- The candidate of `u` does not stand behind our link, if `u` is our user.
  not_ours :
      (u : Text) (c : Candidate) (m : Map Text Candidate)
      → lookup u m ≡ some c
      → is_link link (lookup username m) ≡ false
      → text_eq u username ≡ true
      → (c.link == link) ≡ false
  not_ours u c m e h same =
      let theirs : lookup username m ≡ some c =
        ap (λ s. lookup s m) (sym ((text_eq_iff u username).0 same)) ∙ e in
      sym (ap (is_link link) theirs) ∙ h

  consider_one-IsRetired :
      (u host : Text) (port : ℕ) (l : Leaf)
      → IsRetired username link l
      → IsRetired username link (consider_one u host port l).1
  unfolding consider_one has_link
  consider_one-IsRetired u host port l (old, h) =
      elim (Bool-cases (contains u l.candidates || leb max_candidates (length l.candidates))) [
        | inl full ↦ rw full (old, h)
        | inr room ↦
            rw room
              (omega arith, inserted u (sounded l.next_link) l.candidates (λ same. ground arith) h)
      ]

  consider_each-IsRetired :
      (offers : List (Text × Text × ℕ)) (l : Leaf)
      → IsRetired username link l
      → IsRetired username link (consider_each offers l).1
  unfolding consider_each
  consider_each-IsRetired [] l r = r
  consider_each-IsRetired ((u, host, port) ∷ rest) l r =
      consider_each-IsRetired rest (consider_one u host port l).1
        (consider_one-IsRetired u host port l r)

  pub consider_under-IsRetired :
      (o : Option Text) (offers : List (Text × Text × ℕ)) (l : Leaf)
      → IsRetired username link l
      → IsRetired username link (consider_under o offers l).1
  consider_under-IsRetired none offers l r = consider_each-IsRetired offers l r
  consider_under-IsRetired (some u) offers l r = r

  pub due_announcement-IsRetired :
      (now : ℕ) (l : Leaf)
      → IsRetired username link l
      → IsRetired username link (due_announcement now l).1
  unfolding due_announcement has_link
  due_announcement-IsRetired now l r =
      elim (Bool-cases (
        not l.move_pending
        || (elim l.moved [ none ↦ false | some at_time ↦ ltb (now - at_time) move_interval ]))) [
          | inl wait ↦ rw wait r
          | inr due ↦ rw due r
        ]

  move_to-IsRetired :
      (now : ℕ) (o : Option Branch) (l : Leaf)
      → IsRetired username link l
      → IsRetired username link (move_to now o l).1
  unfolding has_link
  move_to-IsRetired now none l r = r
  move_to-IsRetired now (some b) l r = elim (Bool-cases (same_branch b l.branch)) [
    | inl same ↦ rw same r
    | inr new_place ↦
        rw new_place
          (due_announcement-IsRetired now (record l { branch = b; move_pending = true }) r)
  ]

  moved_with_parent-IsRetired :
      (now : ℕ) (u : Text) (c : Candidate) (l : Leaf)
      → IsRetired username link l
      → IsRetired username link (moved_with_parent now u c l).1
  unfolding moved_with_parent
  moved_with_parent-IsRetired now u c l r = elim (Bool-cases (is_user u l.parent)) [
    | inl theirs ↦ rw theirs (move_to-IsRetired now (place_under c) l r)
    | inr other ↦ rw other r
  ]

  pub from_link-IsRetired :
      (now : ℕ) (u : Text) (k : ℕ) (change : Candidate → Candidate) (o : Option Candidate)
      (l : Leaf)
      → ((c : Candidate) → (change c).link ≡ c.link)
      → lookup u l.candidates ≡ o
      → IsRetired username link l
      → IsRetired username link (from_link now u k change o l).1
  unfolding has_link
  from_link-IsRetired now u k change none l keeps e r = r
  from_link-IsRetired now u k change (some c) l keeps e (old, h) = elim (Bool-cases (c.link == k)) [
    | inr stale ↦ rw stale (old, h)
    | inl live ↦
        let after : Leaf = record l { candidates = insert u (change c) l.candidates } in
        let other = λ (same : text_eq u username ≡ true).
          ap (λ n. n == link) (keeps c) ∙ not_ours u c l.candidates e h same in
        rw live (
          moved_with_parent-IsRetired now u (change c) after
            (old, inserted u (change c) l.candidates other h))
  ]

  adopted-IsRetired :
      (u : Text) (c : Candidate) (o : Option Branch) (l : Leaf)
      → lookup u l.candidates ≡ some c
      → IsRetired username link l
      → IsRetired username link (adopted u c o l).1
  unfolding adopt has_link lookup
  adopted-IsRetired u c none l e r = r
  adopted-IsRetired u c (some b) l e (old, h) = (old, alone)
    where
      alone : is_link link (if text_eq u username then some c else none) ≡ false
      alone = elim (Bool-cases (text_eq u username)) [
        | inl same ↦ rw same (not_ours u c l.candidates e h same)
        | inr different ↦ rw different refl
      ]

  pub search_under-IsRetired :
      (p : Option Text) (u : Text) (k : ℕ) (l : Leaf)
      → IsRetired username link l
      → IsRetired username link (search_under p u k l).1
  search_under-IsRetired (some parent) u k l r = r
  search_under-IsRetired none u k l r = found (lookup u l.candidates) refl
    where
      found :
          (o : Option Candidate)
          → lookup u l.candidates ≡ o
          → IsRetired username link (search_at u k o l).1
      found none e = r
      found (some c) e = elim (Bool-cases (c.link == k)) [
        | inl live ↦ rw live (adopted-IsRetired u c (place_under c) l e r)
        | inr stale ↦ rw stale r
      ]

  pub closed-IsRetired :
      (u : Text) (k : ℕ) (l : Leaf)
      → IsRetired username link l
      → IsRetired username link (closed u k l).1
  unfolding closed has_link
  closed-IsRetired u k l (old, h) =
      let gone = removed u l.candidates h in
      elim (Bool-cases (is_link k (lookup u l.candidates))) [
        | inr stale ↦ rw stale (old, h)
        | inl live ↦ elim (Bool-cases (is_user u l.parent)) [
          | inl theirs ↦ rw (live, theirs) (old, gone)
          | inr other ↦ rw (live, other) (old, gone)
        ]
      ]
