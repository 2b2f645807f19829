-- ===== src/Leaf/Links.antt =====
-- What a leaf makes of a link to a candidate that it has given up: closed, cancelled, or replaced by a
-- newer link to the same user.
mod Retired
use soulseek_rs_lib.Base.{
  ℕ, zero, suc, ◌<◌, ◌-◌, ◌≡◌, refl, ap, inl, inr, Bool, true, false, not, ◌&&◌, List, [], ◌∷◌,
  retain, ◌==◌, arith, Bool-cases,
}
use soulseek_rs_lib.Base.Text.{Text, text_eq, text_eq_iff}
use soulseek_rs_lib.Base.Int.{ℤ, pos, negsuc}
use soulseek_rs_lib.Base.Assoc.{lookup, text_key}
use soulseek_rs_lib.Leaf.{
  Leaf, Candidate, consider, has_link, with_level, branch_level, branch_root, search_from,
  admit_search, closed, reset,
}
use soulseek_rs_lib.Leaf.Invariant.{
  Event, offered, level_told, root_told, searched, counted, announced, link_closed, session_reset,
  happens, all_happen,
}
use soulseek_rs_lib.Leaf.Budget.{stale_link}
use soulseek_rs_lib.Leaf.Links.Retired.{
  IsRetired, consider_under-IsRetired, due_announcement-IsRetired, from_link-IsRetired,
  search_under-IsRetired, closed-IsRetired,
}

-- What the leaf hears over this link to this user.
abbrev pub is_from : Text → ℕ → Event → Bool
is_from username link (level_told now u k level) = text_eq u username && k == link
is_from username link (root_told now u k root) = text_eq u username && k == link
is_from username link (searched u k) = text_eq u username && k == link
is_from username link (link_closed u k) = text_eq u username && k == link
is_from username link (offered candidates) = false
is_from username link (counted now) = false
is_from username link (announced now) = false
is_from username link session_reset = false

module _ (username : Text) (link : ℕ) where
  happens-IsRetired :
      (e : Event) (l : Leaf) → IsRetired username link l → IsRetired username link (happens e l)
  unfolding consider branch_level branch_root search_from admit_search reset has_link lookup
  happens-IsRetired (offered offers) l r =
      consider_under-IsRetired username link l.parent offers l r
  happens-IsRetired (level_told now u k level) l r =
      from_link-IsRetired username link now u k (with_level u level) (lookup u l.candidates) l
        (with_level-link u level) refl r
    where
      with_level-link :
          (u : Text) (level : ℤ) (c : Candidate) → (with_level u level c).link ≡ c.link
      with_level-link u (pos zero) c = refl
      with_level-link u (pos (suc n)) c = refl
      with_level-link u (negsuc n) c = refl
  happens-IsRetired (root_told now u k root) l r =
      from_link-IsRetired username link now u k _ (lookup u l.candidates) l (λ c. refl) refl r
  happens-IsRetired (searched u k) l r = search_under-IsRetired username link l.parent u k l r
  happens-IsRetired (counted now) l r = r
  happens-IsRetired (announced now) l r = due_announcement-IsRetired username link now l r
  happens-IsRetired (link_closed u k) l r = closed-IsRetired username link u k l r
  happens-IsRetired session_reset l (old, h) = (old, refl)

  stale :
      (u : Text) (k : ℕ) (l : Leaf)
      → (text_eq u username && k == link) ≡ true
      → IsRetired username link l
      → has_link u k l ≡ false
  stale u k l same (old, h) =
      let user : u ≡ username = (text_eq_iff u username).0 (ground arith) in
      let number : k ≡ link = ground arith in rw (user, number) h

  happens-retired :
      (e : Event) (l : Leaf)
      → is_from username link e ≡ true
      → IsRetired username link l
      → happens e l ≡ l
  happens-retired (level_told now u k level) l h r =
      ap (λ p. p.1) (stale_link now u [] k level l (stale u k l h r)).0
  happens-retired (root_told now u k root) l h r =
      ap (λ p. p.1) (stale_link now u root k (pos 0) l (stale u k l h r)).1
  happens-retired (searched u k) l h r =
      ap (λ p. p.1) (stale_link 0 u [] k (pos 0) l (stale u k l h r)).2
  happens-retired (link_closed u k) l h r =
      ap (λ p. p.1) (stale_link 0 u [] k (pos 0) l (stale u k l h r)).3
  happens-retired (offered offers) l h r = cc
  happens-retired (counted now) l h r = cc
  happens-retired (announced now) l h r = cc
  happens-retired session_reset l h r = cc

-- Once a link to a user was handed out and is not the live one any more, it stays so, and the leaf
-- goes through every further history, offers of the same user and newer links to it included, as if
-- nothing had come in over that link and as if it had not been closed again.
pub all_happen-retired :
    (events : List Event) (username : Text) (link : ℕ) (l : Leaf)
    → link < l.next_link
    → has_link username link l ≡ false
    → (all_happen events l ≡ all_happen (retain (λ e. not (is_from username link e)) events) l)
      × (has_link username link (all_happen events l) ≡ false)
all_happen-retired [] username link l old h = (refl, h)
all_happen-retired (e ∷ rest) username link l old h =
    let (later, retired) = happens-IsRetired username link e l (old, h) in
    let ih = all_happen-retired rest username link (happens e l) later retired in
    elim (Bool-cases (is_from username link e)) [
      | inl theirs ↦
          let same : happens e l ≡ l = happens-retired username link e l theirs (old, h) in
          rw theirs (rw same (all_happen-retired rest username link l old h))
      | inr other ↦ rw other ih
    ]
