-- ===== src/Leaf/Stance.antt =====
-- Whom a leaf hangs from, and what may change without changing that.
use soulseek_rs_lib.Base.{ℕ, ◌≡◌, inl, inr, true, false, Option, none, some, [], ◌∷◌, Bool-cases}
use soulseek_rs_lib.Base.Text.{Text, text_eq}
use soulseek_rs_lib.Base.Assoc.{Map, lookup, insert, remove, text_key}
use soulseek_rs_lib.Leaf.{Branch, Candidate, parentless, is_user, is_link}

-- Without a parent we are our own branch; with one, it is the only candidate left.
abbrev pub Stance : Text → Option Text → Branch → Map Text Candidate → Type 0
Stance own none b m = b ≡ parentless own
Stance own (some u) b m = (c : Candidate) × (m ≡ (u, c) ∷ [])

-- How the stance survives changes of the candidates and of the branch.
pub free-Stance :
    (p : Option Text) (own : Text) (b : Branch) (m n : Map Text Candidate)
    → p ≡ none
    → Stance own p b m
    → Stance own p b n
free-Stance none own b m n e s = s
free-Stance (some u) own b m n e s = cc

pub moved-Stance :
    (p : Option Text) (username own : Text) (b d : Branch) (m : Map Text Candidate)
    → is_user username p ≡ true
    → Stance own p b m
    → Stance own p d m
moved-Stance none username own b d m e s = cc
moved-Stance (some u) username own b d m e s = s

pub restocked-Stance :
    (p : Option Text) (username own : Text) (b : Branch) (m : Map Text Candidate) (c d : Candidate)
    → lookup username m ≡ some c
    → Stance own p b m
    → Stance own p b (insert username d m)
unfolding lookup insert
restocked-Stance none username own b m c d e s = s
restocked-Stance (some u) username own b m c d e (held, only) =
    elim (Bool-cases (text_eq u username)) [
      | inl same ↦ (d, rw (only, same))
      | inr other ↦ (let lost : lookup username m ≡ none = rw (only, other) in cc)
    ]

pub removed-Stance :
    (p : Option Text) (username own : Text) (b : Branch) (m : Map Text Candidate) (link : ℕ)
    → is_user username p ≡ false
    → is_link link (lookup username m) ≡ true
    → Stance own p b m
    → Stance own p b (remove username m)
unfolding lookup
removed-Stance none username own b m link e h s = s
removed-Stance (some u) username own b m link e h (held, only) =
    let lost : lookup username m ≡ none = rw (only, e) in
    let no_link : is_link link (lookup username m) ≡ false = rw lost in cc
