-- ===== src/Children/Broadcast.antt =====
-- A broadcast reaches every child, and only those whose write failed are let go.
use soulseek_rs_lib.Base.{
  ℕ, ap, ◌+◌, ◌-◌, ◌%◌, ◌^◌, ◌++◌, min, ◌≡◌, ◌≤◌, refl, ◌∙◌, inl, inr, false, Option, none, some,
  List, [], ◌∷◌, arith, any, length, Option-cases,
}
use soulseek_rs_lib.Base.Text.{Text, text_eq, text_eq_iff, text_eq_refl}
use soulseek_rs_lib.Base.Assoc.{Map, Distinct, remove, contains, text_key, remove_absent}
use soulseek_rs_lib.Message.{Message, get_buffer}
use soulseek_rs_lib.Message.Parses.{string_bytes}
use soulseek_rs_lib.Base.Int.{unsigned32}
use soulseek_rs_lib.Bytes.{le_bytes}
use soulseek_rs_lib.Distributed.{branch_level, branch_root, build_branch_root, build_branch_level}
use soulseek_rs_lib.Distributed.Frames.{build-bytes}
use soulseek_rs_lib.Children.{
  Children, write_each, after_write, remove_each, remove_child, broadcast, broadcast_stance,
  clamp_level,
}

module _ {Stream : Type 0} where
  abbrev pub keep_written : Text → Option Stream → Map Text Stream → Map Text Stream
  keep_written username none others = others
  keep_written username (some written) others = (username, written) ∷ others

-- On the wire: the length, the code and the `i32` level.
abbrev pub level_frame : ℕ → List ℕ
level_frame level = (5 ∷ 0 ∷ 0 ∷ 0 ∷ []) ++ (4 ∷ le_bytes 4 level)

-- On the wire: the length, the code and the text behind its own length.
abbrev pub root_frame : Text → List ℕ
root_frame root =
    le_bytes 4 ((5 + length root) % 2 ^ 32) ++ (5 ∷ le_bytes 4 (length root % 2 ^ 32) ++ root)

build_level-frame :
    (level : ℕ)
    → get_buffer (build_branch_level (clamp_level level)) ≡ level_frame (min level (2 ^ 31 - 1))
unfolding clamp_level unsigned32 get_buffer le_bytes
build_level-frame level =
    let same : min level (2 ^ 31 - 1) % 2 ^ 32 ≡ min level (2 ^ 31 - 1) = ground arith in
    rw (build-bytes (branch_level (clamp_level level))) (rw same refl)

build_root-frame : (root : Text) → get_buffer (build_branch_root root) ≡ root_frame root
unfolding get_buffer le_bytes
build_root-frame root =
    let size : length (le_bytes 1 5 ++ string_bytes root) ≡ 5 + length root = omega arith in
    rw (build-bytes (branch_root root))
      (ap (λ n. le_bytes 4 (n % 2 ^ 32) ++ (5 ∷ string_bytes root)) size)

module _ {Stream : Type 0} (write_all : Stream → List ℕ → Option Stream) where
  -- The links whose write succeeds, behind that write.
  unfoldable pub reached : List ℕ → Map Text Stream → Map Text Stream
  reached bytes [] = []
  reached bytes ((username, stream) ∷ rest) =
      keep_written username (write_all stream bytes) (reached bytes rest)

  abbrev with_links : Map Text Stream → Children Stream → Children Stream
  with_links links c = record c { links = links }

  after_write-dead :
      (username u : Text) (stream : Stream) (o : Option Stream) (p : Map Text Stream × List Text)
      → text_eq u username ≡ false
      → any (λ d. text_eq d username) p.1 ≡ false
      → any (λ d. text_eq d username) (after_write u stream o p).1 ≡ false
  after_write-dead username u stream none p h k = rw h k
  after_write-dead username u stream (some written) p h k = k

  -- Only those to whom something is written can be dead.
  dead-absent :
      (bytes : List ℕ) (username : Text) (m : Map Text Stream)
      → contains username m ≡ false
      → any (λ d. text_eq d username) (write_each write_all bytes m).1 ≡ false
  unfolding write_each contains
  dead-absent bytes username [] h = refl
  dead-absent bytes username ((u, stream) ∷ rest) h =
      after_write-dead username u stream (write_all stream bytes) (write_each write_all bytes rest)
        (ground arith) (dead-absent bytes username rest (ground arith))

  text_eq_sym : (s t : Text) → text_eq s t ≡ text_eq t s
  text_eq_sym s t = ground (arith, text_eq_iff s t, text_eq_iff t s)

  remove-skip :
      (d username : Text) (stream : Stream) (m : Map Text Stream)
      → text_eq d username ≡ false
      → remove d ((username, stream) ∷ m) ≡ (username, stream) ∷ remove d m
  unfolding remove
  remove-skip d username stream m h = rw (text_eq_sym username d, h)

  remove-here :
      (username : Text) (stream : Stream) (m : Map Text Stream)
      → contains username m ≡ false
      → remove username ((username, stream) ∷ m) ≡ m
  unfolding remove
  remove-here username stream m h = rw (text_eq_refl username) (remove_absent username m h)

  -- A child that is not dead stays where it is.
  remove_each-front :
      (dead : List Text) (username : Text) (stream : Stream) (m : Map Text Stream)
      (c : Children Stream)
      → any (λ d. text_eq d username) dead ≡ false
      → remove_each dead (with_links ((username, stream) ∷ m) c)
        ≡ with_links ((username, stream) ∷ (remove_each dead (with_links m c)).links) c
  unfolding remove_each remove_child
  remove_each-front [] username stream m c h = refl
  remove_each-front (d ∷ rest) username stream m c h =
      let other : text_eq d username ≡ false = ground arith in
      let later : any (λ e. text_eq e username) rest ≡ false = ground arith in
      rw (
        remove-skip d username stream m other,
        remove_each-front rest username stream (remove d m) c later,
      )

  contains-written :
      (bytes : List ℕ) (username : Text) (m : Map Text Stream)
      → contains username (write_each write_all bytes m).0 ≡ contains username m
  unfolding write_each contains
  contains-written bytes username [] = refl
  contains-written bytes username ((u, stream) ∷ rest) =
      elim (Option-cases (write_all stream bytes)) [
        | inl e ↦ rw (e, contains-written bytes username rest)
        | inr (written, e) ↦ rw (e, contains-written bytes username rest)
      ]

  remove_each-first :
      (username : Text) (dead : List Text) (m : Map Text Stream) (c : Children Stream)
      → remove_each (username ∷ dead) (with_links m c)
        ≡ remove_each dead (with_links (remove username m) c)
  unfolding remove_each remove_child
  remove_each-first username dead m c = refl

  remove_each-written :
      (bytes : List ℕ) (m : Map Text Stream) (c : Children Stream)
      → Distinct m
      → let (links, dead) = write_each write_all bytes m in
        remove_each dead (with_links links c) ≡ with_links (reached bytes m) c
  unfolding write_each reached
  remove_each-written bytes [] c d = unfold remove_each in refl
  remove_each-written bytes ((username, stream) ∷ rest) c (absent, d) =
      elim (Option-cases (write_all stream bytes)) [
        | inl e ↦ rw (
          e,
          remove_each-first username (write_each write_all bytes rest).1
              ((username, stream) ∷ (write_each write_all bytes rest).0) c,
          remove-here username stream (write_each write_all bytes rest).0
              (contains-written bytes username rest ∙ absent),
          remove_each-written bytes rest c d,
        )
        | inr (written, e) ↦ rw (
          e,
          remove_each-front (write_each write_all bytes rest).1 username written
              (write_each write_all bytes rest).0 c (dead-absent bytes username rest absent),
          remove_each-written bytes rest c d,
        )
      ]

  -- Where no child stands twice, a broadcast leaves exactly the children whose write succeeded, each
  -- behind that write and in their order, and changes nothing else.
  pub broadcast-reached :
      (message : Message) (c : Children Stream)
      → Distinct c.links
      → broadcast write_all message c ≡ record c { links = reached (get_buffer message) c.links }
  unfolding broadcast
  broadcast-reached message c d = remove_each-written (get_buffer message) c.links c d

  contains-reached :
      (bytes : List ℕ) (username : Text) (m : Map Text Stream)
      → contains username m ≡ false
      → contains username (reached bytes m) ≡ false
  unfolding reached contains
  contains-reached bytes username [] h = refl
  contains-reached bytes username ((u, stream) ∷ rest) h =
      elim (Option-cases (write_all stream bytes)) [
        | inl e ↦ rw e (contains-reached bytes username rest (ground arith))
        | inr (written, e) ↦
            let other : text_eq u username ≡ false = ground arith in
            rw (e, other) (contains-reached bytes username rest (ground arith))
      ]

  pub reached-Distinct :
      (bytes : List ℕ) (m : Map Text Stream) → Distinct m → Distinct (reached bytes m)
  unfolding reached
  reached-Distinct bytes [] d = tt
  reached-Distinct bytes ((u, stream) ∷ rest) (absent, d) =
      elim (Option-cases (write_all stream bytes)) [
        | inl e ↦ rw e (reached-Distinct bytes rest d)
        | inr (written, e) ↦
            rw e (contains-reached bytes u rest absent, reached-Distinct bytes rest d)
      ]

  pub length-reached : (bytes : List ℕ) (m : Map Text Stream) → length (reached bytes m) ≤ length m
  unfolding reached
  length-reached bytes [] = omega arith
  length-reached bytes ((u, stream) ∷ rest) = elim (Option-cases (write_all stream bytes)) [
    | inl e ↦ rw e (omega (arith, length-reached bytes rest))
    | inr (written, e) ↦ rw e (omega (arith, length-reached bytes rest))
  ]

  -- Where no child stands twice: a child that still hangs from us after our branch moved was sent the
  -- frame of the new root and then the frame of the new level, a level above the largest `i32` as that
  -- one; the children of whom a write failed are gone, and nothing else changes.
  pub broadcast_stance-reached :
      (root : Text) (level : ℕ) (c : Children Stream)
      → Distinct c.links
      → broadcast_stance write_all root level c ≡ record c {
        links = reached (level_frame (min level (2 ^ 31 - 1))) (reached (root_frame root) c.links);
      }
  unfolding broadcast_stance
  broadcast_stance-reached root level c d =
      rw (← build_root-frame root, ← build_level-frame level)
        (rw (
          broadcast-reached (build_branch_root root) c d,
          broadcast-reached (build_branch_level (clamp_level level))
              (with_links (reached (get_buffer (build_branch_root root)) c.links) c)
              (reached-Distinct (get_buffer (build_branch_root root)) c.links d),
        ))
