-- ===== src/Children.antt =====
-- soulseek-rs-lib/src/client/children.rs: the peers that hang from us in the search tree. A socket is
-- an argument: a type of streams, and `write_all`, which gives the stream behind a write or fails.
pub mod Invariant
pub mod Broadcast
mod Tests
use soulseek_rs_lib.Base.{
  ℕ, ◌*◌, ◌/◌, ◌-◌, ◌^◌, Bool, true, false, not, ◌&&◌, Option, none, some, List, [], ◌∷◌, map,
  length, min, ltb, ◌==◌, if◌then◌else◌,
}
use soulseek_rs_lib.Base.Text.{Text, text}
use soulseek_rs_lib.Base.Int.{ℤ, pos}
use soulseek_rs_lib.Base.Assoc.{Map, lookup, insert, remove, contains, text_key}
use soulseek_rs_lib.Message.{Message, get_buffer}
use soulseek_rs_lib.Distributed.{build_branch_root, build_branch_level, build_search}

abbrev pub max_children : ℕ
max_children = 10

unfoldable pub limit_from_speed : Option ℕ → ℕ → ℕ → Option ℕ
limit_from_speed own_speed min_speed ratio = if ratio == 0 then none else (elim own_speed [
  | none ↦ none
  | some speed ↦ if ltb speed min_speed then some 0 else some (speed / ratio / 100)
])

-- `i32::try_from(level).unwrap_or(i32::MAX)`
unfoldable pub clamp_level : ℕ → ℤ
clamp_level level = pos (min level (2 ^ 31 - 1))

module _ (Stream : Type 0) where
  pub record Children : Type 0 where
    pub links : Map Text Stream
    pub max_links : ℕ
    pub accepting : Bool
    pub fed : Bool

module _ {Stream : Type 0} where
  abbrev pub new : Bool → Children Stream
  new accepting = record {
    links = [];
    max_links = max_children;
    accepting = accepting;
    fed = false;
  }

  unfoldable pub set_limits : Option ℕ → ℕ → ℕ → Children Stream → Children Stream
  set_limits own_speed min_speed ratio c = record c {
    max_links = elim (limit_from_speed own_speed min_speed ratio) [
      | none ↦ max_children
      | some limit ↦ min limit max_children
    ];
  }

  unfoldable pub set_fed : Bool → Children Stream → Children Stream
  set_fed fed c = record c { fed = fed }

  abbrev pub is_fed : Children Stream → Bool
  is_fed c = c.fed

  abbrev pub len : Children Stream → ℕ
  len c = length c.links

  unfoldable pub has_room : Children Stream → Bool
  has_room c = c.accepting && c.fed && ltb (length c.links) c.max_links

  unfoldable pub accept : Text → Stream → Children Stream → Bool × Children Stream
  accept username stream c =
      if not (has_room c)
      then (false, c)
      else if contains username c.links
      then (false, c)
      else (true, record c { links = insert username stream c.links })

  unfoldable pub drop_all : Children Stream → Children Stream
  drop_all c = record c { links = [] }

  unfoldable pub remove_child : Text → Children Stream → Children Stream
  remove_child username c = record c { links = remove username c.links }

  unfoldable pub remove_each : List Text → Children Stream → Children Stream
  unfolding remove_child
  remove_each [] c = c
  remove_each (username ∷ rest) c = remove_each rest (remove_child username c)

  -- One turn of the loop of `broadcast`.
  abbrev pub after_write :
      Text → Stream → Option Stream → Map Text Stream × List Text → Map Text Stream × List Text
  after_write username stream none (links, dead) = ((username, stream) ∷ links, username ∷ dead)
  after_write username stream (some written) (links, dead) = ((username, written) ∷ links, dead)

module _ {Stream : Type 0} (write_all : Stream → List ℕ → Option Stream) where
  unfoldable pub send_to : Text → Message → Children Stream → Children Stream
  unfolding remove_child
  send_to username message c = elim (lookup username c.links) [
    | none ↦ c
    | some stream ↦ elim (write_all stream (get_buffer message)) [
      | none ↦ remove_child username c
      | some written ↦ record c { links = insert username written c.links }
    ]
  ]

  -- The loop over the links gives the links behind the writes, and who is dead. A stream whose write
  -- failed stands in the map until it is removed.
  unfoldable pub write_each : List ℕ → Map Text Stream → Map Text Stream × List Text
  write_each bytes [] = ([], [])
  write_each bytes ((username, stream) ∷ rest) =
      after_write username stream (write_all stream bytes) (write_each bytes rest)

  unfoldable pub broadcast : Message → Children Stream → Children Stream
  unfolding write_each remove_each
  broadcast message c =
      let (links, dead) = write_each (get_buffer message) c.links in
      remove_each dead (record c { links = links })

  unfoldable pub send_stance_to : Text → Text → ℕ → Children Stream → Children Stream
  send_stance_to username root level c =
      send_to username (build_branch_level (clamp_level level))
        (send_to username (build_branch_root root) c)

  unfoldable pub broadcast_stance : Text → ℕ → Children Stream → Children Stream
  broadcast_stance root level c =
      broadcast (build_branch_level (clamp_level level)) (broadcast (build_branch_root root) c)

  unfoldable pub broadcast_search : Text → ℕ → Text → Children Stream → Children Stream
  broadcast_search username token query c =
      if length c.links == 0 then c else broadcast (build_search username token query) c
