-- ===== src/Children/Invariant.antt =====
-- How many children hang from us, over every run of the operations.
use soulseek_rs_lib.Base.{
  ℕ, ◌≤◌, ◌<◌, ◌≡◌, inl, inr, Bool, true, Option, List, [], ◌∷◌, arith, length, Bool-cases,
  Option-cases,
}
use soulseek_rs_lib.Base.Text.{Text}
use soulseek_rs_lib.Base.Assoc.{
  Distinct, contains, lookup, text_key, insert-Distinct, remove-Distinct, length-insert,
  length-remove-le, contains-lookup,
}
use soulseek_rs_lib.Message.{Message, get_buffer}
use soulseek_rs_lib.Children.{
  Children, new, max_children, set_limits, limit_from_speed, set_fed, has_room, accept, drop_all,
  remove_child, send_to, broadcast,
}
use soulseek_rs_lib.Children.Broadcast.{broadcast-reached, reached-Distinct, length-reached}

module _ {Stream : Type 0} where
  pub record IsWellFormed (c : Children Stream) : Type 0 where
    pub one_each : Distinct c.links
    pub few : length c.links ≤ max_children
    pub capped : c.max_links ≤ max_children

-- One operation on the children.
pub data Edit (Stream : Type 0) : Type 0 where
  limits : (own_speed : Option ℕ) (min_speed ratio : ℕ) → Edit Stream
  feeds : (fed : Bool) → Edit Stream
  accepts : (username : Text) (stream : Stream) → Edit Stream
  drops_all : Edit Stream
  removes : (username : Text) → Edit Stream
  sends : (username : Text) (message : Message) → Edit Stream
  broadcasts : (message : Message) → Edit Stream

module _ {Stream : Type 0} (write_all : Stream → List ℕ → Option Stream) where
  abbrev pub edit : Edit Stream → Children Stream → Children Stream
  edit (limits own_speed min_speed ratio) c = set_limits own_speed min_speed ratio c
  edit (feeds fed) c = set_fed fed c
  edit (accepts username stream) c = (accept username stream c).1
  edit drops_all c = drop_all c
  edit (removes username) c = remove_child username c
  edit (sends username message) c = send_to write_all username message c
  edit (broadcasts message) c = broadcast write_all message c

  abbrev pub edit_all : List (Edit Stream) → Children Stream → Children Stream
  edit_all [] c = c
  edit_all (e ∷ rest) c = edit_all rest (edit e c)

  set_limits-IsWellFormed :
      (own_speed : Option ℕ) (min_speed ratio : ℕ) (c : Children Stream)
      → IsWellFormed c
      → IsWellFormed (set_limits own_speed min_speed ratio c)
  unfolding set_limits
  set_limits-IsWellFormed own_speed min_speed ratio c w =
      elim (Option-cases (limit_from_speed own_speed min_speed ratio)) [
        | inl e ↦
            rw (e, set_limits) (record { one_each = w.one_each; few = w.few; capped = omega arith })
        | inr (limit, e) ↦
            rw (e, set_limits) (record { one_each = w.one_each; few = w.few; capped = omega arith })
      ]

  has_room-lt : (c : Children Stream) → has_room c ≡ true → length c.links < c.max_links
  unfolding has_room
  has_room-lt c h = ground arith

  accept-IsWellFormed :
      (username : Text) (stream : Stream) (c : Children Stream)
      → IsWellFormed c
      → IsWellFormed (accept username stream c).1
  unfolding accept
  accept-IsWellFormed username stream c w = elim (Bool-cases (has_room c)) [
    | inr full ↦ rw (accept, full) w
    | inl room ↦ elim (Bool-cases (contains username c.links)) [
      | inl known ↦ rw (accept, room, known) w
      | inr fresh ↦
          let below : length c.links < c.max_links = has_room-lt c room in
          rw (accept, room, fresh)
            (record {
              one_each = insert-Distinct username stream c.links w.one_each;
              few = ground (arith, length-insert username stream c.links, w.capped);
              capped = w.capped;
            })
    ]
  ]

  remove_child-IsWellFormed :
      (username : Text) (c : Children Stream)
      → IsWellFormed c
      → IsWellFormed (remove_child username c)
  unfolding remove_child
  remove_child-IsWellFormed username c w = record {
    one_each = remove-Distinct username c.links w.one_each;
    few = omega (arith, w.few, length-remove-le username c.links);
    capped = w.capped;
  }

  send_to-IsWellFormed :
      (username : Text) (message : Message) (c : Children Stream)
      → IsWellFormed c
      → IsWellFormed (send_to write_all username message c)
  unfolding send_to
  send_to-IsWellFormed username message c w = elim (Option-cases (lookup username c.links)) [
    | inl e ↦ rw (send_to, e) w
    | inr (stream, e) ↦ elim (Option-cases (write_all stream (get_buffer message))) [
      | inl f ↦ rw (send_to, e, f) (remove_child-IsWellFormed username c w)
      | inr (written, f) ↦
          rw (send_to, e, f)
            (record {
              one_each = insert-Distinct username written c.links w.one_each;
              few = ground (
                arith,
                w.few,
                length-insert username written c.links,
                contains-lookup username c.links stream e,
              );
              capped = w.capped;
            })
    ]
  ]

  edit-IsWellFormed :
      (e : Edit Stream) (c : Children Stream) → IsWellFormed c → IsWellFormed (edit e c)
  unfolding set_fed drop_all
  edit-IsWellFormed (limits own_speed min_speed ratio) c w =
      set_limits-IsWellFormed own_speed min_speed ratio c w
  edit-IsWellFormed (feeds fed) c w = record {
    one_each = w.one_each;
    few = w.few;
    capped = w.capped;
  }
  edit-IsWellFormed (accepts username stream) c w = accept-IsWellFormed username stream c w
  edit-IsWellFormed drops_all c w = record { one_each = tt; few = omega arith; capped = w.capped }
  edit-IsWellFormed (removes username) c w = remove_child-IsWellFormed username c w
  edit-IsWellFormed (sends username message) c w = send_to-IsWellFormed username message c w
  edit-IsWellFormed (broadcasts message) c w =
      rw (broadcast-reached write_all message c w.one_each) (record {
        one_each = reached-Distinct write_all (get_buffer message) c.links w.one_each;
        few = omega (arith, w.few, length-reached write_all (get_buffer message) c.links);
        capped = w.capped;
      })

  edit_all-keeps :
      (edits : List (Edit Stream)) (c : Children Stream)
      → IsWellFormed c
      → IsWellFormed (edit_all edits c)
  edit_all-keeps [] c w = w
  edit_all-keeps (e ∷ rest) c w = edit_all-keeps rest (edit e c) (edit-IsWellFormed e c w)

  -- Whatever limits, sockets and frames come: at most `max_children` children hang from us, no user
  -- twice, and the cap in force is never above it.
  pub edit_all-IsWellFormed :
      (edits : List (Edit Stream)) (accepting : Bool)
      → IsWellFormed (edit_all edits (new accepting))
  edit_all-IsWellFormed edits accepting =
      edit_all-keeps edits (new accepting)
        (record { one_each = tt; few = omega arith; capped = omega arith })
