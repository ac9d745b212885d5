-- ===== src/Tests/Rooms.antt =====
-- The theorems on rooms at the scene.
use as3chat.Common.{◌≡◌, refl, inl, inr, [], ◌∷◌, arith}
use as3chat.Common.Int.{pos, ◌+ℤ◌}
use as3chat.Common.Text.{has_nul, c_string, lit}
use as3chat.Server.{State, ok}
use as3chat.Server.Commands.{emit}
use as3chat.Rooms.{return_success, send_message_all, send_userlist, leave_room, join_room}
use as3chat.Rooms.Chain.{Members, linked}
use as3chat.Rooms.Broadcast.{
  Seats, deliveries, listing, send_message_all-deliveries, send_userlist-listing,
}
use as3chat.Rooms.Leave.{AllSit, Roster, Left, outside, leave_room-Left}
use as3chat.Rooms.Enter.{inside, MayEnter, Entered}
use as3chat.Rooms.Join.{join_room-moves}
use as3chat.Rooms.Drag.{join_room_drags}
use as3chat.Tests.Scene.{ann, bob, cid, dan, eve, scene, scene_heap, scene_fds, scene_rooms, array}

-- What the evaluation of the scene opens.
unfoldable pub opened : Unit {0}
unfolding scene_heap scene_fds scene_rooms array has_nul c_string
opened = tt

abbrev pub hall : Members
hall = (101, ann) ∷ (102, bob) ∷ (103, cid) ∷ []

abbrev pub den : Members
den = (104, dan) ∷ []

pub hall-Roster : Roster scene 0 hall
unfolding opened
hall-Roster = record {
  seats = record { in_range = omega arith; starts = refl; chain = ground arith };
  distinct = ground arith;
  sit = ground arith;
}

pub den-Roster : Roster scene 2 den
unfolding opened
den-Roster = record {
  seats = record { in_range = omega arith; starts = refl; chain = ground arith };
  distinct = ground arith;
  sit = ground arith;
}

eve-MayEnter : MayEnter scene 0 hall 105 eve
unfolding opened
eve-MayEnter = record {
  roster = hall-Roster;
  enabled = refl;
  room_named = refl;
  absent = refl;
  ne_null = omega arith;
  live = refl;
  sits = ground arith;
  unlinked = inr refl;
}

send_message_all-deliveries_example :
    send_message_all 10 6 (lit "hi") scene ≡ ok tt (emit (deliveries (lit "hi") hall) scene)
unfolding opened
send_message_all-deliveries_example =
    send_message_all-deliveries 10 0 scene 6 102 bob (lit "hi") hall (omega arith) refl
      (omega arith) refl refl hall-Roster.seats (omega arith)

send_userlist-listing_example : send_userlist 10 102 scene ≡ ok tt (emit (listing 6 hall) scene)
unfolding opened
send_userlist-listing_example =
    send_userlist-listing 10 0 scene 102 bob hall (omega arith) refl refl refl hall-Roster.seats
      (refl, (refl, (refl, tt))) (omega arith)

leave_room-Left_example :
    (t : State) × (leave_room 10 102 scene ≡ ok return_success t)
    × Left scene t 0 ((101, ann) ∷ []) 102 bob ((103, cid) ∷ [])
leave_room-Left_example =
    leave_room-Left 10 0 scene ((101, ann) ∷ []) 102 bob ((103, cid) ∷ []) hall-Roster (omega arith)

join_room-moves_example :
    (u t : State) × (join_room 10 102 (pos 2) scene ≡ ok return_success t)
    × Left scene u 0 ((101, ann) ∷ []) 102 bob ((103, cid) ∷ [])
    × Entered u t 2 den 102 (outside (linked bob 103))
    × Roster t 0 ((101, ann) ∷ (103, cid) ∷ [])
unfolding opened
join_room-moves_example =
    join_room-moves 10 0 2 scene ((101, ann) ∷ []) 102 bob ((103, cid) ∷ []) den hall-Roster
      den-Roster (λ e. cc) refl refl (inl (λ e. cc)) (omega arith) (omega arith)

-- Bob goes into the empty room 1, and Cid is listed there.
join_room_drags_example :
    (t : State) × (join_room 10 102 (pos 1) scene ≡ ok return_success t)
    × Seats t 1 ((102, inside 1 bob) ∷ (103, cid) ∷ [])
    × Seats t 0 ((101, ann) ∷ (103, cid) ∷ [])
    × AllSit t.fd_clients 0 ((103, cid) ∷ [])
    × ((t.rooms 1).num ≡ (scene.rooms 1).num +ℤ pos 1)
unfolding opened
join_room_drags_example =
    join_room_drags 10 0 1 scene ((101, ann) ∷ []) 102 bob ((103, cid) ∷ []) hall-Roster
      (omega arith) refl (omega arith) refl refl (omega arith)
