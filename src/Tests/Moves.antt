-- ===== src/Tests/Moves.antt =====
-- Bob changes his state, moves, and changes his room, at the scene.
use as3chat.Common.{◌≡◌, refl, inl, some, none, [], ◌∷◌, arith}
use as3chat.Common.Tests.{if◌then◌else◌}
use as3chat.Common.Int.{pos}
use as3chat.Common.Text.{lit, str_eq}
use as3chat.Server.{State, ok}
use as3chat.Server.Commands.{emit, put}
use as3chat.External.{Event}
use as3chat.Messages.{ev_type_user_change_state, state_changed, moved}
use as3chat.Rooms.Chain.{linked}
use as3chat.Rooms.Broadcast.{deliveries, name}
use as3chat.Rooms.Leave.{Roster, Left, outside}
use as3chat.Rooms.Enter.{Entered}
use as3chat.Message.{parse_message, roomid_of, capped}
use as3chat.Message.Moves.{
  Asks, parse_message-change_state, parse_message-move, parse_message-change_room,
}
use as3chat.Tests.Scene.{ann, bob, cid, scene}
use as3chat.Tests.Environment.{env, event}
use as3chat.Tests.Requests.{task, attrs_opened}
use as3chat.Tests.Rooms.{hall, hall-Roster, den, den-Roster}

abbrev away : Event
away = event "23" "state" "2" none

away-Asks :
    Asks
      (env away)
      scene
      task
      away
      ev_type_user_change_state
      0
      ((101, ann) ∷ [])
      bob
      ((103, cid) ∷ [])
unfolding attrs_opened
away-Asks = record {
  request = record { ne_null = omega arith; live = refl; stays = refl; event = refl };
  type = refl;
  roster = hall-Roster;
  fuel = omega arith;
}

parse_message-change_state_example :
    parse_message (env away) task scene
    ≡ ok tt (emit (deliveries (state_changed (name bob) (pos 0)) hall) scene)
unfolding attrs_opened
parse_message-change_state_example =
    parse_message-change_state (env away) scene task away 0 ((101, ann) ∷ []) bob ((103, cid) ∷ [])
      away-Asks

abbrev step_aside : Event
step_aside = record {
  attr = λ k.
      if str_eq k (lit "type")
      then some (lit "100")
      else if str_eq k (lit "x")
      then some (lit "12")
      else if str_eq k (lit "y")
      then some (lit "34")
      else none;
  body = none;
}

parse_message-move_example :
    parse_message (env step_aside) task scene
    ≡ ok tt (
        emit
          (deliveries
            (moved (name bob) (lit "12") (lit "34"))
            ((101, ann) ∷ (102, record bob { x = pos 12; y = pos 34 }) ∷ (103, cid) ∷ []))
          (put 102 (some (record bob { x = pos 12; y = pos 34 })) scene))
unfolding attrs_opened
parse_message-move_example =
    parse_message-move (env step_aside) scene task step_aside 0 ((101, ann) ∷ []) bob
      ((103, cid) ∷ []) (lit "12") (lit "34")
      (record {
        request = record { ne_null = omega arith; live = refl; stays = refl; event = refl };
        type = refl;
        roster = hall-Roster;
        fuel = omega arith;
      })
      refl refl

abbrev to_den : Event
to_den = event "40" "roomid" "2" none

parse_message-change_room_example :
    (u t : State) × (parse_message (env to_den) task scene ≡ ok tt t)
    × Left scene u 0 ((101, ann) ∷ []) 102 bob ((103, cid) ∷ [])
    × Entered u t 2 den 102 (outside (linked bob 103))
    × Roster t 0 ((101, ann) ∷ (103, cid) ∷ [])
unfolding attrs_opened roomid_of capped
parse_message-change_room_example =
    parse_message-change_room (env to_den) scene task to_den 0 2 ((101, ann) ∷ []) bob
      ((103, cid) ∷ []) den
      (record {
        request = record { ne_null = omega arith; live = refl; stays = refl; event = refl };
        type = refl;
        roster = hall-Roster;
        fuel = omega arith;
      })
      refl den-Roster (λ e. cc) refl refl (inl (λ e. cc)) (omega arith)
