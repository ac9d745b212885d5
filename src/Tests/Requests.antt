-- ===== src/Tests/Requests.antt =====
-- The theorems on requests at the scene.
use as3chat.Common.{◌≡◌, inl, inr, refl, false, ◌&&◌, not, none, some, [], ◌∷◌, arith}
use as3chat.Common.Tests.{◌==◌, if◌then◌else◌}
use as3chat.Common.Int.{pos}
use as3chat.Common.Text.{lit, str_eq, atoi}
use as3chat.Server.{Client, fd_wait, Task, State, write, ok, fault}
use as3chat.Server.Commands.{emit}
use as3chat.External.{Event}
use as3chat.Messages.{public_message, private_message}
use as3chat.Message.{parse_message, script_returns}
use as3chat.Message.Login.{attr, authenticate}
use as3chat.Message.Login.Sound.{Judged, authenticate-Judged}
use as3chat.Message.Gate.{is_typed, parse_message-unauthenticated, parse_message-not_admin}
use as3chat.Message.Chat.{IsMessage, parse_message-public, parse_message-private}
use as3chat.Rooms.Broadcast.{deliveries, name}
use as3chat.Tests.Scene.{ann, bob, scene, named_scene}
use as3chat.Tests.Rooms.{opened, hall, hall-Roster}
use as3chat.Tests.Nodes.{bob_entry, bob-InBucket}
use as3chat.Tests.Environment.{env, event}

-- A request of Bob.
abbrev pub task : Task
task = record { client = 102; logout = false; text = [] }

abbrev pub hello : Event
hello = event "30" "to" "all" (some (lit "hello"))

abbrev whisper : Event
whisper = event "30" "to" "bob" (some (lit "psst"))

abbrev goout : Event
goout = event "90" "username" "ann" none

-- What the evaluation of the requests opens.
unfoldable pub attrs_opened : Unit {0}
unfolding opened str_eq atoi attr
attrs_opened = tt

hello-IsMessage : IsMessage (env hello) scene task bob hello 0 hall (lit "hello")
unfolding attrs_opened
hello-IsMessage = record {
  request = record { ne_null = omega arith; live = refl; stays = refl; event = refl };
  type = refl;
  sits = record { room = refl; online = refl; named = refl; fd_range = omega arith; known = refl };
  seats = hall-Roster.seats;
  fuel = omega arith;
  has_body = refl;
}

parse_message-public_example :
    parse_message (env hello) task scene
    ≡ ok tt (emit (deliveries (public_message (name bob) (pos 1000) (lit "hello")) hall) scene)
unfolding attrs_opened
parse_message-public_example =
    parse_message-public (env hello) scene task bob hello 0 hall (lit "hello") hello-IsMessage refl
      (inr refl)

-- Ann speaks to Bob.
abbrev pub ann_task : Task
ann_task = record { client = 101; logout = false; text = [] }

parse_message-private_example :
    parse_message (env whisper) ann_task named_scene
    ≡ ok tt (
        emit
          (write 6 (private_message (name ann) (lit "bob") (pos 1000) (lit "psst"))
            ∷ write 5 (private_message (name ann) (lit "bob") (pos 1000) (lit "psst"))
            ∷ [])
          named_scene)
unfolding attrs_opened
parse_message-private_example =
    parse_message-private (env whisper) named_scene ann_task ann whisper 0 hall (lit "psst")
      (lit "bob") bob_entry (some bob)
      (record {
        request = record { ne_null = omega arith; live = refl; stays = refl; event = refl };
        type = refl;
        sits = record {
          room = refl;
          online = refl;
          named = refl;
          fd_range = omega arith;
          known = refl;
        };
        seats = record {
          in_range = hall-Roster.seats.in_range;
          starts = hall-Roster.seats.starts;
          chain = hall-Roster.seats.chain;
        };
        fuel = omega arith;
        has_body = refl;
      })
      refl refl refl refl bob-InBucket (omega arith, tt) (omega arith, refl)

-- Nobody but Bob, who has not logged in.
abbrev new_bob : Client
new_bob = record bob { state = fd_wait }

abbrev new_scene : State
new_scene = record scene { heap = λ q. if q == 102 then some new_bob else none }

parse_message-unauthenticated_example : parse_message (env hello) task new_scene ≡ (
    if is_typed hello && not (script_returns (env hello) 6 hello) then fault else ok tt new_scene)
unfolding attrs_opened
parse_message-unauthenticated_example =
    parse_message-unauthenticated (env hello) new_scene task new_bob hello
      (record { ne_null = omega arith; live = refl; stays = refl; event = refl }) refl (λ e. cc)

parse_message-not_admin_example :
    parse_message (env goout) task scene
    ≡ (if script_returns (env goout) 6 goout then ok tt scene else fault)
unfolding attrs_opened
parse_message-not_admin_example =
    parse_message-not_admin (env goout) scene task bob goout 90
      (record { ne_null = omega arith; live = refl; stays = refl; event = refl }) refl refl refl
      (inl refl)

authenticate-Judged_example :
    Judged (env hello) hello 102 fd_wait (authenticate (env hello) 102 6 hello new_scene)
unfolding attrs_opened
authenticate-Judged_example =
    authenticate-Judged (env hello) hello 102 6 fd_wait new_scene (omega arith)
      (record { client = new_bob; live = refl; same = refl })
