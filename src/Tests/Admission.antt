-- ===== src/Tests/Admission.antt =====
-- A login of a guest, as a run of the program.
use as3chat.Message.Login.Welcome.{Arrives, welcomed, logged_in, log_in-Entered}
use as3chat.Rooms.Enter.{Entered}
use as3chat.Tests.Scene.{eve}
use as3chat.Tests.Rooms.{opened, hall, hall-Roster}
use as3chat.Common.{◌≡◌, inr, refl, ◌||◌, none, some, [], arith}
use as3chat.Common.Tests.{◌==◌, if◌then◌else◌}
use as3chat.Common.Int.{pos, minus_one}
use as3chat.Common.Text.{lit, str_eq, decimal, snprintf, strncpy}
use as3chat.Server.{null, Client, fd_wait, fd_success, Run, out_of_fuel, State, ok, fault}
use as3chat.External.{Event}
use as3chat.Message.{parse_message}
use as3chat.Message.{handle, dispatch, handle_auth, roomid_of, capped}
use as3chat.Message.Login.{authenticate, log_in_guest, guest_name, is_guest, log_in}
use as3chat.Message.Admission.{parse_message-admits}
use as3chat.Rooms.{
  other_same_username, join_room, leave_old, enter, link, find_last, welcome, send_userlist,
  userlist_loop, send_message, send_message_all, send_room, send_loop,
}
use as3chat.Nodes.{node_add, get_fdnode_byname, first_other}
use as3chat.HashTable.{
  hash_search, hash_add, bucket, item_key, search_chain, bkdr_hash, bkdr_loop, char_value,
}
use as3chat.LuaFunctions.{lua_get_type, user_type, value_of}
use as3chat.Server.Commands.{
  load, load_fd, load_room, modify, modify_room, read_name, name_of, read_room_name, room_name,
  lock_room, update,
}
use as3chat.Message.Login.Sound.{Credentials}
use as3chat.Tests.Scene.{bob, scene}
use as3chat.Tests.Environment.{env}
use as3chat.Tests.Requests.{task, attrs_opened}

-- Bob has just been accepted, and logs in as a guest into room 1.
abbrev waiting_bob : Client
waiting_bob = record bob { state = fd_wait; roomid = minus_one; next = null }

abbrev waiting_scene : State
waiting_scene = record scene { heap = λ q. if q == 102 then some waiting_bob else none }

abbrev as_guest : Event
as_guest = record {
  attr = λ k.
      if str_eq k (lit "type")
      then some (lit "10")
      else if str_eq k (lit "anonymous") || str_eq k (lit "roomid")
      then some (lit "1")
      else none;
  body = none;
}

abbrev state_after : Run (Unit {0}) → State
state_after (ok _ t) = t
state_after fault = scene
state_after out_of_fuel = scene

abbrev guest_scene : State
guest_scene = state_after (parse_message (env as_guest) task waiting_scene)

abbrev guest_bob : Client
guest_bob = record waiting_bob {
  state = fd_success;
  roomid = pos 1;
  anonymous = pos 1;
  username = strncpy 64 (lit "游客01640");
}

-- What the run of a login opens.
login_opened : Unit {0}
unfolding attrs_opened parse_message handle dispatch handle_auth roomid_of capped authenticate
    log_in_guest guest_name is_guest log_in other_same_username join_room leave_old enter link
    find_last welcome send_userlist userlist_loop send_message send_message_all send_room send_loop
    node_add get_fdnode_byname first_other hash_search hash_add bucket item_key search_chain
    lua_get_type user_type value_of bkdr_hash bkdr_loop char_value load load_fd load_room modify
    modify_room read_name name_of read_room_name room_name lock_room update decimal snprintf
login_opened = tt

parse_message-admits_example : Credentials (env as_guest) as_guest
unfolding login_opened
parse_message-admits_example =
    parse_message-admits (env as_guest) waiting_scene guest_scene task waiting_bob guest_bob
      as_guest (record { ne_null = omega arith; live = refl; stays = refl; event = refl }) refl refl
      refl refl

-- Eve comes into the hall.
eve-Arrives : Arrives (env as_guest) scene 105 eve 0 hall []
unfolding opened
eve-Arrives = record {
  ne_null = omega arith;
  live = refl;
  named = refl;
  fd_range = omega arith;
  known = refl;
  roster = hall-Roster;
  absent = refl;
  enabled = refl;
  room_named = refl;
  unlinked = inr refl;
  bucket = record { made = omega arith; chain = refl; keys = tt };
  in_range = tt;
  alone = refl;
  fuel = omega arith;
}

log_in-Entered_example :
    (t : State) × (log_in (env as_guest) 105 9 (pos 0) scene ≡ ok tt t)
    × Entered
        (welcomed (env as_guest) scene 105 eve 0 hall [] eve-Arrives)
        t
        0
        hall
        105
        (logged_in (env as_guest) eve)
log_in-Entered_example = log_in-Entered (env as_guest) scene 105 eve 0 hall [] eve-Arrives 0 refl
