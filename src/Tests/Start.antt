-- ===== src/Tests/Start.antt =====
-- The theorems on the start of the server at small scripts.
use as3chat.Common.{ℕ, zero, suc, ◌<◌, ◌≡◌, refl, true, false, some, none, List, [], ◌∷◌, arith}
use as3chat.Common.Tests.{◌==◌, if◌then◌else◌}
use as3chat.Common.Int.{pos}
use as3chat.Common.Text.{Bytes, lit, str_eq}
use as3chat.Server.{max_rooms, State, ok, fault}
use as3chat.External.{LuaValue, nil, string, number, Global, entries, scalar, Lua}
use as3chat.LuaFunctions.{lua_load_room}
use as3chat.LuaFunctions.RoomNames.{
  strings, named, opened, Opened, lua_load_room-Opened, lua_load_room-overflows,
}
use as3chat.Message.Login.{Env}
use as3chat.Events.{blank_room, start}
use as3chat.Events.Start.{Empty, start-Empty}
use as3chat.Tests.Scene.{scene}
use as3chat.Tests.Environment.{env, event}

abbrev Table : Type 0
Table = List (Bytes × LuaValue)

-- `rooms = { "red", 7, "blue" }`.
abbrev two_rooms : Table
two_rooms =
    (lit "1", string (lit "red")) ∷ (lit "2", number (pos 7)) ∷ (lit "3", string (lit "blue")) ∷ []

abbrev repeated : ℕ → Table
repeated zero = []
repeated (suc n) = (lit "k", string (lit "room")) ∷ repeated n

abbrev globals : Table → Bytes → Global
globals table key = if str_eq key (lit "rooms") then entries table else scalar nil

abbrev script : Table → Lua
script table = record {
  dofile = λ path. some (globals table);
  calls = λ globals name fd e. false;
  tointeger = λ v. none;
  tostring = λ v. none;
}

abbrev script_env : Env
script_env =
    let e = env (event "0" "" "" none) in
    record e { external = record e.external { lua = script two_rooms } }

lua_load_room-Opened_example :
    (t : State) × (lua_load_room (script two_rooms) scene ≡ ok tt t)
    × Opened scene t 0 (lit "red" ∷ lit "blue" ∷ [])
unfolding lit str_eq
lua_load_room-Opened_example =
    lua_load_room-Opened (script two_rooms) (globals two_rooms) two_rooms scene refl refl
      (omega arith)

lua_load_room-overflows_example : lua_load_room (script (repeated 50)) scene ≡ fault
unfolding lit str_eq
lua_load_room-overflows_example =
    lua_load_room-overflows (script (repeated 50)) (globals (repeated 50)) (repeated 50) scene refl
      refl (omega arith)

-- Memory with anything in it.
abbrev garbage : State
garbage = record {
  heap = λ p. none;
  fd_clients = λ fd. 55;
  rooms = λ r. record { enable = pos 7; num = pos r; name = 65 ∷ []; client = 44 };
  hash_table = λ i. record { fd = 9; key = 33 } ∷ [];
  hash_size = 0;
  tasks = [];
  out = [];
}

start-Empty_example :
    (t : State) × (start script_env true garbage ≡ ok true t)
    × Empty t
    × ((r : ℕ)
        → r < max_rooms
        → t.rooms r
          ≡ opened
              (strings two_rooms)
              0
              r
              (if r == 0 then named (lit "Myleft聊天大厅") blank_room else blank_room))
unfolding lit str_eq
start-Empty_example =
    start-Empty script_env garbage (globals two_rooms) two_rooms refl refl refl refl (omega arith)
