-- ===== src/LuaFunctions.antt =====
-- 1.0/server/luafunction.c: the settings, rooms, keys and ranks that the Lua scripts give.
pub mod RoomNames
use Prim.Native.String.{String}
use as3chat.Common.{ℕ, suc, Option, none, some, List, [], ◌∷◌}
use as3chat.Common.Tests.{ltb, if◌then◌else◌}
use as3chat.Common.Int.{ℤ, pos, ◌<ℤ◌}
use as3chat.Common.Text.{Bytes, lit, str_eq, strncpy}
use as3chat.Server.{
  max_char_length, max_buffer_length, max_rooms, client_type_none, Cmd, skip, ◌>>◌,
}
use as3chat.Server.Commands.{modify_room}
use as3chat.External.{LuaValue, nil, string, Global, entries, scalar, Lua}

-- The globals that `lua_load_config` sets. The texts are arrays.
pub record Config : Type 0 where
  pub port : ℤ
  pub t_min : ℤ
  pub dbport : ℤ
  pub dbhost : Bytes
  pub dbuser : Bytes
  pub dbpass : Bytes
  pub dbname : Bytes
  pub dbtable : Bytes
  pub fieldusername : Bytes
  pub fieldpassword : Bytes
  pub fieldsalt : Bytes
  pub crossdomain : Bytes

-- The value of a global; a table is neither a number nor a string.
unfoldable pub value_of : Global → LuaValue
value_of (entries _) = LuaValue.table
value_of (scalar v) = v

-- `lua_getglobal`, and the variable set if it holds a number, or a string cut to an array.
pub number_or : Lua → Global → ℤ → ℤ
number_or lua g old = elim (lua.tointeger (value_of g)) [ none ↦ old | some n ↦ n ]

pub text_or : Lua → ℕ → Global → Bytes → Bytes
text_or lua size g old = elim (lua.tostring (value_of g)) [ none ↦ old | some t ↦ strncpy size t ]

pub at_least_one : ℤ → ℤ
at_least_one n = if n <ℤ pos 1 then pos 1 else n

-- `t_min` is raised to one only where the script sets it.
pub threads_or : Lua → Global → ℤ → ℤ
threads_or lua g old = elim (lua.tointeger (value_of g)) [ none ↦ old | some n ↦ at_least_one n ]

pub configured : Lua → (Bytes → Global) → Config → Config
configured lua global c =
    let get = λ (key : String). global (lit key) in
    record {
      port = number_or lua (get "port") c.port;
      t_min = threads_or lua (get "pthread") c.t_min;
      dbport = number_or lua (get "dbport") c.dbport;
      dbhost = text_or lua max_char_length (get "dbhost") c.dbhost;
      dbuser = text_or lua max_char_length (get "dbuser") c.dbuser;
      dbpass = text_or lua max_char_length (get "dbpass") c.dbpass;
      dbname = text_or lua max_char_length (get "dbname") c.dbname;
      dbtable = text_or lua max_char_length (get "dbtable") c.dbtable;
      fieldusername = text_or lua max_char_length (get "fieldusername") c.fieldusername;
      fieldpassword = text_or lua max_char_length (get "fieldpassword") c.fieldpassword;
      fieldsalt = text_or lua max_char_length (get "fieldsalt") c.fieldsalt;
      crossdomain = text_or lua max_buffer_length (get "crossdomain") c.crossdomain;
    }

pub lua_load_config : Lua → Config → Config
lua_load_config lua c = elim (lua.dofile (lit "conf/config.conf")) [
  | none ↦ c
  | some global ↦ configured lua global c
]

-- The 64 bytes that `lua_load_key` allocates; `none` is NULL.
pub lua_load_key : Lua → Bytes → Option Bytes
lua_load_key lua account = elim (lua.dofile (lit "conf/account.conf")) [
  | none ↦ none
  | some global ↦ elim (lua.tostring (value_of (global account))) [
    | none ↦ none
    | some text ↦ some (strncpy max_char_length text)
  ]
]

-- Room `i` from the script.
pub open_room : ℕ → Bytes → Cmd (Unit {0})
open_room i name =
    modify_room i (λ v. record v { enable = pos 1; name = strncpy max_char_length name })

-- `i` counts the strings. Room 0 is the server's own, and the first string makes room 1.
pub load_room_loop : ℕ → List (Bytes × LuaValue) → Cmd (Unit {0})
load_room_loop i [] = skip
load_room_loop i ((_, string name) ∷ rest) =
    if ltb i max_rooms then (do open_room (suc i) name; load_room_loop (suc i) rest) else skip
load_room_loop i (_ ∷ rest) = if ltb i max_rooms then load_room_loop i rest else skip

pub lua_load_room : Lua → Cmd (Unit {0})
lua_load_room lua = elim (lua.dofile (lit "conf/room.conf")) [
  | none ↦ skip
  | some global ↦ elim (global (lit "rooms")) [ entries es ↦ load_room_loop 0 es | scalar _ ↦ skip ]
]

-- `lua_gettable`.
pub get_field : Bytes → List (Bytes × LuaValue) → LuaValue
get_field key [] = nil
get_field key ((k, v) ∷ es) = if str_eq k key then v else get_field key es

unfoldable pub user_type : Lua → Bytes → Global → ℤ
user_type lua account (scalar _) = client_type_none
user_type lua account (entries es) = elim (lua.tointeger (get_field account es)) [
  | none ↦ client_type_none
  | some n ↦ n
]

unfoldable pub lua_get_type : Lua → Bytes → ℤ
lua_get_type lua account = elim (lua.dofile (lit "conf/user.conf")) [
  | none ↦ client_type_none
  | some global ↦ user_type lua account (global (lit "users"))
]
