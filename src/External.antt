-- ===== src/External.antt =====
-- What 1.0/server takes from elsewhere: the XML reader, the Lua library, the MySQL client, and the
-- digests of the system libraries. Each is a function of its inputs.
use as3chat.Common.{ℕ, Bool, Option, List}
use as3chat.Common.Int.{ℤ}
use as3chat.Common.Text.{Bytes}

-- A parsed `<event …>`: `ezxml_attr`, and the text of `ezxml_child(event, "body")`.
pub record Event : Type 0 where
  pub attr : Bytes → Option Bytes
  pub body : Option Bytes

-- `lua_type`.
pub data LuaValue : Type 0 where
  nil : LuaValue
  boolean : Bool → LuaValue
  lightuserdata : LuaValue
  number : ℤ → LuaValue
  string : Bytes → LuaValue
  table : LuaValue
  function : LuaValue
  userdata : LuaValue
  thread : LuaValue

-- A global of a script: a table in the order of `lua_next`, or another value.
pub data Global : Type 0 where
  entries : List (Bytes × LuaValue) → Global
  scalar : LuaValue → Global

pub record Lua : Type 0 where
  -- `luaL_dofile`: the globals after the run of a file, `none` for an error
  pub dofile : Bytes → Option (Bytes → Global)
  -- whether a `lua_call` of the global of this name, with a descriptor and an event, returns; it does not
  -- where the global is no function or where its run fails
  pub calls : (Bytes → Global) → Bytes → ℕ → Event → Bool
  -- `lua_isnumber` with `lua_tointeger`
  pub tointeger : LuaValue → Option ℤ
  -- `lua_isstring` with `lua_tostring`
  pub tostring : LuaValue → Option Bytes

-- A stored result of MySQL: the names of the columns, and the rows.
pub record ResultSet : Type 0 where
  pub fields : List Bytes
  pub rows : List (List (Option Bytes))

pub record MySql : Type 0 where
  -- `mysql_ping`, `mysql_query` and `mysql_store_result`; `none` if one of them fails
  pub query : Bytes → Option ResultSet
  -- `mysql_real_escape_string`
  pub escape : Bytes → Bytes

pub record External : Type 0 where
  -- `ezxml_parse_str`
  pub parse : Bytes → Event
  pub lua : Lua
  pub mysql : MySql
  -- the 16 bytes of `MD5_Final`
  pub md5_digest : Bytes → List ℕ
  -- `crypt(3)`; `none` is NULL
  pub crypt : Bytes → Bytes → Option Bytes
  -- `sizeof` of a pointer
  pub pointer_size : ℕ
