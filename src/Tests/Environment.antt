-- ===== src/Tests/Environment.antt =====
-- An environment of simple libraries.
use Prim.Native.String.{String}
use as3chat.Common.{false, Option, none, some, []}
use as3chat.Common.Tests.{if◌then◌else◌}
use as3chat.Common.Int.{pos}
use as3chat.Common.Text.{Bytes, lit, str_eq}
use as3chat.External.{nil, scalar, Event, External}
use as3chat.LuaFunctions.{Config}
use as3chat.Message.Login.{Env}
use as3chat.Tests.Scene.{array}

abbrev pub config : Config
config = record {
  port = pos 2012;
  t_min = pos 1;
  dbport = pos 3306;
  dbhost = array "localhost";
  dbuser = array "root";
  dbpass = array "";
  dbname = array "chat";
  dbtable = array "members";
  fieldusername = array "username";
  fieldpassword = array "password";
  fieldsalt = array "salt";
  crossdomain = array "";
}

-- Every text reads as the one event `e`; the script of the requests is missing, and the other scripts and
-- the database are empty.
abbrev pub external : Event → External
external e = record {
  parse = λ text. e;
  lua = record {
    dofile =
        λ path. if str_eq path (lit "conf/parsemessage.la") then none else some (λ key. scalar nil);
    calls = λ globals name fd e. false;
    tointeger = λ v. none;
    tostring = λ v. none;
  };
  mysql = record { query = λ text. none; escape = λ text. text };
  md5_digest = λ text. [];
  crypt = λ text sign. none;
  pointer_size = 8;
}

abbrev pub env : Event → Env
env e = record { external = external e; config = config; now = pos 1000; fuel = 10 }

-- An event of a type, with at most one more attribute and a body.
abbrev pub event : String → String → String → Option Bytes → Event
event type key value body = record {
  attr = λ k.
      if str_eq k (lit "type")
      then some (lit type)
      else if str_eq k (lit key)
      then some (lit value)
      else none;
  body = body;
}
