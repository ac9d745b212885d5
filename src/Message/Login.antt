-- ===== src/Message/Login.antt =====
-- `EV_TYPE_AUTH` of 1.0/server/message.c: the three ways to log in, and what a login does.
pub mod Sound
pub mod Welcome
use Prim.Native.String.{String}
use as3chat.Common.{
  ℕ, zero, suc, ◌+◌, ◌/◌, ◌%◌, Bool, true, false, ◌&&◌, ◌||◌, not, Option, none, some, List, [],
  ◌∷◌, ◌++◌,
}
use as3chat.Common.Tests.{ltb, leb, ◌==◌, if◌then◌else◌}
use as3chat.Common.Int.{ℤ, pos, pos_part, ◌-ℤ◌, ◌==ℤ◌, ◌<ℤ◌}
use as3chat.Common.Lists.{length, take}
use as3chat.Common.Text.{
  Bytes, lit, decimal, snprintf, c_string, has_nul, strncpy, strncat, str_eq, str_eq_n, atoi,
}
use as3chat.Server.{
  Ptr, null, max_char_length, max_buffer_length, Client, fd_success, Cmd, pure, fail, skip, ◌>>=◌,
  ◌>>◌,
}
use as3chat.Server.Commands.{load, modify, read_name}
use as3chat.External.{Event, External}
use as3chat.LuaFunctions.{Config, lua_load_key, lua_get_type}
use as3chat.Database.{get_password}
use as3chat.Messages.{auth_reply, auth_welcome}
use as3chat.Rooms.{send_message, other_same_username, join_room}
use as3chat.Nodes.{node_add, get_fdnode_byname}

-- What a request finds around it; `fuel` bounds the walks over the room lists.
pub record Env : Type 0 where
  pub external : External
  pub config : Config
  pub now : ℤ
  pub fuel : ℕ

-- `ezxml_attr`.
unfoldable pub attr : String → Event → Option Bytes
attr key e = e.attr (lit key)

pub hex_digit : ℕ → ℕ
hex_digit n = if ltb n 10 then 0x30 + n else 0x57 + n

-- `%02x` for each byte, as the function `md5` of 1.0/server/function.c prints them.
pub hex : List ℕ → Bytes
hex [] = []
hex (b ∷ bs) = hex_digit (b / 16 % 16) ∷ hex_digit (b % 16) ∷ hex bs

pub md5 : Env → Bytes → Bytes
md5 env text = hex (env.external.md5_digest text)

-- The refusal of a login.
pub refuse : ℕ → String → Cmd Bool
refuse fd text = do send_message fd (auth_reply 0 (lit text)); pure false

-- The hour, the minute and the second of `gmtime`, for a time that is not negative.
unfoldable pub guest_name : ℤ → Bytes
guest_name now =
    let t = pos_part now in
    lit "游客"
    ++ decimal (pos (t / 3600 % 24))
    ++ decimal (pos (t / 60 % 60))
    ++ decimal (pos (t % 60))

-- What stands behind the NUL of the array is never read.
unfoldable pub log_in_guest : Env → Ptr → Cmd Bool
log_in_guest env p = do
  modify p (λ b. record b {
    anonymous = pos 1;
    username = strncpy max_char_length (snprintf max_char_length (guest_name env.now));
  })
  pure true

-- The array `username`; the first `pointer_size` bytes of the account are compared. `none` is undefined
-- behaviour: NULL for an account, or a name too long for the array.
pub login_name : Env → Option Bytes → Bytes → Option Bytes
login_name env none username = none
login_name env (some account) username =
    if str_eq_n env.external.pointer_size (lit "myleft") account
    then some (strncpy max_char_length username)
    else strncat max_char_length (strncpy max_char_length account) username max_char_length

pub set_name : Env → Ptr → Option Bytes → Bytes → Cmd (Unit {0})
set_name env p account username = elim (login_name env account username) [
  | none ↦ fail
  | some array ↦ modify p (λ b. record b { anonymous = pos 0; username = array })
]

-- The digest of the password with the salt behind it, digested again; `none` where `sprintf` runs over.
pub salted_digest : Env → Bytes → Bytes → Option Bytes
salted_digest env password salt =
    let text = md5 env password ++ salt in
    if ltb (length text) max_char_length then some (md5 env text) else none

pub check_password : Env → ℕ → Bytes → Bytes → Cmd Bool
check_password env fd username password = do
  row ← get_password env.external.mysql env.config username
  elim row [
    | none ↦ refuse fd "密码错误"
    | some (stored, salt) ↦ elim (salted_digest env password salt) [
      | none ↦ fail
      | some digest ↦ if str_eq digest stored then pure true else refuse fd "密码错误"
    ]
  ]

-- The text under the ticket: 18 bytes of the account's key, the name and the time.
pub ticket_text : Bytes → Bytes → Bytes → Bytes
ticket_text key username time = take 18 (c_string key) ++ (username ++ time)

pub ticket_hash : Env → Bytes → Bytes → Option Bytes
ticket_hash env text sign =
    if ltb (length text) max_buffer_length
    then (elim (env.external.crypt text sign) [
      | none ↦ none
      | some hash ↦
          let array = strncpy max_char_length hash in
          if has_nul array then some (c_string array) else none
    ])
    else none

pub is_fresh : ℤ → ℤ → Bool
is_fresh now time = not ((now -ℤ time) <ℤ pos 0) && (now -ℤ time) <ℤ pos 60

pub check_ticket : Env → ℕ → Bytes → Bytes → Bytes → Bytes → Cmd Bool
check_ticket env fd username account sign time =
    if is_fresh env.now (atoi time)
    then (elim (lua_load_key env.external.lua account) [
      | none ↦ fail
      | some key ↦ elim (ticket_hash env (ticket_text key username time) sign) [
        | none ↦ fail
        | some hash ↦ if str_eq hash sign then pure true else refuse fd "验证码错误"
      ]
    ])
    else refuse fd "验证过期"

pub log_in_ticket : Env → Ptr → ℕ → Bytes → Bytes → Bytes → Bytes → Cmd Bool
log_in_ticket env p fd username account sign time =
    if atoi time ==ℤ pos 0
    then refuse fd "请输入用户名和密码"
    else (do set_name env p (some account) username; check_ticket env fd username account sign time)

-- Without a password: the sign, the account and the time have to be there.
pub log_in_signed : Env → Ptr → ℕ → Event → Bytes → Cmd Bool
log_in_signed env p fd e username = elim (attr "sign" e) [
  | none ↦ refuse fd "请输入用户名和密码"
  | some sign ↦ elim (attr "account" e) [
    | none ↦ refuse fd "请输入用户名和密码"
    | some account ↦ elim (attr "timestamp" e) [
      | none ↦ refuse fd "请输入用户名和密码"
      | some time ↦ log_in_ticket env p fd username account sign time
    ]
  ]
]

pub log_in_named : Env → Ptr → ℕ → Event → Bytes → Cmd Bool
log_in_named env p fd e username = elim (attr "password" e) [
  | none ↦ log_in_signed env p fd e username
  | some password ↦ (do
    set_name env p (attr "account" e) username
    check_password env fd username password)
]

unfoldable pub is_guest : Event → Bool
is_guest e = elim (attr "anonymous" e) [ none ↦ false | some text ↦ atoi text ==ℤ pos 1 ]

-- Whether the login is accepted; a refusal has been sent.
unfoldable pub authenticate : Env → Ptr → ℕ → Event → Cmd Bool
authenticate env p fd e = if is_guest e then log_in_guest env p else elim (attr "username" e) [
  | none ↦ refuse fd "请输入用户名和密码"
  | some username ↦ log_in_named env p fd e username
]

-- An older client of the same name goes, and the client is entered under its name and comes into a
-- room.
unfoldable pub log_in : Env → Ptr → ℕ → ℤ → Cmd (Unit {0})
log_in env p fd roomid = do
  c ← load p
  name ← read_name c
  node ← get_fdnode_byname name (pos c.fd)
  other_same_username env.fuel node
  node_add p
  modify p (λ b. record b { type = lua_get_type env.external.lua name; state = fd_success })
  send_message fd (auth_welcome name (lua_get_type env.external.lua name))
  join_room env.fuel p roomid
  skip
