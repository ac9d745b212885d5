-- ===== src/Message.antt =====
-- `parse_message` of 1.0/server/message.c: one request of a client. Time is an argument: `now` is
-- `mytimestamp`.
pub mod Admission
pub mod Chat
pub mod Commands
pub mod Expulsion
pub mod Gate
pub mod Login
pub mod Moves
pub mod Silence
use Prim.Native.String.{String}
use as3chat.Common.{
  ℕ, ◌+◌, ◌/◌, ◌%◌, Bool, true, false, ◌&&◌, Option, none, some, List, [], ◌∷◌, ◌++◌,
}
use as3chat.Common.Tests.{ltb, leb, ◌==◌, if◌then◌else◌}
use as3chat.Common.Int.{ℤ, pos, negsuc, ◌==ℤ◌}
use as3chat.Common.Text.{Bytes, lit, atoi, str_eq}
use as3chat.Server.{
  Ptr, null, max_rooms, Client, is_success, client_type_none, client_type_shutup, client_type_admin,
  Task, Cmd, pure, fail, skip, ◌>>=◌, ◌>>◌,
}
use as3chat.Server.Commands.{load, modify, read_name}
use as3chat.External.{Event, External}
use as3chat.Messages.{
  ev_type_auth, ev_type_user_change_state, ev_type_message, ev_type_change_room,
  ev_type_get_room_list, ev_type_admin_command_goout, ev_type_admin_command_shutup, ev_type_move,
  auth_reply, state_changed, notice, public_message, private_message, moved,
}
use as3chat.Rooms.{send_message, send_message_all, send_roomlist, join_room}
use as3chat.Nodes.{node_del, get_fdnode_byname}
use Login.{Env, attr, authenticate, log_in}

-- `roomid`, where a number from `MAX_ROOMS` on means room 0; a negative one stays.
unfoldable pub capped : ℤ → ℤ
capped (pos r) = if leb max_rooms r then pos 0 else pos r
capped (negsuc n) = negsuc n

unfoldable pub roomid_of : Event → ℤ
roomid_of e = elim (attr "roomid" e) [ none ↦ pos 0 | some text ↦ capped (atoi text) ]

unfoldable pub handle_auth : Env → Ptr → ℕ → Event → Cmd (Unit {0})
handle_auth env p fd e = do
  c ← load p
  if is_success c.state then send_message fd (auth_reply 1 (lit "已经登陆")) else do
    accepted ← authenticate env p fd e
    if accepted then log_in env p fd (roomid_of e) else skip

-- The test of the attribute is the wrong way round: `atoi` is given NULL where there is none, and a state
-- that is given counts as 0.
pub handle_change_state : Env → Ptr → ℕ → Event → Cmd (Unit {0})
handle_change_state env p fd e = elim (attr "state" e) [
  | none ↦ fail
  | some _ ↦ (do
    c ← load p
    name ← read_name c
    send_message_all env.fuel fd (state_changed name (pos 0)))
]

pub say_all : Env → Client → ℕ → Bytes → Cmd (Unit {0})
say_all env c fd body = do
  name ← read_name c
  send_message_all env.fuel fd (public_message name env.now body)

-- To the client itself, or to another client of the same room with an echo to the sender.
pub say_to : Env → Client → ℕ → Bytes → Bytes → Cmd (Unit {0})
say_to env c fd to body = do
  name ← read_name c
  if str_eq name to then send_message fd (private_message name to env.now body) else do
    node ← get_fdnode_byname to (negsuc 0)
    if node == null then skip else do
      d ← load node
      if d.roomid ==ℤ c.roomid
          then (do
            send_message d.fd (private_message name to env.now body)
            send_message fd (private_message name to env.now body))
          else skip

pub say : Env → Client → ℕ → Option Bytes → Bytes → Cmd (Unit {0})
say env c fd none body = say_all env c fd body
say env c fd (some to) body =
    if str_eq to (lit "all") then say_all env c fd body else say_to env c fd to body

-- `body` is not set where the event has no such child, and is read all the same.
pub handle_message : Env → Ptr → ℕ → Event → Cmd (Unit {0})
handle_message env p fd e = elim e.body [
  | none ↦ fail
  | some body ↦ (do
    c ← load p
    if c.type ==ℤ client_type_shutup
        then send_message fd (notice env.now (lit "您目前处于禁言状态"))
        else say env c fd (attr "to" e) body)
]

pub handle_change_room : Env → Ptr → Event → Cmd (Unit {0})
handle_change_room env p e = do
  c ← load p
  if c.roomid ==ℤ roomid_of e then skip else (do join_room env.fuel p (roomid_of e); skip)

-- Whom an administrator means; NULL for nobody.
pub target : Ptr → Bytes → Cmd Ptr
target p username = do
  c ← load p
  name ← read_name c
  if str_eq name username then pure p else get_fdnode_byname username (negsuc 0)

pub go_out : Env → Ptr → Cmd (Unit {0})
go_out env node = if node == null then skip else do
  d ← load node
  name ← read_name d
  send_message_all env.fuel d.fd (notice env.now (name ++ lit "被管理员请出了聊天室"))
  node_del env.fuel node
  skip

pub handle_goout : Env → Ptr → Event → Cmd (Unit {0})
handle_goout env p e = elim (attr "username" e) [
  | none ↦ skip
  | some username ↦ (do node ← target p username; go_out env node)
]

pub toggled : ℤ → ℤ
toggled type = if type ==ℤ client_type_shutup then client_type_none else client_type_shutup

pub toggle_note : ℤ → Bytes
toggle_note type = if type ==ℤ client_type_shutup then lit "被管理员解除禁言" else lit "被管理员禁言"

pub shut_up : Env → Ptr → Cmd (Unit {0})
shut_up env node = if node == null then skip else do
  d ← load node
  modify node (λ b. record b { type = toggled d.type })
  name ← read_name d
  send_message_all env.fuel d.fd (notice env.now (name ++ toggle_note d.type))

pub handle_shutup : Env → Ptr → Event → Cmd (Unit {0})
handle_shutup env p e = elim (attr "username" e) [
  | none ↦ skip
  | some username ↦ (do node ← target p username; shut_up env node)
]

pub move_to : Env → Ptr → Bytes → Bytes → Cmd (Unit {0})
move_to env p x y = do
  modify p (λ b. record b { x = atoi x; y = atoi y })
  c ← load p
  name ← read_name c
  send_message_all env.fuel c.fd (moved name x y)

pub handle_move : Env → Ptr → Event → Cmd (Unit {0})
handle_move env p e = elim (attr "x" e) [
  | none ↦ skip
  | some x ↦ elim (attr "y" e) [ none ↦ skip | some y ↦ move_to env p x y ]
]

-- The script and its `parsemessage`. An error of the file is logged; one of the call, which is not
-- protected, ends the program.
unfoldable pub script_returns : Env → ℕ → Event → Bool
script_returns env fd e = elim (env.external.lua.dofile (lit "conf/parsemessage.la")) [
  | none ↦ true
  | some globals ↦ env.external.lua.calls globals (lit "parsemessage") fd e
]

-- Nothing is registered with Lua, so a script that runs leaves the server as it is.
pub run_script : Env → ℕ → Event → Cmd (Unit {0})
run_script env fd e = if script_returns env fd e then skip else fail

-- What a client that has logged in may ask for; `type` is its own.
pub serve : Env → Ptr → ℕ → Event → ℤ → ℤ → Cmd (Unit {0})
serve env p fd e type ev_type =
    if ev_type ==ℤ pos ev_type_user_change_state
    then handle_change_state env p fd e
    else if ev_type ==ℤ pos ev_type_message
    then handle_message env p fd e
    else if ev_type ==ℤ pos ev_type_change_room
    then handle_change_room env p e
    else if ev_type ==ℤ pos ev_type_get_room_list
    then send_roomlist p
    else if ev_type ==ℤ pos ev_type_admin_command_goout && type ==ℤ client_type_admin
    then handle_goout env p e
    else if ev_type ==ℤ pos ev_type_admin_command_shutup && type ==ℤ client_type_admin
    then handle_shutup env p e
    else if ev_type ==ℤ pos ev_type_move
    then handle_move env p e
    else run_script env fd e

unfoldable pub dispatch : Env → Ptr → ℕ → Event → ℤ → Cmd (Unit {0})
dispatch env p fd e ev_type = if ev_type ==ℤ pos ev_type_auth then handle_auth env p fd e else do
  c ← load p
  if is_success c.state then serve env p fd e c.type ev_type else run_script env fd e

unfoldable pub handle : Env → Ptr → ℕ → Event → Cmd (Unit {0})
handle env p fd e = elim (attr "type" e) [
  | none ↦ skip
  | some type ↦ dispatch env p fd e (atoi type)
]

unfoldable pub parse_message : Env → Task → Cmd (Unit {0})
parse_message env task = do
  c ← load task.client
  if task.logout
      then (do node_del env.fuel task.client; skip)
      else handle env task.client c.fd (env.external.parse task.text)
