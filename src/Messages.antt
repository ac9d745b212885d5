-- ===== src/Messages.antt =====
-- The texts that 1.0/server/function.c and 1.0/server/message.c print into `msgbuffer`, and the
-- event numbers of 1.0/server/MyleftServer.h.
use Prim.Native.String.{String}
use as3chat.Common.{ℕ, ◌++◌, ◌≡◌, refl}
use as3chat.Common.Int.{ℤ, pos}
use as3chat.Common.Text.{Bytes, lit, decimal, snprintf}
use as3chat.Server.{max_buffer_length}

abbrev pub ev_type_ping : ℕ
ev_type_ping = 0

abbrev pub ev_type_auth : ℕ
ev_type_auth = 10

abbrev pub ev_type_auth_other_login : ℕ
ev_type_auth_other_login = 11

abbrev pub ev_type_user_login : ℕ
ev_type_user_login = 20

abbrev pub ev_type_user_logout : ℕ
ev_type_user_logout = 21

abbrev pub ev_type_user_add : ℕ
ev_type_user_add = 22

abbrev pub ev_type_user_change_state : ℕ
ev_type_user_change_state = 23

abbrev pub ev_type_message : ℕ
ev_type_message = 30

abbrev pub ev_type_change_room : ℕ
ev_type_change_room = 40

abbrev pub ev_type_get_room_list : ℕ
ev_type_get_room_list = 41

abbrev pub ev_type_room_add : ℕ
ev_type_room_add = 42

abbrev pub ev_type_admin_command_goout : ℕ
ev_type_admin_command_goout = 90

abbrev pub ev_type_admin_command_shutup : ℕ
ev_type_admin_command_shutup = 91

abbrev pub ev_type_move : ℕ
ev_type_move = 100

-- `<event type='…'`, with which each text begins.
event : ℕ → Bytes
event type = lit "<event type='" ++ decimal (pos type) ++ lit "'"

-- ` key='…'`, for a string and for a number.
attr : String → Bytes → Bytes
attr key text = lit " " ++ lit key ++ lit "='" ++ text ++ lit "'"

attr_int : String → ℤ → Bytes
unfolding attr
attr_int key n = attr key (decimal n)

buffer : Bytes → Bytes
buffer text = snprintf max_buffer_length text

-- `join_room`: to the client itself.
unfoldable pub room_entered : ℕ → Bytes → Bytes
unfolding event attr attr_int buffer
room_entered roomid name = buffer (
    event ev_type_change_room
    ++ attr_int "roomid" (pos roomid)
    ++ attr "name" name
    ++ attr "message" (lit "成功进入房间")
    ++ lit "/>")

-- `join_room`: to the room.
unfoldable pub user_login : Bytes → Bytes
unfolding event attr buffer
user_login name = buffer (event ev_type_user_login ++ attr "username" name ++ lit "/>")

-- `leave_room` and `other_same_username`: to the room.
pub user_logout : Bytes → Bytes
unfolding event attr buffer
user_logout name = buffer (event ev_type_user_logout ++ attr "username" name ++ lit "/>")

-- `send_userlist`.
unfoldable pub user_add : Bytes → ℤ → ℤ → Bytes
unfolding event attr attr_int buffer
user_add name x y = buffer (
    event ev_type_user_add ++ attr "username" name ++ attr_int "x" x ++ attr_int "y" y ++ lit " />")

-- `send_roomlist`.
pub room_add : ℕ → Bytes → ℤ → Bytes
unfolding event attr attr_int buffer
room_add roomid name num = buffer (
    event ev_type_room_add
    ++ attr_int "roomid" (pos roomid)
    ++ attr "name" name
    ++ attr_int "num" num
    ++ lit "/>")

-- `other_same_username`.
pub other_login : Bytes
unfolding event attr buffer
other_login =
    buffer (event ev_type_auth_other_login ++ attr "message" (lit "用户在其他地方登陆") ++ lit "/>")

-- `parse_message`, the replies to a login.
pub auth_reply : ℕ → Bytes → Bytes
unfolding event attr attr_int buffer
auth_reply result text =
    buffer (event ev_type_auth ++ attr_int "result" (pos result) ++ attr "message" text ++ lit "/>")

unfoldable pub auth_welcome : Bytes → ℤ → Bytes
unfolding event attr attr_int buffer
auth_welcome name type = buffer (
    event ev_type_auth
    ++ attr "result" (lit "1")
    ++ attr "username" name
    ++ attr_int "usertype" type
    ++ attr "message" (lit "登陆成功")
    ++ lit "/>")

pub state_changed : Bytes → ℤ → Bytes
unfolding event attr attr_int buffer
state_changed name state =
    buffer (
      event ev_type_user_change_state ++ attr "username" name ++ attr_int "state" state ++ lit "/>")

cdata : ℤ → Bytes → Bytes
unfolding attr_int
cdata now text =
    attr_int "timestamp" now ++ lit "><body><![CDATA[" ++ text ++ lit "]]></body></event>"

-- A note of the server: `text` is what the CDATA section holds.
pub notice : ℤ → Bytes → Bytes
unfolding event cdata buffer
notice now text = buffer (event ev_type_message ++ cdata now text)

pub public_message : Bytes → ℤ → Bytes → Bytes
unfolding event attr cdata buffer
public_message from now text = buffer (event ev_type_message ++ attr "from" from ++ cdata now text)

pub private_message : Bytes → Bytes → ℤ → Bytes → Bytes
unfolding event attr cdata buffer
private_message from to now text =
    buffer (event ev_type_message ++ attr "from" from ++ attr "to" to ++ cdata now text)

-- The positions are passed on as they were sent.
pub moved : Bytes → Bytes → Bytes → Bytes
unfolding event attr buffer
moved from x y =
    buffer (event ev_type_move ++ attr "from" from ++ attr "x" x ++ attr "y" y ++ lit "/>")

user_add_text :
    user_add (lit "bob") (pos 1) (pos 20) ≡ lit "<event type='22' username='bob' x='1' y='20' />"
unfolding user_add lit decimal snprintf
user_add_text = refl
