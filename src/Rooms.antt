-- ===== src/Rooms.antt =====
-- The room lists of 1.0/server/function.c: a room's clients in order of arrival, linked by `next`.
-- Every loop over such a list has fuel `k`; more than the number of clients is enough.
pub mod Broadcast
pub mod Chain
pub mod Link
pub mod Drag
pub mod Enter
pub mod Join
pub mod Leave
pub mod Names
pub mod Replace
pub mod Separate
pub mod Unlink
use as3chat.Common.{ℕ, zero, suc, ◌+◌, Bool, true, false, ◌&&◌, ◌||◌, not}
use as3chat.Common.Tests.{ltb, ◌==◌, if◌then◌else◌}
use as3chat.Common.Int.{ℤ, pos, negsuc, ◌+ℤ◌, ◌-ℤ◌, ◌==ℤ◌, minus_one}
use as3chat.Common.Text.{Bytes}
use as3chat.Server.{
  Ptr, null, max_rooms, Client, Room, fd_success, fd_wait, is_success, write, Cmd, out_of_fuel,
  pure, fail, skip, ◌>>=◌, ◌>>◌,
}
use as3chat.Server.Commands.{
  load, modify, load_room, modify_room, lock_room, load_fd, tell, read_name, read_room_name,
}
use as3chat.Messages.{room_entered, user_login, user_logout, user_add, room_add, other_login}

pub data Return : Type 0 where
  return_success return_failure : Return

unfoldable pub send_message : ℕ → Bytes → Cmd (Unit {0})
send_message fd message = tell (write fd message)

unfoldable pub send_loop : ℕ → Ptr → Bytes → Cmd (Unit {0})
send_loop zero p message = λ _. out_of_fuel
send_loop (suc k) p message = if p == null then skip else do
  c ← load p
  if is_success c.state then send_message c.fd message else skip
  send_loop k c.next message

-- The broadcast to the list of room `r`, if that is not empty.
unfoldable pub send_room : ℕ → ℕ → Bytes → Cmd (Unit {0})
send_room k r message =
    if ltb r max_rooms
    then (do v ← load_room r; if v.client == null then skip else send_loop k v.client message)
    else skip

-- To everybody in the room of the client at `fd`, that client too.
unfoldable pub send_message_all : ℕ → ℕ → Bytes → Cmd (Unit {0})
send_message_all k fd message = do
  p ← load_fd fd
  if p == null
      then skip
      else do c ← load p; elim c.roomid [ pos r ↦ send_room k r message | negsuc _ ↦ skip ]

unfoldable pub userlist_loop : ℕ → ℕ → Ptr → Cmd (Unit {0})
userlist_loop zero fd p = λ _. out_of_fuel
userlist_loop (suc k) fd p = if p == null then skip else do
  c ← load p
  if not (c.fd == fd) && is_success c.state
      then (do name ← read_name c; send_message fd (user_add name c.x c.y))
      else skip
  userlist_loop k fd c.next

-- Its first line reads `rooms[node->roomid]` for the log, whatever `roomid` is.
unfoldable pub send_userlist : ℕ → Ptr → Cmd (Unit {0})
send_userlist k node = do
  c ← load node
  elim c.roomid [
    | pos r ↦ (do
      v ← load_room r
      if v.enable ==ℤ pos 0 then skip else userlist_loop k c.fd v.client)
    | negsuc _ ↦ fail
  ]

-- `i` counts up to `MAX_ROOMS` while `k` counts the rooms that are left.
pub roomlist_loop : ℕ → ℕ → ℕ → Cmd (Unit {0})
roomlist_loop zero i fd = skip
roomlist_loop (suc k) i fd = do
  v ← load_room i
  if v.enable ==ℤ pos 0 then skip else do
    name ← read_room_name v
    send_message fd (room_add i name v.num)
    roomlist_loop k (i + 1) fd

pub send_roomlist : Ptr → Cmd (Unit {0})
send_roomlist node = do c ← load node; roomlist_loop max_rooms 0 c.fd

-- The walk of `leave_room`: the first client with the descriptor `fd` goes out of the list.
pub unlink_loop : ℕ → ℕ → ℕ → (prev cur : Ptr) → Cmd (Unit {0})
unlink_loop zero r fd prev cur = λ _. out_of_fuel
unlink_loop (suc k) r fd prev cur = if cur == null then skip else do
  c ← load cur
  if c.fd == fd
      then (do
        modify_room r (λ v. record v { num = v.num -ℤ pos 1 })
        if prev == null
            then modify_room r (λ v. record v { client = c.next })
            else modify prev (λ b. record b { next = c.next }))
      else unlink_loop k r fd cur c.next

-- The farewell of `leave_room`.
pub farewell : ℕ → Ptr → Cmd (Unit {0})
farewell k p = do
  c ← load p
  if is_success c.state
      then (do
        name ← read_name c
        send_message_all k c.fd (user_logout name)
        modify p (λ b. record b { roomid = minus_one }))
      else skip

pub leave_list : ℕ → Ptr → ℕ → Cmd (Unit {0})
leave_list k p r =
    if ltb r max_rooms
    then (do
      v ← load_room r
      if v.client == null
          then skip
          else do c ← load p; unlink_loop k r c.fd null v.client; farewell k p)
    else skip

-- A `roomid` of `MAX_ROOMS` passes the first test, and its mutex is not there.
pub leave_room : ℕ → Ptr → Cmd Return
leave_room k p = if p == null then pure return_failure else do
  c ← load p
  elim c.roomid [
    | pos r ↦
        if ltb max_rooms r
        then pure return_failure
        else do lock_room r; leave_list k p r; pure return_success
    | negsuc _ ↦ pure return_failure
  ]

-- The last client of a list.
unfoldable pub find_last : ℕ → Ptr → Cmd Ptr
find_last zero p = λ _. out_of_fuel
find_last (suc k) p = do c ← load p; if c.next == null then pure p else find_last k c.next

-- `join_room` puts the client at the end of the list. An empty room takes it with its old `next`.
unfoldable pub link : ℕ → Ptr → ℕ → Cmd (Unit {0})
link k p r = do
  v ← load_room r
  if v.client == null then modify_room r (λ w. record w { client = p }) else do
    last ← find_last k v.client
    modify last (λ c. record c { next = p })
    modify p (λ c. record c { next = null })

-- What `join_room` tells the client and the room.
unfoldable pub welcome : ℕ → Ptr → ℕ → Cmd (Unit {0})
welcome k p r = do
  c ← load p
  v ← load_room r
  room ← read_room_name v
  send_message c.fd (room_entered r room)
  name ← read_name c
  send_message_all k c.fd (user_login name)
  send_userlist k p

-- The section of `join_room` under the room's mutex.
unfoldable pub enter : ℕ → Ptr → ℕ → Cmd (Unit {0})
enter k p r =
    if ltb r max_rooms
    then (do
      v ← load_room r
      if v.enable ==ℤ pos 0 then skip else do
        modify p (λ c. record c { roomid = pos r })
        link k p r
        modify_room r (λ w. record w { num = w.num +ℤ pos 1 })
        welcome k p r)
    else skip

unfoldable pub leave_old : ℕ → Ptr → ℤ → Cmd (Unit {0})
leave_old k p (pos _) = leave_room k p >> skip
leave_old k p (negsuc _) = skip

unfoldable pub join_room : ℕ → Ptr → ℤ → Cmd Return
join_room k p (negsuc _) = pure return_failure
join_room k p (pos r) = if (p == null) || ltb max_rooms r then pure return_failure else do
  v ← load_room r
  if v.enable ==ℤ pos 0 then pure return_failure else do
    c ← load p
    if c.roomid ==ℤ pos r
        then pure return_failure
        else do leave_old k p c.roomid; lock_room r; enter k p r; pure return_success

-- What becomes of an older client of the same name.
unfoldable pub other_same_username : ℕ → Ptr → Cmd (Unit {0})
other_same_username k node = if node == null then skip else do
  leave_room k node
  c ← load node
  if is_success c.state
      then (do
        modify node (λ b. record b { state = fd_wait })
        send_message c.fd other_login
        name ← read_name c
        send_message_all k c.fd (user_logout name))
      else skip
