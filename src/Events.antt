-- ===== src/Events.antt =====
-- `main` of 1.0/server/MyleftServer.c: the start, the events of the sockets, and the queue of tasks
-- that the threads of 1.0/server/message.c take from. A schedule is a list of inputs.
pub mod Logout
pub mod Start
use as3chat.Common.{ℕ, zero, suc, Bool, true, false, ◌&&◌, not, none, some, List, [], ◌∷◌, ◌++◌}
use as3chat.Common.Tests.{leb, ◌==◌, if◌then◌else◌}
use as3chat.Common.Int.{ℤ, pos, negsuc, minus_one}
use as3chat.Common.Lists.{length}
use as3chat.Common.Text.{Bytes, lit, c_string, has_nul, strncpy, str_eq}
use as3chat.Server.{
  Ptr, null, max_rooms, max_fds, max_char_length, max_buffer_length, Client, Room, fd_wait,
  is_success, client_type_none, Task, State, write, Cmd, ok, pure, fail, skip, ◌>>=◌, ◌>>◌,
}
use as3chat.Server.Commands.{load, modify, modify_room, put, load_fd, set_fd, tell, fill}
use as3chat.LuaFunctions.{lua_load_room}
use as3chat.Rooms.{send_message}
use as3chat.HashTable.{hash_create}
use as3chat.Nodes.{node_del, heartbeat_round}
use as3chat.Message.{parse_message}
use as3chat.Message.Login.{Env}

-- What the loop of `main` makes of a room.
pub blank_room : Room
blank_room = record {
  enable = pos 0;
  num = pos 0;
  name = strncpy max_char_length [];
  client = null;
}

-- The two loops of `main` over its arrays.
pub clear_fds : Cmd (Unit {0})
clear_fds s = ok tt (record s { fd_clients = fill max_fds 0 null s.fd_clients })

pub clear_rooms : Cmd (Unit {0})
clear_rooms s = ok tt (record s { rooms = fill max_rooms 0 blank_room s.rooms })

-- `MAX_USERS`.
abbrev pub max_users : ℕ
max_users = 100

-- Room 0, and the rooms of the script.
pub open_rooms : Env → Cmd Bool
open_rooms env = do
  modify_room 0
      (λ v. record v { enable = pos 1; name = strncpy max_char_length (lit "Myleft聊天大厅") })
  lua_load_room env.external.lua
  pure true

-- The beginning of `main`; `room` is what `malloc` finds for the name table. Without it the result is
-- EXIT_FAILURE, here `false`.
pub start : Env → Bool → Cmd Bool
start env room = do
  clear_fds
  clear_rooms
  made ← hash_create room max_users
  if made == 0 then pure false else open_rooms env

-- What `read` gave: nothing, or up to `MAX_BUFFER_LENGTH` bytes.
pub data Received : Type 0 where
  nothing : Received
  bytes : Bytes → Received

pub data Input : Type 0 where
  -- the result of `accept`, and the address that `malloc` gives
  accepts : ℤ → Ptr → Input
  reads : ℕ → Received → Input
  writable : ℕ → Input
  -- EPOLLRDHUP and EPOLLERR
  breaks : ℕ → Input
  -- a thread takes a task
  works : Input
  -- the heartbeat thread makes a round
  beats : Input

pub ones : ℕ → Bytes
ones zero = []
ones (suc n) = 1 ∷ ones n

pub new_client : ℤ → ℕ → Client
new_client now fd = record {
  fd = fd;
  roomid = minus_one;
  state = fd_wait;
  type = client_type_none;
  anonymous = pos 1;
  x = pos 1;
  y = pos 1;
  keepalivetime = now;
  username = ones max_char_length;
  next = null;
}

-- After a failed `accept` the program goes on, and writes `fd_clients[-1]`.
pub on_accept : ℤ → ℤ → Ptr → Cmd (Unit {0})
on_accept now (negsuc _) fresh = fail
on_accept now (pos fd) fresh = do
  (λ s. ok tt (put fresh (some (new_client now fd)) s))
  set_fd fd fresh

pub enqueue : Task → Cmd (Unit {0})
enqueue task s = ok tt (record s { tasks = s.tasks ++ task ∷ [] })

-- A client that has not logged in goes at once, any other by a task. The task's text is copied by
-- `strcpy`, which runs on where the buffer is full and holds no NUL.
pub hang_up : Env → Ptr → Bytes → Cmd (Unit {0})
hang_up env p buffer = do
  c ← load p
  if is_success c.state
      then (if leb max_buffer_length (length buffer) && not (has_nul buffer)
          then fail
          else enqueue (record { client = p; logout = true; text = c_string buffer }))
      else (do node_del env.fuel p; skip)

pub request : Env → ℕ → Ptr → Bytes → Cmd (Unit {0})
request env fd p buffer = do
  c ← load p
  if str_eq (c_string buffer) (lit "<ping/>")
      then send_message c.fd (lit "<event type='0'/>")
      else if str_eq (c_string buffer) (lit "<quit/>")
      then hang_up env p buffer
      else if str_eq (c_string buffer) (lit "<policy-file-request/>")
      then tell (write fd env.config.crossdomain)
      else enqueue (record { client = p; logout = false; text = c_string buffer })

pub received : Env → ℕ → Ptr → Received → Cmd (Unit {0})
received env fd p nothing = hang_up env p []
received env fd p (bytes buffer) =
    if leb max_buffer_length (length buffer) then hang_up env p buffer else request env fd p buffer

-- Where `fd_clients` holds NULL the program goes on and writes through it.
pub on_read : Env → ℕ → Received → Cmd (Unit {0})
on_read env fd got = do
  p ← load_fd fd
  modify p (λ c. record c { keepalivetime = env.now })
  received env fd p got

pub on_break : Env → ℕ → Cmd (Unit {0})
on_break env fd = do p ← load_fd fd; node_del env.fuel p; skip

-- The oldest task. A thread waits while there is none.
pub take_task : List Task → Env → Cmd (Unit {0})
take_task [] env = skip
take_task (task ∷ rest) env = do (λ s. ok tt (record s { tasks = rest })); parse_message env task

pub work : Env → Cmd (Unit {0})
work env s = take_task s.tasks env s

pub step : Env → Input → Cmd (Unit {0})
step env (accepts fd fresh) = on_accept env.now fd fresh
step env (reads fd got) = on_read env fd got
step env (writable fd) = skip
step env (breaks fd) = on_break env fd
step env works = work env
step env beats = heartbeat_round env.fuel env.now

-- A schedule, each input with what it finds around it.
pub run : List (Env × Input) → Cmd (Unit {0})
run [] = skip
run ((env, i) ∷ rest) = do step env i; run rest
