-- ===== src/Server.antt =====
-- The state of 1.0/server/MyleftServer.h and 1.0/server/hash.h, and the commands that read and write
-- it. A `clients` struct lives on a heap, since the room lists run through its `next` field and
-- since `fd_clients`, the hash items and the tasks point at it.
pub mod Commands
use as3chat.Common.{ℕ, Option, List, Bool, true, false}
use as3chat.Common.Int.{ℤ, pos}
use as3chat.Common.Text.{Bytes}

-- A `clients *`.
abbrev pub Ptr : Type 0
Ptr = ℕ

abbrev pub null : Ptr
null = 0

abbrev pub max_buffer_length : ℕ
max_buffer_length = 512

abbrev pub max_char_length : ℕ
max_char_length = 64

-- `MAX_ROOMS`, the length of `rooms` and of `t_mutex_room`.
abbrev pub max_rooms : ℕ
max_rooms = 50

-- `MAX_FDS`, the length of `fd_clients`.
abbrev pub max_fds : ℕ
max_fds = 20480

pub data FdState : Type 0 where
  fd_none fd_wait fd_success : FdState

abbrev pub is_success : FdState → Bool
is_success fd_success = true
is_success _ = false

-- The `type` of a client is an int that a script may set: 0 none, 1 silenced, 9 administrator.
abbrev pub client_type_none : ℤ
client_type_none = pos 0

abbrev pub client_type_shutup : ℤ
client_type_shutup = pos 1

abbrev pub client_type_admin : ℤ
client_type_admin = pos 9

pub record Client : Type 0 where
  pub fd : ℕ
  pub roomid : ℤ
  pub state : FdState
  pub type : ℤ
  pub anonymous : ℤ
  pub x : ℤ
  pub y : ℤ
  pub keepalivetime : ℤ
  -- the 64 bytes of the array
  pub username : Bytes
  pub next : Ptr

pub record Room : Type 0 where
  pub enable : ℤ
  pub num : ℤ
  pub name : Bytes
  pub client : Ptr

-- `key` is the `username` array of a client, so it is given by the client's address.
pub record HashItem : Type 0 where
  pub key : Ptr
  pub fd : ℕ

pub record Task : Type 0 where
  pub client : Ptr
  pub logout : Bool
  pub text : Bytes

-- What the server does to its sockets.
pub data Output : Type 0 where
  write : ℕ → Bytes → Output
  close : ℕ → Output

pub record State : Type 0 where
  pub heap : Ptr → Option Client
  pub fd_clients : ℕ → Ptr
  pub rooms : ℕ → Room
  -- the chains of `hash_table`, first item first; the chains own their items
  pub hash_table : ℕ → List HashItem
  pub hash_size : ℕ
  pub tasks : List Task
  pub out : List Output

-- `fault` is undefined behaviour of the C program: a null or dangling pointer, an index outside an
-- array.
pub data Run (A : Type 0) : Type 0 where
  ok : A → State → Run A
  fault : Run A
  out_of_fuel : Run A

abbrev pub Cmd : Type 0 → Type 0
Cmd A = State → Run A

abbrev pub pure : {A : Type 0} → A → Cmd A
pure = ok

abbrev pub fail : {A : Type 0} → Cmd A
fail s = fault

abbrev pub skip : Cmd (Unit {0})
skip = pure tt

module _ {A B : Type 0} where
  abbrev pub and_then : Run A → (A → Cmd B) → Run B
  and_then (ok a s) k = k a s
  and_then fault k = fault
  and_then out_of_fuel k = out_of_fuel

  infixl 5 ◌>>=◌ ◌>>◌
  abbrev pub ◌>>=◌ : Cmd A → (A → Cmd B) → Cmd B
  m >>= k = λ s. and_then (m s) k

  abbrev pub ◌>>◌ : Cmd A → Cmd B → Cmd B
  m >> n = m >>= λ _. n
