-- ===== src/Nodes.antt =====
-- The clients of 1.0/server/function.c as nodes of the name table and of `fd_clients`.
pub mod Add
pub mod Delete
pub mod Heartbeat
pub mod Lookup
use as3chat.Common.{ℕ, zero, suc, ◌+◌, Bool, true, false, ◌&&◌, ◌||◌, not, none, List, [], ◌∷◌}
use as3chat.Common.Tests.{◌==◌, if◌then◌else◌}
use as3chat.Common.Int.{ℤ, pos, negsuc, ◌-ℤ◌, ◌==ℤ◌, ◌<ℤ◌, minus_one}
use as3chat.Common.Text.{Bytes, str_eq}
use as3chat.Server.{
  Ptr, null, max_fds, Client, HashItem, State, close, Cmd, ok, pure, skip, ◌>>=◌, ◌>>◌,
}
use as3chat.Server.Commands.{load, put, load_fd, set_fd, tell, read_name}
use as3chat.Rooms.{Return, return_success, leave_room}
use as3chat.HashTable.{item_key, hash_search, hash_add, hash_del}

-- `malloc` is taken to give the item.
unfoldable pub node_add : Ptr → Cmd Return
node_add p =
    if p == null
    then pure return_success
    else do c ← load p; hash_add (record { key = p; fd = c.fd }); pure return_success

pub free : Ptr → Cmd (Unit {0})
free p s = ok tt (put p none s)

-- The client goes out of its room, the table and `fd_clients`; its struct is freed.
pub forget : Ptr → Cmd (Unit {0})
forget p = do c ← load p; text ← read_name c; hash_del text c.fd; set_fd c.fd null; free p

pub node_del : ℕ → Ptr → Cmd Return
node_del k p =
    if p == null
    then pure return_success
    else do c ← load p; tell (close c.fd); leave_room k p; forget p; pure return_success

-- The first item from here on with this name, other than the one of the descriptor `ufd`.
unfoldable pub first_other : Bytes → ℤ → List HashItem → Cmd ℤ
first_other uname ufd [] = pure minus_one
first_other uname ufd (item ∷ rest) = do
  text ← item_key item
  if str_eq text uname && (ufd <ℤ pos 0 || not (pos item.fd ==ℤ ufd))
      then pure (pos item.fd)
      else first_other uname ufd rest

unfoldable pub get_fdnode_byname : Bytes → ℤ → Cmd Ptr
get_fdnode_byname uname ufd = do
  found ← hash_search uname
  fd ← first_other uname ufd found
  elim fd [ pos n ↦ load_fd n | negsuc _ ↦ pure null ]

unfoldable pub is_idle : ℤ → Client → Bool
is_idle now c = pos 60 <ℤ (now -ℤ c.keepalivetime)

-- What the heartbeat does with one entry of `fd_clients`.
pub beat : ℕ → ℤ → ℕ → Cmd (Unit {0})
beat k now i = do
  p ← load_fd i
  if p == null then skip else do c ← load p; if is_idle now c then node_del k p >> skip else skip

-- The `n` entries from `i` on.
pub heartbeat_loop : ℕ → ℤ → ℕ → ℕ → Cmd (Unit {0})
heartbeat_loop k now zero i = skip
heartbeat_loop k now (suc n) i = do beat k now i; heartbeat_loop k now n (i + 1)

-- One round of the heartbeat thread, between two sleeps of 20 seconds.
pub heartbeat_round : ℕ → ℤ → Cmd (Unit {0})
heartbeat_round k now = heartbeat_loop k now max_fds 0
