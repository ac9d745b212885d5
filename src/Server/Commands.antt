-- ===== src/Server/Commands.antt =====
-- Reads and writes of the globals of 1.0/server/MyleftServer.h, each with its bounds.
use as3chat.Common.{ℕ, zero, suc, ◌||◌, Option, none, some, List, [], ◌∷◌, ◌++◌}
use as3chat.Common.Tests.{ltb, ◌==◌, if◌then◌else◌}
use as3chat.Common.Text.{Bytes, c_string, has_nul}
use as3chat.Server.{
  Ptr, null, max_rooms, max_fds, Client, Room, Output, State, Cmd, ok, fault, fail, skip, ◌>>=◌,
}

-- A function with one value changed.
unfoldable pub update {ℓ} : {A : Type ℓ} → (ℕ → A) → ℕ → A → ℕ → A
update f p v q = if q == p then v else f q

-- A loop that sets `k` places from place `i` on.
unfoldable pub fill {ℓ} : {A : Type ℓ} → ℕ → ℕ → A → (ℕ → A) → ℕ → A
fill zero i v f = f
fill (suc k) i v f = fill k (suc i) v (update f i v)

-- `*p`.
unfoldable pub load : Ptr → Cmd Client
load p s = if p == null then fault else elim (s.heap p) [ none ↦ fault | some c ↦ ok c s ]

abbrev pub put : Ptr → Option Client → State → State
put p c s = record s { heap = update s.heap p c }

-- An assignment to fields of `*p`.
unfoldable pub modify : Ptr → (Client → Client) → Cmd (Unit {0})
unfolding load
modify p f = do c ← load p; λ s. ok tt (put p (some (f c)) s)

-- `rooms[r]`.
unfoldable pub load_room : ℕ → Cmd Room
load_room r s = if ltb r max_rooms then ok (s.rooms r) s else fault

abbrev pub put_room : ℕ → Room → State → State
put_room r v s = record s { rooms = update s.rooms r v }

unfoldable pub modify_room : ℕ → (Room → Room) → Cmd (Unit {0})
unfolding load_room
modify_room r f = do v ← load_room r; λ s. ok tt (put_room r (f v) s)

-- Locking `t_mutex_room[r]` for a section that runs alone: what is left of it is the index.
unfoldable pub lock_room : ℕ → Cmd (Unit {0})
lock_room r = if ltb r max_rooms then skip else fail

-- `fd_clients[fd]`.
unfoldable pub load_fd : ℕ → Cmd Ptr
load_fd fd s = if ltb fd max_fds then ok (s.fd_clients fd) s else fault

unfoldable pub set_fd : ℕ → Ptr → Cmd (Unit {0})
set_fd fd p s =
    if ltb fd max_fds then ok tt (record s { fd_clients = update s.fd_clients fd p }) else fault

abbrev pub emit : List Output → State → State
emit events s = record s { out = s.out ++ events }

abbrev pub tell : Output → Cmd (Unit {0})
tell e s = ok tt (emit (e ∷ []) s)

-- The `username` array read as a string. An array with no NUL runs on into the bytes of `next`, which
-- end the string where `next` is NULL.
unfoldable pub name_of : Client → Option Bytes
name_of c = if has_nul c.username || (c.next == null) then some (c_string c.username) else none

unfoldable pub read_name : Client → Cmd Bytes
unfolding name_of
read_name c s = elim (name_of c) [ none ↦ fault | some name ↦ ok name s ]

-- `rooms[r].name` read as a string: the array is followed by the pointer `client`.
unfoldable pub room_name : Room → Option Bytes
room_name v = if has_nul v.name || (v.client == null) then some (c_string v.name) else none

unfoldable pub read_room_name : Room → Cmd Bytes
unfolding room_name
read_room_name v s = elim (room_name v) [ none ↦ fault | some name ↦ ok name s ]
