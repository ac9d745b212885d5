-- ===== src/LuaFunctions/RoomNames.antt =====
-- `lua_load_room` of 1.0/server/luafunction.c over the strings of the table `rooms`.
use as3chat.Common.{
  ℕ, suc, ◌+◌, ◌<◌, ◌≤◌, ◌≡◌, refl, sym, ap, subst, ◌∙◌, ◌⊎◌, inl, inr, false, some, List, [], ◌∷◌,
  arith,
}
use as3chat.Common.Tests.{ltb, ◌==◌, if◌then◌else◌, lt→ltb, ==_ne, Bool-cases}
use as3chat.Common.Int.{pos}
use as3chat.Common.Lists.{length}
use as3chat.Common.Text.{Bytes, lit, strncpy}
use as3chat.Server.{max_char_length, max_rooms, Room, State, ok, fault, skip}
use as3chat.Server.Commands.{modify_room, put_room, update}
use as3chat.External.{
  LuaValue, nil, boolean, lightuserdata, number, string, table, function, userdata, thread, Global,
  entries, Lua,
}
use as3chat.LuaFunctions.{open_room, load_room_loop, lua_load_room}

-- The strings among the values of a table.
abbrev pub strings : List (Bytes × LuaValue) → List Bytes
strings [] = []
strings ((_, string name) ∷ es) = name ∷ strings es
strings (_ ∷ es) = strings es

abbrev pub named : Bytes → Room → Room
named name v = record v { enable = pos 1; name = strncpy max_char_length name }

-- Room `r` where the names open the rooms behind room `i`.
abbrev pub opened : List Bytes → ℕ → ℕ → Room → Room
opened [] i r v = v
opened (name ∷ names) i r v = if r == suc i then named name v else opened names (suc i) r v

opened-below : (names : List Bytes) (i r : ℕ) (v : Room) → r ≤ i → opened names i r v ≡ v
opened-below [] i r v h = refl
opened-below (name ∷ names) i r v h =
    rw (==_ne r (suc i) (λ e. absurd (omega arith))) (opened-below names (suc i) r v (omega arith))

opened-cons :
    (name : Bytes) (names : List Bytes) (i r : ℕ) (rooms : ℕ → Room)
    → opened names (suc i) r (update rooms (suc i) (named name (rooms (suc i))) r)
      ≡ opened (name ∷ names) i r (rooms r)
unfolding update
opened-cons name names i r rooms = elim (Bool-cases (r == suc i)) [
  | inl same ↦
      rw (same, opened-below names (suc i) r (named name (rooms (suc i))) (ground arith))
        (ap (λ q. named name (rooms q)) (ground arith))
  | inr other ↦ rw other
]

-- A value is a string, or the loop passes over it.
skips :
    (i : ℕ) (key : Bytes) (v : LuaValue) (es : List (Bytes × LuaValue)) (s : State)
    → ((name : Bytes) × (v ≡ string name))
      ⊎ ((load_room_loop i ((key, v) ∷ es) s
            ≡ (if ltb i max_rooms then load_room_loop i es else skip) s)
          × (strings ((key, v) ∷ es) ≡ strings es))
unfolding load_room_loop
skips i key (string name) es s = inl (name, refl)
skips i key nil es s = inr (refl, refl)
skips i key (boolean b) es s = inr (refl, refl)
skips i key lightuserdata es s = inr (refl, refl)
skips i key (number n) es s = inr (refl, refl)
skips i key table es s = inr (refl, refl)
skips i key function es s = inr (refl, refl)
skips i key userdata es s = inr (refl, refl)
skips i key thread es s = inr (refl, refl)

abbrev opening : ℕ → Bytes → State → State
opening r name s = put_room r (named name (s.rooms r)) s

open_room-ok :
    (r : ℕ) (name : Bytes) (s : State)
    → r < max_rooms
    → open_room r name s ≡ ok tt (opening r name s)
unfolding open_room modify_room
open_room-ok r name s h = rw (lt→ltb r max_rooms h)

open_room-fault :
    (r : ℕ) (name : Bytes) (s : State) → ltb r max_rooms ≡ false → open_room r name s ≡ fault
unfolding open_room modify_room
open_room-fault r name s out = rw out

-- The state `t` is `s` with the rooms behind room `i` opened under the names.
pub record Opened (s t : State) (i : ℕ) (names : List Bytes) : Type 0 where
  pub rest : t ≡ record s { rooms = t.rooms }
  pub rooms : (r : ℕ) → t.rooms r ≡ opened names i r (s.rooms r)

Opened-cons :
    (s t : State) (i : ℕ) (name : Bytes) (names : List Bytes)
    → Opened (opening (suc i) name s) t (suc i) names
    → Opened s t i (name ∷ names)
Opened-cons s t i name names v = record {
  rest = v.rest;
  rooms = λ r. v.rooms r ∙ opened-cons name names i r s.rooms;
}

-- The loop from room `i` on opens the rooms of the strings in `es`.
abbrev Opens : ℕ → List (Bytes × LuaValue) → State → Type 0
Opens i es s = (t : State) × (load_room_loop i es s ≡ ok tt t) × Opened s t i (strings es)

Opens-string :
    (i : ℕ) (key name : Bytes) (es : List (Bytes × LuaValue)) (s : State)
    → suc i < max_rooms
    → Opens (suc i) es (opening (suc i) name s)
    → Opens i ((key, string name) ∷ es) s
unfolding load_room_loop
Opens-string i key name es s h (t, done, v) = (
  t,
  rw (lt→ltb i max_rooms (omega arith), open_room-ok (suc i) name s h) done,
  Opened-cons s t i name (strings es) v,
)

Opens-other :
    (i : ℕ) (key : Bytes) (v : LuaValue) (es : List (Bytes × LuaValue)) (s : State)
    → i < max_rooms
    → load_room_loop i ((key, v) ∷ es) s ≡ (if ltb i max_rooms then load_room_loop i es else skip) s
    → strings ((key, v) ∷ es) ≡ strings es
    → Opens i es s
    → Opens i ((key, v) ∷ es) s
Opens-other i key v es s h same less (t, done, o) =
    (t, same ∙ rw (lt→ltb i max_rooms h) done, subst (Opened s t i) (sym less) o)

Opens-all :
    (i : ℕ) (es : List (Bytes × LuaValue)) (s : State)
    → i + length (strings es) < max_rooms
    → Opens i es s
unfolding load_room_loop
Opens-all i [] s h = (s, refl, record { rest = refl; rooms = λ r. refl })
Opens-all i ((key, v) ∷ es) s h = elim (skips i key v es s) [
  | inl (name, e) ↦
      let h' = subst (λ w. i + length (strings ((key, w) ∷ es)) < max_rooms) e h in
      subst (λ w. Opens i ((key, w) ∷ es) s) (sym e)
        (Opens-string i key name es s (omega arith)
          (Opens-all (suc i) es (opening (suc i) name s) (omega arith)))
  | inr (same, less) ↦
      let h' = subst (λ ns. i + length ns < max_rooms) less h in
      Opens-other i key v es s (omega arith) same less (Opens-all i es s h')
]

pub lua_load_room-loop :
    (lua : Lua) (global : Bytes → Global) (es : List (Bytes × LuaValue)) (s : State)
    → lua.dofile (lit "conf/room.conf") ≡ some global
    → global (lit "rooms") ≡ entries es
    → lua_load_room lua s ≡ load_room_loop 0 es s
unfolding lua_load_room
lua_load_room-loop lua global es s run found = rw (run, found, lua_load_room)

-- The script's rooms: the strings of its table `rooms`, in the order in which the table is walked, open
-- the rooms 1, 2 and so on under their names, cut to an array; other values are passed over, and every
-- other room and the rest of the state stay as they were. Conditions: the script runs, and it has fewer
-- strings than the server has rooms.
pub lua_load_room-Opened :
    (lua : Lua) (global : Bytes → Global) (es : List (Bytes × LuaValue)) (s : State)
    → lua.dofile (lit "conf/room.conf") ≡ some global
    → global (lit "rooms") ≡ entries es
    → length (strings es) < max_rooms
    → (t : State) × (lua_load_room lua s ≡ ok tt t) × Opened s t 0 (strings es)
lua_load_room-Opened lua global es s run found h =
    let (t, done, o) = Opens-all 0 es s (omega arith) in
    (t, lua_load_room-loop lua global es s run found ∙ done, o)

overflow-string :
    (i : ℕ) (key name : Bytes) (es : List (Bytes × LuaValue)) (s : State)
    → i < max_rooms
    → ((suc i < max_rooms) → load_room_loop (suc i) es (opening (suc i) name s) ≡ fault)
    → load_room_loop i ((key, string name) ∷ es) s ≡ fault
unfolding load_room_loop
overflow-string i key name es s h later = elim (Bool-cases (ltb (suc i) max_rooms)) [
  | inl inside ↦
      rw (lt→ltb i max_rooms h, open_room-ok (suc i) name s (ground arith)) (later (ground arith))
  | inr outside ↦ rw (lt→ltb i max_rooms h, open_room-fault (suc i) name s outside)
]

loop-overflow :
    (i : ℕ) (es : List (Bytes × LuaValue)) (s : State)
    → i < max_rooms
    → max_rooms ≤ i + length (strings es)
    → load_room_loop i es s ≡ fault
loop-overflow i [] s h full = absurd (omega arith)
loop-overflow i ((key, v) ∷ es) s h full = elim (skips i key v es s) [
  | inl (name, e) ↦
      let full' = subst (λ w. max_rooms ≤ i + length (strings ((key, w) ∷ es))) e full in
      subst (λ w. load_room_loop i ((key, w) ∷ es) s ≡ fault) (sym e)
        (overflow-string i key name es s h
          (λ inside. loop-overflow (suc i) es (opening (suc i) name s) inside (omega arith)))
  | inr (same, less) ↦
      same
      ∙ rw (lt→ltb i max_rooms h)
          (loop-overflow i es s h (subst (λ ns. max_rooms ≤ i + length ns) less full))
]

-- As many strings as the server has rooms, or more, make it write behind the array `rooms`: the
-- program tests the number of the room before the one that it fills. Condition: the script runs.
pub lua_load_room-overflows :
    (lua : Lua) (global : Bytes → Global) (es : List (Bytes × LuaValue)) (s : State)
    → lua.dofile (lit "conf/room.conf") ≡ some global
    → global (lit "rooms") ≡ entries es
    → max_rooms ≤ length (strings es)
    → lua_load_room lua s ≡ fault
lua_load_room-overflows lua global es s run found h =
    lua_load_room-loop lua global es s run found ∙ loop-overflow 0 es s (omega arith) (omega arith)
