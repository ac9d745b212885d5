-- ===== src/Tests/Scene.antt =====
-- A server with three clients in room 0, an empty room 1 and a client in room 2.
use Prim.Native.String.{String}
use as3chat.Common.{ℕ, ◌%◌, Option, none, some, [], ◌∷◌}
use as3chat.Common.Tests.{◌==◌, if◌then◌else◌}
use as3chat.Common.Int.{ℤ, pos, minus_one}
use as3chat.Common.Text.{Bytes, lit, strncpy}
use as3chat.HashTable.{bkdr_hash}
use as3chat.Server.{Ptr, null, Client, Room, HashItem, State, fd_success, client_type_none}

-- An array of 64 bytes that holds a text.
unfoldable pub array : String → Bytes
unfolding lit strncpy
array text = strncpy 64 (lit text)

abbrev pub client : ℕ → ℤ → String → Ptr → Client
client fd roomid text next = record {
  fd = fd;
  roomid = roomid;
  state = fd_success;
  type = client_type_none;
  anonymous = pos 0;
  x = pos 1;
  y = pos 1;
  keepalivetime = pos 0;
  username = array text;
  next = next;
}

abbrev pub ann : Client
ann = client 5 (pos 0) "ann" 102

abbrev pub bob : Client
bob = client 6 (pos 0) "bob" 103

abbrev pub cid : Client
cid = client 7 (pos 0) "cid" null

abbrev pub dan : Client
dan = client 8 (pos 2) "dan" null

-- A client that has just logged in.
abbrev pub eve : Client
eve = client 9 minus_one "eve" null

abbrev room : ℤ → Ptr → Room
room num first = record { enable = pos 1; num = num; name = array "hall"; client = first }

unfoldable pub scene_heap : Ptr → Option Client
scene_heap q =
    if q == 101
    then some ann
    else if q == 102
    then some bob
    else if q == 103
    then some cid
    else if q == 104
    then some dan
    else if q == 105
    then some eve
    else none

unfoldable pub scene_fds : ℕ → Ptr
scene_fds fd =
    if fd == 5
    then 101
    else if fd == 6
    then 102
    else if fd == 7
    then 103
    else if fd == 8
    then 104
    else if fd == 9
    then 105
    else null

unfoldable pub scene_rooms : ℕ → Room
scene_rooms r =
    if r == 0 then room (pos 3) 101 else if r == 2 then room (pos 1) 104 else room (pos 0) null

abbrev pub scene : State
scene = record {
  heap = scene_heap;
  fd_clients = scene_fds;
  rooms = scene_rooms;
  hash_table = λ i. [];
  hash_size = 100;
  tasks = [];
  out = [];
}

abbrev pub bob_item : HashItem
bob_item = record { key = 102; fd = 6 }

-- The scene with Bob in the name table.
abbrev pub named_scene : State
named_scene = record scene {
  hash_table = λ i. if i == bkdr_hash (lit "bob") % 100 then bob_item ∷ [] else [];
}
