-- ===== src/Events/Start.antt =====
-- The state after the start of `main` in 1.0/server/MyleftServer.c.
use as3chat.Common.{
  ℕ, zero, suc, ◌+◌, ◌%◌, ◌<◌, ◌≤◌, ◌≡◌, refl, ap, ◌∙◌, inl, inr, true, some, List, [], ◌∷◌, arith,
}
use as3chat.Common.Tests.{◌==◌, if◌then◌else◌, Bool-cases}
use as3chat.Common.Int.{pos}
use as3chat.Common.Lists.{length}
use as3chat.Common.Text.{Bytes, lit}
use as3chat.Server.{null, max_rooms, max_fds, Room, State, Cmd, ok, pure, ◌>>◌}
use as3chat.Server.Commands.{modify_room, put_room, update, fill}
use as3chat.External.{LuaValue, Global, entries}
use as3chat.LuaFunctions.{lua_load_room}
use as3chat.LuaFunctions.RoomNames.{strings, named, opened, Opened, lua_load_room-Opened}
use as3chat.Rooms.Leave.{Roster}
use as3chat.HashTable.{bkdr_hash, hash_create}
use as3chat.HashTable.Chains.{InBucket}
use as3chat.Message.Login.{Env}
use as3chat.Events.{blank_room, clear_fds, clear_rooms, max_users, open_rooms, start}

module _ {ℓ} {A : Type ℓ} where
  fill-keeps : (k i : ℕ) (v : A) (f : ℕ → A) (j : ℕ) → f j ≡ v → fill k i v f j ≡ v
  unfolding fill update
  fill-keeps zero i v f j e = e
  fill-keeps (suc k) i v f j e =
      fill-keeps k (suc i) v (update f i v) j
        (elim (Bool-cases (j == i)) [ inl here ↦ rw here | inr other ↦ rw other e ])

  -- A loop leaves its value at each place that it passes.
  fill-inside : (k i : ℕ) (v : A) (f : ℕ → A) (j : ℕ) → i ≤ j → j < i + k → fill k i v f j ≡ v
  unfolding fill update
  fill-inside zero i v f j low high = absurd (omega arith)
  fill-inside (suc k) i v f j low high = elim (Bool-cases (j == i)) [
    | inl here ↦ fill-keeps k (suc i) v (update f i v) j (rw here)
    | inr other ↦ fill-inside k (suc i) v (update f i v) j (ground arith) (omega arith)
  ]

-- An empty server: no room has members, no descriptor a client, no chain an item.
pub record Empty (t : State) : Type 0 where
  pub rosters : (r : ℕ) → r < max_rooms → Roster t r []
  pub nums : (r : ℕ) → r < max_rooms → (t.rooms r).num ≡ pos 0
  pub buckets : (key : Bytes) → InBucket t key []
  pub fds : (fd : ℕ) → fd < max_fds → t.fd_clients fd ≡ null
  pub tasks : t.tasks ≡ []
  pub silent : t.out ≡ []

abbrev hall_name : Bytes
hall_name = lit "Myleft聊天大厅"

-- After the two loops.
abbrev cleared : State → State
cleared s = record s {
  fd_clients = fill max_fds 0 null s.fd_clients;
  rooms = fill max_rooms 0 blank_room s.rooms;
}

-- After `hash_create` and the opening of room 0.
abbrev prepared : State → State
prepared s =
    put_room 0 (named hall_name (fill max_rooms 0 blank_room s.rooms 0))
      (record (cleared s) { hash_size = max_users; hash_table = fill max_users 0 [] s.hash_table })

opened-client : (names : List Bytes) (i r : ℕ) (v : Room) → (opened names i r v).client ≡ v.client
opened-client [] i r v = refl
opened-client (name ∷ names) i r v = elim (Bool-cases (r == suc i)) [
  | inl hit ↦ rw hit
  | inr miss ↦ rw miss (opened-client names (suc i) r v)
]

opened-num : (names : List Bytes) (i r : ℕ) (v : Room) → (opened names i r v).num ≡ v.num
opened-num [] i r v = refl
opened-num (name ∷ names) i r v = elim (Bool-cases (r == suc i)) [
  | inl hit ↦ rw hit
  | inr miss ↦ rw miss (opened-num names (suc i) r v)
]

-- A room after the loops and the opening of room 0.
abbrev hall_or_blank : ℕ → Room
hall_or_blank r = if r == 0 then named hall_name blank_room else blank_room

prepared-rooms : (s : State) (r : ℕ) → r < max_rooms → (prepared s).rooms r ≡ hall_or_blank r
unfolding update
prepared-rooms s r h = elim (Bool-cases (r == 0)) [
  | inl hall ↦ rw (hall, fill-inside max_rooms 0 blank_room s.rooms 0 (omega arith) (omega arith))
  | inr other ↦ rw (other, fill-inside max_rooms 0 blank_room s.rooms r (omega arith) (omega arith))
]

hall_or_blank-client : (r : ℕ) → (hall_or_blank r).client ≡ null
unfolding blank_room
hall_or_blank-client r = elim (Bool-cases (r == 0)) [ inl h ↦ rw h | inr m ↦ rw m ]

hall_or_blank-num : (r : ℕ) → (hall_or_blank r).num ≡ pos 0
unfolding blank_room
hall_or_blank-num r = elim (Bool-cases (r == 0)) [ inl h ↦ rw h | inr m ↦ rw m ]

start-prepared :
    (env : Env) (s : State)
    → start env true s ≡ (lua_load_room env.external.lua >> pure true) (prepared s)
unfolding start clear_fds clear_rooms hash_create open_rooms modify_room
start-prepared env s = refl

loaded :
    (load : Cmd (Unit {0})) (s t : State) → load s ≡ ok tt t → (load >> pure true) s ≡ ok true t
loaded load s t done = rw done

module _ (s t : State) (names : List Bytes) (o : Opened (prepared s) t 0 names) where
  Opened-size : t.hash_size ≡ max_users
  Opened-size = ap (λ (w : State). w.hash_size) o.rest

  Opened-chain : (i : ℕ) → i < max_users → t.hash_table i ≡ []
  Opened-chain i h =
      ap (λ (w : State). w.hash_table i) o.rest
      ∙ fill-inside max_users 0 [] s.hash_table i (omega arith) (omega arith)

  Opened-room : (r : ℕ) → r < max_rooms → t.rooms r ≡ opened names 0 r (hall_or_blank r)
  Opened-room r h = o.rooms r ∙ ap (opened names 0 r) (prepared-rooms s r h)

  Opened-Empty : s.tasks ≡ [] → s.out ≡ [] → Empty t
  Opened-Empty idle quiet = record {
    rosters = λ r h. record {
      seats = record {
        in_range = h;
        starts =
            ap (λ v. v.client) (Opened-room r h)
            ∙ opened-client names 0 r (hall_or_blank r)
            ∙ hall_or_blank-client r;
        chain = tt;
      };
      distinct = tt;
      sit = tt;
    };
    nums = λ r h.
        ap (λ (v : Room). v.num) (Opened-room r h)
        ∙ opened-num names 0 r (hall_or_blank r)
        ∙ hall_or_blank-num r;
    buckets = λ key. record {
      made = λ none_made. absurd (omega (arith, Opened-size));
      chain = Opened-chain (bkdr_hash key % t.hash_size) (rw Opened-size (omega arith));
      keys = tt;
    };
    fds = λ fd h.
        ap (λ (w : State). w.fd_clients fd) o.rest
        ∙ fill-inside max_fds 0 null s.fd_clients fd (omega arith) (omega arith);
    tasks = ap (λ (w : State). w.tasks) o.rest ∙ idle;
    silent = ap (λ (w : State). w.out) o.rest ∙ quiet;
  }

-- Whatever the memory of the arrays and of the name table holds, the start makes an empty server that is
-- well-formed: every room is as the server keeps it with no members and counts none, the name table is
-- made and all its chains are empty, no descriptor has a client, and nothing is queued or written; and
-- its rooms are the hall and those of the script. Conditions: nothing is queued or written before; the
-- table gets its memory; the script of the rooms runs and has fewer strings than the server has rooms.
pub start-Empty :
    (env : Env) (s : State) (global : Bytes → Global) (es : List (Bytes × LuaValue))
    → s.tasks ≡ []
    → s.out ≡ []
    → env.external.lua.dofile (lit "conf/room.conf") ≡ some global
    → global (lit "rooms") ≡ entries es
    → length (strings es) < max_rooms
    → (t : State) × (start env true s ≡ ok true t)
      × Empty t
      × ((r : ℕ)
          → r < max_rooms
          → t.rooms r
            ≡ opened
                (strings es)
                0
                r
                (if r == 0 then named (lit "Myleft聊天大厅") blank_room else blank_room))
start-Empty env s global es idle quiet run found h =
    let (t, done, o) = lua_load_room-Opened env.external.lua global es (prepared s) run found h in
    (
      t,
      start-prepared env s ∙ loaded (lua_load_room env.external.lua) (prepared s) t done,
      Opened-Empty s t (strings es) o idle quiet,
      Opened-room s t (strings es) o,
    )
