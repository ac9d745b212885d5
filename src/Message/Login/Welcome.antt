-- ===== src/Message/Login/Welcome.antt =====
-- The end of `EV_TYPE_AUTH` in 1.0/server/message.c, after a login has been accepted.
use as3chat.Common.{ℕ, ◌+◌, ◌<◌, ◌≡◌, refl, ◌≢◌, ◌⊎◌, true, false, none, some, [], ◌∷◌}
use as3chat.Common.Tests.{==_refl}
use as3chat.Common.Int.{pos, negsuc, ◌==ℤ◌}
use as3chat.Common.Lists.{length}
use as3chat.Common.Text.{has_nul}
use as3chat.Server.{Ptr, null, max_fds, Client, fd_success, State, write, ok}
use as3chat.Server.Commands.{put, update, emit}
use as3chat.LuaFunctions.{lua_get_type}
use as3chat.Messages.{auth_welcome}
use as3chat.Rooms.{send_message, other_same_username}
use as3chat.Rooms.Chain.{Members, has, frame, load-ok}
use as3chat.Rooms.Broadcast.{name, IsNamed, read_name-ok}
use as3chat.Rooms.Unlink.{modify-ok}
use as3chat.Rooms.Leave.{Roster}
use as3chat.Rooms.Enter.{MayEnter, Entered}
use as3chat.Rooms.Join.{join_room-Entered}
use as3chat.HashTable.Chains.{Entries, InBucket}
use as3chat.Nodes.Lookup.{finds, InRange, get_fdnode_byname-finds}
use as3chat.Nodes.Add.{added, node_add-added}
use as3chat.Message.Login.{Env, log_in}

-- The client after its login, before it comes into a room.
abbrev pub logged_in : Env → Client → Client
logged_in env c = record c { type = lua_get_type env.external.lua (name c); state = fd_success }

-- What holds for a client `c` at `p` that logs in for the room `r`.
pub record Arrives (env : Env) (s : State) (p : Ptr) (c : Client) (r : ℕ) (xs : Members)
    (es : Entries) : Type 0 where
  pub ne_null : p ≢ null
  pub live : s.heap p ≡ some c
  pub named : IsNamed c
  pub fd_range : c.fd < max_fds
  pub known : s.fd_clients c.fd ≡ p
  pub roster : Roster s r xs
  pub absent : has p xs ≡ false
  pub enabled : ((s.rooms r).enable ==ℤ pos 0) ≡ false
  pub room_named : has_nul (s.rooms r).name ≡ true
  pub unlinked : (xs ≢ []) ⊎ (c.next ≡ null)
  pub bucket : InBucket s (name c) es
  pub in_range : InRange es
  -- nobody else has the name
  pub alone : finds (name c) (pos c.fd) es ≡ none
  pub fuel : length xs + 1 < env.fuel

other_same_username-nobody : (k : ℕ) (s : State) → other_same_username k null s ≡ ok tt s
unfolding other_same_username
other_same_username-nobody k s = refl

module _ (env : Env) (s : State) (p : Ptr) (c : Client) (r : ℕ) (xs : Members) (es : Entries)
    (v : Arrives env s p c r xs es) where
  -- The name table holds the client, which knows its rank and that it has logged in, and has been told.
  abbrev pub welcomed : State
  welcomed =
      emit (write c.fd (auth_welcome (name c) (lua_get_type env.external.lua (name c))) ∷ [])
        (put p (some (logged_in env c)) (added s p c es v.ne_null v.live v.named v.bucket))

  welcomed-MayEnter : MayEnter welcomed r xs p (logged_in env c)
  unfolding update
  welcomed-MayEnter = record {
    roster = record {
      seats = record {
        in_range = v.roster.seats.in_range;
        starts = v.roster.seats.starts;
        chain = frame s.heap null xs p _ v.absent v.roster.seats.chain;
      };
      distinct = v.roster.distinct;
      sit = v.roster.sit;
    };
    enabled = v.enabled;
    room_named = v.room_named;
    absent = v.absent;
    ne_null = v.ne_null;
    live = rw (==_refl p);
    sits = record {
      room = refl;
      online = refl;
      named = v.named;
      fd_range = v.fd_range;
      known = v.known;
    };
    unlinked = v.unlinked;
  }

  -- A client whose login is accepted is entered in the name table under its name, gets the rank that the
  -- script gives to that name, is marked as logged in and told so, and comes into the room that it asks
  -- for. Conditions: the client is live, in no room, and nobody else has its name; the room is enabled
  -- and as the server keeps it; the fuel exceeds the room's members by two.
  pub log_in-Entered :
      (n : ℕ)
      → c.roomid ≡ negsuc n
      → (t : State) × (log_in env p c.fd (pos r) s ≡ ok tt t)
        × Entered welcomed t r xs p (logged_in env c)
  unfolding log_in send_message
  log_in-Entered n outside =
      let (t, done, entered) =
        join_room-Entered env.fuel r n welcomed xs p (logged_in env c) welcomed-MayEnter outside
          v.fuel in
      (
        t,
        rw (
          load-ok s p c v.ne_null v.live,
          read_name-ok s c v.named,
          get_fdnode_byname-finds s (name c) (pos c.fd) es v.bucket v.in_range,
          v.alone,
          other_same_username-nobody env.fuel s,
          node_add-added s p c es v.ne_null v.live v.named v.bucket,
          modify-ok p
              (λ b. record b { type = lua_get_type env.external.lua (name c); state = fd_success })
              (added s p c es v.ne_null v.live v.named v.bucket) c v.ne_null v.live,
          done,
        ),
        entered,
      )
