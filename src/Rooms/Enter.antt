-- ===== src/Rooms/Enter.antt =====
-- The section of `join_room` in 1.0/server/function.c under the mutex of the room.
use as3chat.Common.{
  ℕ, ◌+◌, ◌<◌, ◌≡◌, refl, ap, ◌≢◌, ◌⊎◌, ◌∙◌, true, false, some, List, [], ◌∷◌, ◌++◌, arith,
}
use as3chat.Common.Tests.{==_ne, ==_refl, lt→ltb}
use as3chat.Common.Int.{pos, ◌+ℤ◌, ◌==ℤ◌}
use as3chat.Common.Lists.{length, length-append}
use as3chat.Common.Text.{Bytes, c_string, has_nul}
use as3chat.Server.{Ptr, null, max_rooms, Client, Room, State, Output, write, ok}
use as3chat.Server.Commands.{put, put_room, update, emit, read_room_name}
use as3chat.Messages.{room_entered, user_login}
use as3chat.Rooms.{welcome, enter, send_message}
use as3chat.Rooms.Chain.{
  Members, head, linked, has, load-ok, frame, Distinct-join, Apart-one, has-ne,
}
use as3chat.Rooms.Broadcast.{
  Seats, deliveries, listing, name, AllNamed, load_room-ok, read_name-ok,
  send_message_all-deliveries, send_userlist-listing, emit-emit,
}
use as3chat.Rooms.Unlink.{modify-ok, modify_room-ok}
use as3chat.Rooms.Leave.{Sits, AllSit, AllSit-join, Roster}
use as3chat.Rooms.Link.{Linked, link_lem}

abbrev pub inside : ℕ → Client → Client
inside r c = record c { roomid = pos r }

-- What is written when the client `c` comes into room `r` with the name `room`, whose members then
-- are `xs`: a note to itself, its name to all of them, and their list to itself.
abbrev pub welcomes : ℕ → Bytes → Client → Members → List Output
welcomes r room c xs =
    write c.fd (room_entered r room) ∷ (deliveries (user_login (name c)) xs ++ listing c.fd xs)

pub AllSit-AllNamed : (f : ℕ → Ptr) (r : ℕ) (xs : Members) → AllSit f r xs → AllNamed xs
AllSit-AllNamed f r [] all = tt
AllSit-AllNamed f r ((p, c) ∷ xs) (v, all) = (v.named, AllSit-AllNamed f r xs all)

read_room_name-ok :
    (v : Room) (s : State) → has_nul v.name ≡ true → read_room_name v s ≡ ok (c_string v.name) s
unfolding read_room_name
read_room_name-ok v s h = ground arith

pub welcome-welcomes :
    (k r : ℕ) (s : State) (p : Ptr) (c : Client) (xs : Members)
    → p ≢ null
    → s.heap p ≡ some c
    → Sits s.fd_clients r p c
    → ((s.rooms r).enable ==ℤ pos 0) ≡ false
    → has_nul (s.rooms r).name ≡ true
    → Seats s r xs
    → AllNamed xs
    → length xs < k
    → welcome k p r s ≡ ok tt (emit (welcomes r (c_string (s.rooms r).name) c xs) s)
unfolding welcome send_message
welcome-welcomes k r s p c xs n e v on room seats named fuel =
    let hello = write c.fd (room_entered r (c_string (s.rooms r).name)) in
    let s1 = emit (hello ∷ []) s in
    let s2 = emit (deliveries (user_login (name c)) xs) s1 in
    let seats1 : Seats s1 r xs = record {
      in_range = seats.in_range;
      starts = seats.starts;
      chain = seats.chain;
    } in
    let seats2 : Seats s2 r xs = record {
      in_range = seats.in_range;
      starts = seats.starts;
      chain = seats.chain;
    } in
    rw
      (
        load-ok s p c n e,
        load_room-ok r s seats.in_range,
        read_room_name-ok (s.rooms r) s room,
        read_name-ok s1 c v.named,
        send_message_all-deliveries k r s1 c.fd p c (user_login (name c)) xs v.fd_range v.known n e
            v.room seats1 fuel,
        send_userlist-listing k r s2 p c xs n e v.room on seats2 named fuel,
      )
      (ap (ok tt) (
        ap (emit (listing c.fd xs)) (emit-emit (hello ∷ []) (deliveries (user_login (name c)) xs) s)
        ∙ emit-emit (hello ∷ deliveries (user_login (name c)) xs) (listing c.fd xs) s))

-- The state `t` after a client `c` at `p` has come into room `r` with the members `xs` in the state `s`.
pub record Entered (s t : State) (r : ℕ) (xs : Members) (p : Ptr) (c : Client) : Type 0 where
  pub roster : Roster t r (xs ++ (p, inside r c) ∷ [])
  pub num : (t.rooms r).num ≡ (s.rooms r).num +ℤ pos 1
  pub told :
      t.out
      ≡ s.out ++ welcomes r (c_string (s.rooms r).name) (inside r c) (xs ++ (p, inside r c) ∷ [])
  pub spared : (q : Ptr) → has q (xs ++ (p, inside r c) ∷ []) ≡ false → t.heap q ≡ s.heap q
  pub rooms : (i : ℕ) → i ≢ r → t.rooms i ≡ s.rooms i
  pub fd_clients : t.fd_clients ≡ s.fd_clients
  pub table : t.hash_table ≡ s.hash_table
  pub size : t.hash_size ≡ s.hash_size
  pub tasks : t.tasks ≡ s.tasks

-- The conditions under which a client may come into a room.
pub record MayEnter (s : State) (r : ℕ) (xs : Members) (p : Ptr) (c : Client) : Type 0 where
  pub roster : Roster s r xs
  pub enabled : ((s.rooms r).enable ==ℤ pos 0) ≡ false
  pub room_named : has_nul (s.rooms r).name ≡ true
  pub absent : has p xs ≡ false
  pub ne_null : p ≢ null
  pub live : s.heap p ≡ some c
  pub sits : Sits s.fd_clients r p (inside r c)
  -- the list of an empty room starts at the client and goes on where its `next` points
  pub unlinked : (xs ≢ []) ⊎ (c.next ≡ null)

abbrev pub counted : ℕ → State → State
counted r w = put_room r (record (w.rooms r) { num = (w.rooms r).num +ℤ pos 1 }) w

module _ (r : ℕ) (s : State) (xs : Members) (p : Ptr) (c : Client) (v : MayEnter s r xs p c)
    (w : State) (l : Linked (put p (some (inside r c)) s) w r xs p (inside r c)) where
  abbrev all : Members
  all = xs ++ (p, inside r c) ∷ []

  counted-room :
      (counted r w).rooms r
      ≡ record (s.rooms r) { num = (s.rooms r).num +ℤ pos 1; client = head all }
  unfolding update
  counted-room = rw (==_refl r) (ap (λ (u : Room). record u { num = u.num +ℤ pos 1 }) l.room)

  counted-fd_clients : w.fd_clients ≡ s.fd_clients
  counted-fd_clients = ap (λ u. u.fd_clients) l.rest

  counted-Sits : Sits w.fd_clients r p (linked (inside r c) null)
  counted-Sits = rw counted-fd_clients (record {
    room = v.sits.room;
    online = v.sits.online;
    named = v.sits.named;
    fd_range = v.sits.fd_range;
    known = v.sits.known;
  })

  counted-Roster : Roster (counted r w) r all
  counted-Roster = record {
    seats = record {
      in_range = v.roster.seats.in_range;
      starts = ap (λ u. u.client) counted-room;
      chain = l.chain;
    };
    distinct =
        Distinct-join xs ((p, inside r c) ∷ []) v.roster.distinct (refl, tt)
          (Apart-one p (inside r c) xs v.absent);
    sit =
        rw counted-fd_clients
          (AllSit-join s.fd_clients r xs ((p, inside r c) ∷ []) v.roster.sit (v.sits, tt));
  }

  counted-welcome :
      (k : ℕ)
      → length all < k
      → welcome k p r (counted r w)
        ≡ ok tt (emit (welcomes r (c_string (s.rooms r).name) (inside r c) all) (counted r w))
  counted-welcome k fuel = rw (← ap (λ (u : Room). c_string u.name) counted-room) (
      welcome-welcomes k r (counted r w) p (linked (inside r c) null) all v.ne_null l.self
        counted-Sits (rw counted-room v.enabled) (rw counted-room v.room_named) counted-Roster.seats
        (AllSit-AllNamed _ r all counted-Roster.sit) fuel)

  counted-Entered :
      Entered s
        (emit (welcomes r (c_string (s.rooms r).name) (inside r c) all) (counted r w))
        r
        xs
        p
        c
  unfolding update
  counted-Entered = record {
    roster = record {
      seats = record {
        in_range = v.roster.seats.in_range;
        starts = counted-Roster.seats.starts;
        chain = l.chain;
      };
      distinct = counted-Roster.distinct;
      sit = counted-Roster.sit;
    };
    num = ap (λ u. u.num) counted-room;
    told =
        ap (λ o. o ++ welcomes r (c_string (s.rooms r).name) (inside r c) all)
          (ap (λ u. u.out) l.rest);
    spared = λ q o. l.spared q o ∙ rw (has-ne q xs p (inside r c) [] o);
    rooms = λ i ne. rw (==_ne i r ne) (l.rooms i ne);
    fd_clients = counted-fd_clients;
    table = ap (λ u. u.hash_table) l.rest;
    size = ap (λ u. u.hash_size) l.rest;
    tasks = ap (λ u. u.tasks) l.rest;
  }

pub enter-Entered :
    (k r : ℕ) (s : State) (xs : Members) (p : Ptr) (c : Client)
    → MayEnter s r xs p c
    → length xs + 1 < k
    → (t : State) × (enter k p r s ≡ ok tt t) × Entered s t r xs p c
unfolding enter update
enter-Entered k r s xs p c v fuel =
    let s1 = put p (some (inside r c)) s in
    let hr = v.roster.seats.in_range in
    let (w, done, l) =
      link_lem k r s1 xs p (inside r c)
        (record {
          in_range = hr;
          starts = v.roster.seats.starts;
          chain = frame s.heap null xs p _ v.absent v.roster.seats.chain;
        })
        v.roster.distinct v.absent v.ne_null (rw (==_refl p)) v.unlinked (omega arith) in
    (
      emit (welcomes r (c_string (s.rooms r).name) (inside r c) (all r s xs p c v w l))
          (counted r w),
      rw
          (
            lt→ltb r max_rooms hr,
            load_room-ok r s hr,
            v.enabled,
            modify-ok p (inside r) s c v.ne_null v.live,
            done,
            modify_room-ok r (λ u. record u { num = u.num +ℤ pos 1 }) w hr,
          )
          (counted-welcome r s xs p c v w l k
            (omega (arith, length-append xs ((p, inside r c) ∷ [])))),
      counted-Entered r s xs p c v w l,
    )
