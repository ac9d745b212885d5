-- ===== src/Rooms/Drag.antt =====
-- `join_room` of 1.0/server/function.c into an empty room: the branch for an empty list does not clear
-- `next`, which still leads to the client behind in the old room.
use as3chat.Common.{
  ℕ, ◌+◌, ◌<◌, ◌≡◌, refl, sym, ap, subst, ◌≢◌, ◌∙◌, true, false, some, List, ◌∷◌, ◌++◌, arith,
}
use as3chat.Common.Tests.{==_ne, ==_refl, lt→ltb}
use as3chat.Common.Int.{pos, ◌+ℤ◌, ◌==ℤ◌}
use as3chat.Common.Lists.{length, length-append}
use as3chat.Common.Text.{c_string, has_nul}
use as3chat.Server.{Ptr, null, max_rooms, Client, State, Output, ok}
use as3chat.Server.Commands.{put, update, emit}
use as3chat.Rooms.{return_success, enter, join_room}
use as3chat.Rooms.Chain.{
  Members, head, linked, Chain, has, frame, has-append, Distinct-middle, Chain-prefix,
}
use as3chat.Rooms.Broadcast.{Seats, AllNamed, load_room-ok}
use as3chat.Rooms.Unlink.{modify-ok, modify_room-ok}
use as3chat.Rooms.Link.{started, link-started}
use as3chat.Rooms.Leave.{Sits, AllSit, AllSit-split, Roster, outside, leave_room-Left}
use as3chat.Rooms.Enter.{inside, welcomes, counted, welcome-welcomes, AllSit-AllNamed}
use as3chat.Rooms.Join.{join_room-ok, leave_old-ok}

module _ (j : ℕ) (u : State) (p : Ptr) (c : Client) (back : Members) (hj : j < max_rooms)
    (n : p ≢ null) (live : u.heap p ≡ some (linked c (head back))) (chain : Chain u.heap back)
    (out : has p back ≡ false) (empty : (u.rooms j).client ≡ null) where
  abbrev dragged : State
  dragged = counted j (started j p (put p (some (inside j (linked c (head back)))) u))

  dragged-Seats : Seats dragged j ((p, inside j c) ∷ back)
  unfolding update
  dragged-Seats = record {
    in_range = hj;
    starts = rw (==_refl j);
    chain = (n, rw (==_refl p), frame u.heap null back p _ out chain);
  }

  dragged-room : dragged.rooms j ≡ record (u.rooms j) { num = (u.rooms j).num +ℤ pos 1; client = p }
  unfolding update
  dragged-room = rw (==_refl j)

  dragged-other :
      (i : ℕ) (zs : Members) → i ≢ j → has p zs ≡ false → Seats u i zs → Seats dragged i zs
  unfolding update
  dragged-other i zs ne o v = record {
    in_range = v.in_range;
    starts = rw (==_ne i j ne) v.starts;
    chain = frame u.heap null zs p _ o v.chain;
  }

  enter-drags :
      (k : ℕ)
      → ((u.rooms j).enable ==ℤ pos 0) ≡ false
      → has_nul (u.rooms j).name ≡ true
      → Sits u.fd_clients j p (inside j (linked c (head back)))
      → AllNamed ((p, inside j c) ∷ back)
      → length back + 1 < k
      → enter k p j u
        ≡ ok tt (
            emit
              (welcomes j (c_string (dragged.rooms j).name) (inside j c) ((p, inside j c) ∷ back))
              dragged)
  unfolding enter update
  enter-drags k on named sits all fuel =
      rw
        (
          lt→ltb j max_rooms hj,
          load_room-ok j u hj,
          on,
          modify-ok p (inside j) u (linked c (head back)) n live,
          link-started k j (put p (some (inside j (linked c (head back)))) u) p hj empty,
          modify_room-ok j (λ v. record v { num = v.num +ℤ pos 1 })
              (started j p (put p (some (inside j (linked c (head back)))) u)) hj,
        )
        (welcome-welcomes k j dragged p (inside j (linked c (head back))) ((p, inside j c) ∷ back) n
          (rw (==_refl p)) sits (rw dragged-room on) (rw dragged-room named) dragged-Seats all
          (omega arith))

Seats-emit :
    (s : State) (events : List Output) (i : ℕ) (zs : Members)
    → Seats s i zs
    → Seats (emit events s) i zs
Seats-emit s events i zs v = record { in_range = v.in_range; starts = v.starts; chain = v.chain }

Sits-inside :
    (f : ℕ → Ptr) (i j : ℕ) (p : Ptr) (c : Client) (q : Ptr)
    → Sits f i p c
    → Sits f j p (inside j (linked (outside c) q))
Sits-inside f i j p c q v = record {
  room = refl;
  online = v.online;
  named = v.named;
  fd_range = v.fd_range;
  known = v.known;
}

-- A client that leaves a room in which others stand behind it, for an empty room `j`, takes those others
-- along into the list of room `j`: the list goes on through them, although their `roomid` is still
-- that of the room `i`, where they stay listed too, and although room `j` counts one member more and
-- not all of them. Conditions: room `i` is as the server keeps it, room `j` is empty and enabled and
-- its name is terminated, and the fuel exceeds the members of room `i`.
pub join_room_drags :
    (k i j : ℕ) (s : State) (front : Members) (p : Ptr) (c : Client) (back : Members)
    → Roster s i (front ++ (p, c) ∷ back)
    → j < max_rooms
    → (s.rooms j).client ≡ null
    → i ≢ j
    → ((s.rooms j).enable ==ℤ pos 0) ≡ false
    → has_nul (s.rooms j).name ≡ true
    → length (front ++ (p, c) ∷ back) < k
    → (t : State) × (join_room k p (pos j) s ≡ ok return_success t)
      × Seats t j ((p, inside j c) ∷ back)
      × Seats t i (front ++ back)
      × AllSit t.fd_clients i back
      × ((t.rooms j).num ≡ (s.rooms j).num +ℤ pos 1)
join_room_drags k i j s front p c back here hj empty ne on named fuel =
    let (n, e, _) = (Chain-prefix s.heap null front ((p, c) ∷ back) here.seats.chain).1 in
    let (sits, behind) = (AllSit-split s.fd_clients i front ((p, c) ∷ back) here.sit).1 in
    let (u, left, l) = leave_room-Left k i s front p c back here fuel in
    let same = l.rooms j (λ q. ne (sym q)) in
    let (_, there) = Chain-prefix u.heap null front back l.roster.seats.chain in
    let middle = Distinct-middle front p c back here.distinct in
    let out : has p back ≡ false = ground (arith, has-append p front back) in
    let room : (u.rooms j).client ≡ null = ap (λ v. v.client) same ∙ empty in
    let sits' =
      Sits-inside u.fd_clients i j p c (head back)
        (subst (λ f. Sits f i p c) (sym l.fd_clients) sits) in
    (
      emit _ (dragged j u p (outside c) back hj n l.self there out room),
      join_room-ok k j s u _ p (linked c (head back)) hj on n e (rw sits.room (==_ne i j ne))
          (leave_old-ok k i s u p c.roomid sits.room left)
          (enter-drags j u p (outside c) back hj n l.self there out room k (rw same on)
            (rw same named) sits' (sits.named, AllSit-AllNamed s.fd_clients i back behind)
            (omega (arith, length-append front ((p, c) ∷ back)))),
      Seats-emit _ _ j _ (dragged-Seats j u p (outside c) back hj n l.self there out room),
      Seats-emit _ _ i _ (
          dragged-other j u p (outside c) back hj n l.self there out room i (front ++ back) ne
            middle l.roster.seats),
      subst (λ f. AllSit f i back) (sym l.fd_clients) behind,
      ap (λ v. v.num) (dragged-room j u p (outside c) back hj n l.self there out room)
          ∙ ap (λ v. v.num +ℤ pos 1) same,
    )
