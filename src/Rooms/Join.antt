-- ===== src/Rooms/Join.antt =====
-- `join_room` of 1.0/server/function.c: the first room of a client, a change of room, and the change
-- into an empty room that takes other clients along.
use as3chat.Common.{
  ℕ, ◌+◌, ◌<◌, ◌≡◌, refl, sym, ap, ◌≢◌, ◌⊎◌, inl, inr, true, false, some, [], ◌∷◌, ◌++◌, arith,
}
use as3chat.Common.Tests.{==_ne, lt→ltb, le→not_ltb}
use as3chat.Common.Int.{ℤ, pos, negsuc, ◌==ℤ◌}
use as3chat.Common.Lists.{length}
use as3chat.Common.Text.{has_nul}
use as3chat.Server.{Ptr, null, max_rooms, Client, State, ok}
use as3chat.Server.Commands.{lock_room}
use as3chat.Rooms.{return_success, leave_old, enter, leave_room, join_room}
use as3chat.Rooms.Chain.{
  Members, head, linked, has, load-ok, Chain-prefix, Apart-snoc, Apart-middle, Distinct-middle,
}
use as3chat.Rooms.Broadcast.{load_room-ok}
use as3chat.Rooms.Leave.{AllSit-split, Roster, Left, outside, leave_room-Left}
use as3chat.Rooms.Enter.{MayEnter, Entered, enter-Entered}
use as3chat.Rooms.Separate.{Roster-Apart, Roster-spared}

-- Past the tests: the old room is left and the new one entered.
pub join_room-ok :
    (k r : ℕ) (s u t : State) (p : Ptr) (c : Client)
    → r < max_rooms
    → ((s.rooms r).enable ==ℤ pos 0) ≡ false
    → p ≢ null
    → s.heap p ≡ some c
    → (c.roomid ==ℤ pos r) ≡ false
    → leave_old k p c.roomid s ≡ ok tt u
    → enter k p r u ≡ ok tt t
    → join_room k p (pos r) s ≡ ok return_success t
unfolding join_room lock_room
join_room-ok k r s u t p c hr on n e ne left done = rw (
  ==_ne p null n,
  le→not_ltb max_rooms r (omega arith),
  load_room-ok r s hr,
  on,
  load-ok s p c n e,
  ne,
  left,
  lt→ltb r max_rooms hr,
  done,
)

-- A client that is in no room is put at the end of the room's list; the room counts one more, the
-- client is told, all members are told, and the client gets their list; other clients and rooms, the
-- name table and the tasks stay as they were. Conditions: the room is enabled and as the server keeps it, the client is live,
-- logged in and not listed there, its `next` is NULL or the room is not empty, and the fuel exceeds
-- the number of members by two.
pub join_room-Entered :
    (k r n : ℕ) (s : State) (xs : Members) (p : Ptr) (c : Client)
    → MayEnter s r xs p c
    → c.roomid ≡ negsuc n
    → length xs + 1 < k
    → (t : State) × (join_room k p (pos r) s ≡ ok return_success t) × Entered s t r xs p c
unfolding leave_old
join_room-Entered k r n s xs p c v none_yet fuel =
    let (t, done, entered) = enter-Entered k r s xs p c v fuel in
    (
      t,
      join_room-ok k r s s t p c v.roster.seats.in_range v.enabled v.ne_null v.live (rw none_yet)
          (rw none_yet) done,
      entered,
    )

pub leave_old-ok :
    (k i : ℕ) (s u : State) (p : Ptr) (roomid : ℤ)
    → roomid ≡ pos i
    → leave_room k p s ≡ ok return_success u
    → leave_old k p roomid s ≡ ok tt u
unfolding leave_old
leave_old-ok k i s u p roomid e left = rw (e, left)

module _ (i j : ℕ) (s u : State) (front : Members) (p : Ptr) (c : Client) (back xs : Members)
    (here : Roster s i (front ++ (p, c) ∷ back)) (there : Roster s j xs) (ne : i ≢ j)
    (l : Left s u i front p c back) where
  absent : has p xs ≡ false
  absent = Apart-middle front p c back xs (Roster-Apart s i j _ xs ne here there)

  there-spared : Roster u j xs
  there-spared =
      Roster-spared s u j xs (front ++ (p, c) ∷ back) l.spared (l.rooms j (λ e. ne (sym e)))
        l.fd_clients (Roster-Apart s j i xs _ (λ e. ne (sym e)) there here) there

  -- The client may go on into the other room.
  Left-MayEnter :
      ((s.rooms j).enable ==ℤ pos 0) ≡ false
      → has_nul (s.rooms j).name ≡ true
      → p ≢ null
      → ((xs ≢ []) ⊎ (back ≡ []))
      → MayEnter u j xs p (outside (linked c (head back)))
  Left-MayEnter on named n h =
      let sits = (AllSit-split s.fd_clients i front ((p, c) ∷ back) here.sit).1.0 in
      record {
        roster = there-spared;
        enabled = rw (l.rooms j (λ e. ne (sym e))) on;
        room_named = rw (l.rooms j (λ e. ne (sym e))) named;
        absent = absent;
        ne_null = n;
        live = l.self;
        sits = rw l.fd_clients (record {
          room = refl;
          online = sits.online;
          named = sits.named;
          fd_range = sits.fd_range;
          known = sits.known;
        });
        unlinked = elim h [ inl some_one ↦ inl some_one | inr last_one ↦ inr (ap head last_one) ];
      }

  here-spared :
      {t : State} → Entered u t j xs p (outside (linked c (head back))) → Roster t i (front ++ back)
  here-spared {t} entered =
      Roster-spared u t i (front ++ back) _ entered.spared (entered.rooms i ne) entered.fd_clients
        (Apart-snoc (front ++ back) xs p _
          (Roster-Apart u i j (front ++ back) xs ne l.roster there-spared)
          (Distinct-middle front p c back here.distinct))
        l.roster

-- A client that sits in room `i` and asks for another room `j` leaves the one and comes into the other:
-- both lists are again as the server keeps them, the first without the client and the second with it
-- at the end, and each number of members follows. Conditions: the new room is enabled, its name is
-- terminated, and it is not empty or else nobody stands behind the client in the old room; the fuel
-- exceeds the members of either room.
pub join_room-moves :
    (k i j : ℕ) (s : State) (front : Members) (p : Ptr) (c : Client) (back xs : Members)
    → Roster s i (front ++ (p, c) ∷ back)
    → Roster s j xs
    → i ≢ j
    → ((s.rooms j).enable ==ℤ pos 0) ≡ false
    → has_nul (s.rooms j).name ≡ true
    → ((xs ≢ []) ⊎ (back ≡ []))
    → length (front ++ (p, c) ∷ back) < k
    → length xs + 1 < k
    → (u t : State) × (join_room k p (pos j) s ≡ ok return_success t)
      × Left s u i front p c back
      × Entered u t j xs p (outside (linked c (head back)))
      × Roster t i (front ++ back)
join_room-moves k i j s front p c back xs here there ne on named h fuel fuel' =
    let (n, e, _) = (Chain-prefix s.heap null front ((p, c) ∷ back) here.seats.chain).1 in
    let sits = (AllSit-split s.fd_clients i front ((p, c) ∷ back) here.sit).1.0 in
    let (u, left, l) = leave_room-Left k i s front p c back here fuel in
    let (t, done, entered) =
      enter-Entered k j u xs p _
        (Left-MayEnter i j s u front p c back xs here there ne l on named n h) fuel' in
    (
      u,
      t,
      join_room-ok k j s u t p (linked c (head back)) there.seats.in_range on n e
          (rw sits.room (==_ne i j ne)) (leave_old-ok k i s u p c.roomid sits.room left) done,
      l,
      entered,
      here-spared i j s u front p c back xs here there ne l entered,
    )
