-- ===== src/Rooms/Leave.antt =====
-- `leave_room` of 1.0/server/function.c for a client that sits in a room.
use as3chat.Common.{ℕ, ◌<◌, ◌≡◌, ap, ◌≢◌, true, false, Option, some, [], ◌∷◌, ◌++◌, arith}
use as3chat.Common.Tests.{==_ne, ==_refl, lt→ltb, le→not_ltb}
use as3chat.Common.Int.{pos, ◌-ℤ◌, minus_one}
use as3chat.Common.Lists.{length, length-append}
use as3chat.Server.{Ptr, null, max_rooms, max_fds, Client, is_success, State, ok}
use as3chat.Server.Commands.{lock_room, emit, put, update}
use as3chat.Messages.{user_logout}
use as3chat.Rooms.{return_success, unlink_loop, farewell, leave_list, leave_room}
use as3chat.Rooms.Chain.{
  Members, head, linked, Chain, has, Distinct, Known, load-ok, frame, Distinct-split, Distinct-join,
  Apart-head, Known-FreshFd, Chain-prefix, has-append, has-ne,
}
use as3chat.Rooms.Broadcast.{
  Seats, deliveries, name, IsNamed, load_room-ok, read_name-ok, send_message_all-deliveries,
}
use as3chat.Rooms.Unlink.{Unlinked, unlink_lem, modify-ok}

-- What holds of the client `c` at `p` while it sits in room `r`; `f` is `fd_clients`.
pub record Sits (f : ℕ → Ptr) (r : ℕ) (p : Ptr) (c : Client) : Type 0 where
  pub room : c.roomid ≡ pos r
  pub online : is_success c.state ≡ true
  pub named : IsNamed c
  pub fd_range : c.fd < max_fds
  pub known : f c.fd ≡ p

abbrev pub AllSit : (ℕ → Ptr) → ℕ → Members → Type 0
AllSit f r [] = Unit
AllSit f r ((p, c) ∷ xs) = Sits f r p c × AllSit f r xs

pub AllSit-Known : (f : ℕ → Ptr) (r : ℕ) (xs : Members) → AllSit f r xs → Known f xs
AllSit-Known f r [] all = tt
AllSit-Known f r ((p, c) ∷ xs) (v, all) = (v.known, AllSit-Known f r xs all)

pub AllSit-split :
    (f : ℕ → Ptr) (r : ℕ) (xs ys : Members) → AllSit f r (xs ++ ys) → AllSit f r xs × AllSit f r ys
AllSit-split f r [] ys all = (tt, all)
AllSit-split f r ((p, c) ∷ xs) ys (v, all) =
    let both = AllSit-split f r xs ys all in ((v, both.0), both.1)

pub AllSit-join :
    (f : ℕ → Ptr) (r : ℕ) (xs ys : Members) → AllSit f r xs → AllSit f r ys → AllSit f r (xs ++ ys)
AllSit-join f r [] ys ax ay = ay
AllSit-join f r ((p, c) ∷ xs) ys (v, ax) ay = (v, AllSit-join f r xs ys ax ay)

-- A room with its members.
pub record Roster (s : State) (r : ℕ) (xs : Members) : Type 0 where
  pub seats : Seats s r xs
  pub distinct : Distinct xs
  pub sit : AllSit s.fd_clients r xs

pub head-ne_null :
    (h : Ptr → Option Client) (xs : Members) (p : Ptr) (c : Client) (ys : Members)
    → Chain h (xs ++ (p, c) ∷ ys)
    → head (xs ++ (p, c) ∷ ys) ≢ null
head-ne_null h [] p c ys ch = ch.0
head-ne_null h (x ∷ xs) p c ys ch = ch.0

abbrev pub outside : Client → Client
outside c = record c { roomid = minus_one }

farewell-ok :
    (k r : ℕ) (u : State) (p : Ptr) (c : Client) (zs : Members)
    → p ≢ null
    → u.heap p ≡ some c
    → Sits u.fd_clients r p c
    → Seats u r zs
    → length zs < k
    → farewell k p u
      ≡ ok tt (put p (some (outside c)) (emit (deliveries (user_logout (name c)) zs) u))
unfolding farewell
farewell-ok k r u p c zs n e v seats fuel =
    rw
      (
        load-ok u p c n e,
        v.online,
        read_name-ok u c v.named,
        send_message_all-deliveries k r u c.fd p c (user_logout (name c)) zs v.fd_range v.known n e
            v.room seats fuel,
      )
      (modify-ok p outside (emit (deliveries (user_logout (name c)) zs) u) c n e)

-- Past the tests of `roomid`.
pub leave_room-leave_list :
    (k r : ℕ) (s u : State) (p : Ptr) (c : Client)
    → p ≢ null
    → s.heap p ≡ some c
    → c.roomid ≡ pos r
    → r < max_rooms
    → leave_list k p r s ≡ ok tt u
    → leave_room k p s ≡ ok return_success u
unfolding leave_room lock_room
leave_room-leave_list k r s u p c n e er hr done = rw (
  ==_ne p null n,
  load-ok s p c n e,
  er,
  le→not_ltb max_rooms r (omega arith),
  lt→ltb r max_rooms hr,
  done,
)

leave_list-ok :
    (k r : ℕ) (s u t : State) (p q : Ptr) (c : Client)
    → r < max_rooms
    → (s.rooms r).client ≡ q
    → q ≢ null
    → p ≢ null
    → s.heap p ≡ some c
    → unlink_loop k r c.fd null q s ≡ ok tt u
    → farewell k p u ≡ ok tt t
    → leave_list k p r s ≡ ok tt t
unfolding leave_list
leave_list-ok k r s u t p q c hr starts nq n e walk bye = rw (
  lt→ltb r max_rooms hr,
  load_room-ok r s hr,
  starts,
  ==_ne q null nq,
  load-ok s p c n e,
  walk,
  bye,
)

-- The state `t` after a client `c` at `p` between `xs` and `ys` has left room `r` in the state `s`.
pub record Left (s t : State) (r : ℕ) (xs : Members) (p : Ptr) (c : Client) (ys : Members)
    : Type 0 where
  pub roster : Roster t r (xs ++ ys)
  pub num : (t.rooms r).num ≡ (s.rooms r).num -ℤ pos 1
  pub enable : (t.rooms r).enable ≡ (s.rooms r).enable
  -- `next` keeps the address of the client behind
  pub self : t.heap p ≡ some (outside (linked c (head ys)))
  pub told : t.out ≡ s.out ++ deliveries (user_logout (name c)) (xs ++ ys)
  pub spared : (q : Ptr) → has q (xs ++ (p, c) ∷ ys) ≡ false → t.heap q ≡ s.heap q
  pub rooms : (i : ℕ) → i ≢ r → t.rooms i ≡ s.rooms i
  pub fd_clients : t.fd_clients ≡ s.fd_clients
  pub table : t.hash_table ≡ s.hash_table
  pub size : t.hash_size ≡ s.hash_size
  pub tasks : t.tasks ≡ s.tasks

Sits-linked :
    (f : ℕ → Ptr) (r : ℕ) (p : Ptr) (c : Client) (q : Ptr) → Sits f r p c → Sits f r p (linked c q)
Sits-linked f r p c q v = record {
  room = v.room;
  online = v.online;
  named = v.named;
  fd_range = v.fd_range;
  known = v.known;
}

module _ {r : ℕ} {s u : State} {xs : Members} {p : Ptr} {c : Client} {ys : Members}
    (hr : r < max_rooms) (ul : Unlinked s u r xs p c ys) where
  Unlinked-Seats : Seats u r (xs ++ ys)
  Unlinked-Seats = record { in_range = hr; starts = ap (λ v. v.client) ul.room; chain = ul.chain }

module _ {r : ℕ} {s u : State} {xs : Members} {p : Ptr} {c : Client} {ys : Members}
    (ul : Unlinked s u r xs p c ys) where
  Unlinked-fd_clients : u.fd_clients ≡ s.fd_clients
  Unlinked-fd_clients = ap (λ w. w.fd_clients) ul.rest

  Unlinked-out : u.out ≡ s.out
  Unlinked-out = ap (λ w. w.out) ul.rest

Unlinked-Left :
    (r : ℕ) (s u : State) (xs : Members) (p : Ptr) (c : Client) (ys : Members)
    → Roster s r (xs ++ (p, c) ∷ ys)
    → Unlinked s u r xs p c ys
    → Left s
        (put p
          (some (outside (linked c (head ys))))
          (emit (deliveries (user_logout (name c)) (xs ++ ys)) u))
        r
        xs
        p
        c
        ys
unfolding update
Unlinked-Left r s u xs p c ys v ul =
    let (dx, (out, dy), apart) = Distinct-split xs ((p, c) ∷ ys) v.distinct in
    let (fresh, apart') = Apart-head p c xs ys apart in
    let (ax, ay) = AllSit-split s.fd_clients r xs ((p, c) ∷ ys) v.sit in
    record {
      roster = record {
        seats = record {
          in_range = v.seats.in_range;
          starts = ap (λ w. w.client) ul.room;
          chain = frame u.heap null (xs ++ ys) p _ (rw (has-append p xs ys, fresh) out) ul.chain;
        };
        distinct = Distinct-join xs ys dx dy apart';
        sit = rw (Unlinked-fd_clients ul) (AllSit-join s.fd_clients r xs ys ax ay.1);
      };
      num = ap (λ w. w.num) ul.room;
      enable = ap (λ w. w.enable) ul.room;
      self = rw (==_refl p);
      told = ap (λ o. o ++ deliveries (user_logout (name c)) (xs ++ ys)) (Unlinked-out ul);
      spared = λ q o. rw (has-ne q xs p c ys o) (ul.outside q o);
      rooms = ul.rooms;
      fd_clients = Unlinked-fd_clients ul;
      table = ap (λ w. w.hash_table) ul.rest;
      size = ap (λ w. w.hash_size) ul.rest;
      tasks = ap (λ w. w.tasks) ul.rest;
    }

-- `leave_room` takes the client out of its room's list and leaves the others in their order, counts
-- one fewer in that room, tells the others once each that it has gone, and sets its `roomid` to -1;
-- every other client and room, the name table and the tasks stay as they were. Conditions: the room's members are as the server
-- keeps them, and the fuel exceeds their number.
pub leave_room-Left :
    (k r : ℕ) (s : State) (xs : Members) (p : Ptr) (c : Client) (ys : Members)
    → Roster s r (xs ++ (p, c) ∷ ys)
    → length (xs ++ (p, c) ∷ ys) < k
    → (t : State) × (leave_room k p s ≡ ok return_success t) × Left s t r xs p c ys
leave_room-Left k r s xs p c ys v fuel =
    let (ax, (sits, _)) = AllSit-split s.fd_clients r xs ((p, c) ∷ ys) v.sit in
    let (n, e, _) = (Chain-prefix s.heap null xs ((p, c) ∷ ys) v.seats.chain).1 in
    let (fresh, apart) = Apart-head p c xs ys (Distinct-split xs ((p, c) ∷ ys) v.distinct).2 in
    let (u, walk, ul) =
      unlink_lem k r s xs p c ys v.seats v.distinct
        (Known-FreshFd s.fd_clients c.fd p xs sits.known fresh (AllSit-Known s.fd_clients r xs ax))
        (omega (arith, length-append xs ((p, c) ∷ ys))) in
    let c' = linked c (head ys) in
    let bye =
      farewell-ok k r u p c' (xs ++ ys) n ul.self
        (Sits-linked u.fd_clients r p c (head ys) (rw (Unlinked-fd_clients ul) sits))
        (Unlinked-Seats v.seats.in_range ul)
        (omega (arith, length-append xs ((p, c) ∷ ys), length-append xs ys)) in
    (
      put p (some (outside c')) (emit (deliveries (user_logout (name c)) (xs ++ ys)) u),
      leave_room-leave_list k r s _ p c' n e sits.room v.seats.in_range (
          leave_list-ok k r s u _ p _ c' v.seats.in_range v.seats.starts
            (head-ne_null s.heap xs p c ys v.seats.chain) n e walk bye),
      Unlinked-Left r s u xs p c ys v ul,
    )
