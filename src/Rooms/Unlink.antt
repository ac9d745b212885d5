-- ===== src/Rooms/Unlink.antt =====
-- The walk of `leave_room` in 1.0/server/function.c takes one client out of a room's list.
use as3chat.Common.{ℕ, zero, suc, ◌<◌, ◌≡◌, refl, ◌≢◌, false, some, [], ◌∷◌, ◌++◌, arith}
use as3chat.Common.Tests.{==_ne, ==_refl}
use as3chat.Common.Int.{pos, ◌-ℤ◌}
use as3chat.Common.Lists.{length}
use as3chat.Server.{Ptr, null, max_rooms, Client, Room, State, ok}
use as3chat.Server.Commands.{modify, modify_room, put, put_room, update}
use as3chat.Rooms.{unlink_loop}
use as3chat.Rooms.Chain.{
  Members, head, linked, ChainTo, Chain, has, Distinct, FreshFd, last, load-ok, frame, append-Chain,
  Chain-prefix, Chain-relink, Distinct-split, Apart-head, has-last-Apart, has-last, has-front,
}
use as3chat.Rooms.Broadcast.{Seats, load_room-ok}

pub modify-ok :
    (p : Ptr) (f : Client → Client) (s : State) (c : Client)
    → p ≢ null
    → s.heap p ≡ some c
    → modify p f s ≡ ok tt (put p (some (f c)) s)
unfolding modify
modify-ok p f s c n e = rw (load-ok s p c n e)

pub modify_room-ok :
    (r : ℕ) (f : Room → Room) (s : State)
    → r < max_rooms
    → modify_room r f s ≡ ok tt (put_room r (f (s.rooms r)) s)
unfolding modify_room
modify_room-ok r f s h = rw (load_room-ok r s h)

abbrev pub fewer : Room → Room
fewer v = record v { num = v.num -ℤ pos 1 }

-- Behind a client `b`: the link to the client with the descriptor is moved past it.
unlink_loop-found :
    (k r : ℕ) (s : State) (b : Ptr × Client) (xs : Members) (p : Ptr) (c : Client) (ys : Members)
    → r < max_rooms
    → ChainTo s.heap null (b ∷ xs ++ (p, c) ∷ ys)
    → FreshFd c.fd xs
    → length xs < k
    → unlink_loop k r c.fd b.0 (head (xs ++ (p, c) ∷ ys)) s
      ≡ ok tt (
          put
            (last b xs).0
            (some (linked (last b xs).1 (head ys)))
            (put_room r (fewer (s.rooms r)) s))
unfolding unlink_loop
unlink_loop-found zero r s b xs p c ys hr ch fresh fuel = absurd (omega arith)
unlink_loop-found (suc k) r s b [] p c ys hr (nb, eb, (n, e, ch)) fresh fuel =
    rw
      (
        ==_ne p null n,
        load-ok s p (linked c (head ys)) n e,
        ==_refl c.fd,
        modify_room-ok r fewer s hr,
        ==_ne b.0 null nb,
      )
      (modify-ok b.0 (λ w. linked w (head ys)) (put_room r (fewer (s.rooms r)) s) (linked b.1 p) nb
        eb)
unlink_loop-found (suc k) r s b ((q, d) ∷ xs) p c ys hr (nb, eb, (n, e, ch)) (other, fresh) fuel =
    rw (==_ne q null n, load-ok s q (linked d (head (xs ++ (p, c) ∷ ys))) n e, other)
      (unlink_loop-found k r s (q, d) xs p c ys hr (n, e, ch) fresh (omega arith))

-- The state after the walk: the list without the client, one fewer in the room; nothing else.
pub record Unlinked (s u : State) (r : ℕ) (xs : Members) (p : Ptr) (c : Client) (ys : Members)
    : Type 0 where
  pub room :
      u.rooms r ≡ record (s.rooms r) { num = (s.rooms r).num -ℤ pos 1; client = head (xs ++ ys) }
  pub chain : Chain u.heap (xs ++ ys)
  pub self : u.heap p ≡ some (linked c (head ys))
  pub outside : (q : Ptr) → has q (xs ++ (p, c) ∷ ys) ≡ false → u.heap q ≡ s.heap q
  pub rooms : (i : ℕ) → i ≢ r → u.rooms i ≡ s.rooms i
  pub rest : u ≡ record s { heap = u.heap; rooms = u.rooms }

abbrev first_out : ℕ → Members → State → State
first_out r ys s =
    put_room r (record (fewer (s.rooms r)) { client = head ys }) (put_room r (fewer (s.rooms r)) s)

unlink_loop-first :
    (k r : ℕ) (s : State) (p : Ptr) (c : Client) (ys : Members)
    → r < max_rooms
    → p ≢ null
    → s.heap p ≡ some (linked c (head ys))
    → unlink_loop (suc k) r c.fd null p s ≡ ok tt (first_out r ys s)
unfolding unlink_loop update
unlink_loop-first k r s p c ys hr n e = rw (
  ==_ne p null n,
  load-ok s p (linked c (head ys)) n e,
  ==_refl c.fd,
  modify_room-ok r fewer s hr,
  modify_room-ok r (λ v. record v { client = head ys }) (put_room r (fewer (s.rooms r)) s) hr,
  ==_refl r,
)

first_out-Unlinked :
    (r : ℕ) (s : State) (p : Ptr) (c : Client) (ys : Members)
    → s.heap p ≡ some (linked c (head ys))
    → Chain s.heap ys
    → Unlinked s (first_out r ys s) r [] p c ys
unfolding update
first_out-Unlinked r s p c ys e ch = record {
  room = rw (==_refl r);
  chain = ch;
  self = e;
  outside = λ q out. refl;
  rooms = λ i ne. rw (==_ne i r ne);
  rest = refl;
}

abbrev later_out : ℕ → Ptr × Client → Members → Members → State → State
later_out r b xs ys s =
    put (last b xs).0 (some (linked (last b xs).1 (head ys))) (put_room r (fewer (s.rooms r)) s)

unlink_loop-later :
    (k r : ℕ) (s : State) (b : Ptr × Client) (xs : Members) (p : Ptr) (c : Client) (ys : Members)
    → r < max_rooms
    → Chain s.heap (b ∷ xs ++ (p, c) ∷ ys)
    → FreshFd c.fd (b ∷ xs)
    → length xs < k
    → unlink_loop (suc k) r c.fd null b.0 s ≡ ok tt (later_out r b xs ys s)
unfolding unlink_loop
unlink_loop-later k r s b xs p c ys hr ch (other, fresh) fuel =
    rw (==_ne b.0 null ch.0, load-ok s b.0 (linked b.1 (head (xs ++ (p, c) ∷ ys))) ch.0 ch.1, other)
      (unlink_loop-found k r s b xs p c ys hr ch fresh fuel)

later_out-Unlinked :
    (r : ℕ) (s : State) (b : Ptr × Client) (xs : Members) (p : Ptr) (c : Client) (ys : Members)
    → (s.rooms r).client ≡ b.0
    → Chain s.heap (b ∷ xs ++ (p, c) ∷ ys)
    → Distinct (b ∷ xs ++ (p, c) ∷ ys)
    → Unlinked s (later_out r b xs ys s) r (b ∷ xs) p c ys
unfolding update
later_out-Unlinked r s b xs p c ys starts ch d =
    let (front, back) = Chain-prefix s.heap null (b ∷ xs) ((p, c) ∷ ys) ch in
    let (dx, dy, apart) = Distinct-split (b ∷ xs) ((p, c) ∷ ys) d in
    let (out, apart') = Apart-head p c (b ∷ xs) ys apart in
    record {
      room = rw (==_refl r) (λ i. record (fewer (s.rooms r)) { client = starts i });
      chain =
          append-Chain _ null (b ∷ xs) ys (Chain-relink s.heap p b xs (head ys) dx front)
            (frame s.heap null ys (last b xs).0 _ (has-last-Apart b xs ys apart') back.2);
      self = rw (has-last p b xs out) back.1;
      outside = λ q o. rw (has-last q b xs (has-front q (b ∷ xs) ((p, c) ∷ ys) o));
      rooms = λ i ne. rw (==_ne i r ne);
      rest = refl;
    }

-- Every listed client can be taken out.
pub unlink_lem :
    (k r : ℕ) (s : State) (xs : Members) (p : Ptr) (c : Client) (ys : Members)
    → Seats s r (xs ++ (p, c) ∷ ys)
    → Distinct (xs ++ (p, c) ∷ ys)
    → FreshFd c.fd xs
    → length xs < k
    → (u : State) × (unlink_loop k r c.fd null (head (xs ++ (p, c) ∷ ys)) s ≡ ok tt u)
      × Unlinked s u r xs p c ys
unlink_lem zero r s xs p c ys v d fresh fuel = absurd (omega arith)
unlink_lem (suc k) r s [] p c ys v d fresh fuel =
    let (n, e, ch) = v.chain in
    (
      first_out r ys s,
      unlink_loop-first k r s p c ys v.in_range n e,
      first_out-Unlinked r s p c ys e ch,
    )
unlink_lem (suc k) r s (b ∷ xs) p c ys v d fresh fuel = (
  later_out r b xs ys s,
  unlink_loop-later k r s b xs p c ys v.in_range v.chain fresh (omega arith),
  later_out-Unlinked r s b xs p c ys v.starts v.chain d,
)
