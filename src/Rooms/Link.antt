-- ===== src/Rooms/Link.antt =====
-- The part of `join_room` in 1.0/server/function.c that puts a client at the end of a room's list.
use as3chat.Common.{
  ℕ, zero, suc, ◌<◌, ◌≡◌, refl, ap, ◌≢◌, ◌⊎◌, inl, inr, ◌∙◌, false, Option, some, [], ◌∷◌, ◌++◌,
  arith,
}
use as3chat.Common.Tests.{==_ne, ==_refl}
use as3chat.Common.Lists.{length}
use as3chat.Server.{Ptr, null, max_rooms, Client, State, ok}
use as3chat.Server.Commands.{put, put_room, update}
use as3chat.Rooms.{find_last, link}
use as3chat.Rooms.Chain.{
  Members, head, linked, Chain, has, Distinct, last, load-ok, frame, append-Chain, Chain-relink,
  has-last, has-front, has-ne,
}
use as3chat.Rooms.Broadcast.{Seats, load_room-ok}
use as3chat.Rooms.Unlink.{modify-ok, modify_room-ok}

find_last-last :
    (k : ℕ) (s : State) (b : Ptr × Client) (xs : Members)
    → Chain s.heap (b ∷ xs)
    → length xs < k
    → find_last k b.0 s ≡ ok (last b xs).0 s
unfolding find_last
find_last-last zero s b xs ch fuel = absurd (omega arith)
find_last-last (suc k) s b [] (n, e, _) fuel = rw (load-ok s b.0 (linked b.1 null) n e)
find_last-last (suc k) s b ((q, d) ∷ xs) (n, e, ch) fuel =
    rw (load-ok s b.0 (linked b.1 q) n e, ==_ne q null ch.0)
      (find_last-last k s (q, d) xs ch (omega arith))

last-ne_null :
    (h : Ptr → Option Client) (b : Ptr × Client) (xs : Members)
    → Chain h (b ∷ xs)
    → (last b xs).0 ≢ null
last-ne_null h b [] ch = ch.0
last-ne_null h b (x ∷ xs) (n, e, ch) = last-ne_null h x xs ch

last-heap :
    (h : Ptr → Option Client) (b : Ptr × Client) (xs : Members)
    → Chain h (b ∷ xs)
    → h (last b xs).0 ≡ some (linked (last b xs).1 null)
last-heap h b [] ch = ch.1
last-heap h b (x ∷ xs) (n, e, ch) = last-heap h x xs ch

-- The state after `link`: the client is last in the list of room `r`, and nothing else is new.
pub record Linked (s w : State) (r : ℕ) (xs : Members) (p : Ptr) (c : Client) : Type 0 where
  pub room : w.rooms r ≡ record (s.rooms r) { client = head (xs ++ (p, c) ∷ []) }
  pub chain : Chain w.heap (xs ++ (p, c) ∷ [])
  pub self : w.heap p ≡ some (linked c null)
  pub spared : (q : Ptr) → has q (xs ++ (p, c) ∷ []) ≡ false → w.heap q ≡ s.heap q
  pub rooms : (i : ℕ) → i ≢ r → w.rooms i ≡ s.rooms i
  pub rest : w ≡ record s { heap = w.heap; rooms = w.rooms }

abbrev pub started : ℕ → Ptr → State → State
started r p s = put_room r (record (s.rooms r) { client = p }) s

pub link-started :
    (k r : ℕ) (s : State) (p : Ptr)
    → r < max_rooms
    → (s.rooms r).client ≡ null
    → link k p r s ≡ ok tt (started r p s)
unfolding link
link-started k r s p hr e =
    rw (load_room-ok r s hr, e) (modify_room-ok r (λ w. record w { client = p }) s hr)

started-Linked :
    (r : ℕ) (s : State) (p : Ptr) (c : Client)
    → p ≢ null
    → s.heap p ≡ some (linked c null)
    → Linked s (started r p s) r [] p c
unfolding update
started-Linked r s p c n e = record {
  room = rw (==_refl r);
  chain = (n, e, tt);
  self = e;
  spared = λ q o. refl;
  rooms = λ i ne. rw (==_ne i r ne);
  rest = refl;
}

abbrev appended : Ptr × Client → Members → Ptr → Client → State → State
appended b xs p c s =
    put p (some (linked c null)) (put (last b xs).0 (some (linked (last b xs).1 p)) s)

link-appended :
    (k r : ℕ) (s : State) (b : Ptr × Client) (xs : Members) (p : Ptr) (c : Client)
    → Seats s r (b ∷ xs)
    → has p (b ∷ xs) ≡ false
    → p ≢ null
    → s.heap p ≡ some c
    → length xs < k
    → link k p r s ≡ ok tt (appended b xs p c s)
unfolding link update
link-appended k r s b xs p c v out n e fuel =
    let l = (last b xs).0 in
    let e' : update s.heap l (some (linked (last b xs).1 p)) p ≡ some c =
      rw (has-last p b xs out) e in
    rw
      (
        load_room-ok r s v.in_range,
        v.starts,
        ==_ne b.0 null v.chain.0,
        find_last-last k s b xs v.chain fuel,
        modify-ok l (λ d. linked d p) s (linked (last b xs).1 null)
            (last-ne_null s.heap b xs v.chain) (last-heap s.heap b xs v.chain),
      )
      (modify-ok p (λ d. linked d null) (put l (some (linked (last b xs).1 p)) s) c n e')

appended-Linked :
    (r : ℕ) (s : State) (b : Ptr × Client) (xs : Members) (p : Ptr) (c : Client)
    → Seats s r (b ∷ xs)
    → Distinct (b ∷ xs)
    → has p (b ∷ xs) ≡ false
    → p ≢ null
    → Linked s (appended b xs p c s) r (b ∷ xs) p c
unfolding update
appended-Linked r s b xs p c v d out n = record {
  room = λ i. record (s.rooms r) { client = v.starts i };
  chain =
      append-Chain _ null (b ∷ xs) ((p, c) ∷ [])
        (frame _ p (b ∷ xs) p _ out (Chain-relink s.heap null b xs p d v.chain))
        (n, rw (==_refl p), tt);
  self = rw (==_refl p);
  spared = λ q o.
      rw (has-ne q (b ∷ xs) p c [] o, has-last q b xs (has-front q (b ∷ xs) ((p, c) ∷ []) o));
  rooms = λ i ne. refl;
  rest = refl;
}

-- An empty room takes a client whose `next` is NULL; any other room takes every client.
pub link_lem :
    (k r : ℕ) (s : State) (xs : Members) (p : Ptr) (c : Client)
    → Seats s r xs
    → Distinct xs
    → has p xs ≡ false
    → p ≢ null
    → s.heap p ≡ some c
    → ((xs ≢ []) ⊎ (c.next ≡ null))
    → length xs < k
    → (w : State) × (link k p r s ≡ ok tt w) × Linked s w r xs p c
link_lem k r s [] p c v d out n e (inl some_one) fuel = absurd (some_one refl)
link_lem k r s [] p c v d out n e (inr last_one) fuel = (
  started r p s,
  link-started k r s p v.in_range v.starts,
  started-Linked r s p c n (e ∙ ap some (λ i. linked c (last_one i))),
)
link_lem k r s (b ∷ xs) p c v d out n e h fuel = (
  appended b xs p c s,
  link-appended k r s b xs p c v out n e (omega arith),
  appended-Linked r s b xs p c v d out n,
)
