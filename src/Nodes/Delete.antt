-- ===== src/Nodes/Delete.antt =====
-- `node_del` of 1.0/server/function.c for a client that sits in a room.
use as3chat.Common.{
  ℕ, ◌%◌, ◌<◌, ◌≡◌, sym, ap, ◌∙◌, ◌≢◌, false, Option, none, some, List, [], ◌∷◌, ◌++◌, append_assoc,
}
use as3chat.Common.Tests.{==_ne, ==_refl, lt→ltb}
use as3chat.Common.Int.{pos, ◌-ℤ◌}
use as3chat.Common.Lists.{length}
use as3chat.Common.Text.{c_string, has_nul}
use as3chat.Server.{Ptr, null, max_fds, Client, State, Output, close, ok}
use as3chat.Server.Commands.{put, set_fd, emit, update}
use as3chat.Messages.{user_logout}
use as3chat.Rooms.{return_success}
use as3chat.Rooms.Chain.{
  FreshFd, Known-FreshFd, Members, head, linked, has, frame, load-ok, Chain-prefix, Distinct-middle,
  has-ne,
}
use as3chat.Rooms.Broadcast.{deliveries, name, IsNamed, read_name-ok}
use as3chat.Rooms.Leave.{AllSit, AllSit-Known, AllSit-split, Roster, Left, outside, leave_room-Left}
use as3chat.Rooms.Names.{Kept, Keeps, Left-Keeps}
use as3chat.HashTable.{bkdr_hash}
use as3chat.HashTable.Chains.{Entries, items, Keys, without, InBucket, stored, hash_del-stored}
use as3chat.Nodes.{free, forget, node_del}

IsKey-Kept : (h g : Ptr → Option Client) → Keeps h g → (es : Entries) → Keys h es → Keys g es
IsKey-Kept h g keep [] v = tt
IsKey-Kept h g keep ((item, text) ∷ es) (v, vs) =
    let kept = keep item.key v.owner v.live in
    (
      record {
        owner = kept.now;
        ne_null = v.ne_null;
        live = kept.holds;
        named = ap has_nul kept.username ∙ v.named;
        text_of = ap c_string kept.username ∙ v.text_of;
      },
      IsKey-Kept h g keep es vs,
    )

pub Roster-emit :
    (s : State) (events : List Output) (r : ℕ) (xs : Members)
    → Roster s r xs
    → Roster (emit events s) r xs
Roster-emit s events r xs v = record {
  seats = record { in_range = v.seats.in_range; starts = v.seats.starts; chain = v.seats.chain };
  distinct = v.distinct;
  sit = v.sit;
}

set_fd-ok :
    (fd : ℕ) (p : Ptr) (s : State)
    → fd < max_fds
    → set_fd fd p s ≡ ok tt (record s { fd_clients = update s.fd_clients fd p })
unfolding set_fd
set_fd-ok fd p s h = rw (lt→ltb fd max_fds h)

AllSit-cleared :
    (f : ℕ → Ptr) (r fd : ℕ) (xs : Members)
    → FreshFd fd xs
    → AllSit f r xs
    → AllSit (update f fd null) r xs
unfolding update
AllSit-cleared f r fd [] fresh all = tt
AllSit-cleared f r fd ((p, c) ∷ xs) (other, fresh) (v, all) = (
  record {
    room = v.room;
    online = v.online;
    named = v.named;
    fd_range = v.fd_range;
    known = rw other v.known;
  },
  AllSit-cleared f r fd xs fresh all,
)

-- The state after `forget` of the client `c` at `p`, whose bucket holds `es`.
abbrev forgotten : State → Ptr → Client → Entries → State
forgotten u p c es = put p none (record (stored (name c) (items (without (name c) c.fd es)) u) {
  fd_clients = update u.fd_clients c.fd null;
})

forget-ok :
    (u : State) (p : Ptr) (c : Client) (es : Entries)
    → p ≢ null
    → u.heap p ≡ some c
    → IsNamed c
    → c.fd < max_fds
    → InBucket u (name c) es
    → forget p u ≡ ok tt (forgotten u p c es)
unfolding forget free
forget-ok u p c es n e named hf v = rw (
  load-ok u p c n e,
  read_name-ok u c named,
  hash_del-stored u (name c) c.fd es v,
  set_fd-ok c.fd null (stored (name c) (items (without (name c) c.fd es)) u) hf,
)

-- The state `t` after the client `c` at `p` has been deleted from the state `s`.
pub record Deleted (s t : State) (r : ℕ) (xs : Members) (p : Ptr) (c : Client) (ys : Members)
    (es : Entries) : Type 0 where
  pub roster : Roster t r (xs ++ ys)
  pub num : (t.rooms r).num ≡ (s.rooms r).num -ℤ pos 1
  pub freed : t.heap p ≡ none
  pub fd_clients : t.fd_clients ≡ update s.fd_clients c.fd null
  pub table :
      t.hash_table
      ≡ update s.hash_table (bkdr_hash (name c) % s.hash_size) (items (without (name c) c.fd es))
  pub size : t.hash_size ≡ s.hash_size
  pub tasks : t.tasks ≡ s.tasks
  pub told : t.out ≡ s.out ++ (close c.fd ∷ deliveries (user_logout (name c)) (xs ++ ys))
  pub kept : (q : Ptr) (d : Client) → q ≢ p → s.heap q ≡ some d → Kept t.heap q d
  pub spared : (q : Ptr) → has q (xs ++ (p, c) ∷ ys) ≡ false → t.heap q ≡ s.heap q
  pub rooms : (i : ℕ) → i ≢ r → t.rooms i ≡ s.rooms i

module _ (r : ℕ) (s u : State) (xs : Members) (p : Ptr) (c : Client) (ys : Members) (es : Entries)
    (here : Roster s r (xs ++ (p, c) ∷ ys))
    (l : Left (emit (close c.fd ∷ []) s) u r xs p c ys) where
  Left-InBucket : InBucket s (name c) es → InBucket u (name c) es
  Left-InBucket v = record {
    made = λ e. v.made (sym l.size ∙ e);
    chain = rw (l.table, l.size) v.chain;
    keys =
        IsKey-Kept s.heap u.heap
          (Left-Keeps (emit (close c.fd ∷ []) s) u r xs p c ys here.seats.chain l) es v.keys;
  }

  forgotten-Deleted : Deleted s (forgotten u p (outside (linked c (head ys))) es) r xs p c ys es
  unfolding update
  forgotten-Deleted = record {
    roster = record {
      seats = record {
        in_range = l.roster.seats.in_range;
        starts = l.roster.seats.starts;
        chain =
            frame u.heap null (xs ++ ys) p none (Distinct-middle xs p c ys here.distinct)
              l.roster.seats.chain;
      };
      distinct = l.roster.distinct;
      sit =
          AllSit-cleared u.fd_clients r c.fd (xs ++ ys)
            (Known-FreshFd u.fd_clients c.fd p (xs ++ ys)
              (ap (λ f. f c.fd) l.fd_clients
                ∙ (AllSit-split s.fd_clients r xs ((p, c) ∷ ys) here.sit).1.0.known)
              (Distinct-middle xs p c ys here.distinct)
              (AllSit-Known u.fd_clients r (xs ++ ys) l.roster.sit))
            l.roster.sit;
    };
    num = l.num;
    freed = rw (==_refl p);
    fd_clients = ap (λ f. update f c.fd null) l.fd_clients;
    table = rw l.size (
        ap (λ f. update f (bkdr_hash (name c) % s.hash_size) (items (without (name c) c.fd es)))
          l.table);
    size = l.size;
    tasks = l.tasks;
    told =
        l.told
        ∙ append_assoc s.out (close c.fd ∷ []) (deliveries (user_logout (name c)) (xs ++ ys));
    kept = λ q d ne e.
        let k = Left-Keeps (emit (close c.fd ∷ []) s) u r xs p c ys here.seats.chain l q d e in
        record {
          now = k.now;
          holds = rw (==_ne q p ne) k.holds;
          username = k.username;
          fd = k.fd;
          heard = k.heard;
        };
    spared = λ q o. rw (has-ne q xs p c ys o) (l.spared q o);
    rooms = l.rooms;
  }

-- Deleting a client closes its socket, takes it out of its room's list and tells those who stay there,
-- drops the first entry with its name and descriptor from the name table, clears its place in
-- `fd_clients` and frees its struct. Its room is again as the server keeps it; every other
-- client stays with its name, descriptor and time, and one outside that room, another room, another
-- chain of the name table and the tasks do not change at all.
-- Conditions: the room is as the server keeps it, the bucket of the name is keyed by live clients with
-- terminated names, and the fuel exceeds the number of members.
pub node_del-Deleted :
    (k r : ℕ) (s : State) (xs : Members) (p : Ptr) (c : Client) (ys : Members) (es : Entries)
    → Roster s r (xs ++ (p, c) ∷ ys)
    → InBucket s (name c) es
    → length (xs ++ (p, c) ∷ ys) < k
    → (t : State) × (node_del k p s ≡ ok return_success t) × Deleted s t r xs p c ys es
unfolding node_del
node_del-Deleted k r s xs p c ys es here v fuel =
    let (n, e, _) = (Chain-prefix s.heap null xs ((p, c) ∷ ys) here.seats.chain).1 in
    let sits = (AllSit-split s.fd_clients r xs ((p, c) ∷ ys) here.sit).1.0 in
    let s1 = emit (close c.fd ∷ []) s in
    let (u, left, l) = leave_room-Left k r s1 xs p c ys (Roster-emit s _ r _ here) fuel in
    let c' = outside (linked c (head ys)) in
    (
      forgotten u p c' es,
      rw (
        ==_ne p null n,
        load-ok s p (linked c (head ys)) n e,
        left,
        forget-ok u p c' es n l.self sits.named sits.fd_range
            (Left-InBucket r s u xs p c ys es here l v),
      ),
      forgotten-Deleted r s u xs p c ys es here l,
    )
