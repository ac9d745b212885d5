-- ===== src/Rooms/Broadcast.antt =====
-- `send_message_all` and `send_userlist` of 1.0/server/function.c over the list of a room.
use as3chat.Common.{
  ℕ, zero, suc, ◌<◌, ◌≡◌, sym, ap, ◌≢◌, inl, inr, true, false, ◌&&◌, not, some, List, [], ◌∷◌, ◌++◌,
  append_assoc, append-nil, arith,
}
use as3chat.Common.Tests.{◌==◌, if◌then◌else◌, ==_ne, lt→ltb, Bool-cases}
use as3chat.Common.Int.{pos, ◌==ℤ◌}
use as3chat.Common.Lists.{length}
use as3chat.Common.Text.{Bytes, c_string, has_nul}
use as3chat.Server.{Ptr, null, max_rooms, max_fds, Client, State, Output, write, is_success, ok}
use as3chat.Server.Commands.{load_room, load_fd, emit, read_name}
use as3chat.Messages.{user_add}
use as3chat.Rooms.{
  send_message, send_loop, send_room, send_message_all, userlist_loop, send_userlist,
}
use as3chat.Rooms.Chain.{Members, head, linked, Chain, load-ok}

-- One write for each member who is logged in, in the order of the list.
abbrev pub deliveries : Bytes → Members → List Output
deliveries message [] = []
deliveries message ((_, c) ∷ xs) =
    if is_success c.state then write c.fd message ∷ deliveries message xs else deliveries message xs

pub emit-nil : (s : State) → s ≡ emit [] s
emit-nil s = λ i. record s { out = sym (append-nil s.out) i }

pub emit-emit : (xs ys : List Output) (s : State) → emit ys (emit xs s) ≡ emit (xs ++ ys) s
emit-emit xs ys s = λ i. record s { out = append_assoc s.out xs ys i }

pub send_loop-deliveries :
    (k : ℕ) (s : State) (message : Bytes) (xs : Members)
    → Chain s.heap xs
    → length xs < k
    → send_loop k (head xs) message s ≡ ok tt (emit (deliveries message xs) s)
unfolding send_loop send_message
send_loop-deliveries zero s message xs ch fuel = absurd (omega arith)
send_loop-deliveries (suc k) s message [] ch fuel = ap (ok tt) (emit-nil s)
send_loop-deliveries (suc k) s message ((p, c) ∷ xs) (n, e, ch) fuel =
    rw (==_ne p null n, load-ok s p (linked c (head xs)) n e)
      (elim (Bool-cases (is_success c.state)) [
        | inl on ↦
            rw
              (
                on,
                send_loop-deliveries k (emit (write c.fd message ∷ []) s) message xs ch
                    (omega arith),
              )
              (ap (ok tt) (emit-emit (write c.fd message ∷ []) (deliveries message xs) s))
        | inr off ↦ rw (off, send_loop-deliveries k s message xs ch (omega arith))
      ])

-- The member list of room `r`.
pub record Seats (s : State) (r : ℕ) (xs : Members) : Type 0 where
  pub in_range : r < max_rooms
  pub starts : (s.rooms r).client ≡ head xs
  pub chain : Chain s.heap xs

pub load_room-ok : (r : ℕ) (s : State) → r < max_rooms → load_room r s ≡ ok (s.rooms r) s
unfolding load_room
load_room-ok r s h = rw (lt→ltb r max_rooms h)

pub send_room-deliveries :
    (k r : ℕ) (s : State) (message : Bytes) (xs : Members)
    → Seats s r xs
    → length xs < k
    → send_room k r message s ≡ ok tt (emit (deliveries message xs) s)
unfolding send_room
send_room-deliveries k r s message [] v fuel =
    rw (lt→ltb r max_rooms v.in_range, load_room-ok r s v.in_range, v.starts)
      (ap (ok tt) (emit-nil s))
send_room-deliveries k r s message ((p, c) ∷ xs) v fuel =
    rw
      (lt→ltb r max_rooms v.in_range, load_room-ok r s v.in_range, v.starts, ==_ne p null v.chain.0)
      (send_loop-deliveries k s message ((p, c) ∷ xs) v.chain fuel)

-- `send_message_all` writes the message once to each logged-in client of the sender's room, in the
-- order in which they came, the sender's client included, and to nobody else; it changes nothing but
-- the output. Conditions: `fd_clients[fd]` is a live client `c` in the room `r`, whose list is `xs`,
-- and the fuel exceeds the length of the list.
pub send_message_all-deliveries :
    (k r : ℕ) (s : State) (fd : ℕ) (p : Ptr) (c : Client) (message : Bytes) (xs : Members)
    → fd < max_fds
    → s.fd_clients fd ≡ p
    → p ≢ null
    → s.heap p ≡ some c
    → c.roomid ≡ pos r
    → Seats s r xs
    → length xs < k
    → send_message_all k fd message s ≡ ok tt (emit (deliveries message xs) s)
unfolding send_message_all load_fd
send_message_all-deliveries k r s fd p c message xs hf ef n e er v fuel =
    rw (lt→ltb fd max_fds hf, ef, ==_ne p null n, load-ok s p c n e, er)
      (send_room-deliveries k r s message xs v fuel)

abbrev pub name : Client → Bytes
name c = c_string c.username

-- The `username` arrays of the clients hold a NUL.
abbrev pub IsNamed : Client → Type 0
IsNamed c = has_nul c.username ≡ true

abbrev pub AllNamed : Members → Type 0
AllNamed [] = Unit
AllNamed ((_, c) ∷ xs) = IsNamed c × AllNamed xs

-- One line for each other member who is logged in.
abbrev pub listing : ℕ → Members → List Output
listing fd [] = []
listing fd ((_, c) ∷ xs) =
    if not (c.fd == fd) && is_success c.state
    then write fd (user_add (name c) c.x c.y) ∷ listing fd xs
    else listing fd xs

pub read_name-ok : (s : State) (c : Client) → IsNamed c → read_name c s ≡ ok (name c) s
unfolding read_name
read_name-ok s c h = ground arith

userlist_loop-listing :
    (k fd : ℕ) (s : State) (xs : Members)
    → AllNamed xs
    → Chain s.heap xs
    → length xs < k
    → userlist_loop k fd (head xs) s ≡ ok tt (emit (listing fd xs) s)
unfolding userlist_loop send_message
userlist_loop-listing zero fd s xs named ch fuel = absurd (omega arith)
userlist_loop-listing (suc k) fd s [] named ch fuel = ap (ok tt) (emit-nil s)
userlist_loop-listing (suc k) fd s ((p, c) ∷ xs) (i, named) (n, e, ch) fuel =
    rw (==_ne p null n, load-ok s p (linked c (head xs)) n e)
      (elim (Bool-cases (not (c.fd == fd) && is_success c.state)) [
        | inl on ↦
            let line : List Output = write fd (user_add (name c) c.x c.y) ∷ [] in
            rw
              (
                on,
                read_name-ok s (linked c (head xs)) i,
                userlist_loop-listing k fd (emit line s) xs named ch (omega arith),
              )
              (ap (ok tt) (emit-emit line (listing fd xs) s))
        | inr off ↦ rw (off, userlist_loop-listing k fd s xs named ch (omega arith))
      ])

-- `send_userlist` writes to the client's own descriptor one line for each other logged-in member of
-- its room, with that member's name and position, in the order in which they came, and changes
-- nothing but the output. Conditions: the client is live and in the enabled room `r`, whose list is
-- `xs`; the members' names are terminated; the fuel exceeds the length of the list.
pub send_userlist-listing :
    (k r : ℕ) (s : State) (p : Ptr) (c : Client) (xs : Members)
    → p ≢ null
    → s.heap p ≡ some c
    → c.roomid ≡ pos r
    → ((s.rooms r).enable ==ℤ pos 0) ≡ false
    → Seats s r xs
    → AllNamed xs
    → length xs < k
    → send_userlist k p s ≡ ok tt (emit (listing c.fd xs) s)
unfolding send_userlist
send_userlist-listing k r s p c xs n e er on v named fuel =
    rw (load-ok s p c n e, er, load_room-ok r s v.in_range, on, v.starts)
      (userlist_loop-listing k c.fd s xs named v.chain fuel)
