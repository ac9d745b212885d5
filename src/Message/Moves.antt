-- ===== src/Message/Moves.antt =====
-- `EV_TYPE_USER_CHANGE_STATE`, `EV_TYPE_CHANGE_ROOM` and `EV_TYPE_MOVE` of 1.0/server/message.c.
use as3chat.Common.{
  ℕ, ◌+◌, ◌<◌, ◌≡◌, refl, sym, ◌∙◌, ◌≢◌, ◌⊎◌, inl, inr, true, false, none, some, [], ◌∷◌, ◌++◌,
  arith,
}
use as3chat.Common.Tests.{==_ne, ==_refl, Option-cases}
use as3chat.Common.Int.{pos, ◌==ℤ◌}
use as3chat.Common.Lists.{length, length-append}
use as3chat.Common.Text.{Bytes, atoi, has_nul}
use as3chat.Server.{Ptr, Client, Task, State, ok, fault}
use as3chat.Server.Commands.{put, update, emit}
use as3chat.External.{Event}
use as3chat.Messages.{
  ev_type_user_change_state, ev_type_change_room, ev_type_move, state_changed, moved,
}
use as3chat.Rooms.Chain.{Members, head, linked, load-ok}
use as3chat.Rooms.Broadcast.{deliveries, name, read_name-ok, send_message_all-deliveries}
use as3chat.Rooms.Replace.{head-replaced, Chain-replaced}
use as3chat.Rooms.Unlink.{modify-ok}
use as3chat.Rooms.Leave.{Sits, AllSit-split, Roster, Left, outside}
use as3chat.Rooms.Enter.{Entered}
use as3chat.Rooms.Join.{join_room-moves}
use as3chat.Message.{
  parse_message, serve, handle_change_state, handle_change_room, handle_move, move_to, roomid_of,
}
use as3chat.Message.Login.{Env, attr}
use as3chat.Message.Gate.{IsRequest, ev_type_of, parse_message-serve}

-- A request `ev` of the client `c` at `p`, which stands in the room `r` between `xs` and `ys`.
pub record Asks (env : Env) (s : State) (task : Task) (e : Event) (ev r : ℕ) (xs : Members)
    (c : Client) (ys : Members) : Type 0 where
  pub request : IsRequest env s task (linked c (head ys)) e
  pub type : ev_type_of e ≡ some (pos ev)
  pub roster : Roster s r (xs ++ (task.client, c) ∷ ys)
  pub fuel : length (xs ++ (task.client, c) ∷ ys) < env.fuel

module _ (env : Env) (s : State) (task : Task) (e : Event) (r : ℕ) (xs : Members) (c : Client)
    (ys : Members) where
  abbrev p : Ptr
  p = task.client

  sits : {ev : ℕ} → Asks env s task e ev r xs c ys → Sits s.fd_clients r p c
  sits v = (AllSit-split s.fd_clients r xs ((p, c) ∷ ys) v.roster.sit).1.0

  handle_change_state-told :
      Asks env s task e ev_type_user_change_state r xs c ys
      → (given : Bytes) → attr "state" e ≡ some given
      → handle_change_state env p c.fd e s
        ≡ ok tt (emit (deliveries (state_changed (name c) (pos 0)) (xs ++ (p, c) ∷ ys)) s)
  unfolding handle_change_state
  handle_change_state-told v given there =
      let w = sits v in
      rw (
        there,
        handle_change_state,
        load-ok s p (linked c (head ys)) v.request.ne_null v.request.live,
        read_name-ok s (linked c (head ys)) w.named,
        send_message_all-deliveries env.fuel r s c.fd p (linked c (head ys))
            (state_changed (name c) (pos 0)) (xs ++ (p, c) ∷ ys) w.fd_range w.known
            v.request.ne_null v.request.live w.room v.roster.seats v.fuel,
      )

  handle_change_state-none : attr "state" e ≡ none → handle_change_state env p c.fd e s ≡ fault
  unfolding handle_change_state
  handle_change_state-none missing = rw (missing, handle_change_state)

  abbrev pub at : Bytes → Bytes → Client
  at x y = record c { x = atoi x; y = atoi y }

  move_to-told :
      Asks env s task e ev_type_move r xs c ys
      → (x y : Bytes)
      → move_to env p x y s
        ≡ ok tt (
            emit
              (deliveries (moved (name c) x y) (xs ++ (p, at x y) ∷ ys))
              (put p (some (linked (at x y) (head ys))) s))
  unfolding move_to update
  move_to-told v x y =
      let w = sits v in
      let s' = put p (some (linked (at x y) (head ys))) s in
      rw (
        modify-ok p (λ b. record b { x = atoi x; y = atoi y }) s (linked c (head ys))
            v.request.ne_null v.request.live,
        load-ok s' p (linked (at x y) (head ys)) v.request.ne_null (rw (==_refl p)),
        read_name-ok s' (linked (at x y) (head ys)) w.named,
        send_message_all-deliveries env.fuel r s' c.fd p (linked (at x y) (head ys))
            (moved (name c) x y) (xs ++ (p, at x y) ∷ ys) w.fd_range w.known v.request.ne_null
            (rw (==_refl p)) w.room
            (record {
              in_range = v.roster.seats.in_range;
              starts = v.roster.seats.starts ∙ sym (head-replaced xs p c (at x y) ys);
              chain =
                  Chain-replaced s.heap xs p c (at x y) ys v.roster.distinct v.roster.seats.chain;
            })
            (omega
              (arith, v.fuel, length-append xs ((p, c) ∷ ys), length-append xs ((p, at x y) ∷ ys))),
      )

-- A change of state tells the members of the room, the sender included, that its state is 0, whatever
-- state it asks for; without one the program reads a NULL. Condition: the sender stands in its room as the
-- server keeps it, and the fuel exceeds the members.
pub parse_message-change_state :
    (env : Env) (s : State) (task : Task) (e : Event) (r : ℕ) (xs : Members) (c : Client)
    (ys : Members)
    → Asks env s task e ev_type_user_change_state r xs c ys
    → parse_message env task s ≡ elim (attr "state" e) [
      | none ↦ fault
      | some _ ↦
          ok tt (emit (deliveries (state_changed (name c) (pos 0)) (xs ++ (task.client, c) ∷ ys)) s)
    ]
unfolding serve
parse_message-change_state env s task e r xs c ys v =
    parse_message-serve env s task (linked c (head ys)) e (pos ev_type_user_change_state) v.request
      v.type refl (sits env s task e r xs c ys v).online
    ∙ elim (Option-cases (attr "state" e)) [
      | inl missing ↦ rw missing (handle_change_state-none env s task e r xs c ys missing)
      | inr (given, there) ↦
          rw there (handle_change_state-told env s task e r xs c ys v given there)
    ]

-- A move sets the position of the client and tells it to the members of its room, the client included;
-- nothing else changes. Conditions: both coordinates are given, the client stands in its room as the
-- server keeps it, and the fuel exceeds the members.
pub parse_message-move :
    (env : Env) (s : State) (task : Task) (e : Event) (r : ℕ) (xs : Members) (c : Client)
    (ys : Members) (x y : Bytes)
    → Asks env s task e ev_type_move r xs c ys
    → attr "x" e ≡ some x
    → attr "y" e ≡ some y
    → parse_message env task s
      ≡ ok tt (
          emit
            (deliveries
              (moved (name c) x y)
              (xs ++ (task.client, record c { x = atoi x; y = atoi y }) ∷ ys))
            (put task.client (some (linked (record c { x = atoi x; y = atoi y }) (head ys))) s))
unfolding serve handle_move
parse_message-move env s task e r xs c ys x y v ex ey =
    parse_message-serve env s task (linked c (head ys)) e (pos ev_type_move) v.request v.type refl
      (sits env s task e r xs c ys v).online
    ∙ handle_move-to env s task.client e x y ex ey
    ∙ move_to-told env s task e r xs c ys v x y
  where
    handle_move-to :
        (env : Env) (s : State) (p : Ptr) (e : Event) (x y : Bytes)
        → attr "x" e ≡ some x
        → attr "y" e ≡ some y
        → handle_move env p e s ≡ move_to env p x y s
    handle_move-to env s p e x y ex ey = rw (ex, ey, handle_move)

-- A request for another room moves the client there: the one list is again as the server keeps it
-- without the client, the other with the client at its end. Conditions: the number asked for is that of
-- an enabled room whose name is terminated, and which is not empty or else nobody stands behind the
-- client in its old room; both rooms are as the server keeps them, and the fuel exceeds the members.
pub parse_message-change_room :
    (env : Env) (s : State) (task : Task) (e : Event) (i j : ℕ) (front : Members) (c : Client)
    (back xs : Members)
    → Asks env s task e ev_type_change_room i front c back
    → roomid_of e ≡ pos j
    → Roster s j xs
    → i ≢ j
    → ((s.rooms j).enable ==ℤ pos 0) ≡ false
    → has_nul (s.rooms j).name ≡ true
    → ((xs ≢ []) ⊎ (back ≡ []))
    → length xs + 1 < env.fuel
    → (u t : State) × (parse_message env task s ≡ ok tt t)
      × Left s u i front task.client c back
      × Entered u t j xs task.client (outside (linked c (head back)))
      × Roster t i (front ++ back)
unfolding serve handle_change_room
parse_message-change_room env s task e i j front c back xs v asked there ne on named open_end fuel =
    let w = sits env s task e i front c back v in
    let (u, t, done, left, entered, roster) =
      join_room-moves env.fuel i j s front task.client c back xs v.roster there ne on named open_end
        v.fuel fuel in
    (
      u,
      t,
      parse_message-serve env s task (linked c (head back)) e (pos ev_type_change_room) v.request
            v.type refl w.online
          ∙ rw (
            load-ok s task.client (linked c (head back)) v.request.ne_null v.request.live,
            w.room,
            asked,
            ==_ne i j ne,
            done,
          ),
      left,
      entered,
      roster,
    )
