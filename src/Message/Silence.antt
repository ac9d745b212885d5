-- ===== src/Message/Silence.antt =====
-- `EV_TYPE_ADMIN_COMMAND_SHUTUP` of 1.0/server/message.c: an administrator silences a client, or lets it
-- speak again.
use as3chat.Common.{
  ℕ, ◌<◌, ◌≡◌, refl, sym, ◌∙◌, ◌≢◌, ◌⊎◌, inl, inr, false, not, none, some, List, [], ◌∷◌, ◌++◌,
  arith,
}
use as3chat.Common.Tests.{if◌then◌else◌, ==_ne, ==_refl, Bool-cases}
use as3chat.Common.Int.{pos}
use as3chat.Common.Lists.{length, length-append}
use as3chat.Common.Text.{Bytes, lit}
use as3chat.Server.{Ptr, null, Client, Task, State, Output, write, ok}
use as3chat.Server.Commands.{put, update, emit}
use as3chat.External.{Event}
use as3chat.Messages.{ev_type_admin_command_shutup, ev_type_message, notice, public_message}
use as3chat.Rooms.Chain.{Members, head, linked, Chain-prefix, load-ok}
use as3chat.Rooms.Broadcast.{Seats, deliveries, name, read_name-ok, send_message_all-deliveries}
use as3chat.Rooms.Replace.{head-replaced, Chain-replaced}
use as3chat.Rooms.Unlink.{modify-ok}
use as3chat.Rooms.Leave.{Sits, AllSit-split, Roster}
use as3chat.HashTable.Chains.{Entries}
use as3chat.Message.{parse_message, serve, handle_shutup, shut_up, toggled, toggle_note}
use as3chat.Message.Login.{Env, attr}
use as3chat.Message.Gate.{IsRequest, ev_type_of, parse_message-serve}
use as3chat.Message.Commands.{Commands, target-found}
use as3chat.Message.Chat.{IsMessage, is_silenced, parse_message-public, parse_message-silenced}

-- The client with the other rank of the two.
abbrev pub retyped : Client → Client
retyped d = record d { type = toggled d.type }

-- Silencing a silenced client lets it speak, and any other is silenced.
retyped-silenced : (d : Client) → is_silenced (retyped d) ≡ not (is_silenced d)
unfolding toggled
retyped-silenced d = elim (Bool-cases (is_silenced d)) [ inl shut ↦ rw shut | inr free ↦ rw free ]

-- The state after the command on the client `d` at `q`, which has the members `xs` before it and `ys`
-- behind it in its room.
abbrev pub told : Env → State → Members → Ptr → Client → Members → State
told env s xs q d ys =
    emit (deliveries (notice env.now (name d ++ toggle_note d.type)) (xs ++ (q, retyped d) ∷ ys))
      (put q (some (linked (retyped d) (head ys))) s)

module _ (env : Env) (s : State) (r : ℕ) (xs : Members) (q : Ptr) (d : Client) (ys : Members)
    (here : Roster s r (xs ++ (q, d) ∷ ys)) (sits : Sits s.fd_clients r q d) (n : q ≢ null)
    (live : s.heap q ≡ some (linked d (head ys)))
    (fuel : length (xs ++ (q, d) ∷ ys) < env.fuel) where
  retyped-Seats :
      Seats (put q (some (linked (retyped d) (head ys))) s) r (xs ++ (q, retyped d) ∷ ys)
  retyped-Seats = record {
    in_range = here.seats.in_range;
    starts = here.seats.starts ∙ sym (head-replaced xs q d (retyped d) ys);
    chain = Chain-replaced s.heap xs q d (retyped d) ys here.distinct here.seats.chain;
  }

  shut_up-told : shut_up env q s ≡ ok tt (told env s xs q d ys)
  unfolding shut_up update
  shut_up-told = rw (
    ==_ne q null n,
    load-ok s q (linked d (head ys)) n live,
    modify-ok q (λ b. record b { type = toggled d.type }) s (linked d (head ys)) n live,
    read_name-ok (put q (some (linked (retyped d) (head ys))) s) (linked d (head ys)) sits.named,
    send_message_all-deliveries env.fuel r (put q (some (linked (retyped d) (head ys))) s) d.fd q
        (linked (retyped d) (head ys)) (notice env.now (name d ++ toggle_note d.type))
        (xs ++ (q, retyped d) ∷ ys) sits.fd_range sits.known n (rw (==_refl q)) sits.room
        retyped-Seats
        (omega (arith, length-append xs ((q, d) ∷ ys), length-append xs ((q, retyped d) ∷ ys))),
  )

handle_shutup-target :
    (env : Env) (s : State) (task : Task) (c : Client) (e : Event) (ev r : ℕ) (xs : Members)
    (q : Ptr) (d : Client) (ys : Members) (u : Bytes) (es : Entries)
    → Commands env s task c e ev r xs q d ys u es
    → handle_shutup env task.client e s ≡ shut_up env q s
unfolding handle_shutup
handle_shutup-target env s task c e ev r xs q d ys u es v =
    rw (v.username, handle_shutup, target-found env s task c e ev r xs q d ys u es v)

-- An administrator's command on another client turns its silence: a silenced client may speak again,
-- any other may not, and the members of the client's room are told once each, it included; nothing else
-- changes. Conditions: the administrator is logged in, the name table leads from the name to the client,
-- the client's room is as the server keeps it, and the fuel exceeds its members.
pub parse_message-shutup :
    (env : Env) (s : State) (task : Task) (c : Client) (e : Event) (r : ℕ) (xs : Members) (q : Ptr)
    (d : Client) (ys : Members) (u : Bytes) (es : Entries)
    → Commands env s task c e ev_type_admin_command_shutup r xs q d ys u es
    → (parse_message env task s ≡ ok tt (told env s xs q d ys))
      × (is_silenced (retyped d) ≡ not (is_silenced d))
unfolding serve
parse_message-shutup env s task c e r xs q d ys u es v =
    let (n, live, _) = (Chain-prefix s.heap null xs ((q, d) ∷ ys) v.roster.seats.chain).1 in
    let sits = (AllSit-split s.fd_clients r xs ((q, d) ∷ ys) v.roster.sit).1.0 in
    (
      parse_message-serve env s task c e (pos ev_type_admin_command_shutup) v.request v.type refl
            v.online
          ∙ rw v.rank (
              handle_shutup-target env s task c e ev_type_admin_command_shutup r xs q d ys u es v
              ∙ shut_up-told env s r xs q d ys v.roster sits n live v.fuel),
      retyped-silenced d,
    )

-- The note to a silenced client that speaks.
abbrev pub silence_note : Env → Client → List Output
silence_note env d = write d.fd (notice env.now (lit "您目前处于禁言状态")) ∷ []

-- What comes of a public message of the client `d` after the command on it.
abbrev pub answers : Env → Bytes → Members → Ptr → Client → Members → List Output
answers env body xs q d ys =
    if is_silenced d
    then deliveries (public_message (name d) env.now body) (xs ++ (q, retyped d) ∷ ys)
    else silence_note env d

-- A message request of the client at `q`.
abbrev pub said_by : Ptr → Bytes → Task
said_by q text = record { client = q; logout = false; text = text }

module _ (env env' : Env) (s : State) (r : ℕ) (xs : Members) (q : Ptr) (d : Client) (ys : Members)
    (here : Roster s r (xs ++ (q, d) ∷ ys)) (sits : Sits s.fd_clients r q d) (n : q ≢ null)
    (live : s.heap q ≡ some (linked d (head ys))) (small : length (xs ++ (q, d) ∷ ys) < env.fuel)
    (text : Bytes) (e' : Event) (body : Bytes) (parsed : env'.external.parse text ≡ e')
    (message : ev_type_of e' ≡ some (pos ev_type_message)) (has_body : e'.body ≡ some body) where
  retyped-IsRequest :
      IsRequest env' (told env s xs q d ys) (said_by q text) (linked (retyped d) (head ys)) e'
  unfolding update
  retyped-IsRequest = record { ne_null = n; live = rw (==_refl q); stays = refl; event = parsed }

  retyped-IsMessage :
      length (xs ++ (q, d) ∷ ys) < env'.fuel
      → IsMessage env'
          (told env s xs q d ys)
          (said_by q text)
          (linked (retyped d) (head ys))
          e'
          r
          (xs ++ (q, retyped d) ∷ ys)
          body
  retyped-IsMessage fuel =
      let v = retyped-Seats env s r xs q d ys here sits n live small in
      record {
        request = retyped-IsRequest;
        type = message;
        sits = record {
          room = sits.room;
          online = sits.online;
          named = sits.named;
          fd_range = sits.fd_range;
          known = sits.known;
        };
        seats = record { in_range = v.in_range; starts = v.starts; chain = v.chain };
        fuel =
            omega (arith, length-append xs ((q, d) ∷ ys), length-append xs ((q, retyped d) ∷ ys));
        has_body = has_body;
      }

-- The command of an administrator decides what the next public message of its target comes to. A target
-- that was not silenced is so now: its message is answered with one note to itself. One that was may speak
-- again: its message goes once to each logged-in member of its room, itself included. In both cases
-- nothing else changes. Conditions: those of the command, and that the message is for nobody in
-- particular or for "all", has a body, and the fuel exceeds the members of the room.
pub parse_message-muted :
    (env env' : Env) (s : State) (task : Task) (c : Client) (e e' : Event) (r : ℕ) (xs : Members)
    (q : Ptr) (d : Client) (ys : Members) (u : Bytes) (es : Entries) (text body : Bytes)
    → Commands env s task c e ev_type_admin_command_shutup r xs q d ys u es
    → env'.external.parse text ≡ e'
    → ev_type_of e' ≡ some (pos ev_type_message)
    → e'.body ≡ some body
    → (attr "to" e' ≡ none) ⊎ (attr "to" e' ≡ some (lit "all"))
    → length (xs ++ (q, d) ∷ ys) < env'.fuel
    → (t : State) × (parse_message env task s ≡ ok tt t)
      × (parse_message env' (said_by q text) t ≡ ok tt (emit (answers env' body xs q d ys) t))
parse_message-muted env env' s task c e e' r xs q d ys u es text body v parsed message has_body to
      fuel =
    let (done, turned) = parse_message-shutup env s task c e r xs q d ys u es v in
    let (n, live, _) = (Chain-prefix s.heap null xs ((q, d) ∷ ys) v.roster.seats.chain).1 in
    let sits = (AllSit-split s.fd_clients r xs ((q, d) ∷ ys) v.roster.sit).1.0 in
    (
      told env s xs q d ys,
      done,
      elim (Bool-cases (is_silenced d)) [
        | inl shut ↦ rw shut (
            parse_message-public env' (told env s xs q d ys) (said_by q text)
              (linked (retyped d) (head ys)) e' r (xs ++ (q, retyped d) ∷ ys) body
              (retyped-IsMessage env env' s r xs q d ys v.roster sits n live v.fuel text e' body
                parsed message has_body fuel)
              (turned ∙ rw shut) to)
        | inr free ↦ rw free (
            parse_message-silenced env' (told env s xs q d ys) (said_by q text)
              (linked (retyped d) (head ys)) e' body
              (retyped-IsRequest env env' s r xs q d ys v.roster sits n live v.fuel text e' body
                parsed message has_body)
              message sits.online has_body (turned ∙ rw free))
      ],
    )
