-- ===== src/Message/Chat.antt =====
-- `EV_TYPE_MESSAGE` of 1.0/server/message.c: who gets what.
use as3chat.Common.{
  ℕ, ◌<◌, ◌≡◌, refl, ap, ◌∙◌, ◌≢◌, ◌⊎◌, inl, inr, Bool, true, false, Option, none, some, List, [],
  ◌∷◌,
}
use as3chat.Common.Tests.{if◌then◌else◌, ==_ne, Bool-cases}
use as3chat.Common.Int.{pos, negsuc, ◌==ℤ◌}
use as3chat.Common.Lists.{length}
use as3chat.Common.Text.{Bytes, lit, str_eq, str_eq_refl}
use as3chat.Server.{
  Ptr, null, Client, is_success, client_type_shutup, Task, State, Output, write, ok,
}
use as3chat.Server.Commands.{emit}
use as3chat.External.{Event}
use as3chat.Messages.{ev_type_message, notice, public_message, private_message}
use as3chat.Rooms.{send_message}
use as3chat.Rooms.Chain.{Members, load-ok}
use as3chat.Rooms.Broadcast.{
  Seats, deliveries, name, IsNamed, read_name-ok, send_message_all-deliveries, emit-emit, emit-nil,
}
use as3chat.Rooms.Leave.{Sits}
use as3chat.HashTable.Chains.{Entries, InBucket}
use as3chat.Nodes.Lookup.{finds, client_at, InRange, get_fdnode_byname-finds}
use as3chat.Message.{parse_message, serve, handle_message, say, say_all, say_to}
use as3chat.Message.Login.{Env, attr}
use as3chat.Message.Gate.{IsRequest, ev_type_of, parse_message-serve}

-- A message `body` of a logged-in client `c` that sits in room `r` with the members `xs`.
pub record IsMessage (env : Env) (s : State) (task : Task) (c : Client) (e : Event) (r : ℕ)
    (xs : Members) (body : Bytes) : Type 0 where
  pub request : IsRequest env s task c e
  pub type : ev_type_of e ≡ some (pos ev_type_message)
  pub sits : Sits s.fd_clients r task.client c
  pub seats : Seats s r xs
  pub fuel : length xs < env.fuel
  pub has_body : e.body ≡ some body

abbrev pub is_silenced : Client → Bool
is_silenced c = c.type ==ℤ client_type_shutup

module _ (env : Env) (s : State) (task : Task) (c : Client) (e : Event) (r : ℕ) (xs : Members)
    (body : Bytes) (v : IsMessage env s task c e r xs body) where
  to_handler : parse_message env task s ≡ handle_message env task.client c.fd e s
  unfolding serve
  to_handler =
      parse_message-serve env s task c e (pos ev_type_message) v.request v.type refl v.sits.online

  handled :
      handle_message env task.client c.fd e s
      ≡ (if is_silenced c
            then send_message c.fd (notice env.now (lit "您目前处于禁言状态"))
            else say env c c.fd (attr "to" e) body)
          s
  unfolding handle_message
  handled = rw (v.has_body, load-ok s task.client c v.request.ne_null v.request.live)

  said :
      say_all env c c.fd body s
      ≡ ok tt (emit (deliveries (public_message (name c) env.now body) xs) s)
  unfolding say_all
  said = rw (read_name-ok s c v.sits.named) (
      send_message_all-deliveries env.fuel r s c.fd task.client c
        (public_message (name c) env.now body) xs v.sits.fd_range v.sits.known v.request.ne_null
        v.request.live v.sits.room v.seats v.fuel)

-- A message to nobody in particular, or to "all", is written once to each logged-in member of the
-- sender's room, the sender included, with the sender's name, and to nobody else; nothing else of the
-- state changes. Condition: the sender is logged in, sits in the room and is not silenced.
pub parse_message-public :
    (env : Env) (s : State) (task : Task) (c : Client) (e : Event) (r : ℕ) (xs : Members)
    (body : Bytes)
    → IsMessage env s task c e r xs body
    → is_silenced c ≡ false
    → (attr "to" e ≡ none) ⊎ (attr "to" e ≡ some (lit "all"))
    → parse_message env task s
      ≡ ok tt (emit (deliveries (public_message (name c) env.now body) xs) s)
unfolding say
parse_message-public env s task c e r xs body v free (inl nobody) =
    to_handler env s task c e r xs body v
    ∙ handled env s task c e r xs body v
    ∙ rw (free, nobody) (said env s task c e r xs body v)
parse_message-public env s task c e r xs body v free (inr all) =
    to_handler env s task c e r xs body v
    ∙ handled env s task c e r xs body v
    ∙ rw (free, all, str_eq_refl (lit "all")) (said env s task c e r xs body v)

-- A message of a silenced client, whatever it says and to whom, is answered with one note to itself, and
-- nothing else of the state changes. Condition: it is logged in.
pub parse_message-silenced :
    (env : Env) (s : State) (task : Task) (c : Client) (e : Event) (body : Bytes)
    → IsRequest env s task c e
    → ev_type_of e ≡ some (pos ev_type_message)
    → is_success c.state ≡ true
    → e.body ≡ some body
    → is_silenced c ≡ true
    → parse_message env task s ≡ ok tt (emit (write c.fd (notice env.now (lit "您目前处于禁言状态")) ∷ []) s)
unfolding serve handle_message send_message
parse_message-silenced env s task c e body v t on has_body silenced =
    parse_message-serve env s task c e (pos ev_type_message) v t refl on
    ∙ rw (has_body, load-ok s task.client c v.ne_null v.live, silenced)

-- What the address `q` of a search holds: NULL or a live client.
abbrev pub Holds : State → Ptr → Option Client → Type 0
Holds s q none = q ≡ null
Holds s q (some d) = (q ≢ null) × (s.heap q ≡ some d)

-- The two copies of a private message, if there is an addressee in the room of the sender.
abbrev pub copies : Client → Bytes → Option Client → List Output
copies c text none = []
copies c text (some d) =
    if d.roomid ==ℤ c.roomid then write d.fd text ∷ write c.fd text ∷ [] else []

module _ (env : Env) (s : State) (c : Client) (body to : Bytes) (es : Entries) (named : IsNamed c)
    (other : str_eq (name c) to ≡ false) (b : InBucket s to es) (i : InRange es) where
  say_to-copies :
      (addressee : Option Client)
      → Holds s (client_at s.fd_clients (finds to (negsuc 0) es)) addressee
      → say_to env c c.fd to body s
        ≡ ok tt (emit (copies c (private_message (name c) to env.now body) addressee) s)
  unfolding say_to send_message
  say_to-copies none h =
      rw (read_name-ok s c named, other, get_fdnode_byname-finds s to (negsuc 0) es b i, h)
        (ap (ok tt) (emit-nil s))
  say_to-copies (some d) (n, e) =
      rw
        (
          read_name-ok s c named,
          other,
          get_fdnode_byname-finds s to (negsuc 0) es b i,
          ==_ne _ null n,
          load-ok s _ d n e,
        )
        (elim (Bool-cases (d.roomid ==ℤ c.roomid)) [
          | inl same ↦ rw same (
              ap (ok tt) (
                emit-emit (write d.fd (private_message (name c) to env.now body) ∷ [])
                  (write c.fd (private_message (name c) to env.now body) ∷ []) s))
          | inr elsewhere ↦ rw elsewhere (ap (ok tt) (emit-nil s))
        ])

-- A message to one name is written to the client that the name table holds under it and once more to
-- the sender, if that client is in the sender's room; it is written to nobody if the table has no such
-- name or the client is elsewhere. Nothing else of the state changes. Conditions: the sender is logged
-- in, is not silenced and sits in a room, the name is neither "all" nor its own, and the bucket `es` of
-- the name is keyed by live clients with terminated names.
pub parse_message-private :
    (env : Env) (s : State) (task : Task) (c : Client) (e : Event) (r : ℕ) (xs : Members)
    (body to : Bytes) (es : Entries) (addressee : Option Client)
    → IsMessage env s task c e r xs body
    → is_silenced c ≡ false
    → attr "to" e ≡ some to
    → str_eq to (lit "all") ≡ false
    → str_eq (name c) to ≡ false
    → InBucket s to es
    → InRange es
    → Holds s (client_at s.fd_clients (finds to (negsuc 0) es)) addressee
    → parse_message env task s
      ≡ ok tt (emit (copies c (private_message (name c) to env.now body) addressee) s)
unfolding say
parse_message-private env s task c e r xs body to es addressee v free a single other b i h =
    to_handler env s task c e r xs body v
    ∙ handled env s task c e r xs body v
    ∙ rw (free, a, single) (say_to-copies env s c body to es v.sits.named other b i addressee h)
