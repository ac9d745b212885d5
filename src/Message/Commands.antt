-- ===== src/Message/Commands.antt =====
-- The commands of an administrator in 1.0/server/message.c, and whom they mean.
use as3chat.Common.{ℕ, ◌<◌, ◌≡◌, true, false, some, ◌∷◌, ◌++◌}
use as3chat.Common.Int.{pos, negsuc, ◌==ℤ◌}
use as3chat.Common.Lists.{length}
use as3chat.Common.Text.{Bytes, str_eq}
use as3chat.Server.{Ptr, Client, is_success, client_type_admin, Task, State, ok}
use as3chat.External.{Event}
use as3chat.Rooms.Chain.{Members, load-ok}
use as3chat.Rooms.Broadcast.{name, IsNamed, read_name-ok}
use as3chat.Rooms.Leave.{Roster}
use as3chat.HashTable.Chains.{Entries, InBucket}
use as3chat.Nodes.Lookup.{finds, client_at, InRange, get_fdnode_byname-finds}
use as3chat.Message.{target}
use as3chat.Message.Login.{Env, attr}
use as3chat.Message.Gate.{IsRequest, ev_type_of}

-- The command `ev` of an administrator, `c`, on the client `d` at `q` that it names, in the room `r`.
pub record Commands (env : Env) (s : State) (task : Task) (c : Client) (e : Event) (ev r : ℕ)
    (xs : Members) (q : Ptr) (d : Client) (ys : Members) (u : Bytes) (es : Entries) : Type 0 where
  pub request : IsRequest env s task c e
  pub type : ev_type_of e ≡ some (pos ev)
  pub online : is_success c.state ≡ true
  pub rank : (c.type ==ℤ client_type_admin) ≡ true
  pub named : IsNamed c
  pub username : attr "username" e ≡ some u
  pub other : str_eq (name c) u ≡ false
  pub bucket : InBucket s u es
  pub in_range : InRange es
  pub found : client_at s.fd_clients (finds u (negsuc 0) es) ≡ q
  pub roster : Roster s r (xs ++ (q, d) ∷ ys)
  pub fuel : length (xs ++ (q, d) ∷ ys) < env.fuel

pub target-found :
    (env : Env) (s : State) (task : Task) (c : Client) (e : Event) (ev r : ℕ) (xs : Members)
    (q : Ptr) (d : Client) (ys : Members) (u : Bytes) (es : Entries)
    → Commands env s task c e ev r xs q d ys u es
    → target task.client u s ≡ ok q s
unfolding target
target-found env s task c e ev r xs q d ys u es v = rw (
  load-ok s task.client c v.request.ne_null v.request.live,
  read_name-ok s c v.named,
  v.other,
  get_fdnode_byname-finds s u (negsuc 0) es v.bucket v.in_range,
  v.found,
)
