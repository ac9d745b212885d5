-- ===== src/Nodes/Add.antt =====
-- `node_add` of 1.0/server/function.c, and what `get_fdnode_byname` finds after it.
use as3chat.Common.{
  ℕ, ◌%◌, ◌<◌, ◌≡◌, refl, sym, ap, ◌∙◌, ◌≢◌, inl, inr, false, Option, none, some, [], ◌∷◌, ◌++◌,
  arith,
}
use as3chat.Common.Tests.{==_ne, ==_refl, Bool-cases}
use as3chat.Common.Int.{ℤ, pos, negsuc, ◌==ℤ◌}
use as3chat.Common.Text.{Bytes, str_eq_refl}
use as3chat.Server.{Ptr, null, max_fds, Client, HashItem, State, ok}
use as3chat.Server.Commands.{update}
use as3chat.Rooms.{return_success}
use as3chat.Rooms.Chain.{load-ok}
use as3chat.Rooms.Broadcast.{name, IsNamed}
use as3chat.HashTable.{bkdr_hash}
use as3chat.HashTable.Chains.{Entries, items, IsKey, Keys, InBucket, stored, hash_add-stored}
use as3chat.Nodes.{node_add, get_fdnode_byname}
use as3chat.Nodes.Lookup.{answers, finds, client_at, InRange, get_fdnode_byname-finds}

abbrev pub entry : Ptr → Client → HashItem
entry p c = record { key = p; fd = c.fd }

items-append : (es fs : Entries) → items (es ++ fs) ≡ items es ++ items fs
items-append [] fs = refl
items-append (e ∷ es) fs = ap (◌∷◌ e.0) (items-append es fs)

Keys-append :
    (h : Ptr → Option Client) (es fs : Entries) → Keys h es → Keys h fs → Keys h (es ++ fs)
Keys-append h [] fs v w = w
Keys-append h (e ∷ es) fs (v, vs) w = (v, Keys-append h es fs vs w)

InRange-append : (es fs : Entries) → InRange es → InRange fs → InRange (es ++ fs)
InRange-append [] fs v w = w
InRange-append (e ∷ es) fs (v, vs) w = (v, InRange-append es fs vs w)

abbrev pub or_else : Option ℕ → Option ℕ → Option ℕ
or_else none b = b
or_else (some a) b = some a

finds-append :
    (uname : Bytes) (ufd : ℤ) (es fs : Entries)
    → finds uname ufd (es ++ fs) ≡ or_else (finds uname ufd es) (finds uname ufd fs)
finds-append uname ufd [] fs = refl
finds-append uname ufd ((item, text) ∷ es) fs = elim (Bool-cases (answers uname ufd item text)) [
  | inl hit ↦ rw hit
  | inr miss ↦ rw miss (finds-append uname ufd es fs)
]

module _ (s : State) (p : Ptr) (c : Client) (es : Entries) (n : p ≢ null) (live : s.heap p ≡ some c)
    (named : IsNamed c) (v : InBucket s (name c) es) where
  abbrev pub added : State
  added = stored (name c) (items es ++ entry p c ∷ []) s

  entry-IsKey : IsKey s.heap (entry p c) (name c)
  entry-IsKey = record { owner = c; ne_null = n; live = live; named = named; text_of = refl }

  pub node_add-added : node_add p s ≡ ok return_success added
  unfolding node_add
  node_add-added = rw (
    ==_ne p null n,
    load-ok s p c n live,
    hash_add-stored s (entry p c) (name c) es v entry-IsKey,
  )

  added-InBucket : InBucket added (name c) (es ++ (entry p c, name c) ∷ [])
  unfolding update
  added-InBucket = record {
    made = v.made;
    chain =
        rw (==_refl (bkdr_hash (name c) % s.hash_size))
          (sym (items-append es ((entry p c, name c) ∷ [])));
    keys = Keys-append s.heap es ((entry p c, name c) ∷ []) v.keys (entry-IsKey, tt);
  }

  finds-entry :
      (ufd : ℤ)
      → (pos c.fd ==ℤ ufd) ≡ false
      → finds (name c) ufd ((entry p c, name c) ∷ []) ≡ some c.fd
  finds-entry (pos fd) other = rw (str_eq_refl (name c), other) (ground arith)
  finds-entry (negsuc fd) other = rw (str_eq_refl (name c)) (ground arith)

-- A client that is entered under its name is found under it, unless an entry of that name stands before
-- it; entering changes only the name table. The search may leave out the descriptor of another
-- client. Conditions: the client is live, its name is terminated and its descriptor an index of
-- `fd_clients`, and so are the entries `es` of its bucket.
pub node_add-finds :
    (s : State) (p : Ptr) (c : Client) (es : Entries) (ufd : ℤ)
    → p ≢ null
    → s.heap p ≡ some c
    → IsNamed c
    → c.fd < max_fds
    → InBucket s (name c) es
    → InRange es
    → (pos c.fd ==ℤ ufd) ≡ false
    → (t : State) × (node_add p s ≡ ok return_success t)
      × (get_fdnode_byname (name c) ufd t
          ≡ ok (client_at s.fd_clients (or_else (finds (name c) ufd es) (some c.fd))) t)
      × (t ≡ record s { hash_table = t.hash_table })
node_add-finds s p c es ufd n live named hf v r other = (
  added s p c es n live named v,
  node_add-added s p c es n live named v,
  get_fdnode_byname-finds (added s p c es n live named v) (name c) ufd
        (es ++ (entry p c, name c) ∷ []) (added-InBucket s p c es n live named v)
        (InRange-append es ((entry p c, name c) ∷ []) r (hf, tt))
      ∙ rw (
        finds-append (name c) ufd es ((entry p c, name c) ∷ []),
        finds-entry s p c es n live named v ufd other,
      ),
  refl,
)
