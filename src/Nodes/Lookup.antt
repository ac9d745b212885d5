-- ===== src/Nodes/Lookup.antt =====
-- `get_fdnode_byname` of 1.0/server/function.c over the entries of the name table.
use as3chat.Common.{
  ℕ, ◌<◌, ◌≡◌, refl, inl, inr, Bool, ◌&&◌, ◌||◌, not, Option, none, some, [], ◌∷◌, arith,
}
use as3chat.Common.Tests.{if◌then◌else◌, lt→ltb, Bool-cases, Option-cases}
use as3chat.Common.Int.{ℤ, pos, ◌==ℤ◌, ◌<ℤ◌, minus_one}
use as3chat.Common.Text.{Bytes, str_eq}
use as3chat.Server.{Ptr, null, max_fds, HashItem, State, ok}
use as3chat.Server.Commands.{load_fd}
use as3chat.HashTable.Chains.{
  Entries, items, Keys, item_key-ok, from_key, InBucket, hash_search-from_key,
}
use as3chat.Nodes.{first_other, get_fdnode_byname}

-- Whether an entry answers a search that leaves out the descriptor `ufd`; a negative one leaves out
-- nobody.
abbrev pub answers : Bytes → ℤ → HashItem → Bytes → Bool
answers uname ufd item text = str_eq text uname && (ufd <ℤ pos 0 || not (pos item.fd ==ℤ ufd))

-- The descriptor of the first entry that answers.
abbrev pub finds : Bytes → ℤ → Entries → Option ℕ
finds uname ufd [] = none
finds uname ufd ((item, text) ∷ es) =
    if answers uname ufd item text then some item.fd else finds uname ufd es

abbrev pub as_fd : Option ℕ → ℤ
as_fd none = minus_one
as_fd (some fd) = pos fd

abbrev pub client_at : (ℕ → Ptr) → Option ℕ → Ptr
client_at f none = null
client_at f (some fd) = f fd

-- The descriptors in the table are indices of `fd_clients`.
abbrev pub InRange : Entries → Type 0
InRange [] = Unit
InRange ((item, _) ∷ es) = (item.fd < max_fds) × InRange es

finds-from_key :
    (uname : Bytes) (ufd : ℤ) (es : Entries)
    → finds uname ufd (from_key uname es) ≡ finds uname ufd es
finds-from_key uname ufd [] = refl
finds-from_key uname ufd ((item, text) ∷ es) = elim (Bool-cases (str_eq text uname)) [
  | inl hit ↦ rw hit (rw hit)
  | inr miss ↦ rw miss (finds-from_key uname ufd es)
]

from_key-Keys :
    (uname : Bytes) (s : State) (es : Entries) → Keys s.heap es → Keys s.heap (from_key uname es)
from_key-Keys uname s [] v = tt
from_key-Keys uname s ((item, text) ∷ es) (v, vs) = elim (Bool-cases (str_eq text uname)) [
  | inl hit ↦ rw hit (v, vs)
  | inr miss ↦ rw miss (from_key-Keys uname s es vs)
]

first_other-finds :
    (s : State) (uname : Bytes) (ufd : ℤ) (es : Entries)
    → Keys s.heap es
    → first_other uname ufd (items es) s ≡ ok (as_fd (finds uname ufd es)) s
unfolding first_other
first_other-finds s uname ufd [] v = refl
first_other-finds s uname ufd ((item, text) ∷ es) (v, vs) =
    rw (item_key-ok s item text v) (elim (Bool-cases (answers uname ufd item text)) [
      | inl hit ↦ rw hit
      | inr miss ↦ rw miss (first_other-finds s uname ufd es vs)
    ])

found-InRange :
    (uname : Bytes) (ufd : ℤ) (es : Entries) (fd : ℕ)
    → InRange es
    → finds uname ufd es ≡ some fd
    → fd < max_fds
found-InRange uname ufd [] fd r e = cc
found-InRange uname ufd ((item, text) ∷ es) fd (h, r) e =
    ground (arith, found-InRange uname ufd es fd r)

-- The search returns the client at the descriptor of the first entry in the bucket with exactly this
-- name, leaving out the entries of the descriptor `ufd` where that is not negative, and NULL where
-- there is none; it changes nothing. Conditions: the entries of the bucket are keyed by live clients
-- with terminated names, and their descriptors are indices of `fd_clients`.
pub get_fdnode_byname-finds :
    (s : State) (uname : Bytes) (ufd : ℤ) (es : Entries)
    → InBucket s uname es
    → InRange es
    → get_fdnode_byname uname ufd s ≡ ok (client_at s.fd_clients (finds uname ufd es)) s
unfolding get_fdnode_byname load_fd
get_fdnode_byname-finds s uname ufd es v r =
    rw
      (
        hash_search-from_key s uname es v,
        first_other-finds s uname ufd (from_key uname es) (from_key-Keys uname s es v.keys),
        finds-from_key uname ufd es,
      )
      (elim (Option-cases (finds uname ufd es)) [
        | inl miss ↦ rw miss
        | inr (fd, hit) ↦ rw (hit, lt→ltb fd max_fds (found-InRange uname ufd es fd r hit))
      ])
