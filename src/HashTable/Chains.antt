-- ===== src/HashTable/Chains.antt =====
-- The functions of 1.0/server/hash.c on chains whose keys can be read.
use as3chat.Common.{
  ℕ, ◌%◌, ◌≡◌, refl, ◌≢◌, inl, inr, Bool, true, false, ◌&&◌, Option, some, List, [], ◌∷◌, ◌++◌, map,
}
use as3chat.Common.Tests.{◌==◌, if◌then◌else◌, ==_ne, Bool-cases}
use as3chat.Common.Text.{Bytes, str_eq}
use as3chat.Server.{Ptr, null, Client, HashItem, State, ok}
use as3chat.Server.Commands.{update}
use as3chat.Rooms.Chain.{load-ok}
use as3chat.Rooms.Broadcast.{name, IsNamed, read_name-ok}
use as3chat.HashTable.{
  bkdr_hash, bucket, item_key, search_chain, hash_search, hash_add, del_chain, hash_del,
}

-- An item and the text of its key.
abbrev pub Entries : Type 0
Entries = List (HashItem × Bytes)

abbrev pub items : Entries → List HashItem
items = map (λ e. e.0)

-- The key of each item is the name of a live client.
pub record IsKey (h : Ptr → Option Client) (item : HashItem) (text : Bytes) : Type 0 where
  pub owner : Client
  pub ne_null : item.key ≢ null
  pub live : h item.key ≡ some owner
  pub named : IsNamed owner
  pub text_of : name owner ≡ text

abbrev pub Keys : (Ptr → Option Client) → Entries → Type 0
Keys h [] = Unit
Keys h ((item, text) ∷ es) = IsKey h item text × Keys h es

pub item_key-ok :
    (s : State) (item : HashItem) (text : Bytes)
    → IsKey s.heap item text
    → item_key item s ≡ ok text s
unfolding item_key
item_key-ok s item text v =
    rw (load-ok s item.key v.owner v.ne_null v.live, read_name-ok s v.owner v.named, v.text_of)

-- The entries from the first one with the key on.
abbrev pub from_key : Bytes → Entries → Entries
from_key key [] = []
from_key key ((item, text) ∷ es) = if str_eq text key then (item, text) ∷ es else from_key key es

-- The entries without the first one of this key and descriptor.
abbrev pub without : Bytes → ℕ → Entries → Entries
without key fd [] = []
without key fd ((item, text) ∷ es) =
    if str_eq text key && item.fd == fd then es else (item, text) ∷ without key fd es

abbrev pub holds : Bytes → ℕ → Entries → Bool
holds key fd [] = false
holds key fd ((item, text) ∷ es) =
    if str_eq text key && item.fd == fd then true else holds key fd es

pub search_chain-from_key :
    (s : State) (key : Bytes) (es : Entries)
    → Keys s.heap es
    → search_chain key (items es) s ≡ ok (items (from_key key es)) s
unfolding search_chain
search_chain-from_key s key [] v = refl
search_chain-from_key s key ((item, text) ∷ es) (v, vs) =
    rw (item_key-ok s item text v) (elim (Bool-cases (str_eq text key)) [
      | inl hit ↦ rw hit
      | inr miss ↦ rw miss (search_chain-from_key s key es vs)
    ])

pub del_chain-without :
    (s : State) (key : Bytes) (fd : ℕ) (es : Entries)
    → Keys s.heap es
    → del_chain key fd (items es) s ≡ ok (holds key fd es, items (without key fd es)) s
unfolding del_chain
del_chain-without s key fd [] v = refl
del_chain-without s key fd ((item, text) ∷ es) (v, vs) =
    rw (item_key-ok s item text v) (elim (Bool-cases (str_eq text key && item.fd == fd)) [
      | inl hit ↦ rw hit
      | inr miss ↦ rw (miss, del_chain-without s key fd es vs)
    ])

-- The chain of the key `key` holds `es`.
pub record InBucket (s : State) (key : Bytes) (es : Entries) : Type 0 where
  pub made : s.hash_size ≢ 0
  pub chain : s.hash_table (bkdr_hash key % s.hash_size) ≡ items es
  pub keys : Keys s.heap es

pub bucket-ok :
    (s : State) (key : Bytes) → s.hash_size ≢ 0 → bucket key s ≡ ok (bkdr_hash key % s.hash_size) s
unfolding bucket
bucket-ok s key n = rw (==_ne s.hash_size 0 n)

pub hash_search-from_key :
    (s : State) (key : Bytes) (es : Entries)
    → InBucket s key es
    → hash_search key s ≡ ok (items (from_key key es)) s
unfolding hash_search
hash_search-from_key s key es v =
    rw (==_ne s.hash_size 0 v.made, bucket-ok s key v.made, v.chain)
      (search_chain-from_key s key es v.keys)

abbrev pub stored : Bytes → List HashItem → State → State
stored key chain s = record s {
  hash_table = update s.hash_table (bkdr_hash key % s.hash_size) chain;
}

pub hash_add-stored :
    (s : State) (item : HashItem) (key : Bytes) (es : Entries)
    → InBucket s key es
    → IsKey s.heap item key
    → hash_add item s ≡ ok 1 (stored key (items es ++ item ∷ []) s)
unfolding hash_add
hash_add-stored s item key es v k = rw (item_key-ok s item key k, bucket-ok s key v.made, v.chain)

pub hash_del-stored :
    (s : State) (key : Bytes) (fd : ℕ) (es : Entries)
    → InBucket s key es
    → hash_del key fd s
      ≡ ok (if holds key fd es then 1 else 0) (stored key (items (without key fd es)) s)
unfolding hash_del
hash_del-stored s key fd es v =
    rw (bucket-ok s key v.made, v.chain, del_chain-without s key fd es v.keys)
