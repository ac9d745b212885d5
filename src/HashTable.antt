-- ===== src/HashTable.antt =====
-- 1.0/server/hash.c: the table of logged-in names. A chain is the list of its items; the text of a key
-- is read from the client at each comparison.
pub mod Bkdr
pub mod Chains
use as3chat.Common.{
  ℕ, zero, suc, ◌+◌, ◌-◌, ◌*◌, ◌%◌, ◌^◌, Bool, true, false, ◌&&◌, List, [], ◌∷◌, ◌++◌,
}
use as3chat.Common.Tests.{ltb, ◌==◌, if◌then◌else◌}
use as3chat.Common.Text.{Bytes, str_eq}
use as3chat.Server.{HashItem, State, Cmd, ok, pure, fail, ◌>>=◌, ◌>>◌}
use as3chat.Server.Commands.{load, read_name, update, fill}

-- A `char` is signed: the bytes from 128 up stand for negative numbers, which the addition to an
-- `unsigned int` takes modulo 2 ^ 32.
unfoldable pub char_value : ℕ → ℕ
char_value b = if ltb b 128 then b else b + 2 ^ 32 - 256

unfoldable pub bkdr_loop : ℕ → Bytes → ℕ
bkdr_loop hash [] = hash
bkdr_loop hash (b ∷ bs) = bkdr_loop ((hash * 131 + char_value b) % 2 ^ 32) bs

-- `& 0x7FFFFFFF` keeps the low 31 bits.
unfoldable pub bkdr_hash : Bytes → ℕ
bkdr_hash text = bkdr_loop 0 text % 2 ^ 31

-- `malloc` decides whether there is room for the table, and gives places that hold anything: what the state
-- has there before.
unfoldable pub hash_create : Bool → ℕ → Cmd ℕ
hash_create room size s =
    let s' = record s { hash_size = size } in
    if room then ok 1 (record s' { hash_table = fill size 0 [] s.hash_table }) else ok 0 s'

-- `BKDRHash(key) % hash_size`; the program divides by zero before the table is made.
unfoldable pub bucket : Bytes → Cmd ℕ
bucket key s = if s.hash_size == 0 then fail s else ok (bkdr_hash key % s.hash_size) s

abbrev pub chain_at : ℕ → Cmd (List HashItem)
chain_at index s = ok (s.hash_table index) s

abbrev pub set_chain : ℕ → List HashItem → Cmd (Unit {0})
set_chain index chain s = ok tt (record s { hash_table = update s.hash_table index chain })

-- `item->key`, read as a string.
unfoldable pub item_key : HashItem → Cmd Bytes
item_key item = do c ← load item.key; read_name c

-- The result is the chain from the item that was found, or empty for NULL.
unfoldable pub search_chain : Bytes → List HashItem → Cmd (List HashItem)
search_chain key [] = pure []
search_chain key (item ∷ rest) = do
  text ← item_key item
  if str_eq text key then pure (item ∷ rest) else search_chain key rest

unfoldable pub hash_search : Bytes → Cmd (List HashItem)
hash_search key s =
    if s.hash_size == 0
    then ok [] s
    else (do index ← bucket key; chain ← chain_at index; search_chain key chain) s

-- A new item, whose `next` is NULL, goes to the end of its chain.
unfoldable pub hash_add : HashItem → Cmd ℕ
hash_add item = do
  text ← item_key item
  index ← bucket text
  chain ← chain_at index
  set_chain index (chain ++ item ∷ [])
  pure 1

-- Whether an item went, and the chain without the first item of this key and descriptor.
pub del_chain : Bytes → ℕ → List HashItem → Cmd (Bool × List HashItem)
del_chain key fd [] = pure (false, [])
del_chain key fd (item ∷ rest) = do
  text ← item_key item
  if str_eq text key && item.fd == fd
      then pure (true, rest)
      else (do (found, rest') ← del_chain key fd rest; pure (found, item ∷ rest'))

pub hash_del : Bytes → ℕ → Cmd ℕ
hash_del key fd = do
  index ← bucket key
  chain ← chain_at index
  (found, chain') ← del_chain key fd chain
  set_chain index chain'
  pure (if found then 1 else 0)
