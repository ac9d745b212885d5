-- ===== src/Tests/Nodes.antt =====
-- The theorems on the name table and on the nodes at the scene, with Bob's name entered.
use as3chat.Common.{◌+◌, ◌%◌, ◌^◌, ◌<◌, ◌≡◌, refl, [], ◌∷◌, arith}
use as3chat.Common.Tests.{==_refl}
use as3chat.Common.Int.{minus_one}
use as3chat.Common.Text.{Bytes, lit, str_eq}
use as3chat.Server.{State, ok}
use as3chat.HashTable.{char_value, bkdr_loop, bkdr_hash}
use as3chat.HashTable.Bkdr.{polynomial, excess, bkdr_hash-polynomial}
use as3chat.HashTable.Chains.{Entries, InBucket}
use as3chat.Rooms.{return_success}
use as3chat.Rooms.Broadcast.{name}
use as3chat.Rooms.Leave.{Roster}
use as3chat.Nodes.{get_fdnode_byname, node_add, node_del}
use as3chat.Nodes.Lookup.{get_fdnode_byname-finds}
use as3chat.Nodes.Add.{node_add-finds}
use as3chat.Nodes.Delete.{Deleted, node_del-Deleted}
use as3chat.Tests.Scene.{ann, bob, cid, named_scene, bob_item}
use as3chat.Tests.Rooms.{opened, hall, hall-Roster}

abbrev pub bob_entry : Entries
bob_entry = (bob_item, lit "bob") ∷ []

pub bob-InBucket : InBucket named_scene (lit "bob") bob_entry
unfolding opened
bob-InBucket = record {
  made = omega arith;
  chain = rw (==_refl (bkdr_hash (lit "bob") % 100));
  keys = (
    record { owner = bob; ne_null = omega arith; live = refl; named = refl; text_of = refl },
    tt,
  );
}

-- The bytes of "é" in UTF-8, between letters.
abbrev accented : Bytes
accented = 97 ∷ 195 ∷ 169 ∷ 98 ∷ []

bkdr_hash-polynomial_example :
    ((bkdr_hash accented + excess (98 ∷ 169 ∷ 195 ∷ 97 ∷ [])) % 2 ^ 31
      ≡ polynomial (98 ∷ 169 ∷ 195 ∷ 97 ∷ []) % 2 ^ 31)
    × (bkdr_hash accented < 2 ^ 31)
bkdr_hash-polynomial_example = bkdr_hash-polynomial accented

get_fdnode_byname-finds_example :
    get_fdnode_byname (lit "bob") minus_one named_scene ≡ ok 102 named_scene
unfolding opened str_eq
get_fdnode_byname-finds_example =
    get_fdnode_byname-finds named_scene (lit "bob") minus_one bob_entry bob-InBucket
      (omega arith, tt)

cid-InBucket : InBucket named_scene (name cid) []
unfolding opened bkdr_hash bkdr_loop char_value
cid-InBucket = record { made = omega arith; chain = refl; keys = tt }

pub named-Roster : Roster named_scene 0 hall
named-Roster = record {
  seats = record {
    in_range = hall-Roster.seats.in_range;
    starts = hall-Roster.seats.starts;
    chain = hall-Roster.seats.chain;
  };
  distinct = hall-Roster.distinct;
  sit = hall-Roster.sit;
}

-- Cid is entered.
node_add-finds_example :
    (t : State) × (node_add 103 named_scene ≡ ok return_success t)
    × (get_fdnode_byname (lit "cid") minus_one t ≡ ok 103 t)
    × (t ≡ record named_scene { hash_table = t.hash_table })
unfolding opened str_eq
node_add-finds_example =
    node_add-finds named_scene 103 cid [] minus_one (omega arith) refl refl (omega arith)
      cid-InBucket tt refl

node_del-Deleted_example :
    (t : State) × (node_del 10 102 named_scene ≡ ok return_success t)
    × Deleted named_scene t 0 ((101, ann) ∷ []) 102 bob ((103, cid) ∷ []) bob_entry
unfolding opened
node_del-Deleted_example =
    node_del-Deleted 10 0 named_scene ((101, ann) ∷ []) 102 bob ((103, cid) ∷ []) bob_entry
      named-Roster bob-InBucket (omega arith)
