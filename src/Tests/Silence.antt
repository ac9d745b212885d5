-- ===== src/Tests/Silence.antt =====
-- The command of an administrator at the scene: Ann silences Bob.
use as3chat.Common.{ℕ, ap, inr, some, ◌%◌, ◌≡◌, refl, not, none, [], ◌∷◌, arith}
use as3chat.Common.Tests.{◌==◌, if◌then◌else◌, ==_refl}
use as3chat.Common.Text.{atoi, lit, str_eq}
use as3chat.Server.{Client, client_type_admin, State, ok}
use as3chat.External.{Event}
use as3chat.HashTable.{bkdr_hash}
use as3chat.Message.{parse_message}
use as3chat.Message.Login.{Env}
use as3chat.Server.Commands.{emit}
use as3chat.Message.Chat.{is_silenced}
use as3chat.HashTable.Chains.{InBucket}
use as3chat.Rooms.Leave.{Roster}
use as3chat.Message.Commands.{Commands}
use as3chat.Message.Expulsion.{announced, parse_message-goout}
use as3chat.Nodes.Delete.{Deleted}
use as3chat.Common.Int.{pos}
use Prim.Native.String.{String}
use as3chat.Message.Silence.{
  retyped, told, answers, said_by, parse_message-shutup, parse_message-muted,
}
use as3chat.Tests.Scene.{ann, bob, cid, named_scene, scene_heap}
use as3chat.Tests.Environment.{env, event}
use as3chat.Tests.Requests.{hello, ann_task, attrs_opened}
use as3chat.Tests.Nodes.{bob_entry}

abbrev admin_ann : Client
admin_ann = record ann { type = client_type_admin }

abbrev admin_scene : State
admin_scene = record named_scene { heap = λ q. if q == 101 then some admin_ann else scene_heap q }

abbrev shutup : Event
shutup = event "91" "username" "bob" none

admin-InBucket : InBucket admin_scene (lit "bob") bob_entry
unfolding attrs_opened
admin-InBucket = record {
  made = omega arith;
  chain = rw (==_refl (bkdr_hash (lit "bob") % 100));
  keys = (
    record { owner = bob; ne_null = omega arith; live = refl; named = refl; text_of = refl },
    tt,
  );
}

admin-Roster : Roster admin_scene 0 ((101, admin_ann) ∷ (102, bob) ∷ (103, cid) ∷ [])
unfolding attrs_opened
admin-Roster = record {
  seats = record { in_range = omega arith; starts = refl; chain = ground arith };
  distinct = ground arith;
  sit = ground arith;
}

-- What holds for a command that names Bob.
abbrev OnBob : Event → ℕ → Type 0
OnBob e ev =
    Commands (env e) admin_scene ann_task admin_ann e ev 0 ((101, admin_ann) ∷ []) 102 bob
      ((103, cid) ∷ []) (lit "bob") bob_entry

names_bob :
    (type : String) (ev : ℕ)
    → atoi (lit type) ≡ pos ev
    → OnBob (event type "username" "bob" none) ev
unfolding attrs_opened
names_bob type ev t = record {
  request = record { ne_null = omega arith; live = refl; stays = refl; event = refl };
  type = ap some t;
  online = refl;
  rank = refl;
  named = refl;
  username = refl;
  other = refl;
  bucket = admin-InBucket;
  in_range = (omega arith, tt);
  found = refl;
  roster = admin-Roster;
  fuel = omega arith;
}

parse_message-shutup_example :
    (parse_message (env shutup) ann_task admin_scene
      ≡ ok tt (told (env shutup) admin_scene ((101, admin_ann) ∷ []) 102 bob ((103, cid) ∷ [])))
    × (is_silenced (retyped bob) ≡ not (is_silenced bob))
unfolding attrs_opened
parse_message-shutup_example =
    parse_message-shutup (env shutup) admin_scene ann_task admin_ann shutup 0
      ((101, admin_ann) ∷ []) 102 bob ((103, cid) ∷ []) (lit "bob") bob_entry
      (names_bob "91" 91 refl)

abbrev goout : Event
goout = event "90" "username" "bob" none

parse_message-goout_example :
    (t : State) × (parse_message (env goout) ann_task admin_scene ≡ ok tt t)
    × Deleted
        (announced (env goout) admin_scene ((101, admin_ann) ∷ []) 102 bob ((103, cid) ∷ []))
        t
        0
        ((101, admin_ann) ∷ [])
        102
        bob
        ((103, cid) ∷ [])
        bob_entry
unfolding attrs_opened
parse_message-goout_example =
    parse_message-goout (env goout) admin_scene ann_task admin_ann goout 0 ((101, admin_ann) ∷ [])
      102 bob ((103, cid) ∷ []) (lit "bob") bob_entry bob_entry (names_bob "90" 90 refl)
      admin-InBucket

-- Two requests: the command of Ann, and what Bob says.
abbrev quarrel : Env
quarrel =
    let e = env shutup in
    record e {
      external = record e.external {
        parse = λ text. if str_eq text (lit "hello") then hello else shutup;
      };
    }

parse_message-muted_example :
    (t : State) × (parse_message quarrel ann_task admin_scene ≡ ok tt t)
    × (parse_message (record quarrel { now = pos 1007 }) (said_by 102 (lit "hello")) t
        ≡ ok tt (
            emit
              (answers
                (record quarrel { now = pos 1007 })
                (lit "hello")
                ((101, admin_ann) ∷ [])
                102
                bob
                ((103, cid) ∷ []))
              t))
unfolding attrs_opened
parse_message-muted_example =
    parse_message-muted quarrel (record quarrel { now = pos 1007 }) admin_scene ann_task admin_ann
      shutup hello 0 ((101, admin_ann) ∷ []) 102 bob ((103, cid) ∷ []) (lit "bob") bob_entry
      (lit "hello") (lit "hello")
      (record {
        request = record { ne_null = omega arith; live = refl; stays = refl; event = refl };
        type = refl;
        online = refl;
        rank = refl;
        named = refl;
        username = refl;
        other = refl;
        bucket = admin-InBucket;
        in_range = (omega arith, tt);
        found = refl;
        roster = admin-Roster;
        fuel = omega arith;
      })
      refl refl refl (inr refl) (omega arith)
