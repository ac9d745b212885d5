-- ===== src/Tests/Events.antt =====
-- The theorems on the events and the tasks at the scene.
use as3chat.Common.{◌≡◌, refl, [], ◌∷◌, arith}
use as3chat.Common.Text.{lit}
use as3chat.Server.{State, ok, fault}
use as3chat.Events.{step, works}
use as3chat.Events.Logout.{logout_of, queued, logout_twice-faults}
use as3chat.Nodes.Delete.{Deleted}
use as3chat.Tests.Scene.{ann, bob, cid, named_scene}
use as3chat.Tests.Environment.{env}
use as3chat.Tests.Requests.{hello}
use as3chat.Tests.Nodes.{bob_entry, bob-InBucket, named-Roster}
use as3chat.Tests.Rooms.{opened}

abbrev ended_scene : State
ended_scene =
    queued named_scene (logout_of 102 (lit "<quit/>") ∷ logout_of 102 (lit "<quit/>") ∷ [])

logout_twice-faults_example :
    (t : State) × (step (env hello) works ended_scene ≡ ok tt t)
    × Deleted
        (queued ended_scene (logout_of 102 (lit "<quit/>") ∷ []))
        t
        0
        ((101, ann) ∷ [])
        102
        bob
        ((103, cid) ∷ [])
        bob_entry
    × (step (env hello) works t ≡ fault)
unfolding opened
logout_twice-faults_example =
    logout_twice-faults (env hello) 0 ended_scene ((101, ann) ∷ []) 102 bob ((103, cid) ∷ [])
      bob_entry (lit "<quit/>") (logout_of 102 (lit "<quit/>")) [] refl refl
      (record {
        seats = record {
          in_range = named-Roster.seats.in_range;
          starts = named-Roster.seats.starts;
          chain = named-Roster.seats.chain;
        };
        distinct = named-Roster.distinct;
        sit = named-Roster.sit;
      })
      (record { made = bob-InBucket.made; chain = bob-InBucket.chain; keys = bob-InBucket.keys })
      (omega arith)
