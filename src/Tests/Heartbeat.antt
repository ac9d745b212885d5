-- ===== src/Tests/Heartbeat.antt =====
-- A round of the heartbeat at the scene: Bob has been silent for too long.
use as3chat.Common.{ℕ, ◌%◌, ◌≡◌, ◌≢◌, refl, inl, some, none, [], arith}
use as3chat.Common.Tests.{◌==◌, if◌then◌else◌, ==_refl}
use as3chat.Common.Int.{pos}
use as3chat.Common.Text.{lit}
use as3chat.Server.{null, Client, State, ok}
use as3chat.HashTable.{bkdr_hash}
use as3chat.Nodes.{is_idle, heartbeat_round}
use as3chat.Nodes.Delete.{Deleted}
use as3chat.Nodes.Heartbeat.{Quiet, heartbeat_round-Deleted}
use as3chat.Tests.Scene.{bob, named_scene}
use as3chat.Tests.Nodes.{bob_entry}
use as3chat.Tests.Rooms.{opened}

-- Bob is the only client.
abbrev last_bob : Client
last_bob = record bob { next = null }

abbrev quiet_scene : State
quiet_scene = record named_scene {
  heap = λ q. if q == 102 then some last_bob else none;
  fd_clients = λ fd. if fd == 6 then 102 else null;
  rooms = λ r. record (named_scene.rooms r) { client = if r == 0 then 102 else null };
}

others-Quiet : (j : ℕ) → j ≢ 6 → Quiet (pos 100) quiet_scene j
others-Quiet j ne = inl (ground arith)

heartbeat_round-Deleted_example :
    (t : State) × (heartbeat_round 10 (pos 100) quiet_scene ≡ ok tt t)
    × Deleted quiet_scene t 0 [] 102 last_bob [] bob_entry
unfolding opened is_idle
heartbeat_round-Deleted_example =
    heartbeat_round-Deleted 10 (pos 100) 0 quiet_scene [] 102 last_bob [] bob_entry
      (record {
        seats = record { in_range = omega arith; starts = refl; chain = ground arith };
        distinct = ground arith;
        sit = ground arith;
      })
      (record {
        made = omega arith;
        chain = rw (==_refl (bkdr_hash (lit "bob") % 100));
        keys = (
          record {
            owner = last_bob;
            ne_null = omega arith;
            live = refl;
            named = refl;
            text_of = refl;
          },
          tt,
        );
      })
      (omega arith) refl (λ j h ne. others-Quiet j ne)
