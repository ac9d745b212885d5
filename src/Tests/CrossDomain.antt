-- ===== src/Tests/CrossDomain.antt =====
-- The policy port of 3.0/server at one client.
use as3chat.Common.{◌≡◌, refl, true, none, some, List, [], ◌∷◌, ◌++◌, map}
use as3chat.Common.Tests.{◌==◌, if◌then◌else◌}
use as3chat.Common.Int.{pos}
use as3chat.Common.Lists.{length}
use as3chat.Common.Text.{Bytes, lit, c_string, str_eq_n}
use as3chat.Server3.Process.{update_events, unregister, write, close}
use as3chat.Server3.CrossDomain.{
  PolicyServer, served, PolicySystem, policy_request, followed_by, handle_policy_event,
}
use as3chat.Server3.CrossDomain.Policy.{
  joined, policy_input, policy_output, handle_policy_event-serves,
}

abbrev flash_bytes : Bytes
flash_bytes = policy_request ++ 0 ∷ []

abbrev policy_text : Bytes
policy_text = 60 ∷ 97 ∷ 47 ∷ 62 ∷ []

abbrev policy_scene : PolicyServer
policy_scene = record { sockets = λ q. if q == 1000 then some (pos 8) else none; calls = [] }

abbrev policy_system : PolicySystem
policy_system = record {
  epoll_ctl = λ _ _. true;
  accept = λ _. pos 9;
  address = λ _. 2000;
  incoming = λ _ _. some flash_bytes;
  file = some policy_text;
  written = λ _ _ bytes. pos (length bytes);
}

handle_policy_event-serves_example :
    (t : PolicyServer) × (ps : List Bytes) × (followed_by
        (handle_policy_event policy_system (pos 5) (policy_input 1000) policy_scene)
        (handle_policy_event policy_system (pos 5) (policy_output 1000))
      ≡ served t)
    × (t.sockets 1000 ≡ none)
    × (joined ps ≡ policy_text)
    × (t.calls
        ≡ []
          ++ update_events (pos 8) true 1000
            ∷ (map (write (pos 8)) ps ++ unregister (pos 8) ∷ close (pos 8) ∷ []))
unfolding policy_request lit c_string str_eq_n
handle_policy_event-serves_example =
    handle_policy_event-serves policy_system (pos 5) policy_scene 1000 (pos 8) flash_bytes
      policy_text refl refl refl refl refl refl refl refl (λ calls asked. refl)
      (λ calls to taken. refl)
