-- ===== src/Tests/Loop.antt =====
-- The events and tasks of 3.0/server at one client.
use as3chat.Common.{◌≡◌, refl, true, false, none, some, List, [], ◌∷◌, ◌++◌, arith}
use as3chat.Common.Int.{pos}
use as3chat.Common.Text.{has_nul}
use as3chat.Server3.Dict.{lookup}
use as3chat.Server3.Groups.{empty}
use as3chat.Server3.FifoList.{is_full}
use as3chat.Server3.Client.{Client, Wire, head_of}
use as3chat.Server3.Process.{
  Process, Job, done, close, crash, deadlock, receive_task, read, unregister, write, update_events,
}
use as3chat.Server3.ClientList.{find_client_fd, keep_alive}
use as3chat.Server3.System.{System, malformed}
use as3chat.Server3.ClientList.Adding.{Valid}
use as3chat.Server3.ClientList.Keeping.{stored-Valid}
use as3chat.Server3.Jobs.{run_next, run_parse}
use as3chat.Server3.Jobs.Replies.Refusals.{not_xml, run_parse-Refused}
use as3chat.Server3.Jobs.Receiving.Negative.{run_next-negative}
use as3chat.Server3.Jobs.Receiving.{stored, stored-Live, run_next_twice-crashes}
use as3chat.Server3.Jobs.Replies.{pong}
use as3chat.Server3.Loop.{is_main_sock, handle_event}
use as3chat.Server3.Loop.Hangup.{ended, handle_event-dangles}
use as3chat.Server3.Loop.Answers.{input}
use as3chat.Server3.Loop.RoundTrip.{idle, round_trip, round_trip-answers}
use as3chat.Tests.Scene3.{
  eve_address, eve, scene3, scene3-Valid, eve-Live, system, request, request_wire, ended_wire,
  reply_text,
}

abbrev twice : List Job
twice = receive_task eve_address ∷ receive_task eve_address ∷ []

run_next_twice-crashes_example :
    (t : Process) × (run_next (system ended_wire) (scene3 twice) ≡ done tt t)
    × (t.heap eve_address ≡ none)
    × (find_client_fd (pos 7) t ≡ none)
    × (t.work.packets ≡ receive_task eve_address ∷ [])
    × (run_next (system ended_wire) t ≡ crash)
run_next_twice-crashes_example =
    run_next_twice-crashes (system ended_wire) (scene3 twice) eve_address eve [] refl
      (scene3-Valid twice) eve-Live refl refl (λ calls. refl)

-- The length -2147483643, and one more byte.
abbrev negative_wire : Wire
negative_wire = record { pending = 128 ∷ 0 ∷ 0 ∷ 5 ∷ 9 ∷ []; sizes = 4 ∷ 1 ∷ [] }

run_next-negative_example :
    (t : Process) × (run_next (system negative_wire) (scene3 (receive_task eve_address ∷ []))
      ≡ done tt t)
    × Valid t
    × (t.heap eve_address ≡ none)
    × (find_client_fd (pos 7) t ≡ none)
    × (t.calls
        ≡ []
          ++ read (pos 7) (record { pending = 9 ∷ []; sizes = 1 ∷ [] })
            ∷ unregister (pos 7)
            ∷ close (pos 7)
            ∷ [])
unfolding is_full
run_next-negative_example =
    run_next-negative (system negative_wire) (scene3 (receive_task eve_address ∷ [])) eve_address
      eve [] 128 0 0 5 4 (9 ∷ []) (1 ∷ []) refl (scene3-Valid (receive_task eve_address ∷ []))
      eve-Live refl refl refl (omega arith) (omega arith) (λ calls. refl)

handle_event-dangles_example :
    (t : Process) × (handle_event
        (system ended_wire)
        (pos 3)
        (ended eve_address true false)
        (scene3 [])
      ≡ done tt t)
    × (t.heap eve_address ≡ none)
    × (find_client_fd (pos 7) t ≡ some eve_address)
    × (keep_alive (pos 100) t ≡ crash)
    × (handle_event (system ended_wire) (pos 3) (input 3) t ≡ deadlock)
unfolding find_client_fd lookup is_main_sock
handle_event-dangles_example =
    handle_event-dangles (system ended_wire) (pos 3) 3 (pos 100) (scene3 []) eve_address eve true
      false (scene3-Valid []) eve-Live refl refl refl (λ calls. refl) (λ t. refl) refl refl

round_trip-answers_example :
    (w : Wire) × (t : Process) × (w.pending ≡ 9 ∷ [])
    × (round_trip (system request_wire) (pos 3) eve_address (scene3 []) ≡ done tt t)
    × (t.heap eve_address ≡ some (idle (pos 7) [] (pos 100) empty))
    × (t.work.packets ≡ [])
    × (t.calls
        ≡ []
          ++ read (pos 7) w
            ∷ update_events (pos 7) true eve_address
            ∷ write (pos 7) (head_of 3 ++ reply_text)
            ∷ update_events (pos 7) false eve_address
            ∷ [])
unfolding has_nul is_main_sock
round_trip-answers_example =
    round_trip-answers (system request_wire) (pos 3) (scene3 []) eve_address (pos 7) [] (pos 40)
      empty 104 (105 ∷ []) (9 ∷ []) 4 (1 ∷ 5 ∷ []) (pos 0) none (pos 0) 60 (47 ∷ 62 ∷ []) refl
      eve-Live refl refl refl refl (omega arith) (omega arith) (omega arith, (omega arith, refl))
      (omega arith) refl (pong none) refl refl (λ calls. refl) (λ calls. refl) (λ calls asked. refl)

-- A packet of `eve` waits to be parsed.
abbrev eve_asking : Client
eve_asking = record eve { in_packets = record eve.in_packets { packets = request ∷ [] } }

abbrev strict_system : System
strict_system = record (system ended_wire) { parse = λ _. malformed }

run_parse-Refused_example :
    (t : Process) × (run_parse strict_system eve_address (stored eve_address eve_asking (scene3 []))
      ≡ done tt t)
    × Valid t
    × (t.heap eve_address ≡ none)
    × (find_client_fd (pos 7) t ≡ none)
    × (t.calls ≡ [] ++ close (pos 7) ∷ [])
run_parse-Refused_example =
    run_parse-Refused strict_system (stored eve_address eve_asking (scene3 [])) eve_address
      eve_asking 104 (105 ∷ []) []
      (stored-Valid (scene3 []) eve_address eve eve_asking eve-Live (refl, refl) (scene3-Valid []))
      (stored-Live (scene3 []) eve_address eve_asking refl) refl refl not_xml
