-- ===== src/Server3/Loop/RoundTrip.antt =====
-- A request of a client on its way through 3.0/server: the event for input, RecvMessage, ParseMessage, and
-- the event for output.
use as3chat.Common.{
  ℕ, ◌≤◌, ◌<◌, ◌^◌, ◌≡◌, refl, ap, ◌∙◌, true, false, Option, none, some, List, [], ◌∷◌, ◌++◌, arith,
}
use as3chat.Common.Tests.{==_refl}
use as3chat.Common.Int.{ℤ, pos, ◌<ℤ◌}
use as3chat.Common.Lists.{length}
use as3chat.Common.Text.{Bytes, has_nul}
use as3chat.Server3.Client.{Client, Wire, recv, head_of}
use as3chat.Server3.Client.Framing.{Ready, recv-message}
use as3chat.Server3.Groups.{Groups}
use as3chat.Server3.FifoList.{new, is_full, enqueued}
use as3chat.Server3.ClientList.Adding.{Live}
use as3chat.Server3.Process.{
  Process, Call, Outcome, done, receive_task, parse_task, read, write, update_events, call, ◌>>◌,
}
use as3chat.Server3.System.{System, event}
use as3chat.Server3.Jobs.{run_job, run_next}
use as3chat.Server3.Jobs.Receiving.{stored, worked, stored-Live, run_next-job, run_receive-packet}
use as3chat.Server3.Jobs.Replies.{Replied, queued, taken, run_parse-Replied}
use as3chat.Server3.Loop.{default_max, is_main_sock, handle_event}
use as3chat.Server3.Loop.Answers.{input, output, sent, handle_event-input, handle_event-output}

-- A client with nothing in its queues.
abbrev pub idle : ℤ → Bytes → ℤ → Groups → Client
idle sock name time buddies = record {
  sock = sock;
  name = name;
  lastresponsetime = time;
  buddy_list = buddies;
  in_packets = new default_max;
  out_packets = new default_max;
}

-- The two events, and the two tasks between them.
abbrev pub round_trip : System → ℤ → ℕ → Process → Outcome (Unit {0})
round_trip sys main_sock p =
    handle_event sys main_sock (input p)
    >> run_next sys
    >> run_next sys
    >> handle_event sys main_sock (output p)

new_not_full : (m : ℤ) → m ≡ pos 10 → is_full (new {A = Bytes} m) ≡ false
unfolding is_full
new_not_full m e = ground arith

append_four {ℓ} :
    {A : Type ℓ} (xs : List A) (a b c d : A)
    → xs ++ a ∷ [] ++ b ∷ [] ++ c ∷ [] ++ d ∷ [] ≡ xs ++ a ∷ b ∷ c ∷ d ∷ []
append_four [] a b c d = refl
append_four (x ∷ xs) a b c d = ap (λ ys. x ∷ ys) (append_four xs a b c d)

round_trip-steps :
    (sys : System) (main_sock : ℤ) (p : ℕ) (s s1 s2 s3 s4 : Process)
    → handle_event sys main_sock (input p) s ≡ done tt s1
    → run_next sys s1 ≡ done tt s2
    → run_next sys s2 ≡ done tt s3
    → handle_event sys main_sock (output p) s3 ≡ done tt s4
    → round_trip sys main_sock p s ≡ done tt s4
round_trip-steps sys main_sock p s s1 s2 s3 s4 e1 e2 e3 e4 = rw (e1, e2, e3, e4)

-- A request that a client sends is answered: it is read, parsed, and its reply goes out to the same
-- descriptor behind its length; then the queues of the client are empty again, as is that of the pool, the
-- time of the client is the time of the read, and what came behind the request is still on the wire. The
-- requests are those of `Replied`: a ping gets a ping, a login gets a refusal, and a public message without
-- a body comes back. Conditions: the client is alive with empty queues and an open descriptor, and no task
-- waits; the request and the reply hold no NUL and are not empty, and the request is shorter than 2 GiB;
-- each read gives at least a byte, and the first one the head; writes take all they are given, and epoll
-- reports no error; the word of the client is not the descriptor of the main socket.
pub round_trip-answers :
    (sys : System) (main_sock : ℤ) (s : Process) (p : ℕ) (sock : ℤ) (name : Bytes) (time : ℤ)
    (buddies : Groups) (b : ℕ) (msg rest : Bytes) (k : ℕ) (ks : List ℕ) (type : ℤ)
    (body : Option Bytes) (reply : ℤ) (b' : ℕ) (packet : Bytes)
    → is_main_sock main_sock p ≡ false
    → Live s p (idle sock name time buddies)
    → (sock <ℤ pos 0) ≡ false
    → s.work.packets ≡ []
    → sys.wire s.calls sock
      ≡ record { pending = head_of (length (b ∷ msg)) ++ ((b ∷ msg) ++ rest); sizes = k ∷ ks }
    → has_nul (b ∷ msg) ≡ false
    → length (b ∷ msg) < 2 ^ 31
    → 4 ≤ k
    → Ready ks
    → length (b ∷ msg) ≤ length ks
    → sys.parse (b ∷ msg) ≡ event (some type) body
    → Replied type body reply
    → sys.print reply none ≡ b' ∷ packet
    → has_nul (b' ∷ packet) ≡ false
    → ((calls : List Call) → sys.head_written calls sock ≡ pos 4)
    → ((calls : List Call) → sys.packet_written calls sock ≡ pos (length (b' ∷ packet)))
    → ((calls : List Call) (asked : Call) → sys.epoll_ctl calls asked ≡ true)
    → (w : Wire) × (t : Process) × (w.pending ≡ rest)
      × (round_trip sys main_sock p s ≡ done tt t)
      × (t.heap p ≡ some (idle sock name (sys.now s.calls) buddies))
      × (t.work.packets ≡ [])
      × (t.calls
          ≡ s.calls
            ++ read sock w
              ∷ update_events sock true p
              ∷ write sock (head_of (length (b' ∷ packet)) ++ b' ∷ packet)
              ∷ update_events sock false p
              ∷ [])
unfolding run_job
round_trip-answers sys main_sock s p sock name time buddies b msg rest k ks type body reply b'
      packet apart (here, live) opened quiet under_way clean small hk ready enough parsed replied
      printed clean' head whole accepted =
    let c = idle sock name time buddies in
    let now = sys.now s.calls in
    let (ks', received) =
      recv-message now c (b ∷ msg) rest k ks clean small hk ready enough
        (new_not_full default_max refl) in
    let w : Wire = record { pending = rest; sizes = ks' } in
    let c1 : Client = record c {
      lastresponsetime = now;
      in_packets = enqueued (b ∷ msg) c.in_packets;
    } in
    let c2 : Client = queued (b' ∷ packet) (taken [] c1) in
    let s1 : Process = worked (receive_task p ∷ []) s in
    let s2 : Process =
      worked (parse_task p ∷ []) (call (read sock w) (stored p c1 (worked [] s1))) in
    let s2' : Process = worked [] s2 in
    let s3 : Process =
      call (update_events sock true p) (stored p c2 (stored p (taken [] c1) s2')) in
    let bytes = head_of (length (b' ∷ packet)) ++ b' ∷ packet in
    let s4 : Process =
      call (update_events sock false p) (call (write sock bytes) (stored p (sent [] c2) s3)) in
    let told =
      handle_event-input sys main_sock s p c apart (here, live) opened
      ∙ ap (λ l. done tt (worked (l ++ receive_task p ∷ []) s)) quiet in
    let took =
      run_next-job sys s1 (receive_task p) [] refl
      ∙ run_receive-packet sys (worked [] s1) p c c1 (b ∷ msg) w (here, live)
          (ap (recv now c) under_way ∙ received) in
    let parsed' =
      run_next-job sys s2 (parse_task p) [] refl
      ∙ run_parse-Replied sys s2' p c1 b msg [] type body reply
          (stored-Live (worked [] s1) p c1 here) refl parsed replied (new_not_full default_max refl)
          (accepted s2'.calls (update_events sock true p))
      ∙ ap
          (λ r. done tt (
            call (update_events sock true p)
              (stored p (queued r (taken [] c1)) (stored p (taken [] c1) s2'))))
          printed in
    let wrote =
      handle_event-output sys main_sock s3 p c2 b' packet [] apart
        (stored-Live (stored p (taken [] c1) s2') p c2 here) opened refl clean' (head s3.calls)
        (whole s3.calls) accepted in
    (
      w,
      s4,
      refl,
      round_trip-steps sys main_sock p s s1 s2 s3 s4 told took parsed' wrote,
      rw (==_refl p),
      refl,
      append_four s.calls (read sock w) (update_events sock true p) (write sock bytes)
          (update_events sock false p),
    )
