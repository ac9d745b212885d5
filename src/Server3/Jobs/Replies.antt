-- ===== src/Server3/Jobs/Replies.antt =====
-- ParseMessage::run: which reply joins the queue of the client, and when the client is thrown out.
pub mod Refusals
use as3chat.Common.{ℕ, ◌≡◌, refl, sym, ap, ◌∙◌, true, false, Option, none, some, List, ◌∷◌}
use as3chat.Common.Tests.{==_refl}
use as3chat.Common.Int.{ℤ, pos}
use as3chat.Common.Text.{Bytes}
use as3chat.Server3.Client.{Client, get_next_in_packet, push_out_packet}
use as3chat.Server3.FifoList.{is_full, enqueued, push, pop}
use as3chat.Server3.ClientList.Adding.{Live, load-Live}
use as3chat.Server3.Process.{Process, Outcome, Act, done, update_events, call, and_then}
use as3chat.Server3.System.{System, event, control}
use as3chat.Server3.Jobs.{
  ping, auth, auth_anonymous, auth_fail, message_public, store_reply, push_reply, answer,
  handle_document, is_body_shared, delete_documents, answer_packet, run_parse,
}
use as3chat.Server3.Jobs.Receiving.{stored, stored-Live}

-- The protocol as ParseMessage.cpp has it: a request, whether it has a body, and the type of the reply.
pub data Replied : ℤ → Option Bytes → ℤ → Type 0 where
  pong : (body : Option Bytes) → Replied ping body ping
  refused : (body : Option Bytes) → Replied auth body auth_fail
  refused_anonymous : (body : Option Bytes) → Replied auth_anonymous body auth_fail
  echoed : Replied message_public none message_public

abbrev pub queued : Bytes → Client → Client
queued packet c = record c { out_packets = enqueued packet c.out_packets }

push_out_packet-room :
    (packet : Bytes) (c : Client)
    → is_full c.out_packets ≡ false
    → push_out_packet packet c ≡ some (queued packet c)
unfolding push_out_packet push
push_out_packet-room packet c room = rw (push_out_packet, push, room)

push_reply-room :
    (sys : System) (s : Process) (p : ℕ) (c : Client) (type : ℤ) (body : Option Bytes)
    → Live s p c
    → is_full c.out_packets ≡ false
    → push_reply sys p type body s ≡ done tt (stored p (queued (sys.print type body) c) s)
unfolding push_reply store_reply
push_reply-room sys s p c type body (here, live) room =
    let then_reply : Client → Act (Unit {0}) =
      λ c. store_reply p (push_out_packet (sys.print type body) c) in
    ap (λ r. and_then r then_reply) (load-Live s p c (here, live))
    ∙ ap (λ o. store_reply p o s) (push_out_packet-room (sys.print type body) c room)

answer-Replied :
    (sys : System) (p : ℕ) (type : ℤ) (body : Option Bytes) (reply : ℤ)
    → Replied type body reply
    → answer sys p type body ≡ push_reply sys p reply none
unfolding answer
answer-Replied sys p _ _ _ (pong body) = refl
answer-Replied sys p _ _ _ (refused body) = refl
answer-Replied sys p _ _ _ (refused_anonymous body) = refl
answer-Replied sys p _ _ _ echoed = refl

Replied-type :
    (type : ℤ) (body : Option Bytes) (reply : ℤ)
    → Replied type body reply
    → (n : ℕ) × (type ≡ pos n)
Replied-type _ _ _ (pong body) = (0, refl)
Replied-type _ _ _ (refused body) = (1, refl)
Replied-type _ _ _ (refused_anonymous body) = (2, refl)
Replied-type _ _ _ echoed = (14, refl)

Replied-is_body_shared :
    (type : ℤ) (body : Option Bytes) (reply : ℤ)
    → Replied type body reply
    → is_body_shared (event (some type) body) ≡ false
unfolding is_body_shared
Replied-is_body_shared _ _ _ (pong none) = refl
Replied-is_body_shared _ _ _ (pong (some b)) = refl
Replied-is_body_shared _ _ _ (refused none) = refl
Replied-is_body_shared _ _ _ (refused (some b)) = refl
Replied-is_body_shared _ _ _ (refused_anonymous none) = refl
Replied-is_body_shared _ _ _ (refused_anonymous (some b)) = refl
Replied-is_body_shared _ _ _ echoed = refl

handle_document-Replied :
    (sys : System) (s : Process) (p : ℕ) (c : Client) (type : ℤ) (body : Option Bytes) (reply : ℤ)
    → Replied type body reply
    → Live s p c
    → is_full c.out_packets ≡ false
    → sys.epoll_ctl s.calls (update_events c.sock true p) ≡ true
    → handle_document sys p (event (some type) body) s
      ≡ done tt (call (update_events c.sock true p) (stored p (queued (sys.print reply none) c) s))
unfolding handle_document control
handle_document-Replied sys s p c type body reply r (here, live) room accepted =
    let (n, e) = Replied-type type body reply r in
    let packet = sys.print reply none in
    let t : Process = stored p (queued packet c) s in
    let answered : answer sys p type body s ≡ done tt t =
      ap (λ f. f s) (answer-Replied sys p type body reply r)
      ∙ push_reply-room sys s p c reply none (here, live) room in
    ap (λ i. handle_document sys p (event (some i) body) s) e
    ∙ rw (handle_document, sym e, answered, here, ==_refl p, control, accepted)

abbrev pub taken : List Bytes → Client → Client
taken packets c = record c { in_packets = record c.in_packets { packets = packets } }

get_next_in_packet-first :
    (c : Client) (packet : Bytes) (packets : List Bytes)
    → c.in_packets.packets ≡ packet ∷ packets
    → get_next_in_packet c ≡ (packet, taken packets c)
unfolding get_next_in_packet pop
get_next_in_packet-first c packet packets e = rw (get_next_in_packet, pop, e)

-- What run does with the next packet of a live client.
run_parse-next :
    (sys : System) (s : Process) (p : ℕ) (c c' : Client) (packet : Bytes)
    → Live s p c
    → get_next_in_packet c ≡ (packet, c')
    → run_parse sys p s ≡ answer_packet sys p packet (stored p c' s)
unfolding run_parse
run_parse-next sys s p c c' packet (here, live) e =
    let with_packet : Bytes × Client → Outcome (Unit {0}) =
      λ r. answer_packet sys p r.0 (stored p r.1 s) in
    rw (run_parse, here, here, live) (ap with_packet e)

pub run_parse-Replied :
    (sys : System) (s : Process) (p : ℕ) (c : Client) (b : ℕ) (msg : Bytes) (packets : List Bytes)
    (type : ℤ) (body : Option Bytes) (reply : ℤ)
    → Live s p c
    → c.in_packets.packets ≡ (b ∷ msg) ∷ packets
    → sys.parse (b ∷ msg) ≡ event (some type) body
    → Replied type body reply
    → is_full c.out_packets ≡ false
    → sys.epoll_ctl s.calls (update_events c.sock true p) ≡ true
    → run_parse sys p s
      ≡ done tt (
          call (update_events c.sock true p) (
            stored p
              (queued (sys.print reply none) (taken packets c))
              (stored p (taken packets c) s)))
unfolding answer_packet delete_documents
run_parse-Replied sys s p c b msg packets type body reply (here, live) waiting parsed r room
      accepted =
    let c' = taken packets c in
    let t : Process = stored p c' s in
    run_parse-next sys s p c c' (b ∷ msg) (here, live)
      (get_next_in_packet-first c (b ∷ msg) packets waiting)
    ∙ rw (
      answer_packet,
      parsed,
      handle_document-Replied sys t p c' type body reply r (stored-Live s p c' here) room accepted,
      delete_documents,
      Replied-is_body_shared type body reply r,
    )
