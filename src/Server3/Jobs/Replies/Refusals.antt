-- ===== src/Server3/Jobs/Replies/Refusals.antt =====
-- ParseMessage::run where it throws: the client is removed.
use as3chat.Common.{
  ℕ, ◌≡◌, refl, sym, ap, ◌∙◌, true, false, Option, none, some, List, [], ◌∷◌, ◌++◌, arith,
}
use as3chat.Common.Int.{ℤ, negsuc, minus_one, ◌==ℤ◌}
use as3chat.Common.Text.{Bytes}
use as3chat.Server3.Client.{Client, push_out_packet}
use as3chat.Server3.FifoList.{FifoList, is_full, push}
use as3chat.Server3.ClientList.{find_client_fd}
use as3chat.Server3.ClientList.Adding.{Live, Valid, load-Live}
use as3chat.Server3.ClientList.Removing.{remove_client-Valid}
use as3chat.Server3.ClientList.Keeping.{stored-Valid}
use as3chat.Server3.Process.{Process, Act, done, raised, close, and_then}
use as3chat.Server3.System.{System, Document, malformed, without_event, event}
use as3chat.Server3.Jobs.{
  store_reply, push_reply, answer, handle_document, is_body_shared, delete_documents, answer_packet,
  run_parse,
}
use as3chat.Server3.Jobs.Receiving.{stored, stored-Live}
use as3chat.Server3.Jobs.Replies.{
  Replied, answer-Replied, Replied-type, Replied-is_body_shared, taken, get_next_in_packet-first,
  run_parse-next,
}

-- What cannot be answered: no XML, no element `event`, no type or a negative one, and a request of `Replied`,
-- a ping, a login or a public message without a body, whose reply finds the queue of the client full.
pub data Refused (out : FifoList Bytes) : Document → Type 0 where
  not_xml : Refused out malformed
  no_event : Refused out without_event
  no_type : (body : Option Bytes) → Refused out (event none body)
  negative : (n : ℕ) (body : Option Bytes) → Refused out (event (some (negsuc n)) body)
  full :
      (type : ℤ) (body : Option Bytes) (reply : ℤ)
      → Replied type body reply
      → is_full out ≡ true
      → Refused out (event (some type) body)

push_out_packet-full :
    (packet : Bytes) (c : Client) → is_full c.out_packets ≡ true → push_out_packet packet c ≡ none
unfolding push_out_packet push
push_out_packet-full packet c no_room = rw (push_out_packet, push, no_room)

push_reply-full :
    (sys : System) (s : Process) (p : ℕ) (c : Client) (type : ℤ) (body : Option Bytes)
    → Live s p c
    → is_full c.out_packets ≡ true
    → push_reply sys p type body s ≡ raised s
unfolding push_reply store_reply
push_reply-full sys s p c type body live no_room =
    let then_reply : Client → Act (Unit {0}) =
      λ c. store_reply p (push_out_packet (sys.print type body) c) in
    ap (λ r. and_then r then_reply) (load-Live s p c live)
    ∙ ap (λ o. store_reply p o s) (push_out_packet-full (sys.print type body) c no_room)

handle_document-Refused :
    (sys : System) (s : Process) (p : ℕ) (c : Client) (doc : Document)
    → Live s p c
    → Refused c.out_packets doc
    → handle_document sys p doc s ≡ raised s
unfolding handle_document
handle_document-Refused sys s p c _ live not_xml = refl
handle_document-Refused sys s p c _ live no_event = refl
handle_document-Refused sys s p c _ live (no_type body) = refl
handle_document-Refused sys s p c _ live (negative n body) = refl
handle_document-Refused sys s p c _ live (full type body reply r no_room) =
    let (n, e) = Replied-type type body reply r in
    let answered : answer sys p type body s ≡ raised s =
      ap (λ f. f s) (answer-Replied sys p type body reply r)
      ∙ push_reply-full sys s p c reply none live no_room in
    ap (λ i. handle_document sys p (event (some i) body) s) e
    ∙ rw (handle_document, sym e, answered)

Refused-is_body_shared :
    (out : FifoList Bytes) (doc : Document) → Refused out doc → is_body_shared doc ≡ false
unfolding is_body_shared
Refused-is_body_shared out _ not_xml = refl
Refused-is_body_shared out _ no_event = refl
Refused-is_body_shared out _ (no_type body) = refl
Refused-is_body_shared out _ (negative n none) = refl
Refused-is_body_shared out _ (negative n (some b)) = refl
Refused-is_body_shared out _ (full type body reply r no_room) =
    Replied-is_body_shared type body reply r

-- A packet that cannot be answered costs the client its connection: it is closed, freed and taken off the
-- list, which stays sound, and nothing else is asked of the system. Such a packet is no XML or has no event,
-- its type is missing or negative, or it is a ping, a login or a public message without a body, whose
-- reply finds the queue full. Conditions: the list is sound, the client is alive with an open descriptor, and the packet is its next one.
pub run_parse-Refused :
    (sys : System) (s : Process) (p : ℕ) (c : Client) (b : ℕ) (msg : Bytes) (packets : List Bytes)
    → Valid s
    → Live s p c
    → (c.sock ==ℤ minus_one) ≡ false
    → c.in_packets.packets ≡ (b ∷ msg) ∷ packets
    → Refused c.out_packets (sys.parse (b ∷ msg))
    → (t : Process) × (run_parse sys p s ≡ done tt t)
      × Valid t
      × (t.heap p ≡ none)
      × (find_client_fd c.sock t ≡ none)
      × (t.calls ≡ s.calls ++ close c.sock ∷ [])
unfolding answer_packet delete_documents
run_parse-Refused sys s p c b msg packets v (here, live) opened waiting bad =
    let c' = taken packets c in
    let u : Process = stored p c' s in
    let doc = sys.parse (b ∷ msg) in
    let (t, removed, v', gone, _, asked, found, _) =
      remove_client-Valid u p c' (stored-Valid s p c c' (here, live) (refl, refl) v)
        (stored-Live s p c' here) opened in
    (
      t,
      run_parse-next sys s p c c' (b ∷ msg) (here, live)
            (get_next_in_packet-first c (b ∷ msg) packets waiting)
          ∙ rw (
            answer_packet,
            handle_document-Refused sys u p c' doc (stored-Live s p c' here) bad,
            removed,
            delete_documents,
            Refused-is_body_shared c.out_packets doc bad,
          ),
      v',
      gone,
      found c.sock ∙ ground arith,
      asked,
    )
