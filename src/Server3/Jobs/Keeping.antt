-- ===== src/Server3/Jobs/Keeping.antt =====
-- The tasks of 3.0/server keep the list of clients sound.
use as3chat.Common.{ℕ, inl, inr, true, false, Option, none, some, [], ◌∷◌}
use as3chat.Common.Tests.{◌==◌, Bool-cases, Option-cases}
use as3chat.Common.Int.{ℤ, pos, negsuc, ◌==ℤ◌}
use as3chat.Common.Text.{Bytes}
use as3chat.Server3.Client.{
  Client, RecvResult, thrown, returned, recv, get_next_in_packet, push_out_packet,
}
use as3chat.Server3.Client.Names.{
  SameResult, recv-Same, get_next_in_packet-Same, SameIfAny, push_out_packet-Same,
}
use as3chat.Server3.FifoList.{pop}
use as3chat.Server3.ClientList.{remove_client}
use as3chat.Server3.ClientList.Adding.{Live, Valid}
use as3chat.Server3.ClientList.Keeping.{
  Sound, and_then-Sound, or_catch-Sound, if-Sound, load-Sound, call-Valid, stored-Valid,
  remove_client-Sound,
}
use as3chat.Server3.Process.{
  Process, Job, receive_task, parse_task, Act, Call, crash, update_events, unregister, read, ◌>>=◌,
  ◌>>◌, load, store, skip, or_catch,
}
use as3chat.Server3.System.{System, Document, malformed, without_event, event, control}
use as3chat.Server3.Jobs.{
  ping, auth, auth_anonymous, auth_fail, message_public, store_reply, push_reply, answer,
  handle_document, delete_documents, is_body_shared, answer_packet, run_parse, receive, run_receive,
  run_job, run_next,
}

pub control-Sound : (sys : System) (c : Call) (s : Process) → Valid s → Sound (control sys c s)
unfolding control
control-Sound sys c s v = elim (Bool-cases (sys.epoll_ctl s.calls c)) [
  | inl accepted ↦ rw accepted (call-Valid c s v)
  | inr refused ↦ rw refused v
]

store_reply-Sound :
    (s : Process) (p : ℕ) (c : Client) (o : Option Client)
    → Live s p c
    → SameIfAny c o
    → Valid s
    → Sound (store_reply p o s)
unfolding store_reply
store_reply-Sound s p c none live same v = v
store_reply-Sound s p c (some d) live same v = stored-Valid s p c d live same v

push_reply-Sound :
    (sys : System) (p : ℕ) (type : ℤ) (body : Option Bytes) (s : Process)
    → Valid s
    → Sound (push_reply sys p type body s)
unfolding push_reply
push_reply-Sound sys p type body s v =
    load-Sound p (λ c. store_reply p (push_out_packet (sys.print type body) c)) s
      (λ c live.
        store_reply-Sound s p c (push_out_packet (sys.print type body) c) live
          (push_out_packet-Same (sys.print type body) c) v)

answer-Sound :
    (sys : System) (p : ℕ) (type : ℤ) (body : Option Bytes) (s : Process)
    → Valid s
    → Sound (answer sys p type body s)
unfolding answer
answer-Sound sys p type body s v = elim (Bool-cases (type ==ℤ ping)) [
  | inl is_ping ↦ rw is_ping (push_reply-Sound sys p ping none s v)
  | inr not_ping ↦ elim (Bool-cases (type ==ℤ auth)) [
    | inl is_auth ↦ rw (not_ping, is_auth) (push_reply-Sound sys p auth_fail none s v)
    | inr not_auth ↦ elim (Bool-cases (type ==ℤ auth_anonymous)) [
      | inl is_anonymous ↦
          rw (not_ping, not_auth, is_anonymous) (push_reply-Sound sys p auth_fail none s v)
      | inr named ↦ elim (Bool-cases (type ==ℤ message_public)) [
        | inl is_public ↦
            rw (not_ping, not_auth, named, is_public)
              (push_reply-Sound sys p message_public body s v)
        | inr other ↦ rw (not_ping, not_auth, named, other) v
      ]
    ]
  ]
]

handle_document-Sound :
    (sys : System) (p : ℕ) (doc : Document) (s : Process)
    → Valid s
    → Sound (handle_document sys p doc s)
unfolding handle_document
handle_document-Sound sys p malformed s v = v
handle_document-Sound sys p without_event s v = v
handle_document-Sound sys p (event none body) s v = v
handle_document-Sound sys p (event (some (negsuc n)) body) s v = v
handle_document-Sound sys p (event (some (pos n)) body) s v =
    let watch : Client → Act (Unit {0}) = λ c. control sys (update_events c.sock true p) in
    and_then-Sound (answer sys p (pos n) body s) (λ _. load p >>= watch)
      (answer-Sound sys p (pos n) body s v)
      (λ _ t v'. load-Sound p watch t (λ c _. control-Sound sys (update_events c.sock true p) t v'))

delete_documents-Sound : (doc : Document) (s : Process) → Valid s → Sound (delete_documents doc s)
unfolding delete_documents
delete_documents-Sound doc s v = if-Sound (is_body_shared doc) (λ s. crash) skip s tt v

answer_packet-Sound :
    (sys : System) (p : ℕ) (packet : Bytes) (s : Process)
    → Valid s
    → Sound (answer_packet sys p packet s)
unfolding answer_packet
answer_packet-Sound sys p [] s v = v
answer_packet-Sound sys p (b ∷ packet) s v =
    let doc = sys.parse (b ∷ packet) in
    let handled =
      or_catch-Sound (handle_document sys p doc s) (remove_client p)
        (handle_document-Sound sys p doc s v) (λ t v'. remove_client-Sound t p v') in
    and_then-Sound _ (λ _. delete_documents doc) handled (λ _ t v'. delete_documents-Sound doc t v')

run_parse-Sound : (sys : System) (p : ℕ) (s : Process) → Valid s → Sound (run_parse sys p s)
unfolding run_parse
run_parse-Sound sys p s v =
    let with_client : Client → Act (Unit {0}) =
      λ c. store p (get_next_in_packet c).1 >> answer_packet sys p (get_next_in_packet c).0 in
    if-Sound (p == 0) skip (load p >>= with_client) s v (
      load-Sound p with_client s (λ c live.
        answer_packet-Sound sys p (get_next_in_packet c).0 _
          (stored-Valid s p c (get_next_in_packet c).1 live (get_next_in_packet-Same c) v)))

receive-Sound :
    (sys : System) (p : ℕ) (c : Client) (r : RecvResult) (s : Process)
    → Live s p c
    → SameResult c r
    → Valid s
    → Sound (receive sys p r s)
unfolding receive
receive-Sound sys p c (thrown d w) s live same v =
    call-Valid (read d.sock w) _ (stored-Valid s p c d live same v)
receive-Sound sys p c (returned true msg d w) s live same v =
    let v' = call-Valid (read d.sock w) _ (stored-Valid s p c d live same v) in
    record {
      names = v'.names;
      socks = v'.socks;
      names_once = v'.names_once;
      socks_once = v'.socks_once;
      free = v'.free;
    }
receive-Sound sys p c (returned false msg d w) s live same v =
    let v' = call-Valid (read d.sock w) _ (stored-Valid s p c d live same v) in
    and_then-Sound _ (λ _. remove_client p) (control-Sound sys (unregister d.sock) _ v')
      (λ _ t u. remove_client-Sound t p u)

pub drop-Sound :
    (sys : System) (p : ℕ) (s : Process)
    → Valid s
    → Sound ((load p >>= λ d. control sys (unregister d.sock) >> remove_client p) s)
drop-Sound sys p s v =
    load-Sound p (λ d. control sys (unregister d.sock) >> remove_client p) s
      (λ d live.
        and_then-Sound _ (λ _. remove_client p) (control-Sound sys (unregister d.sock) s v)
          (λ _ t u. remove_client-Sound t p u))

run_receive-Sound : (sys : System) (p : ℕ) (s : Process) → Valid s → Sound (run_receive sys p s)
unfolding run_receive
run_receive-Sound sys p s v =
    let drop : Act (Unit {0}) =
      load p >>= λ d. control sys (unregister d.sock) >> remove_client p in
    let with_client : Client → Act (Unit {0}) =
      λ c s. or_catch (receive sys p (recv (sys.now s.calls) c (sys.wire s.calls c.sock)) s) drop in
    if-Sound (p == 0) skip (load p >>= with_client) s v (
      load-Sound p with_client s (λ c live.
        or_catch-Sound _ drop
          (receive-Sound sys p c (recv (sys.now s.calls) c (sys.wire s.calls c.sock)) s live
            (recv-Same (sys.now s.calls) c (sys.wire s.calls c.sock)) v)
          (λ t u. drop-Sound sys p t u)))

run_job-Sound : (sys : System) (job : Job) (s : Process) → Valid s → Sound (run_job sys job s)
unfolding run_job
run_job-Sound sys (receive_task p) s v = run_receive-Sound sys p s v
run_job-Sound sys (parse_task p) s v = run_parse-Sound sys p s v

pub run_next-Sound : (sys : System) (s : Process) → Valid s → Sound (run_next sys s)
unfolding run_next
run_next-Sound sys s v = elim (Option-cases (pop s.work)) [
  | inl idle ↦ rw (run_next, idle) v
  | inr ((job, work), first) ↦
      rw (run_next, first)
        (run_job-Sound sys job (record s { work = work })
          (record {
            names = v.names;
            socks = v.socks;
            names_once = v.names_once;
            socks_once = v.socks_once;
            free = v.free;
          }))
]
