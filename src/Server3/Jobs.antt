-- ===== src/Server3/Jobs.antt =====
-- The tasks of the pool of 3.0/server: RecvMessage.cpp and ParseMessage.cpp, and a turn of
-- ThreadPool::Loop.
pub mod Replies
pub mod Receiving
pub mod Keeping
use as3chat.Common.{ℕ, Bool, true, false, Option, none, some, List, [], ◌∷◌}
use as3chat.Common.Tests.{◌==◌, if◌then◌else◌}
use as3chat.Common.Int.{ℤ, pos, negsuc, ◌==ℤ◌}
use as3chat.Common.Text.{Bytes}
use as3chat.Server3.Client.{
  Client, RecvResult, thrown, returned, recv, get_next_in_packet, push_out_packet,
}
use as3chat.Server3.FifoList.{pop}
use as3chat.Server3.ClientList.{remove_client}
use as3chat.Server3.Process.{
  Process, Job, Call, Outcome, Act, done, raised, crash, receive_task, parse_task, update_events,
  unregister, read, ◌>>=◌, ◌>>◌, and_then, skip, or_catch, call, load, store, execute_async,
}
use as3chat.Server3.System.{System, Document, malformed, without_event, event, control}

-- The members of the enumeration in MessageType.h that the switch names.
abbrev pub ping : ℤ
ping = pos 0

abbrev pub auth : ℤ
auth = pos 1

abbrev pub auth_anonymous : ℤ
auth_anonymous = pos 2

abbrev pub auth_fail : ℤ
auth_fail = pos 4

abbrev pub message_public : ℤ
message_public = pos 14

-- The out queue throws where it is full.
store_reply : ℕ → Option Client → Act (Unit {0})
store_reply p none s = raised s
store_reply p (some c) s = store p c s

push_reply : System → ℕ → ℤ → Option Bytes → Act (Unit {0})
push_reply sys p type body = do c ← load p; store_reply p (push_out_packet (sys.print type body) c)

-- The switch on the type of the event.
answer : System → ℕ → ℤ → Option Bytes → Act (Unit {0})
answer sys p type body =
    if type ==ℤ ping
    then push_reply sys p ping none
    else if type ==ℤ auth
    then push_reply sys p auth_fail none
    else if type ==ℤ auth_anonymous
    then push_reply sys p auth_fail none
    else if type ==ℤ message_public
    then push_reply sys p message_public body
    else skip

-- The event is answered if its type is there and not negative, and the client is watched for output.
handle_document : System → ℕ → Document → Act (Unit {0})
handle_document sys p malformed = raised
handle_document sys p without_event = raised
handle_document sys p (event none body) = raised
handle_document sys p (event (some (negsuc _)) body) = raised
handle_document sys p (event (some (pos n)) body) = do
  answer sys p (pos n) body
  c ← load p
  control sys (update_events c.sock true p)

-- Whether the switch has put a `body` of the one document into the other, which own it both by then.
is_body_shared : Document → Bool
is_body_shared (event (some type) (some _)) = type ==ℤ message_public
is_body_shared _ = false

-- `delete myDocument; delete doc;`.
delete_documents : Document → Act (Unit {0})
delete_documents doc = if is_body_shared doc then (λ s. crash) else skip

answer_packet : System → ℕ → Bytes → Act (Unit {0})
answer_packet sys p [] = skip
answer_packet sys p (b ∷ packet) =
    let doc = sys.parse (b ∷ packet) in
    (λ s. or_catch (handle_document sys p doc s) (remove_client p)) >> delete_documents doc

-- ParseMessage::run.
pub run_parse : System → ℕ → Act (Unit {0})
run_parse sys p = if p == 0 then skip else do
  c ← load p
  let (packet, c') = get_next_in_packet c
  store p c'
  answer_packet sys p packet

-- The body of the `try` of RecvMessage::run behind `recv`.
receive : System → ℕ → RecvResult → Act (Unit {0})
receive sys p (thrown c w) s = and_then (store p c s) (λ _ t. raised (call (read c.sock w) t))
receive sys p (returned true msg c w) s =
    (store p c >> (λ t. done tt (call (read c.sock w) t)) >> execute_async (parse_task p)) s
receive sys p (returned false msg c w) s =
    (store p c
        >> (λ t. done tt (call (read c.sock w) t))
        >> control sys (unregister c.sock)
        >> remove_client p)
      s

-- RecvMessage::run. An exception of the handler ends the program.
pub run_receive : System → ℕ → Act (Unit {0})
run_receive sys p = if p == 0 then skip else do
  c ← load p
  λ s.
      or_catch (receive sys p (recv (sys.now s.calls) c (sys.wire s.calls c.sock)) s)
        (do d ← load p; control sys (unregister d.sock); remove_client p)

unfoldable pub run_job : System → Job → Act (Unit {0})
run_job sys (receive_task p) = run_receive sys p
run_job sys (parse_task p) = run_parse sys p

-- A turn of ThreadPool::Loop by a thread that is awake: it runs the first task, if there is one.
pub run_next : System → Act (Unit {0})
run_next sys s = elim (pop s.work) [
  | none ↦ done tt s
  | some (job, work) ↦ run_job sys job (record s { work = work })
]
