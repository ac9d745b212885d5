-- ===== src/Server3/Jobs/Receiving.antt =====
-- RecvMessage::run in the two cases of a whole packet and of an ended connection.
pub mod Negative
use as3chat.Common.{ℕ, ◌≡◌, refl, ◌∙◌, true, false, none, some, List, [], ◌∷◌, ◌++◌, arith}
use as3chat.Common.Tests.{◌==◌, ==_refl}
use as3chat.Common.Int.{minus_one, ◌==ℤ◌}
use as3chat.Common.Text.{Bytes}
use as3chat.Server3.Client.{Client, Wire, RecvResult, returned, recv}
use as3chat.Server3.Client.Heads.{recv-ended}
use as3chat.Server3.Dict.{int_key}
use as3chat.Server3.Dict.Laws.{lookup-erase}
use as3chat.Server3.FifoList.{pop}
use as3chat.Server3.ClientList.{find_client_fd, unlisted, remove_client}
use as3chat.Server3.ClientList.Adding.{Live, Valid}
use as3chat.Server3.ClientList.Removing.{deleted, remove_client-removed}
use as3chat.Server3.Process.{
  Process, Job, Call, done, crash, receive_task, parse_task, unregister, read, call, load, update,
  or_catch, ◌>>=◌, ◌>>◌,
}
use as3chat.Server3.System.{System, control}
use as3chat.Server3.Jobs.{receive, run_receive, run_job, run_next}

abbrev pub stored : ℕ → Client → Process → Process
stored p c s = record s { heap = update s.heap p (some c) }

abbrev pub worked : List Job → Process → Process
worked jobs s = record s { work = record s.work { packets = jobs } }

pub stored-Live : (s : Process) (p : ℕ) (c : Client) → (p == 0) ≡ false → Live (stored p c s) p c
stored-Live s p c here = (here, rw (==_refl p))

pub run_next-job :
    (sys : System) (s : Process) (job : Job) (jobs : List Job)
    → s.work.packets ≡ job ∷ jobs
    → run_next sys s ≡ run_job sys job (worked jobs s)
unfolding run_next pop
run_next-job sys s job jobs e = rw e

run_receive-read :
    (sys : System) (s : Process) (p : ℕ) (c : Client) (r : RecvResult)
    → Live s p c
    → recv (sys.now s.calls) c (sys.wire s.calls c.sock) ≡ r
    → run_receive sys p s
      ≡ or_catch
          (receive sys p r s)
          (do d ← load p; control sys (unregister d.sock); remove_client p)
unfolding run_receive
run_receive-read sys s p c r (here, live) e = rw (here, here, live, e)

-- A whole packet makes a task for itself.
pub run_receive-packet :
    (sys : System) (s : Process) (p : ℕ) (c c' : Client) (msg : Bytes) (w : Wire)
    → Live s p c
    → recv (sys.now s.calls) c (sys.wire s.calls c.sock) ≡ returned true msg c' w
    → run_receive sys p s
      ≡ done tt
          (worked (s.work.packets ++ parse_task p ∷ []) (call (read c'.sock w) (stored p c' s)))
unfolding receive
run_receive-packet sys s p c c' msg w live e =
    run_receive-read sys s p c (returned true msg c' w) live e

-- An ended connection ends the client.
run_receive-ended :
    (sys : System) (s : Process) (p : ℕ) (c : Client) (w : Wire)
    → s.locked ≡ false
    → Live s p c
    → (c.sock ==ℤ minus_one) ≡ false
    → recv (sys.now s.calls) c (sys.wire s.calls c.sock) ≡ returned false [] c w
    → sys.epoll_ctl (s.calls ++ read c.sock w ∷ []) (unregister c.sock) ≡ true
    → let t = call (unregister c.sock) (call (read c.sock w) (stored p c s)) in
      run_receive sys p s ≡ done tt (record (deleted p c (unlisted c t)) { locked = false })
unfolding receive control
run_receive-ended sys s p c w free (here, live) opened e accepted =
    let t = call (unregister c.sock) (call (read c.sock w) (stored p c s)) in
    run_receive-read sys s p c (returned false [] c w) (here, live) e
    ∙ rw (
      receive,
      control,
      accepted,
      remove_client-removed t p c free (stored-Live s p c here) opened,
    )

-- Two events for input before a thread takes the first make two tasks for one client. If the connection has
-- ended, the first task takes the client off the list and frees it, and the second reads the freed client.
-- Conditions: the list was sound, the client is alive and its descriptor is not -1; nothing is on the wire,
-- and the descriptor is unregistered without an error.
pub run_next_twice-crashes :
    (sys : System) (s : Process) (p : ℕ) (c : Client) (jobs : List Job)
    → s.work.packets ≡ receive_task p ∷ receive_task p ∷ jobs
    → Valid s
    → Live s p c
    → (c.sock ==ℤ minus_one) ≡ false
    → (sys.wire s.calls c.sock).pending ≡ []
    → ((calls : List Call) → sys.epoll_ctl calls (unregister c.sock) ≡ true)
    → (t : Process) × (run_next sys s ≡ done tt t)
      × (t.heap p ≡ none)
      × (find_client_fd c.sock t ≡ none)
      × (t.work.packets ≡ receive_task p ∷ jobs)
      × (run_next sys t ≡ crash)
unfolding run_job run_receive find_client_fd
run_next_twice-crashes sys s p c jobs queue v (here, live) opened ended accepted =
    let s' : Process = worked (receive_task p ∷ jobs) s in
    let (w, e) = recv-ended (sys.now s.calls) c (sys.wire s.calls c.sock) ended in
    let u : Process = call (unregister c.sock) (call (read c.sock w) (stored p c s')) in
    let t : Process = record (deleted p c (unlisted c u)) { locked = false } in
    let gone : t.heap p ≡ none = rw (==_refl p) in
    (
      t,
      run_next-job sys s (receive_task p) (receive_task p ∷ jobs) queue
          ∙ run_receive-ended sys s' p c w v.free (here, live) opened e
              (accepted (s.calls ++ read c.sock w ∷ [])),
      gone,
      lookup-erase c.sock c.sock s.clients v.socks_once ∙ ground arith,
      refl,
      run_next-job sys t (receive_task p) jobs refl ∙ rw (here, here, gone),
    )
