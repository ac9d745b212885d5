-- ===== src/Server3/Jobs/Receiving/Negative.antt =====
-- RecvMessage::run where the head of a packet makes its length a negative `int`.
use as3chat.Common.{
  ℕ, ◌≤◌, ◌≡◌, refl, ap, ◌∙◌, true, false, none, List, [], ◌∷◌, ◌++◌, append_assoc, arith,
}
use as3chat.Common.Int.{minus_one, ◌==ℤ◌}
use as3chat.Common.Text.{Bytes}
use as3chat.Server3.Client.{Client, Wire, returned, recv}
use as3chat.Server3.Client.Heads.{disappointed, recv-negative}
use as3chat.Server3.FifoList.{is_full}
use as3chat.Server3.ClientList.{find_client_fd, remove_client}
use as3chat.Server3.ClientList.Adding.{Live, Valid}
use as3chat.Server3.ClientList.Removing.{remove_client-Valid}
use as3chat.Server3.ClientList.Keeping.{call-Valid, stored-Valid}
use as3chat.Server3.Process.{Process, Job, Call, done, receive_task, unregister, read, close, call}
use as3chat.Server3.System.{System, control}
use as3chat.Server3.Jobs.{receive, run_receive, run_job, run_next}
use as3chat.Server3.Jobs.Receiving.{stored, worked, stored-Live, run_next-job, run_receive-read}

-- The process in which the client is removed: it has been read and unregistered.
abbrev refused : Process → ℕ → Client → Wire → Process
refused s p c w = call (unregister c.sock) (call (read c.sock w) (stored p c s))

run_receive-refused :
    (sys : System) (s t : Process) (p : ℕ) (c c' : Client) (msg : Bytes) (w : Wire)
    → Live s p c
    → c'.sock ≡ c.sock
    → recv (sys.now s.calls) c (sys.wire s.calls c.sock) ≡ returned false msg c' w
    → ((calls : List Call) → sys.epoll_ctl calls (unregister c'.sock) ≡ true)
    → remove_client p (refused s p c' w) ≡ done tt t
    → run_receive sys p s ≡ done tt t
unfolding receive control
run_receive-refused sys s t p c c' msg w live same e accepted removed =
    run_receive-read sys s p c (returned false msg c' w) live e
    ∙ rw (receive, control, accepted (s.calls ++ read c'.sock w ∷ []), removed)

-- A head whose first byte is 128 or more costs the client its connection: nothing is read behind it, and
-- the client is unregistered, closed, freed and taken off the list, which stays sound. Conditions: the task that reads the client is the next one, the list is sound, the client
-- is alive with an open descriptor and with room in its queue, the first read gives the whole head, and
-- the descriptor is unregistered without an error.
pub run_next-negative :
    (sys : System) (s : Process) (p : ℕ) (c : Client) (jobs : List Job) (a b d e k : ℕ)
    (rest : Bytes) (ks : List ℕ)
    → s.work.packets ≡ receive_task p ∷ jobs
    → Valid s
    → Live s p c
    → (c.sock ==ℤ minus_one) ≡ false
    → is_full c.in_packets ≡ false
    → sys.wire s.calls c.sock ≡ record { pending = a ∷ b ∷ d ∷ e ∷ rest; sizes = k ∷ ks }
    → 4 ≤ k
    → 128 ≤ a
    → ((calls : List Call) → sys.epoll_ctl calls (unregister c.sock) ≡ true)
    → (t : Process) × (run_next sys s ≡ done tt t)
      × Valid t
      × (t.heap p ≡ none)
      × (find_client_fd c.sock t ≡ none)
      × (t.calls
          ≡ s.calls
            ++ read c.sock (record { pending = rest; sizes = ks })
              ∷ unregister c.sock
              ∷ close c.sock
              ∷ [])
unfolding run_job
run_next-negative sys s p c jobs a b d e k rest ks queue v (here, live) opened room wire hk h
      accepted =
    let s' : Process = worked jobs s in
    let c' = disappointed (sys.now s.calls) c in
    let w : Wire = record { pending = rest; sizes = ks } in
    let v' : Valid s' = record {
      names = v.names;
      socks = v.socks;
      names_once = v.names_once;
      socks_once = v.socks_once;
      free = v.free;
    } in
    let u = refused s' p c' w in
    let (t, removed, v'', gone, _, asked, found, _) =
      remove_client-Valid u p c'
        (call-Valid (unregister c.sock) _
          (call-Valid (read c.sock w) _ (stored-Valid s' p c c' (here, live) (refl, refl) v')))
        (stored-Live s' p c' here) opened in
    (
      t,
      run_next-job sys s (receive_task p) jobs queue
          ∙ run_receive-refused sys s' t p c c' [] w (here, live) refl
              (ap (recv (sys.now s.calls) c) wire
                ∙ recv-negative (sys.now s.calls) c a b d e k rest ks hk h room)
              accepted removed,
      v'',
      gone,
      found c.sock ∙ ground arith,
      asked
          ∙ append_assoc (s.calls ++ read c.sock w ∷ []) (unregister c.sock ∷ [])
              (close c.sock ∷ [])
          ∙ append_assoc s.calls (read c.sock w ∷ []) (unregister c.sock ∷ close c.sock ∷ []),
    )
