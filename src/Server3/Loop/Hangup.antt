-- ===== src/Server3/Loop/Hangup.antt =====
-- Clients whose connection main.cpp sees end.
use as3chat.Common.{ℕ, ◌≡◌, refl, Bool, true, false, none, some, List, arith}
use as3chat.Common.Tests.{◌==◌, ==_refl}
use as3chat.Common.Int.{ℤ, pos, minus_one, ◌==ℤ◌, ◌<ℤ◌}
use as3chat.Server3.Dict.{lookup, int_key}
use as3chat.Server3.Client.{Client, make_client}
use as3chat.Server3.ClientList.{find_client_fd, keep_alive}
use as3chat.Server3.ClientList.Adding.{Live, Valid, add_client-deadlock}
use as3chat.Server3.ClientList.Removing.{deleted, delete_client-Live}
use as3chat.Server3.ClientList.Expiry.{keep_alive-crashes}
use as3chat.Server3.Process.{Process, Call, done, crash, deadlock, unregister, call, update}
use as3chat.Server3.System.{System, control}
use as3chat.Server3.Loop.{
  EpollEvent, default_max, is_main_sock, admit, accept_client, forget_client, handle_client_event,
  handle_event,
}

-- No input and no output, but something else.
abbrev pub ended : ℕ → Bool → Bool → EpollEvent
ended p is_rdhup is_err = record {
  data_word = p;
  is_in = false;
  is_out = false;
  is_rdhup = is_rdhup;
  is_err = is_err;
}

handle_client_event-ended :
    (sys : System) (p : ℕ) (is_rdhup is_err : Bool)
    → (p == 0) ≡ false
    → handle_client_event sys (ended p is_rdhup is_err) ≡ forget_client sys p
unfolding handle_client_event
handle_client_event-ended sys p true is_err h = rw h
handle_client_event-ended sys p false true h = rw h
handle_client_event-ended sys p false false h = refl

abbrev forgotten : ℕ → Client → Process → Process
forgotten p c s = deleted p c (call (unregister c.sock) s)

forget_client-forgotten :
    (sys : System) (s : Process) (p : ℕ) (c : Client)
    → Live s p c
    → (c.sock ==ℤ minus_one) ≡ false
    → sys.epoll_ctl s.calls (unregister c.sock) ≡ true
    → forget_client sys p s ≡ done tt (forgotten p c s)
unfolding forget_client control
forget_client-forgotten sys s p c (here, live) opened accepted =
    rw (forget_client, here, live, control, accepted)
      (delete_client-Live (call (unregister c.sock) s) p c (here, live) opened)

accept_client-deadlock :
    (sys : System) (s : Process) (fd : ℤ) (q : ℕ)
    → s.locked ≡ false
    → sys.accept s.calls ≡ fd
    → (pos 0 <ℤ fd) ≡ true
    → (sys.address s == 0) ≡ false
    → lookup fd s.clients ≡ some q
    → accept_client sys s ≡ deadlock
unfolding accept_client admit
accept_client-deadlock sys s fd q free given positive fresh listed =
    let c = make_client fd default_max sys.old_time in
    let stored : Process = record s { heap = update s.heap (sys.address s) (some c) } in
    rw (
      given,
      positive,
      add_client-deadlock stored (sys.address s) q c free (fresh, rw (==_refl (sys.address s))) refl
          listed,
    )

-- The end of a connection that is told without input, EPOLLRDHUP, EPOLLERR or another event, frees the
-- client and leaves it in the list: findClient still gives its address, the next round of keepAlive reads
-- the freed memory, and the next client to come, if the system gives its connection the same descriptor,
-- makes addClient wait for the mutex that it holds itself. Conditions: the list was sound and holds the
-- client, whose descriptor is open and unregistered without an error; the system gives this descriptor
-- again; addresses are not null, and the word of the client is not the descriptor of the main socket.
pub handle_event-dangles :
    (sys : System) (main_sock : ℤ) (other : ℕ) (now : ℤ) (s : Process) (p : ℕ) (c : Client)
    (is_rdhup is_err : Bool)
    → Valid s
    → Live s p c
    → find_client_fd c.sock s ≡ some p
    → (pos 0 <ℤ c.sock) ≡ true
    → sys.epoll_ctl s.calls (unregister c.sock) ≡ true
    → ((calls : List Call) → sys.accept calls ≡ c.sock)
    → ((t : Process) → (sys.address t == 0) ≡ false)
    → is_main_sock main_sock p ≡ false
    → is_main_sock main_sock other ≡ true
    → (t : Process) × (handle_event sys main_sock (ended p is_rdhup is_err) s ≡ done tt t)
      × (t.heap p ≡ none)
      × (find_client_fd c.sock t ≡ some p)
      × (keep_alive now t ≡ crash)
      × (handle_event sys main_sock
            (record {
              data_word = other;
              is_in = true;
              is_out = false;
              is_rdhup = false;
              is_err = false;
            })
            t
          ≡ deadlock)
unfolding handle_event find_client_fd
handle_event-dangles sys main_sock other now s p c is_rdhup is_err v (here, live) listed positive
      accepted again fresh apart is_main =
    let t : Process = forgotten p c s in
    let opened : (c.sock ==ℤ minus_one) ≡ false = ground arith in
    let gone : t.heap p ≡ none = rw (==_refl p) in
    (
      t,
      rw (apart, handle_client_event-ended sys p is_rdhup is_err here)
          (forget_client-forgotten sys s p c (here, live) opened accepted),
      gone,
      listed,
      keep_alive-crashes now t c.sock p listed gone,
      rw is_main
          (accept_client-deadlock sys t c.sock p v.free (again t.calls) positive (fresh t) listed),
    )
