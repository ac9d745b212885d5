-- ===== src/Server3/Loop.antt =====
-- The loop of main.cpp in 3.0/server over the events of its sockets.
pub mod Hangup
pub mod Answers
pub mod RoundTrip
pub mod Keeping
pub mod Turns
use as3chat.Common.{ℕ, ◌%◌, ◌^◌, Bool, true, false, Option, none, some, List, [], ◌∷◌, ◌&&◌, not}
use as3chat.Common.Tests.{◌==◌, if◌then◌else◌}
use as3chat.Common.Int.{ℤ, pos, ◌<ℤ◌, ◌==ℤ◌}
use as3chat.Common.Text.{Bytes}
use as3chat.Server3.Client.{Client, make_client, send, get_next_out_packet}
use as3chat.Server3.ClientList.{add_client, remove_client}
use as3chat.Server3.Process.{
  Process, Job, Call, Outcome, Act, done, raised, crash, receive_task, set_non_blocking, register,
  update_events, unregister, write, ◌>>=◌, ◌>>◌, and_then, skip, or_catch, call, load, store,
  delete_client, execute_async,
}
use as3chat.Server3.System.{System, control}

-- `epoll_event`: the word of `data`, whose low half is `data.fd`, and the flags.
pub record EpollEvent : Type 0 where
  pub data_word : ℕ
  pub is_in : Bool
  pub is_out : Bool
  pub is_rdhup : Bool
  pub is_err : Bool

abbrev pub default_max : ℤ
default_max = pos 10

unfoldable pub is_main_sock : ℤ → ℕ → Bool
is_main_sock sock word = pos (word % 2 ^ 32) ==ℤ sock

-- An exception of `Register` leaves main.
unfoldable pub admit : System → ℕ → Act (Unit {0})
admit sys p = do
  is_listed ← add_client p
  if is_listed
      then (do
        c ← load p
        λ s. done tt (call (set_non_blocking c.sock) s)
        control sys (register c.sock p))
      else delete_client p

unfoldable pub accept_client : System → Act (Unit {0})
accept_client sys s =
    let fd = sys.accept s.calls in
    if pos 0 <ℤ fd
    then (store (sys.address s) (make_client fd default_max sys.old_time)
          >> admit sys (sys.address s))
        s
    else done tt s

-- `Unregister` and `removeClient`.
pub drop_client : System → ℕ → Act (Unit {0})
drop_client sys p = do c ← load p; control sys (unregister c.sock); remove_client p

-- `Unregister` and `delete`: the client stays in the list.
pub forget_client : System → ℕ → Act (Unit {0})
forget_client sys p = do c ← load p; control sys (unregister c.sock); delete_client p

pub handle_in : System → ℕ → Act (Unit {0})
handle_in sys p = do
  c ← load p
  if c.sock <ℤ pos 0 then drop_client sys p else execute_async (receive_task p)

-- `send`, whose result is logged only. A packet with a NUL goes out with bytes that nobody has set.
pub send_packet : System → Client → Bytes → Act (Unit {0})
send_packet sys c [] s = done tt s
send_packet sys c (b ∷ packet) s =
    elim (send (b ∷ packet) (sys.head_written s.calls c.sock) (sys.packet_written s.calls c.sock)) [
      | none ↦ crash
      | some (_, bytes) ↦ done tt (call (write c.sock bytes) s)
    ]

pub write_next : System → ℕ → Act (Unit {0})
write_next sys p = do
  c ← load p
  let (packet, c') = get_next_out_packet c
  store p c'
  send_packet sys c packet
  control sys (update_events c.sock false p)

pub handle_out : System → ℕ → Act (Unit {0})
handle_out sys p = do
  c ← load p
  if c.sock <ℤ pos 0
      then drop_client sys p
      else (λ s. or_catch (write_next sys p s) (drop_client sys p))

-- The last `else` compares the pointer with 0 in a way that never holds.
pub handle_client_event : System → EpollEvent → Act (Unit {0})
handle_client_event sys ev =
    let p = ev.data_word in
    if ev.is_in
    then (if p == 0 then skip else handle_in sys p)
    else if ev.is_out
    then (if p == 0 then skip else handle_out sys p)
    else if ev.is_rdhup
    then (if p == 0 then skip else forget_client sys p)
    else if ev.is_err
    then (if p == 0 then skip else forget_client sys p)
    else forget_client sys p

unfoldable pub handle_event : System → ℤ → EpollEvent → Act (Unit {0})
handle_event sys main_sock ev =
    if is_main_sock main_sock ev.data_word then accept_client sys else handle_client_event sys ev
