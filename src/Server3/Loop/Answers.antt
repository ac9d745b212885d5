-- ===== src/Server3/Loop/Answers.antt =====
-- An event for input and an event for output, at a client that is alive.
use as3chat.Common.{ℕ, ◌≡◌, ap, true, false, List, [], ◌∷◌, ◌++◌, arith}
use as3chat.Common.Int.{ℤ, pos, ◌<ℤ◌}
use as3chat.Common.Lists.{length}
use as3chat.Common.Text.{Bytes, has_nul}
use as3chat.Server3.Client.{Client, head_of, get_next_out_packet}
use as3chat.Server3.Client.Framing.{send-wire}
use as3chat.Server3.FifoList.{pop}
use as3chat.Server3.ClientList.Adding.{Live}
use as3chat.Server3.Process.{
  Process, Call, Outcome, done, receive_task, write, update_events, call, and_then,
}
use as3chat.Server3.System.{System, control}
use as3chat.Server3.Jobs.Receiving.{stored, worked}
use as3chat.Server3.Loop.{
  EpollEvent, is_main_sock, handle_in, send_packet, write_next, handle_out, handle_client_event,
  handle_event,
}

abbrev pub input : ℕ → EpollEvent
input p = record { data_word = p; is_in = true; is_out = false; is_rdhup = false; is_err = false }

abbrev pub output : ℕ → EpollEvent
output p = record { data_word = p; is_in = false; is_out = true; is_rdhup = false; is_err = false }

pub handle_event-input :
    (sys : System) (main_sock : ℤ) (s : Process) (p : ℕ) (c : Client)
    → is_main_sock main_sock p ≡ false
    → Live s p c
    → (c.sock <ℤ pos 0) ≡ false
    → handle_event sys main_sock (input p) s
      ≡ done tt (worked (s.work.packets ++ receive_task p ∷ []) s)
unfolding handle_event handle_client_event handle_in
handle_event-input sys main_sock s p c apart (here, live) opened =
    rw (apart, here, here, live, opened)

-- `mOutPackets` without its first packet.
abbrev pub sent : List Bytes → Client → Client
sent packets c = record c { out_packets = record c.out_packets { packets = packets } }

get_next_out_packet-first :
    (c : Client) (packet : Bytes) (packets : List Bytes)
    → c.out_packets.packets ≡ packet ∷ packets
    → get_next_out_packet c ≡ (packet, sent packets c)
unfolding get_next_out_packet pop
get_next_out_packet-first c packet packets e = rw (get_next_out_packet, pop, e)

send_packet-whole :
    (sys : System) (s : Process) (c : Client) (b : ℕ) (packet : Bytes)
    → has_nul (b ∷ packet) ≡ false
    → sys.head_written s.calls c.sock ≡ pos 4
    → sys.packet_written s.calls c.sock ≡ pos (length (b ∷ packet))
    → send_packet sys c (b ∷ packet) s
      ≡ done tt (call (write c.sock (head_of (length (b ∷ packet)) ++ b ∷ packet)) s)
unfolding send_packet
send_packet-whole sys s c b packet clean head body =
    rw (send_packet, head, body, send-wire (b ∷ packet) clean (omega arith))

-- What writing does with the next packet of a live client.
write_next-next :
    (sys : System) (s : Process) (p : ℕ) (c c' : Client) (packet : Bytes)
    → Live s p c
    → get_next_out_packet c ≡ (packet, c')
    → write_next sys p s
      ≡ and_then
          (send_packet sys c packet (stored p c' s))
          (λ _. control sys (update_events c.sock false p))
unfolding write_next
write_next-next sys s p c c' packet (here, live) e =
    let with_packet : Bytes × Client → Outcome (Unit {0}) = λ r.
      and_then (send_packet sys c r.0 (stored p r.1 s))
        (λ _. control sys (update_events c.sock false p)) in
    rw (write_next, here, live) (ap with_packet e)

pub handle_event-output :
    (sys : System) (main_sock : ℤ) (s : Process) (p : ℕ) (c : Client) (b : ℕ) (packet : Bytes)
    (packets : List Bytes)
    → is_main_sock main_sock p ≡ false
    → Live s p c
    → (c.sock <ℤ pos 0) ≡ false
    → c.out_packets.packets ≡ (b ∷ packet) ∷ packets
    → has_nul (b ∷ packet) ≡ false
    → sys.head_written s.calls c.sock ≡ pos 4
    → sys.packet_written s.calls c.sock ≡ pos (length (b ∷ packet))
    → ((calls : List Call) (asked : Call) → sys.epoll_ctl calls asked ≡ true)
    → handle_event sys main_sock (output p) s
      ≡ done tt (
          call (update_events c.sock false p) (
            call
              (write c.sock (head_of (length (b ∷ packet)) ++ b ∷ packet))
              (stored p (sent packets c) s)))
unfolding handle_event handle_client_event handle_out control
handle_event-output sys main_sock s p c b packet packets apart (here, live) opened waiting clean
      head body accepted =
    let t : Process = stored p (sent packets c) s in
    let u : Process = call (write c.sock (head_of (length (b ∷ packet)) ++ b ∷ packet)) t in
    rw (
      apart,
      here,
      here,
      live,
      opened,
      write_next-next sys s p c (sent packets c) (b ∷ packet) (here, live)
          (get_next_out_packet-first c (b ∷ packet) packets waiting),
      send_packet-whole sys t c b packet clean head body,
      control,
      accepted u.calls (update_events c.sock false p),
    )
