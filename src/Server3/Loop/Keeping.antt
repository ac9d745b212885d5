-- ===== src/Server3/Loop/Keeping.antt =====
-- The events of main.cpp keep the list of clients sound, but for those that only tell the end of a connection.
use as3chat.Common.{
  ℕ, ◌≡◌, refl, sym, ap, subst, ◌∙◌, ◌⊎◌, inl, inr, Bool, true, false, none, some, [], ◌∷◌,
}
use as3chat.Common.Tests.{◌==◌, ==_iff, ==_refl, if◌then◌else◌, Bool-cases, Option-cases}
use as3chat.Common.Int.{ℤ, pos, ◌<ℤ◌}
use as3chat.Common.Text.{Bytes}
use as3chat.Server3.Dict.{Dict, Key, lookup, string_key, int_key}
use as3chat.Server3.Client.{Client, make_client, send, get_next_out_packet}
use as3chat.Server3.Client.Names.{get_next_out_packet-Same}
use as3chat.Server3.ClientList.{find_client_fd}
use as3chat.Server3.ClientList.Adding.{Live, Owned, Valid, add_client-Valid, add_client-deadlock}
use as3chat.Server3.ClientList.Keeping.{
  Sound, and_then-Sound, or_catch-Sound, if-Sound, load-Sound, call-Valid, stored_at, stored-Valid,
}
use as3chat.Server3.Jobs.Keeping.{control-Sound, drop-Sound}
use as3chat.Server3.Process.{
  Process, Act, done, receive_task, update_events, register, set_non_blocking, and_then, ◌>>=◌,
  ◌>>◌, or_catch, call, load, store, skip, execute_async, delete_client,
}
use as3chat.Server3.System.{System, control}
use as3chat.Server3.Loop.{
  EpollEvent, default_max, is_main_sock, admit, accept_client, drop_client, handle_in, send_packet,
  write_next, handle_out, handle_client_event, handle_event,
}

handle_in-Sound : (sys : System) (p : ℕ) (s : Process) → Valid s → Sound (handle_in sys p s)
unfolding handle_in drop_client
handle_in-Sound sys p s v =
    let with_client : Client → Act (Unit {0}) =
      λ c. if c.sock <ℤ pos 0 then drop_client sys p else execute_async (receive_task p) in
    load-Sound p with_client s (λ c live.
      if-Sound (c.sock <ℤ pos 0) (drop_client sys p) (execute_async (receive_task p)) s
        (drop-Sound sys p s v)
        (record {
          names = v.names;
          socks = v.socks;
          names_once = v.names_once;
          socks_once = v.socks_once;
          free = v.free;
        }))

send_packet-Sound :
    (sys : System) (c : Client) (packet : Bytes) (s : Process)
    → Valid s
    → Sound (send_packet sys c packet s)
unfolding send_packet
send_packet-Sound sys c [] s v = v
send_packet-Sound sys c (b ∷ packet) s v =
    elim (Option-cases
      (send (b ∷ packet) (sys.head_written s.calls c.sock) (sys.packet_written s.calls c.sock))) [
        | inl unset ↦ rw (send_packet, unset) tt
        | inr ((ok, bytes), sent) ↦ rw (send_packet, sent) (call-Valid _ s v)
      ]

write_next-Sound : (sys : System) (p : ℕ) (s : Process) → Valid s → Sound (write_next sys p s)
unfolding write_next
write_next-Sound sys p s v =
    let with_client : Client → Act (Unit {0}) = λ c.
      store p (get_next_out_packet c).1
      >> send_packet sys c (get_next_out_packet c).0
      >> control sys (update_events c.sock false p) in
    load-Sound p with_client s (λ c live.
      and_then-Sound
        (send_packet sys c (get_next_out_packet c).0 (stored_at p (get_next_out_packet c).1 s))
        (λ _. control sys (update_events c.sock false p))
        (send_packet-Sound sys c (get_next_out_packet c).0 _
          (stored-Valid s p c (get_next_out_packet c).1 live (get_next_out_packet-Same c) v))
        (λ _ t u. control-Sound sys (update_events c.sock false p) t u))

handle_out-Sound : (sys : System) (p : ℕ) (s : Process) → Valid s → Sound (handle_out sys p s)
unfolding handle_out drop_client
handle_out-Sound sys p s v =
    let attempt : Act (Unit {0}) = λ s. or_catch (write_next sys p s) (drop_client sys p) in
    let with_client : Client → Act (Unit {0}) =
      λ c. if c.sock <ℤ pos 0 then drop_client sys p else attempt in
    load-Sound p with_client s (λ c live.
      if-Sound (c.sock <ℤ pos 0) (drop_client sys p) attempt s (drop-Sound sys p s v) (
        or_catch-Sound (write_next sys p s) (drop_client sys p) (write_next-Sound sys p s v)
          (λ t u. drop-Sound sys p t u)))

-- `new` gives an address that nobody has.
abbrev pub Fresh : System → Process → Type 0
Fresh sys s = ((sys.address s == 0) ≡ false) × (s.heap (sys.address s) ≡ none)

Owned-new {ℓ} :
    {K : Type ℓ} ⦃e : Key K⦄ (key : Client → K) (s : Process) (d : Dict K ℕ) (p : ℕ) (c : Client)
    → s.heap p ≡ none
    → Owned key s d
    → Owned key (stored_at p c s) d
Owned-new key s d p c nobody owned k q h =
    let (x, (there, found), named) = owned k q h in
    elim (Bool-cases (q == p)) [
      | inl again ↦
          let (to, _) = ==_iff q p in
          let bad : some x ≡ none = sym found ∙ ap s.heap (to again) ∙ nobody in absurd cc
      | inr apart ↦ (x, (there, rw (apart, found)), named)
    ]

new-Valid : (s : Process) (p : ℕ) (c : Client) → s.heap p ≡ none → Valid s → Valid (stored_at p c s)
new-Valid s p c nobody v = record {
  names = Owned-new (λ c. c.name) s s.name_clients p c nobody v.names;
  socks = Owned-new (λ c. c.sock) s s.clients p c nobody v.socks;
  names_once = v.names_once;
  socks_once = v.socks_once;
  free = v.free;
}

admit-Sound :
    (sys : System) (s : Process) (p : ℕ) (c : Client)
    → Live s p c
    → c.name ≡ []
    → Valid s
    → Sound (admit sys p s)
unfolding admit find_client_fd
admit-Sound sys s p c live unnamed v = elim (Option-cases (lookup c.sock s.clients)) [
  | inl unknown ↦
      let (t, listed, v', _, _) = add_client-Valid s p c v live (inl unnamed) unknown in
      let watch : Client → Act (Unit {0}) =
        λ c. (λ s. done tt (call (set_non_blocking c.sock) s)) >> control sys (register c.sock p) in
      let next : Bool → Act (Unit {0}) =
        λ is_listed. if is_listed then load p >>= watch else delete_client p in
      subst (λ r. Sound (and_then r next)) (sym listed)
        (load-Sound p watch t (λ d _.
          control-Sound sys (register d.sock p) _ (call-Valid (set_non_blocking d.sock) t v')))
  | inr (q, taken) ↦ rw (add_client-deadlock s p q c v.free live unnamed taken) tt
]

accept_client-Sound :
    (sys : System) (s : Process) → Fresh sys s → Valid s → Sound (accept_client sys s)
unfolding accept_client
accept_client-Sound sys s (here, nobody) v =
    let p = sys.address s in
    let c : Client = make_client (sys.accept s.calls) default_max sys.old_time in
    elim (Bool-cases (pos 0 <ℤ sys.accept s.calls)) [
      | inl came ↦ rw came (
          admit-Sound sys (stored_at p c s) p c (here, rw (==_refl p)) refl
            (new-Valid s p c nobody v))
      | inr failed ↦ rw failed v
    ]

-- An event for input or output, which those of the main socket are.
abbrev pub IsTraffic : EpollEvent → Type 0
IsTraffic ev = (ev.is_in ≡ true) ⊎ (ev.is_out ≡ true)

handle_client_event-Sound :
    (sys : System) (ev : EpollEvent)
    → IsTraffic ev
    → (s : Process) → Valid s
    → Sound (handle_client_event sys ev s)
unfolding handle_client_event
handle_client_event-Sound sys ev traffic s v =
    let p = ev.data_word in
    elim (Bool-cases ev.is_in) [
      | inl input ↦
          rw input (if-Sound (p == 0) skip (handle_in sys p) s v (handle_in-Sound sys p s v))
      | inr no_input ↦ elim (Bool-cases ev.is_out) [
        | inl output ↦
            rw (no_input, output)
              (if-Sound (p == 0) skip (handle_out sys p) s v (handle_out-Sound sys p s v))
        | inr no_output ↦ elim traffic [ inl i ↦ absurd cc | inr o ↦ absurd cc ]
      ]
    ]

pub handle_event-Sound :
    (sys : System) (main_sock : ℤ) (ev : EpollEvent)
    → IsTraffic ev
    → (s : Process) → Fresh sys s
    → Valid s
    → Sound (handle_event sys main_sock ev s)
unfolding handle_event
handle_event-Sound sys main_sock ev traffic s fresh v =
    if-Sound (is_main_sock main_sock ev.data_word) (accept_client sys) (handle_client_event sys ev)
      s (accept_client-Sound sys s fresh v) (handle_client_event-Sound sys ev traffic s v)
