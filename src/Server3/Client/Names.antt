-- ===== src/Server3/Client/Names.antt =====
-- What Client.cpp never changes: the name and the descriptor of a client.
use as3chat.Common.{ℕ, suc, ◌≡◌, refl, inl, inr, Option, none, some, []}
use as3chat.Common.Tests.{Option-cases}
use as3chat.Common.Int.{ℤ, pos, negsuc}
use as3chat.Common.Text.{Bytes}
use as3chat.Server3.FifoList.{push, pop}
use as3chat.Server3.Client.{
  Client, Wire, RecvResult, thrown, returned, length_of, read_sizes, recv_loop, recv_packet,
  recv_body, recv_headed, recv, get_next_in_packet, get_next_out_packet, push_out_packet,
}

-- A client may change, but for its name and its descriptor.
abbrev pub Same : Client → Client → Type 0
Same c d = (c.name ≡ d.name) × (c.sock ≡ d.sock)

abbrev pub SameResult : Client → RecvResult → Type 0
SameResult c (thrown d _) = Same d c
SameResult c (returned _ _ d _) = Same d c

recv_packet-Same : (c d : Client) (r : ℕ × Bytes × Wire) → Same d c → SameResult c (recv_packet d r)
unfolding recv_packet
recv_packet-Same c d (n, msg, w) same = elim (Option-cases (push msg d.in_packets)) [
  | inl full ↦ rw (recv_packet, full) same
  | inr (f, room) ↦ rw (recv_packet, room) same
]

recv_body-Same : (c d : Client) (w : Wire) (n : ℤ) → Same d c → SameResult c (recv_body d w n)
unfolding recv_body
recv_body-Same c d w (pos n) same = recv_packet-Same c d (recv_loop w.sizes w.pending n []) same
recv_body-Same c d w (negsuc n) same = recv_packet-Same c d (suc n, [], w) same

recv_headed-Same :
    (now : ℤ) (c : Client) (head : Bytes) (w : Wire) → SameResult c (recv_headed now c (head, w))
unfolding recv_headed
recv_headed-Same now c head w = elim (Option-cases (length_of head)) [
  | inl short ↦ rw (recv_headed, short) (refl, refl)
  | inr (n, whole) ↦
      rw (recv_headed, whole)
        (recv_body-Same c (record c { lastresponsetime = now }) w n (refl, refl))
]

pub recv-Same : (now : ℤ) (c : Client) (w : Wire) → SameResult c (recv now c w)
unfolding recv
recv-Same now c w = let r = read_sizes 4 w.pending w.sizes in recv_headed-Same now c r.0 r.1

pub get_next_in_packet-Same : (c : Client) → Same (get_next_in_packet c).1 c
unfolding get_next_in_packet
get_next_in_packet-Same c = elim (Option-cases (pop c.in_packets)) [
  | inl empty ↦ rw (get_next_in_packet, empty) (refl, refl)
  | inr (r, first) ↦ rw (get_next_in_packet, first) (refl, refl)
]

pub get_next_out_packet-Same : (c : Client) → Same (get_next_out_packet c).1 c
unfolding get_next_out_packet
get_next_out_packet-Same c = elim (Option-cases (pop c.out_packets)) [
  | inl empty ↦ rw (get_next_out_packet, empty) (refl, refl)
  | inr (r, first) ↦ rw (get_next_out_packet, first) (refl, refl)
]

abbrev pub SameIfAny : Client → Option Client → Type 0
SameIfAny c none = Unit
SameIfAny c (some d) = Same d c

pub push_out_packet-Same : (packet : Bytes) (c : Client) → SameIfAny c (push_out_packet packet c)
unfolding push_out_packet
push_out_packet-Same packet c = elim (Option-cases (push packet c.out_packets)) [
  | inl full ↦ rw (push_out_packet, full) tt
  | inr (f, room) ↦ rw (push_out_packet, room) (refl, refl)
]
