-- ===== src/Server3/Client/Heads.antt =====
-- Client::recv at the end of the stream and behind a negative length.
use as3chat.Common.{ℕ, zero, suc, ◌+◌, ◌-◌, ◌*◌, ◌^◌, ◌≤◌, ◌≡◌, refl, false, List, [], ◌∷◌, arith}
use as3chat.Common.Tests.{ltb, suc-not_zero}
use as3chat.Common.Int.{ℤ}
use as3chat.Common.Lists.{take}
use as3chat.Common.Text.{Bytes}
use as3chat.Server3.Client.{
  Client, Wire, length_of, granted, read_sizes, returned, recv_packet, recv_body, recv_headed, recv,
}
use as3chat.Server3.FifoList.{is_full, enqueued, push}
use as3chat.Server3.Client.Framing.{granted-head}

take-nil : (n : ℕ) (bytes : Bytes) → bytes ≡ [] → take n bytes ≡ []
take-nil zero bytes e = refl
take-nil (suc n) [] e = refl
take-nil (suc n) (b ∷ bytes) e = absurd cc

read_sizes-ended :
    (n : ℕ) (pending : Bytes) (ks : List ℕ) → pending ≡ [] → (read_sizes n pending ks).0 ≡ []
unfolding read_sizes
read_sizes-ended n pending [] ended = refl
read_sizes-ended n pending (k ∷ ks) ended = take-nil (granted k n) pending ended

recv_headed-short :
    (now : ℤ) (c : Client) (head : Bytes) (w : Wire)
    → head ≡ []
    → recv_headed now c (head, w) ≡ returned false [] c w
unfolding recv_headed length_of
recv_headed-short now c [] w e = refl
recv_headed-short now c (b ∷ head) w e = absurd cc

-- Where nothing comes any more.
pub recv-ended :
    (now : ℤ) (c : Client) (w : Wire)
    → w.pending ≡ []
    → (w' : Wire) × (recv now c w ≡ returned false [] c w')
unfolding recv
recv-ended now c w ended =
    let r = read_sizes 4 w.pending w.sizes in
    (r.1, recv_headed-short now c r.0 r.1 (read_sizes-ended 4 w.pending w.sizes ended))

-- A client that has sent a negative length: an empty packet stands in its queue.
abbrev pub disappointed : ℤ → Client → Client
disappointed now c = record c { lastresponsetime = now; in_packets = enqueued [] c.in_packets }

recv_packet-unread :
    (c : Client) (n : ℕ) (w : Wire)
    → is_full c.in_packets ≡ false
    → recv_packet c (suc n, [], w)
      ≡ returned false [] (record c { in_packets = enqueued [] c.in_packets }) w
unfolding recv_packet push
recv_packet-unread c n w room = rw (recv_packet, push, room, suc-not_zero n)

recv_headed-negative :
    (now : ℤ) (c : Client) (a b d e : ℕ) (w : Wire)
    → 128 ≤ a
    → is_full c.in_packets ≡ false
    → recv_headed now c (a ∷ b ∷ d ∷ e ∷ [], w) ≡ returned false [] (disappointed now c) w
unfolding recv_headed length_of recv_body
recv_headed-negative now c a b d e w h room =
    let n = ((a * 256 + b) * 256 + d) * 256 + e in
    let large : ltb n (2 ^ 31) ≡ false = ground arith in
    rw (recv_headed, large)
      (recv_packet-unread (record c { lastresponsetime = now }) (2 ^ 32 - n - 1) w room)

-- A length whose first byte is 128 or more is negative, and nothing is read behind it.
pub recv-negative :
    (now : ℤ) (c : Client) (a b d e k : ℕ) (rest : Bytes) (ks : List ℕ)
    → 4 ≤ k
    → 128 ≤ a
    → is_full c.in_packets ≡ false
    → recv now c (record { pending = a ∷ b ∷ d ∷ e ∷ rest; sizes = k ∷ ks })
      ≡ returned false [] (disappointed now c) (record { pending = rest; sizes = ks })
unfolding recv read_sizes
recv-negative now c a b d e k rest ks hk h room =
    rw (granted-head k hk)
      (recv_headed-negative now c a b d e (record { pending = rest; sizes = ks }) h room)
