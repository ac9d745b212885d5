-- ===== src/Server3/Client/Framing.antt =====
-- What a program of Client.cpp sends, another one reads, however the stream of bytes is cut on its way.
use as3chat.Common.{
  ℕ, zero, suc, ◌+◌, ◌-◌, ◌*◌, ◌/◌, ◌%◌, ◌^◌, ◌≤◌, ◌<◌, ◌≡◌, refl, ap, ◌∙◌, true, false, some, List,
  [], ◌∷◌, ◌++◌, append_assoc, append-nil, arith,
}
use as3chat.Common.Tests.{ltb, if◌then◌else◌, suc-not_zero}
use as3chat.Common.Int.{ℤ, pos, ◌<ℤ◌}
use as3chat.Common.Lists.{
  take-length, length, take, drop, take-drop, take-append, drop-append, length-take, length-drop,
}
use as3chat.Common.Text.{Bytes, c_string, has_nul, c_string-no_nul, has_nul-take, has_nul-drop}
use as3chat.Server3.Client.{
  Client, Wire, max_recv, head_of, length_of, granted, read_sizes, send, recv_loop, returned,
  recv_packet, recv_body, recv_headed, recv,
}
use as3chat.Server3.FifoList.{is_full, enqueued, push}

-- Each `read` gives at least one byte.
abbrev pub Ready : List ℕ → Type 0
Ready [] = zero ≡ zero
Ready (k ∷ ks) = (1 ≤ k) × Ready ks

abbrev asked : ℕ → ℕ
asked n = if ltb max_recv n then max_recv else n

granted-bounds :
    (k n : ℕ) → 1 ≤ k → (1 ≤ granted k (asked (suc n))) × (granted k (asked (suc n)) ≤ suc n)
granted-bounds k n h = ground arith

recv_loop-step :
    (k : ℕ) (ks : List ℕ) (pending : Bytes) (n : ℕ) (msg chunk : Bytes)
    → take (granted k (asked (suc n))) pending ≡ chunk
    → 1 ≤ length chunk
    → recv_loop (k ∷ ks) pending (suc n) msg
      ≡ recv_loop ks
          (drop (granted k (asked (suc n))) pending)
          (suc n - length chunk)
          (msg ++ c_string chunk)
unfolding recv_loop
recv_loop-step k ks pending n msg [] e h = absurd (omega arith)
recv_loop-step k ks pending n msg (b ∷ bs) e h = rw (e, suc-not_zero n, suc-not_zero (length bs))

-- The chunk of one `read`, which lies inside the message.
recv_loop-chunk :
    (k : ℕ) (ks : List ℕ) (n : ℕ) (body rest msg : Bytes)
    → 1 ≤ k
    → has_nul body ≡ false
    → length body ≡ suc n
    → (j : ℕ) × (1 ≤ j)
      × (j ≤ length body)
      × (recv_loop (k ∷ ks) (body ++ rest) (suc n) msg
          ≡ recv_loop ks (drop j body ++ rest) (suc n - j) (msg ++ take j body))
recv_loop-chunk k ks n body rest msg hk clean e =
    let (low, high) = granted-bounds k n hk in
    let j = granted k (asked (suc n)) in
    let inside : j ≤ length body = omega (arith, high, e) in
    let chunk = take-append j body rest inside in
    let size = length-take j body inside in
    (
      j,
      low,
      inside,
      recv_loop-step k ks (body ++ rest) n msg (take j body) chunk (omega (arith, size, low))
          ∙ rw (
            drop-append j body rest inside,
            size,
            c_string-no_nul (take j body) (has_nul-take j body clean),
          ),
    )

recv_loop-rejoin :
    (j : ℕ) (ks ks' : List ℕ) (body rest msg : Bytes)
    → j ≤ length body
    → recv_loop ks (drop j body ++ rest) (length (drop j body)) (msg ++ take j body)
      ≡ (0, (msg ++ take j body) ++ drop j body, record { pending = rest; sizes = ks' })
    → recv_loop ks (drop j body ++ rest) (length body - j) (msg ++ take j body)
      ≡ (0, msg ++ body, record { pending = rest; sizes = ks' })
recv_loop-rejoin j ks ks' body rest msg h e =
    let left = length-drop j body h in
    let same : length body - j ≡ length (drop j body) = omega (arith, left) in
    rw (same, e, append_assoc msg (take j body) (drop j body), take-drop j body)

recv_loop-message :
    (ks : List ℕ) (body rest msg : Bytes)
    → Ready ks
    → has_nul body ≡ false
    → length body ≤ length ks
    → (ks' : List ℕ) × (recv_loop ks (body ++ rest) (length body) msg
        ≡ (0, msg ++ body, record { pending = rest; sizes = ks' }))
unfolding recv_loop
recv_loop-message [] [] rest msg ready clean h = ([], rw (append-nil msg))
recv_loop-message [] (b ∷ bs) rest msg ready clean h = absurd (omega arith)
recv_loop-message (k ∷ ks) [] rest msg ready clean h = (k ∷ ks, rw (append-nil msg))
recv_loop-message (k ∷ ks) (b ∷ bs) rest msg (hk, ready) clean h =
    let (j, low, high, e) = recv_loop-chunk k ks (length bs) (b ∷ bs) rest msg hk clean refl in
    let left = length-drop j (b ∷ bs) high in
    let (ks', f) =
      recv_loop-message ks (drop j (b ∷ bs)) rest (msg ++ take j (b ∷ bs)) ready
        (has_nul-drop j (b ∷ bs) clean) (omega (arith, left, low, h)) in
    (ks', e ∙ recv_loop-rejoin j ks ks' (b ∷ bs) rest msg high f)

length_of-head_of : (n : ℕ) → n < 2 ^ 31 → length_of (head_of n) ≡ some (pos n)
unfolding length_of head_of
length_of-head_of n h =
    let n' =
      ((n / 2 ^ 24 % 256 * 256 + n / 2 ^ 16 % 256) * 256 + n / 2 ^ 8 % 256) * 256 + n % 256 in
    let same : n' ≡ n = omega arith in
    let small : ltb n (2 ^ 31) ≡ true = ground arith in rw (same, small)

pub send-wire :
    (msg : Bytes)
    → has_nul msg ≡ false
    → 1 ≤ length msg
    → send msg (pos 4) (pos (length msg)) ≡ some (true, head_of (length msg) ++ msg)
unfolding send
send-wire msg clean h =
    let some_bytes : (pos 0 <ℤ pos (length msg)) ≡ true = ground arith in
    rw (clean, some_bytes, take-length msg)

pub granted-head : (k : ℕ) → 4 ≤ k → granted k 4 ≡ 4
granted-head k h = ground arith

read_sizes-head :
    (n k : ℕ) (ks : List ℕ) (rest : Bytes)
    → 4 ≤ k
    → read_sizes 4 (head_of n ++ rest) (k ∷ ks) ≡ (head_of n, record { pending = rest; sizes = ks })
unfolding read_sizes head_of
read_sizes-head n k ks rest h = rw (granted-head k h)

recv_packet-room :
    (c : Client) (msg : Bytes) (w : Wire)
    → is_full c.in_packets ≡ false
    → recv_packet c (0, msg, w)
      ≡ returned true msg (record c { in_packets = enqueued msg c.in_packets }) w
unfolding recv_packet push
recv_packet-room c msg w room = rw (recv_packet, push, room)

recv_headed-message :
    (now : ℤ) (c : Client) (msg : Bytes) (w w' : Wire)
    → length msg < 2 ^ 31
    → recv_loop w.sizes w.pending (length msg) [] ≡ (0, msg, w')
    → is_full c.in_packets ≡ false
    → recv_headed now c (head_of (length msg), w)
      ≡ returned true msg
          (record c { lastresponsetime = now; in_packets = enqueued msg c.in_packets })
          w'
unfolding recv_headed recv_body
recv_headed-message now c msg w w' small loop room =
    let c' = record c { lastresponsetime = now } in
    rw (recv_headed, length_of-head_of (length msg) small)
      (ap (recv_packet c') loop ∙ recv_packet-room c' msg w' room)

pub recv-message :
    (now : ℤ) (c : Client) (msg rest : Bytes) (k : ℕ) (ks : List ℕ)
    → has_nul msg ≡ false
    → length msg < 2 ^ 31
    → 4 ≤ k
    → Ready ks
    → length msg ≤ length ks
    → is_full c.in_packets ≡ false
    → (ks' : List ℕ) × (recv now c
          (record { pending = head_of (length msg) ++ (msg ++ rest); sizes = k ∷ ks })
        ≡ returned true msg
            (record c { lastresponsetime = now; in_packets = enqueued msg c.in_packets })
            (record { pending = rest; sizes = ks' }))
unfolding recv
recv-message now c msg rest k ks clean small hk ready enough room =
    let (ks', loop) = recv_loop-message ks msg rest [] ready clean enough in
    (
      ks',
      ap (recv_headed now c) (read_sizes-head (length msg) k ks (msg ++ rest) hk)
          ∙ recv_headed-message now c msg (record { pending = msg ++ rest; sizes = ks })
              (record { pending = rest; sizes = ks' }) small loop room,
    )

-- What Client::send puts on the wire, Client::recv of another program takes off it: the message comes out
-- as it was and joins the queue of the client, whose time is set, and what follows it on the wire stays
-- there. Conditions: the message holds no NUL, is not empty and is shorter than 2 GiB; both writes take all
-- they are given; the first read gives the four bytes of the head, and each later one gives at least a
-- byte, however few; the queue has room.
pub recv-send :
    (now : ℤ) (c : Client) (msg rest : Bytes) (k : ℕ) (ks : List ℕ)
    → has_nul msg ≡ false
    → 1 ≤ length msg
    → length msg < 2 ^ 31
    → 4 ≤ k
    → Ready ks
    → length msg ≤ length ks
    → is_full c.in_packets ≡ false
    → (wire : Bytes) × (ks' : List ℕ) × (send msg (pos 4) (pos (length msg)) ≡ some (true, wire))
      × (recv now c (record { pending = wire ++ rest; sizes = k ∷ ks })
          ≡ returned true msg
              (record c { lastresponsetime = now; in_packets = enqueued msg c.in_packets })
              (record { pending = rest; sizes = ks' }))
recv-send now c msg rest k ks clean some_bytes small hk ready enough room =
    let (ks', received) = recv-message now c msg rest k ks clean small hk ready enough room in
    (
      head_of (length msg) ++ msg,
      ks',
      send-wire msg clean some_bytes,
      ap (λ p. recv now c (record { pending = p; sizes = k ∷ ks }))
            (append_assoc (head_of (length msg)) msg rest)
          ∙ received,
    )
