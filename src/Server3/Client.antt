-- ===== src/Server3/Client.antt =====
-- Client.cpp of 3.0/server: packets on a socket, each behind its length in four bytes.
pub mod Framing
pub mod Heads
pub mod Names
use as3chat.Common.{
  ℕ, suc, ◌+◌, ◌-◌, ◌*◌, ◌/◌, ◌%◌, ◌^◌, Bool, true, false, ◌&&◌, not, Option, none, some, List, [],
  ◌∷◌, ◌++◌,
}
use as3chat.Common.Tests.{ltb, leb, ◌==◌, if◌then◌else◌}
use as3chat.Common.Int.{ℤ, pos, negsuc, pos_part, ◌==ℤ◌, ◌<ℤ◌}
use as3chat.Common.Lists.{length, take, drop}
use as3chat.Common.Text.{Bytes, c_string, has_nul}
use as3chat.Server3.Groups.{Groups, empty, add_buddy, remove_buddy, is_buddy, get_buddies}
use as3chat.Server3.FifoList.{FifoList, new, push, pop}

pub record Client : Type 0 where
  pub sock : ℤ
  pub name : Bytes
  pub lastresponsetime : ℤ
  pub buddy_list : Groups
  pub in_packets : FifoList Bytes
  pub out_packets : FifoList Bytes

abbrev pub max_recv : ℕ
max_recv = 500

-- `lastresponsetime` is not set; it is what stood in the memory.
abbrev pub make_client : ℤ → ℤ → ℤ → Client
make_client sock max_size old_time = record {
  sock = sock;
  name = [];
  lastresponsetime = old_time;
  buddy_list = empty;
  in_packets = new max_size;
  out_packets = new max_size;
}

-- `htonl`, and the four bytes of `MsgHead`.
unfoldable pub head_of : ℕ → Bytes
head_of n = (n / 2 ^ 24 % 256) ∷ (n / 2 ^ 16 % 256) ∷ (n / 2 ^ 8 % 256) ∷ (n % 256) ∷ []

-- `ntohl`, as an `int`; `none` where there are not four bytes.
unfoldable pub length_of : Bytes → Option ℤ
length_of (a ∷ b ∷ c ∷ d ∷ []) =
    let n = ((a * 256 + b) * 256 + c) * 256 + d in
    some (if ltb n (2 ^ 31) then pos n else negsuc (2 ^ 32 - n - 1))
length_of _ = none

-- What is on its way to the program, and how much each `read` from now on gives at most.
pub record Wire : Type 0 where
  pub pending : Bytes
  pub sizes : List ℕ

-- What `read` for `n` bytes gives; nothing where it returns 0 or -1.
abbrev pub granted : ℕ → ℕ → ℕ
granted k n = if leb k n then k else n

unfoldable pub read_sizes : ℕ → Bytes → List ℕ → Bytes × Wire
read_sizes n pending [] = ([], record { pending = pending; sizes = [] })
read_sizes n pending (k ∷ ks) =
    (take (granted k n) pending, record { pending = drop (granted k n) pending; sizes = ks })

-- `Client::send`, where the two calls of `write` return `first` and `second`: the result, and the bytes
-- that went out. A packet with a NUL is copied up to there, and the rest of the copy is whatever was
-- there before: `none`.
unfoldable pub send : Bytes → ℤ → ℤ → Option (Bool × Bytes)
send msg first second =
    if first ==ℤ pos 4
    then (if has_nul msg
        then none
        else some (pos 0 <ℤ second, head_of (length msg) ++ take (pos_part second) msg))
    else some (false, take (pos_part first) (head_of (length msg)))

-- The loop of `Client::recv`: `n` is `notreadlen`, and the result what is left of it, the message and the
-- wire. A chunk is appended up to its first NUL.
unfoldable pub recv_loop : List ℕ → Bytes → ℕ → Bytes → ℕ × Bytes × Wire
recv_loop [] pending n msg = (n, msg, record { pending = pending; sizes = [] })
recv_loop (k ∷ ks) pending n msg =
    let j = granted k (if ltb max_recv n then max_recv else n) in
    let chunk = take j pending in
    let rest = recv_loop ks (drop j pending) (n - length chunk) (msg ++ c_string chunk) in
    if n == 0
    then (0, msg, record { pending = pending; sizes = k ∷ ks })
    else if length chunk == 0
    then (n, msg, record { pending = pending; sizes = ks })
    else rest

pub data RecvResult : Type 0 where
  -- `out_of_range` of the full queue
  thrown : Client → Wire → RecvResult
  -- the result, and the message
  returned : Bool → Bytes → Client → Wire → RecvResult

unfoldable pub recv_packet : Client → ℕ × Bytes × Wire → RecvResult
recv_packet c (left, msg, w) = elim (push msg c.in_packets) [
  | none ↦ thrown c w
  | some packets ↦ returned (left == 0) msg (record c { in_packets = packets }) w
]

-- A negative length becomes a huge `unsigned long`, more than the address space holds. Linux refuses such a
-- `read` of a socket with -1 and takes nothing from it, so the loop ends with bytes still to come.
unfoldable pub recv_body : Client → Wire → ℤ → RecvResult
recv_body c w (negsuc n) = recv_packet c (suc n, [], w)
recv_body c w (pos n) = recv_packet c (recv_loop w.sizes w.pending n [])

unfoldable pub recv_headed : ℤ → Client → Bytes × Wire → RecvResult
recv_headed now c (head, w) = elim (length_of head) [
  | none ↦ returned false [] c w
  | some n ↦ recv_body (record c { lastresponsetime = now }) w n
]

pub recv : ℤ → Client → Wire → RecvResult
recv now c w = recv_headed now c (read_sizes 4 w.pending w.sizes)

-- The empty packet stands for an empty queue.
unfoldable pub get_next_in_packet : Client → Bytes × Client
get_next_in_packet c = elim (pop c.in_packets) [
  | none ↦ ([], c)
  | some (packet, packets) ↦ (packet, record c { in_packets = packets })
]

unfoldable pub get_next_out_packet : Client → Bytes × Client
get_next_out_packet c = elim (pop c.out_packets) [
  | none ↦ ([], c)
  | some (packet, packets) ↦ (packet, record c { out_packets = packets })
]

-- `none` is `out_of_range`.
unfoldable pub push_out_packet : Bytes → Client → Option Client
push_out_packet packet c = elim (push packet c.out_packets) [
  | none ↦ none
  | some packets ↦ some (record c { out_packets = packets })
]

pub add_client_buddy : Bytes → Bytes → Client → Client
add_client_buddy group buddy c = record c { buddy_list = (add_buddy group buddy c.buddy_list).0 }

pub remove_client_buddy : Bytes → Client → Client
remove_client_buddy buddy c = record c { buddy_list = (remove_buddy buddy c.buddy_list).0 }

pub is_client_buddy : Bytes → Client → Bool
is_client_buddy buddy c = is_buddy buddy c.buddy_list

-- The buddies in the group of the client's own name.
pub get_client_buddies : Client → List Bytes
get_client_buddies c = get_buddies c.name c.buddy_list
