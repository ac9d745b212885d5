-- ===== src/Tests/Framing.antt =====
-- The packets of 3.0/server at a short message, in two reads.
use as3chat.Common.{ℕ, ◌≡◌, refl, true, some, List, [], ◌∷◌, ◌++◌, arith}
use as3chat.Common.Int.{pos}
use as3chat.Common.Text.{Bytes, has_nul}
use as3chat.Server3.FifoList.{enqueued, is_full}
use as3chat.Server3.Client.{send, recv, returned}
use as3chat.Server3.Client.Framing.{recv-send}
use as3chat.Tests.Scene3.{eve, request}

recv-send_example :
    (wire : Bytes) × (ks' : List ℕ) × (send request (pos 4) (pos 2) ≡ some (true, wire))
    × (recv (pos 100) eve (record { pending = wire ++ 9 ∷ []; sizes = 4 ∷ 1 ∷ 5 ∷ [] })
        ≡ returned true request
            (record eve {
              lastresponsetime = pos 100;
              in_packets = enqueued request eve.in_packets;
            })
            (record { pending = 9 ∷ []; sizes = ks' }))
unfolding has_nul is_full
recv-send_example =
    recv-send (pos 100) eve request (9 ∷ []) 4 (1 ∷ 5 ∷ []) refl (omega arith) (omega arith)
      (omega arith) (omega arith, (omega arith, refl)) (omega arith) refl
