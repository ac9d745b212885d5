-- ===== src/Server3/FifoList.antt =====
-- The bounded queues of 3.0/server: FifoList.h, which throws where it is full, and PacketBuffer.h, which
-- drops the packet.
pub mod Order
use as3chat.Common.{ℕ, ◌+◌, Bool, true, false, ◌&&◌, Option, none, some, List, [], ◌∷◌, ◌++◌}
use as3chat.Common.Tests.{◌==◌, if◌then◌else◌}
use as3chat.Common.Int.{ℤ, pos, ◌==ℤ◌, ◌<ℤ◌}
use as3chat.Common.Lists.{length}

-- `mPackets`, the front first, and `mMaxSize`, where a number that is not positive sets no bound.
pub record FifoList {ℓ} (A : Type ℓ) : Type ℓ where
  pub packets : List A
  pub max_size : ℤ

module _ {ℓ} {A : Type ℓ} where
  abbrev pub new : ℤ → FifoList A
  new max_size = record { packets = []; max_size = max_size }

  unfoldable pub is_full : FifoList A → Bool
  is_full f = pos 0 <ℤ f.max_size && pos (length f.packets) ==ℤ f.max_size

  abbrev pub enqueued : A → FifoList A → FifoList A
  enqueued packet f = record f { packets = f.packets ++ packet ∷ [] }

  -- `none` is the exception `out_of_range`.
  unfoldable pub push : A → FifoList A → Option (FifoList A)
  push packet f = if is_full f then none else some (enqueued packet f)

  front : FifoList A → List A → Option (A × FifoList A)
  front f [] = none
  front f (packet ∷ packets) = some (packet, record f { packets = packets })

  unfoldable pub pop : FifoList A → Option (A × FifoList A)
  unfolding front
  pop f = front f f.packets

  unfoldable pub buffer_packet : A → FifoList A → FifoList A
  buffer_packet packet f = if is_full f then f else enqueued packet f

  unfoldable pub get_next_packet : FifoList A → Option (A × FifoList A)
  unfolding front
  get_next_packet f = front f f.packets
