-- ===== src/Server3/Socket/Opening.antt =====
-- The sockets that main.cpp and CrossDomain.cpp listen on.
use as3chat.Common.{ℕ, ◌/◌, ◌%◌, ◌^◌, ◌≡◌, Bool, true, false, arith}
use as3chat.Server3.Socket.{non_blocking, with_non_blocking}

with_non_blocking-non_blocking :
    (b : Bool) (flags : ℕ) → non_blocking (with_non_blocking b flags) ≡ b
unfolding with_non_blocking
with_non_blocking-non_blocking true flags = ground arith
with_non_blocking-non_blocking false flags = ground arith

-- The other flags stay.
with_non_blocking-others :
    (b : Bool) (flags : ℕ)
    → (with_non_blocking b flags % 2 ^ 11 ≡ flags % 2 ^ 11)
      × (with_non_blocking b flags / 2 ^ 12 ≡ flags / 2 ^ 12)
unfolding with_non_blocking
with_non_blocking-others true flags = (ground arith, ground arith)
with_non_blocking-others false flags = (ground arith, ground arith)
