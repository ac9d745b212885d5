-- ===== src/Server3/Socket.antt =====
-- Socket.cpp of 3.0/server, and how main.cpp and CrossDomain.cpp open the sockets that they listen on.
pub mod Opening
use as3chat.Common.{
  ℕ, ◌+◌, ◌-◌, ◌/◌, ◌%◌, ◌^◌, Bool, true, false, not, ◌&&◌, Option, none, some, List, [], ◌∷◌, ◌++◌,
}
use as3chat.Common.Tests.{◌==◌, if◌then◌else◌}
use as3chat.Common.Int.{ℤ, pos, negsuc, minus_one, ◌==ℤ◌, ◌<ℤ◌}
use as3chat.Common.Text.{Bytes}

-- `mSock`, and the port and the host of `mAddr`; `none` is INADDR_ANY or no host yet.
pub record Socket : Type 0 where
  pub sock : ℤ
  pub port : ℕ
  pub host : Option Bytes

-- What the system answers; the calls that return 0 or -1 say whether they succeed.
pub record Network : Type 0 where
  pub new_socket : ℤ
  pub set_reuse : ℤ → Bool
  pub bind_port : ℤ → ℕ → Bool
  pub listen_on : ℤ → ℕ → Bool
  pub accept_on : ℤ → ℤ
  -- whether `errno` is EAFNOSUPPORT behind the conversion of a host, and the address; `none` leaves the old
  -- one
  pub is_unsupported : Bytes → Bool
  pub read_address : Bytes → Option Bytes
  pub connect_to : ℤ → Option Bytes → ℕ → Bool
  -- F_GETFL, and F_SETFL
  pub get_flags : ℤ → ℤ
  pub set_flags : ℤ → ℕ → Bool

abbrev pub max_connections : ℕ
max_connections = 5

abbrev pub no_socket : Socket
no_socket = record { sock = minus_one; port = 0; host = none }

abbrev pub socket_of : ℤ → Socket
socket_of fd = record { sock = fd; port = 0; host = none }

abbrev pub is_valid : Socket → Bool
is_valid s = not (s.sock ==ℤ minus_one)

unfoldable pub create : Network → Socket → Bool × Socket
create net s =
    let t = record s { sock = net.new_socket } in
    (if is_valid t then net.set_reuse t.sock else false, t)

unfoldable pub bind : Network → ℕ → Socket → Bool × Socket
bind net port s =
    if is_valid s
    then (net.bind_port s.sock port, record s { port = port; host = none })
    else (false, s)

unfoldable pub listen : Network → Socket → Bool
listen net s = if is_valid s then net.listen_on s.sock max_connections else false

pub accept : Network → Socket → ℤ
accept net s = net.accept_on s.sock

abbrev pub address_of : Network → Bytes → Option Bytes → Option Bytes
address_of net host old = elim (net.read_address host) [ none ↦ old | some address ↦ some address ]

-- The status of the conversion of the address is not looked at.
pub connect : Network → Bytes → ℕ → Socket → Bool × Socket
connect net host port s =
    let t = record s { port = port; host = address_of net host s.host } in
    if is_valid s
    then (if net.is_unsupported host then (false, t) else (net.connect_to s.sock t.host port, t))
    else (false, s)

-- O_NONBLOCK is bit 11.
abbrev pub non_blocking : ℕ → Bool
non_blocking flags = flags / 2 ^ 11 % 2 == 1

unfoldable pub with_non_blocking : Bool → ℕ → ℕ
with_non_blocking true flags = if non_blocking flags then flags else flags + 2 ^ 11
with_non_blocking false flags = if non_blocking flags then flags - 2 ^ 11 else flags

-- The flags are set twice, and the second result counts.
unfoldable pub set_non_blocking : Network → Bool → Socket → Bool
set_non_blocking net b s = elim (net.get_flags s.sock) [
  | pos flags ↦ net.set_flags s.sock (with_non_blocking b flags)
  | negsuc _ ↦ false
]

-- The start of main and of CrossDomain::run; `none` is their early return.
unfoldable pub open_server : Network → ℕ → Option Socket
open_server net port =
    let (created, s) = create net no_socket in
    let (bound, t) = bind net port s in
    if created && bound && listen net t && set_non_blocking net true t then some t else none
