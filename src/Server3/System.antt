-- ===== src/Server3/System.antt =====
-- What 3.0/server takes from the system and from TinyXML, as parameters.
use as3chat.Common.{ℕ, Bool, Option, List}
use as3chat.Common.Tests.{if◌then◌else◌}
use as3chat.Common.Int.{ℤ}
use as3chat.Common.Text.{Bytes}
use as3chat.Server3.Client.{Wire}
use as3chat.Server3.Process.{Call, Process, Act, done, raised, call}

-- `TiXmlDocument::Parse`: an error, no element `event`, or the first one with its attribute `type`, where
-- it can be read as a number, and its first `body`.
pub data Document : Type 0 where
  malformed : Document
  without_event : Document
  event : Option ℤ → Option Bytes → Document

-- Each answer may depend on what has been asked so far.
pub record System : Type 0 where
  -- whether `epoll_ctl` succeeds, or fails with ENOENT where a descriptor is unregistered
  pub epoll_ctl : List Call → Call → Bool
  -- what is under way on a descriptor
  pub wire : List Call → ℤ → Wire
  -- the results of the `write` of the head and of the `write` of the packet
  pub head_written : List Call → ℤ → ℤ
  pub packet_written : List Call → ℤ → ℤ
  pub now : List Call → ℤ
  pub accept : List Call → ℤ
  -- the address that `new Client` gives, and what stands there
  pub address : Process → ℕ
  pub old_time : ℤ
  pub parse : Bytes → Document
  -- an element `event` with this type and this child
  pub print : ℤ → Option Bytes → Bytes

-- Epoll::Register, Update and Unregister, which throw where Epoll::Ctrl fails.
unfoldable pub control : System → Call → Act (Unit {0})
control sys c s = if sys.epoll_ctl s.calls c then done tt (call c s) else raised s
