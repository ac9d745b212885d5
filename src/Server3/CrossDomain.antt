-- ===== src/Server3/CrossDomain.antt =====
-- CrossDomain.cpp of 3.0/server: the port that tells Flash clients which domains may connect.
pub mod Policy
use as3chat.Common.{
  ℕ, zero, suc, ◌%◌, ◌^◌, Bool, true, false, Option, none, some, List, [], ◌∷◌, ◌++◌,
}
use as3chat.Common.Tests.{ltb, ◌==◌, if◌then◌else◌}
use as3chat.Common.Int.{ℤ, pos, pos_part, minus_one, ◌==ℤ◌, ◌<ℤ◌}
use as3chat.Common.Lists.{length, take, drop}
use as3chat.Common.Text.{Bytes, lit, c_string, has_nul, str_eq_n}
use as3chat.Server3.Process.{
  Call, set_non_blocking, register, update_events, unregister, write, close,
}

-- The sockets that are alive by address, with their descriptors.
pub record PolicyServer : Type 0 where
  pub sockets : ℕ → Option ℤ
  pub calls : List Call

-- `uncaught` is an exception, which ends the program; `invalid` is the use of a null or freed pointer, or a read behind the buffer.
pub data PolicyOutcome : Type 0 where
  served : PolicyServer → PolicyOutcome
  uncaught : PolicyServer → PolicyOutcome
  invalid : PolicyOutcome

-- What the system and the file answer; a read that fails or ends gives `none`, and a write may take fewer
-- bytes than it is given, or fail.
pub record PolicySystem : Type 0 where
  pub epoll_ctl : List Call → Call → Bool
  pub accept : List Call → ℤ
  pub address : PolicyServer → ℕ
  pub incoming : List Call → ℤ → Option Bytes
  pub file : Option Bytes
  -- the result of `write` on these bytes
  pub written : List Call → ℤ → Bytes → ℤ

pub record PolicyEvent : Type 0 where
  pub data_word : ℕ
  pub is_in : Bool
  pub is_out : Bool

abbrev pub buffer_size : ℕ
buffer_size = 501

unfoldable pub policy_request : Bytes
policy_request = lit "<policy-file-request/>"

abbrev pub followed_by : PolicyOutcome → (PolicyServer → PolicyOutcome) → PolicyOutcome
followed_by (served s) k = k s
followed_by (uncaught s) k = uncaught s
followed_by invalid k = invalid

abbrev pub ask : Call → PolicyServer → PolicyServer
ask c s = record s { calls = s.calls ++ c ∷ [] }

-- Epoll::Register, Update and Unregister.
pub control_policy : PolicySystem → Call → PolicyServer → PolicyOutcome
control_policy sys c s = if sys.epoll_ctl s.calls c then served (ask c s) else uncaught s

abbrev pub set_socket : ℕ → Option ℤ → PolicyServer → PolicyServer
set_socket p fd s = record s { sockets = λ q. if q == p then fd else s.sockets q }

pub with_socket : ℕ → (ℤ → PolicyServer → PolicyOutcome) → PolicyServer → PolicyOutcome
with_socket p k s =
    if p == 0 then invalid else elim (s.sockets p) [ none ↦ invalid | some fd ↦ k fd s ]

-- `delete client`: the destructor closes the descriptor unless it is -1.
abbrev pub delete_socket : ℕ → ℤ → PolicyServer → PolicyServer
delete_socket p fd s =
    let t = set_socket p none s in if fd ==ℤ minus_one then t else ask (close fd) t

-- `Socket::send`: the bytes that the system takes go out. The program does not look at the result.
unfoldable pub send_bytes : PolicySystem → ℤ → Bytes → PolicyServer → PolicyServer
send_bytes sys fd bytes s = ask (write fd (take (pos_part (sys.written s.calls fd bytes)) bytes)) s

-- `Unregister` and `delete`.
pub drop_socket : PolicySystem → ℕ → ℤ → PolicyServer → PolicyOutcome
drop_socket sys p fd s =
    followed_by (control_policy sys (unregister fd) s) (λ t. served (delete_socket p fd t))

pub accept_socket : PolicySystem → PolicyServer → PolicyOutcome
accept_socket sys s =
    let fd = sys.accept s.calls in
    let p = sys.address s in
    if pos 0 <ℤ fd
    then control_policy sys (register fd p) (ask (set_non_blocking fd) (set_socket p (some fd) s))
    else served s

-- The read may fill the whole buffer; a text without a NUL in it runs on behind it.
pub judge_request : PolicySystem → ℕ → ℤ → Bytes → PolicyServer → PolicyOutcome
judge_request sys p fd bytes s =
    if str_eq_n (length policy_request) (c_string bytes) policy_request
    then control_policy sys (update_events fd true p) s
    else drop_socket sys p fd (send_bytes sys fd (c_string bytes) s)

pub read_request : PolicySystem → ℕ → ℤ → PolicyServer → PolicyOutcome
read_request sys p fd s = elim (sys.incoming s.calls fd) [
  | none ↦ drop_socket sys p fd s
  | some bytes ↦
      if ltb (length bytes) buffer_size
      then judge_request sys p fd bytes s
      else if has_nul (take buffer_size bytes)
      then judge_request sys p fd (take buffer_size bytes) s
      else invalid
]

-- The pieces of the file; the end shows only where a read gives fewer bytes than asked for. The number bounds
-- the reads.
pub pieces : ℕ → Bytes → List Bytes
pieces zero text = []
pieces (suc n) text =
    let rest = pieces n (drop buffer_size text) in
    if ltb (length text) buffer_size then text ∷ [] else take buffer_size text ∷ rest

pub write_all : PolicySystem → ℤ → List Bytes → PolicyServer → PolicyServer
write_all sys fd [] s = s
write_all sys fd (piece ∷ rest) s = write_all sys fd rest (send_bytes sys fd piece s)

pub write_policy : PolicySystem → ℕ → ℤ → PolicyServer → PolicyOutcome
write_policy sys p fd s = elim sys.file [
  | none ↦ drop_socket sys p fd s
  | some text ↦ drop_socket sys p fd (write_all sys fd (pieces (suc (length text)) text) s)
]

pub handle_policy_event : PolicySystem → ℤ → PolicyEvent → PolicyServer → PolicyOutcome
handle_policy_event sys main_sock ev s =
    let p = ev.data_word in
    if pos (p % 2 ^ 32) ==ℤ main_sock
    then accept_socket sys s
    else if ev.is_in
    then (if p == 0
        then served s
        else with_socket p
            (λ fd. if fd <ℤ pos 0 then drop_socket sys p fd else read_request sys p fd) s)
    else if ev.is_out
    then (if p == 0
        then served s
        else with_socket p
            (λ fd. if fd <ℤ pos 0 then drop_socket sys p fd else write_policy sys p fd) s)
    else with_socket p (drop_socket sys p) s
