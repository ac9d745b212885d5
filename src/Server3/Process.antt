-- ===== src/Server3/Process.antt =====
-- The state of a running 3.0/server, and what one of its functions does to it.
use as3chat.Common.{ℕ, Bool, true, false, Option, none, some, List, [], ◌∷◌, ◌++◌}
use as3chat.Common.Tests.{◌==◌, if◌then◌else◌}
use as3chat.Common.Int.{ℤ, minus_one, ◌==ℤ◌}
use as3chat.Common.Text.{Bytes}
use as3chat.Server3.Dict.{Dict}
use as3chat.Server3.Client.{Client, Wire}
use as3chat.Server3.FifoList.{FifoList}

-- The tasks of the pool, each with the address of its client.
pub data Job : Type 0 where
  receive_task : ℕ → Job
  parse_task : ℕ → Job

-- What the program asks of the system.
pub data Call : Type 0 where
  set_non_blocking : ℤ → Call
  -- `EPOLLIN | EPOLLET` for a descriptor
  register : ℤ → ℕ → Call
  -- the same again, with `EPOLLOUT` or without
  update_events : ℤ → Bool → ℕ → Call
  unregister : ℤ → Call
  close : ℤ → Call
  -- `Client::recv`, and what it left on the wire
  read : ℤ → Wire → Call
  write : ℤ → Bytes → Call

-- `heap` has the clients that are alive by address; `locked` is the mutex of the ClientList.
pub record Process : Type 0 where
  pub heap : ℕ → Option Client
  pub name_clients : Dict Bytes ℕ
  pub clients : Dict ℤ ℕ
  pub locked : Bool
  pub work : FifoList Job
  pub calls : List Call

-- `crash` is the use of a null or freed pointer, a second deletion, or a packet with a NUL, which goes out
-- with bytes that nobody has set; `deadlock` waits for a mutex that the thread holds itself.
pub data Outcome (A : Type 0) : Type 0 where
  done : A → Process → Outcome A
  raised : Process → Outcome A
  crash : Outcome A
  deadlock : Outcome A

abbrev pub Act : Type 0 → Type 0
Act A = Process → Outcome A

module _ {A B : Type 0} where
  abbrev pub and_then : Outcome A → (A → Act B) → Outcome B
  and_then (done a s) k = k a s
  and_then (raised s) k = raised s
  and_then crash k = crash
  and_then deadlock k = deadlock

  infixl 5 ◌>>=◌ ◌>>◌
  abbrev pub ◌>>=◌ : Act A → (A → Act B) → Act B
  m >>= k = λ s. and_then (m s) k

  abbrev pub ◌>>◌ : Act A → Act B → Act B
  m >> n = m >>= λ _. n

abbrev pub skip : Act (Unit {0})
skip = done tt

-- `catch (...)`.
abbrev pub or_catch : {A : Type 0} → Outcome A → Act A → Outcome A
or_catch (done a s) h = done a s
or_catch (raised s) h = h s
or_catch crash h = crash
or_catch deadlock h = deadlock

abbrev pub unlocked : {A : Type 0} → Outcome A → Outcome A
unlocked (done a s) = done a (record s { locked = false })
unlocked (raised s) = raised (record s { locked = false })
unlocked crash = crash
unlocked deadlock = deadlock

-- The scope of a `lock_guard` on a mutex that is not recursive.
abbrev pub guarded : {A : Type 0} → Act A → Act A
guarded m s = if s.locked then deadlock else unlocked (m (record s { locked = true }))

abbrev pub call : Call → Process → Process
call c s = record s { calls = s.calls ++ c ∷ [] }

abbrev pub update : (ℕ → Option Client) → ℕ → Option Client → ℕ → Option Client
update h p c q = if q == p then c else h q

-- `*p`.
abbrev pub load : ℕ → Act Client
load p s = if p == 0 then crash else elim (s.heap p) [ none ↦ crash | some c ↦ done c s ]

abbrev pub store : ℕ → Client → Act (Unit {0})
store p c s = done tt (record s { heap = update s.heap p (some c) })

abbrev pub freed : ℕ → Process → Process
freed p s = record s { heap = update s.heap p none }

-- Socket::~Socket, which closes the descriptor unless it is -1.
abbrev pub closed : ℤ → Process → Process
closed fd s = if fd ==ℤ minus_one then s else call (close fd) s

-- `delete client`.
unfoldable pub delete_client : ℕ → Act (Unit {0})
delete_client p = do c ← load p; λ s. done tt (closed c.sock (freed p s))

-- ThreadPool::ExecuteAsync, whose queue has no bound.
abbrev pub execute_async : Job → Act (Unit {0})
execute_async job s =
    done tt (record s { work = record s.work { packets = s.work.packets ++ job ∷ [] } })
