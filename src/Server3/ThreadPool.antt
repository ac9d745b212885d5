-- ===== src/Server3/ThreadPool.antt =====
-- ThreadPool.h of 3.0/server: threads that take tasks from a queue and sleep on a condition variable.
pub mod Wakeups
use as3chat.Common.{ℕ, zero, suc, ◌≡◌, Bool, true, false, Option, none, some, List, [], ◌∷◌, ◌++◌}
use as3chat.Common.Tests.{if◌then◌else◌}
use as3chat.Common.Int.{ℤ, minus_one}
use as3chat.Server3.FifoList.{FifoList, new, enqueued, pop}

-- Where a thread stands in ThreadPool::Loop.
pub data Worker {ℓ} (A : Type ℓ) : Type ℓ where
  -- before the lock, at the top of the loop or behind a wait
  ready : Worker A
  -- in `cond.wait`
  asleep : Worker A
  -- in `task->run()`
  running : A → Worker A
  -- behind the loop
  gone : Worker A

-- `signals` counts the calls of `notify_one` that are still to come; `submitted` and `started` are the tasks
-- that ExecuteAsync was given and that threads have taken.
pub record ThreadPool {ℓ} (A : Type ℓ) : Type ℓ where
  pub workers : List (Worker A)
  pub work : FifoList A
  pub is_done : Bool
  pub signals : ℕ
  pub submitted : List A
  pub started : List A

module _ {ℓ} {A : Type ℓ} where
  abbrev ready_workers : ℕ → List (Worker A)
  ready_workers zero = []
  ready_workers (suc n) = ready ∷ ready_workers n

  -- The constructor, and Start.
  abbrev pub start_pool : ℕ → ThreadPool A
  start_pool n = record {
    workers = ready_workers n;
    work = new minus_one;
    is_done = false;
    signals = 0;
    submitted = [];
    started = [];
  }

  -- ExecuteAsync up to the end of its lock; `notify_one` follows.
  abbrev pub submit : A → ThreadPool A → ThreadPool A
  submit task s = record s {
    work = enqueued task s.work;
    signals = suc s.signals;
    submitted = s.submitted ++ task ∷ [];
  }

  abbrev pub take_work : ThreadPool A → Bool → Option (A × FifoList A) → Worker A × ThreadPool A
  take_work s true _ = (gone, s)
  take_work s false none = (asleep, s)
  take_work s false (some (task, work)) =
      (running task, record s { work = work; started = s.started ++ task ∷ [] })

  -- The locked part of the loop: what the thread does next.
  unfoldable pub loop_turn : ThreadPool A → Worker A × ThreadPool A
  loop_turn s = take_work s s.is_done (pop s.work)

  -- The thread between these others goes on to another place.
  abbrev pub placed : List (Worker A) → List (Worker A) → Worker A × ThreadPool A → ThreadPool A
  placed before after (w, s) = record s { workers = before ++ w ∷ after }

  -- The destructor up to its joins.
  abbrev pub destroy : ThreadPool A → ThreadPool A
  destroy s = record s { is_done = true }

  abbrev pub is_awake : Worker A → Bool
  is_awake ready = true
  is_awake (running _) = true
  is_awake _ = false

  abbrev pub any_awake : List (Worker A) → Bool
  any_awake [] = false
  any_awake (w ∷ ws) = if is_awake w then true else any_awake ws

  abbrev pub is_asleep : Worker A → Bool
  is_asleep asleep = true
  is_asleep _ = false

  abbrev pub any_asleep : List (Worker A) → Bool
  any_asleep [] = false
  any_asleep (w ∷ ws) = if is_asleep w then true else any_asleep ws

  -- One thing that the threads, or the system, may do next.
  pub data Step : ThreadPool A → ThreadPool A → Type ℓ where
    execute : (task : A) (s : ThreadPool A) → Step s (submit task s)
    notify_one :
        (s : ThreadPool A) (before after : List (Worker A)) (n : ℕ)
        → s.workers ≡ before ++ asleep ∷ after
        → s.signals ≡ suc n
        → Step s (placed before after (ready, record s { signals = n }))
    notify_nobody :
        (s : ThreadPool A) (n : ℕ)
        → any_asleep s.workers ≡ false
        → s.signals ≡ suc n
        → Step s (record s { signals = n })
    -- a wait may end without a signal
    wake_up :
        (s : ThreadPool A) (before after : List (Worker A))
        → s.workers ≡ before ++ asleep ∷ after
        → Step s (placed before after (ready, s))
    turn :
        (s : ThreadPool A) (before after : List (Worker A))
        → s.workers ≡ before ++ ready ∷ after
        → Step s (placed before after (loop_turn s))
    finish :
        (s : ThreadPool A) (before after : List (Worker A)) (task : A)
        → s.workers ≡ before ++ running task ∷ after
        → Step s (placed before after (ready, s))
    end : (s : ThreadPool A) → Step s (destroy s)

  pub data Reach (s : ThreadPool A) : ThreadPool A → Type ℓ where
    here : Reach s s
    further : (t u : ThreadPool A) → Reach s t → Step t u → Reach s u
