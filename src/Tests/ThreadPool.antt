-- ===== src/Tests/ThreadPool.antt =====
-- Two threads and two tasks, of which one has started.
use as3chat.Common.{ℕ, ◌≤◌, ◌≡◌, refl, ◌⊎◌, true, [], ◌∷◌, ◌++◌, arith}
use as3chat.Server3.FifoList.{pop}
use as3chat.Server3.ThreadPool.{
  ready, running, ThreadPool, start_pool, submit, loop_turn, placed, any_awake, any_asleep, execute,
  turn, Reach, here, further,
}
use as3chat.Server3.ThreadPool.Wakeups.{start_pool-attended}

abbrev two_threads : ThreadPool ℕ
two_threads = start_pool 2

abbrev two_tasks : ThreadPool ℕ
two_tasks = submit 6 (submit 5 two_threads)

abbrev one_started : ThreadPool ℕ
one_started = record two_tasks {
  workers = running 5 ∷ ready ∷ [];
  work = record two_tasks.work { packets = 6 ∷ [] };
  started = 5 ∷ [];
}

abbrev EndsIn : ThreadPool ℕ → Type 0
EndsIn s = Reach two_threads s

one_started-Reach : EndsIn (placed [] (ready ∷ []) (loop_turn two_tasks))
one_started-Reach =
    further two_tasks _
      (further (submit 5 two_threads) _ (further two_threads _ here (execute 5 two_threads))
        (execute 6 (submit 5 two_threads)))
      (turn two_tasks [] (ready ∷ []) refl)

start_pool-attended_example :
    (one_started.started ++ 6 ∷ [] ≡ one_started.submitted)
    × ((any_awake one_started.workers ≡ true) ⊎ ((any_asleep one_started.workers ≡ true) × (1 ≤ 2)))
unfolding loop_turn pop
start_pool-attended_example =
    start_pool-attended 2 one_started 6 [] (omega arith) one_started-Reach refl refl
