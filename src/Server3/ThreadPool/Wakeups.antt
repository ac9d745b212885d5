-- ===== src/Server3/ThreadPool/Wakeups.antt =====
-- No task of the pool of 3.0/server is forgotten while its threads sleep.
use as3chat.Common.{
  ℕ, zero, suc, ◌≤◌, ◌≡◌, refl, sym, ap, subst, ◌∙◌, ◌⊎◌, inl, inr, true, false, Option, none, List,
  [], ◌∷◌, ◌++◌, append_assoc, arith,
}
use as3chat.Common.Tests.{Bool-cases}
use as3chat.Server3.FifoList.{FifoList, pop}
use as3chat.Server3.FifoList.Order.{pop-cases}
use as3chat.Server3.ThreadPool.{
  Worker, ready, asleep, running, ThreadPool, start_pool, submit, take_work, loop_turn, placed,
  is_awake, any_awake, is_asleep, any_asleep, Step, execute, notify_one, notify_nobody, wake_up,
  turn, finish, end, Reach, here, further,
}

module _ {ℓ} {A : Type ℓ} where
  any_awake-middle :
      (before after : List (Worker A)) (w : Worker A)
      → is_awake w ≡ true
      → any_awake (before ++ w ∷ after) ≡ true
  any_awake-middle [] after w h = rw h
  any_awake-middle (v ∷ before) after w h = ground (arith, any_awake-middle before after w h)

  any_asleep-middle :
      (before after : List (Worker A)) (w : Worker A)
      → is_asleep w ≡ true
      → any_asleep (before ++ w ∷ after) ≡ true
  any_asleep-middle [] after w h = rw h
  any_asleep-middle (v ∷ before) after w h = ground (arith, any_asleep-middle before after w h)

  -- Some thread is on its way to the queue, or one sleeps and a signal is to come or there is no need.
  abbrev Attended : ThreadPool A → Type ℓ
  Attended s =
      (any_awake s.workers ≡ true)
      ⊎ ((any_asleep s.workers ≡ true) × ((s.work.packets ≡ []) ⊎ (1 ≤ s.signals)))

  record Kept (s : ThreadPool A) : Type ℓ where
    order : s.started ++ s.work.packets ≡ s.submitted
    attended : s.is_done ≡ false → Attended s

  Kept-execute : (task : A) (s : ThreadPool A) → Kept s → Kept (submit task s)
  Kept-execute task s k = record {
    order =
        sym (append_assoc s.started s.work.packets (task ∷ [])) ∙ ap (λ l. l ++ task ∷ []) k.order;
    attended = λ h. elim (k.attended h) [
      | inl awake ↦ inl awake
      | inr (sleeps, _) ↦ inr (sleeps, inr (omega arith))
    ];
  }

  Kept-notify_nobody :
      (s : ThreadPool A) (n : ℕ)
      → any_asleep s.workers ≡ false
      → Kept s
      → Kept (record s { signals = n })
  Kept-notify_nobody s n nobody k = record {
    order = k.order;
    attended = λ h. elim (k.attended h) [ inl awake ↦ inl awake | inr (sleeps, _) ↦ absurd cc ];
  }

  -- A thread that is ready or runs attends to the queue.
  Kept-awake :
      (s : ThreadPool A) (before after : List (Worker A)) (w : Worker A)
      → is_awake w ≡ true
      → s.started ++ s.work.packets ≡ s.submitted
      → Kept (placed before after (w, s))
  Kept-awake s before after w awake order = record {
    order = order;
    attended = λ h. inl (any_awake-middle before after w awake);
  }

  start_pool-Kept : (n : ℕ) → 1 ≤ n → Kept (start_pool n)
  start_pool-Kept zero h = absurd (omega arith)
  start_pool-Kept (suc n) h = record { order = refl; attended = λ h. inl refl }

  loop_turn-task :
      (s : ThreadPool A) (r : Option (A × FifoList A))
      → s.is_done ≡ false
      → pop s.work ≡ r
      → loop_turn s ≡ take_work s false r
  unfolding loop_turn
  loop_turn-task s r h e = ap (λ b. take_work s b (pop s.work)) h ∙ ap (take_work s false) e

  Kept-turn :
      (s : ThreadPool A) (before after : List (Worker A))
      → Kept s
      → Kept (placed before after (loop_turn s))
  unfolding loop_turn
  Kept-turn s before after k = elim (Bool-cases s.is_done) [
    | inl over ↦
        subst (λ r. Kept (placed before after r)) (sym (ap (λ b. take_work s b (pop s.work)) over))
          (record { order = k.order; attended = λ h. absurd cc })
    | inr open_ ↦ elim (pop-cases s.work) [
      | inl (empty, none_left) ↦
          subst (λ r. Kept (placed before after r)) (sym (loop_turn-task s none open_ none_left))
            (record {
              order = k.order;
              attended = λ h. inr (any_asleep-middle before after asleep refl, inl empty);
            })
      | inr (task, tasks, queue, first) ↦
          subst (λ r. Kept (placed before after r)) (sym (loop_turn-task s _ open_ first))
            (record {
              order =
                  append_assoc s.started (task ∷ []) tasks
                  ∙ ap (λ l. s.started ++ l) (sym queue)
                  ∙ k.order;
              attended = λ h. inl (any_awake-middle before after (running task) refl);
            })
    ]
  ]

  Kept-step : (s t : ThreadPool A) → Step s t → Kept s → Kept t
  Kept-step s _ (execute task _) k = Kept-execute task s k
  Kept-step s _ (notify_one _ before after n _ _) k =
      Kept-awake (record s { signals = n }) before after ready refl k.order
  Kept-step s _ (notify_nobody _ n nobody _) k = Kept-notify_nobody s n nobody k
  Kept-step s _ (wake_up _ before after _) k = Kept-awake s before after ready refl k.order
  Kept-step s _ (turn _ before after _) k = Kept-turn s before after k
  Kept-step s _ (finish _ before after task _) k = Kept-awake s before after ready refl k.order
  Kept-step s _ (end _) k = record { order = k.order; attended = λ h. absurd cc }

  Kept-reach : (s t : ThreadPool A) → Reach s t → Kept s → Kept t
  Kept-reach s _ here k = k
  Kept-reach s u (further t _ r e) k = Kept-step t u e (Kept-reach s t r k)

-- Whatever the threads of a pool do, in whatever order, and whichever of them a signal wakes: the tasks
-- start_pool in the order in which they were given, each once, and while one waits, some thread is awake, or one
-- sleeps and a signal is still to come. Conditions: the pool has a thread, a task waits, and the destructor
-- has not begun.
pub start_pool-attended {ℓ} :
    {A : Type ℓ} (n : ℕ) (s : ThreadPool A) (task : A) (tasks : List A)
    → 1 ≤ n
    → Reach (start_pool n) s
    → s.is_done ≡ false
    → s.work.packets ≡ task ∷ tasks
    → (s.started ++ task ∷ tasks ≡ s.submitted)
      × ((any_awake s.workers ≡ true) ⊎ ((any_asleep s.workers ≡ true) × (1 ≤ s.signals)))
start_pool-attended n s task tasks some_thread reached going waiting =
    let k = Kept-reach (start_pool n) s reached (start_pool-Kept n some_thread) in
    (
      ap (λ l. s.started ++ l) (sym waiting) ∙ k.order,
      elim (k.attended going) [
        | inl awake ↦ inl awake
        | inr (sleeps, inl empty) ↦ absurd cc
        | inr (sleeps, inr signal) ↦ inr (sleeps, signal)
      ],
    )
