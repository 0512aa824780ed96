-- ===== src/ThreadPool/Ending.antt =====
-- base/ThreadPool.cpp: how the threads of a stopped pool come to their end, for which `stop` waits in `join`.
use mathlib.Core.Path.{subst}
use cpp_practise.Base.{
  ℕ, ◌+◌, ◌*◌, ◌-◌, ◌≤◌, false, ◌≡◌, ◌⊎◌, refl, sym, ap, ◌∙◌, arith, Bool-cases, inl, inr, ◌==◌,
  if_true,
}
use cpp_practise.ThreadPool.{ThreadPool, fault, take_task}
use cpp_practise.ThreadPool.Queue.{take_task_lem}
use cpp_practise.ThreadPool.Sound.{Less, take_task-idle, take_task-takes, run-queued}
use cpp_practise.ThreadPool.Wakeups.{start_lem}
use cpp_practise.ThreadPool.Workers.{
  System, started_with, notify_not_empty, notify_not_full, with_task, with_queued, Step, enters,
  leaves, falls_asleep, takes_task, sleeps_on, wakes_with_task, ends_task, queues, blocks,
  queues_again, blocks_again, stops, wakes_up, unblocks, Steps, begin, later,
}

module _ {T : Type 0} where
  -- Whether a step is one of the pool's threads.
  abbrev pub by_thread : {s s' : System T} → Step s s' → ℕ
  by_thread (enters n e on) = 1
  by_thread (leaves n e off) = 1
  by_thread (falls_asleep n e i) = 1
  by_thread (takes_task n t e i) = 1
  by_thread (sleeps_on n e i) = 1
  by_thread (wakes_with_task n t e i) = 1
  by_thread (ends_task n e) = 1
  by_thread (queues t e) = 0
  by_thread (blocks t e) = 0
  by_thread (queues_again n t e i) = 0
  by_thread (blocks_again n t e i) = 0
  by_thread stops = 0
  by_thread (wakes_up n e) = 0
  by_thread (unblocks n e) = 0

  abbrev pub thread_steps : {s s' : System T} → Steps s s' → ℕ
  thread_steps begin = 0
  thread_steps (later r p) = thread_steps r + by_thread p

  -- The number of steps that the threads of a stopped pool have before them.
  abbrev left : System T → ℕ
  left s = 3 * (s.seeking + s.woken) + 2 * s.busy + s.testing

  record Over (s : System T) : Type 0 where
    off : s.pool.is_running ≡ false
    awake : s.sleeping ≡ 0

  notify_not_full_lem :
      (s : System T) → Over s → Over (notify_not_full s) × (left (notify_not_full s) ≡ left s)
  unfolding notify_not_full
  notify_not_full_lem s o = elim (Bool-cases (s.blocked == 0)) [
    | inl e ↦ rw e (record { off = o.off; awake = o.awake }, refl)
    | inr e ↦ rw e (record { off = o.off; awake = o.awake }, refl)
  ]

  notify_not_empty_lem : (s : System T) → Over s → notify_not_empty s ≡ s
  unfolding notify_not_empty
  notify_not_empty_lem s o =
      (let k = o.awake in if_true {w = s.sleeping == 0} s _ (ground (arith, k)))

  with_task-Over :
      (s : System T) (p : ThreadPool T)
      → Less s.pool p
      → Over s
      → Over (with_task p s) × (left (with_task p s) ≡ left s + 2)
  unfolding Less
  with_task-Over s p (_, _, r) o =
      let s1 : System T = record s { pool = p; busy = s.busy + 1 } in
      let (o1, e) = notify_not_full_lem s1 (record { off = r ∙ o.off; awake = o.awake }) in
      (o1, e ∙ omega arith)

  with_queued-Over :
      (s : System T) (p : ThreadPool T)
      → Less p s.pool
      → Over s
      → Over (with_queued p s) × (left (with_queued p s) ≡ left s)
  unfolding Less
  with_queued-Over s p (_, _, r) o =
      let s1 : System T = record s { pool = p } in
      let o1 : Over s1 = record { off = sym r ∙ o.off; awake = o.awake } in
      let e = sym (notify_not_empty_lem s1 o1) in (subst Over e o1, ap left (sym e))

  step_lem : (s s' : System T) (p : Step s s') → Over s → Over s' × (by_thread p + left s' ≤ left s)
  step_lem s _ (enters n e on) o = (let k = o.off in absurd (cc))
  step_lem s _ (leaves n e off) o = (record { off = o.off; awake = o.awake }, omega arith)
  step_lem s _ (falls_asleep n e i) o =
      (let (_, on) = take_task-idle s.pool i in let k = o.off in absurd (cc))
  step_lem s _ (sleeps_on n e i) o =
      (let (_, on) = take_task-idle s.pool i in let k = o.off in absurd (cc))
  step_lem s _ (takes_task {p = p} n t e i) o =
      let (o', e') =
        with_task-Over (record s { seeking = n }) p (take_task-takes s.pool p t i)
          (record { off = o.off; awake = o.awake }) in
      (o', omega arith)
  step_lem s _ (wakes_with_task {p = p} n t e i) o =
      let (o', e') =
        with_task-Over (record s { woken = n }) p (take_task-takes s.pool p t i)
          (record { off = o.off; awake = o.awake }) in
      (o', omega arith)
  step_lem s _ (ends_task n e) o = (record { off = o.off; awake = o.awake }, omega arith)
  step_lem s _ (queues {p = p} t e) o =
      let (o', e') = with_queued-Over s p (run-queued s.pool p t e).1 o in (o', omega arith)
  step_lem s _ (blocks t e) o = (record { off = o.off; awake = o.awake }, omega arith)
  step_lem s _ (queues_again {p = p} n t e i) o =
      let (o', e') =
        with_queued-Over (record s { signalled = n }) p (run-queued s.pool p t i).1
          (record { off = o.off; awake = o.awake }) in
      (o', omega arith)
  step_lem s _ (blocks_again n t e i) o = (record { off = o.off; awake = o.awake }, omega arith)
  step_lem s _ stops o = (record { off = refl; awake = refl }, (let k = o.awake in omega arith))
  step_lem s _ (wakes_up n e) o = (let k = o.awake in absurd (omega arith))
  step_lem s _ (unblocks n e) o = (record { off = o.off; awake = o.awake }, omega arith)

  steps_lem :
      (s s' : System T) (r : Steps s s') → Over s → Over s' × (thread_steps r + left s' ≤ left s)
  steps_lem s _ begin o = (o, omega arith)
  steps_lem s _ (later {s' = s1} {s'' = s2} r p) o =
      let (o1, h1) = steps_lem s s1 r o in let (o2, h2) = step_lem s1 s2 p o1 in (o2, omega arith)

  join_steps : (s s' s'' : System T) → Steps s s' → Steps s' s'' → Steps s s''
  join_steps s s' _ r begin = r
  join_steps s s' _ r (later {s' = s1} {s'' = s2} q p) = later (join_steps s s' s1 r q) p

  -- A thread before the lock of a stopped pool has a task, or reads an empty deque.
  ready :
      (s : System T)
      → s.pool.is_running ≡ false
      → 1 ≤ s.seeking + s.woken
      → ((1 ≤ s.seeking + s.woken) × (take_task s.pool ≡ fault))
        ⊎ ((s' : System T) × (p : Step s s') × (by_thread p ≡ 1))
  ready s off some_ready = elim (take_task_lem s.pool) [
    | inl (t, p, e, _, _, _, _) ↦ elim (Bool-cases (s.seeking == 0)) [
      | inl none_seek ↦ inr (_, wakes_with_task (s.woken - 1) t (ground arith) e, refl)
      | inr seeks ↦ inr (_, takes_task (s.seeking - 1) t (ground arith) e, refl)
    ]
    | inr (inl (_, on, _)) ↦ absurd (cc)
    | inr (inr (_, _, e)) ↦ inl (some_ready, e)
  ]

  goes_on :
      (s : System T)
      → s.pool.is_running ≡ false
      → 1 ≤ s.testing + s.seeking + s.woken + s.busy
      → ((1 ≤ s.seeking + s.woken) × (take_task s.pool ≡ fault))
        ⊎ ((s' : System T) × (p : Step s s') × (by_thread p ≡ 1))
  goes_on s off some_left = elim (Bool-cases (s.testing == 0)) [
    | inr tests ↦ inr (_, leaves (s.testing - 1) (ground arith) off, refl)
    | inl none_test ↦ elim (Bool-cases (s.busy == 0)) [
      | inr works ↦ inr (_, ends_task (s.busy - 1) (ground arith), refl)
      | inl none_work ↦ ready s off (ground arith)
    ]
  ]

  -- A pool that was started and, after any run, is stopped: whatever the callers of `run` do from then on, no
  -- thread sleeps, and its threads take at most `3 * num` steps in all; and either all have ended, or one can
  -- take a step, or one stands before the lock and reads an empty deque next, which is undefined
  -- behaviour.
  pub ends_lem :
      (num : ℕ) (s s' : System T) (r : Steps s s')
      → Steps (started_with num) s
      → s.pool.is_running ≡ false
      → (s'.sleeping ≡ 0)
        × (thread_steps r ≤ 3 * num)
        × ((s'.ended ≡ num)
            ⊎ ((1 ≤ s'.seeking + s'.woken) × (take_task s'.pool ≡ fault))
            ⊎ ((s'' : System T) × (p : Step s' s'') × (by_thread p ≡ 1)))
  ends_lem num s s' r reach off =
      let h = start_lem num s reach in
      let h' = start_lem num s' (join_steps (started_with num) s s' reach r) in
      let (o, few) = steps_lem s s' r (record { off = off; awake = h.awake.asleep off }) in
      let all = h.threads in
      let all' = h'.threads in
      let awake = o.awake in
      (
        awake,
        omega arith,
        elim (Bool-cases (s'.testing + s'.seeking + s'.woken + s'.busy == 0)) [
          | inl none_left ↦ inl (ground arith)
          | inr some_left ↦ inr (goes_on s' o.off (ground arith))
        ],
      )
