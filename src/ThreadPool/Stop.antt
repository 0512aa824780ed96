-- ===== src/ThreadPool/Stop.antt =====
-- base/ThreadPool.cpp: what `stop` does to the threads of a pool that sleep, and to the callers of `run`.
use cpp_practise.Base.{
  ℕ, ◌+◌, ◌≤◌, false, ◌≡◌, ◌≢◌, refl, ap, arith, length, Bool-cases, inl, inr, [],
}
use cpp_practise.ThreadPool.{ThreadPool, queued, waits, fault, stop, run, take_task}
use cpp_practise.ThreadPool.Queue.{take_task_lem, submit_lem}
use cpp_practise.ThreadPool.Sound.{run-queued}
use cpp_practise.ThreadPool.Wakeups.{start_lem}
use cpp_practise.ThreadPool.Workers.{
  System, started_with, stopped, Step, enters, leaves, falls_asleep, takes_task, sleeps_on,
  wakes_with_task, ends_task, queues, blocks, queues_again, blocks_again, stops, wakes_up, unblocks,
  Steps, begin, later,
}

module _ {T : Type 0} where
  -- All threads of a stopped pool have ended, and a caller is left behind a full queue.
  record Stuck (num : ℕ) (s : System T) : Type 0 where
    off : s.pool.is_running ≡ false
    size : s.pool.max_num ≡ num
    full : num ≤ length s.pool.tasks
    over : s.testing + s.seeking + s.sleeping + s.woken + s.busy ≡ 0
    left : 1 ≤ s.blocked + s.signalled

  no_room :
      (num : ℕ) (s : System T) (p : ThreadPool T) (t : T) → Stuck num s → run s.pool t ≢ queued p
  no_room num s p t h e =
      let (room, _) = run-queued s.pool p t e in
      let f = h.full in let z = h.size in absurd (omega arith)

  moved :
      (num : ℕ) (s : System T) (b c : ℕ)
      → Stuck num s
      → 1 ≤ b + c
      → Stuck num (record s { blocked = b; signalled = c })
  moved num s b c h left = record {
    off = h.off;
    size = h.size;
    full = h.full;
    over = h.over;
    left = left;
  }

  stuck_step : (num : ℕ) (s s' : System T) → Stuck num s → Step s s' → Stuck num s'
  stuck_step num s _ h (enters n e on) = (let k = h.over in absurd (omega arith))
  stuck_step num s _ h (leaves n e off) = (let k = h.over in absurd (omega arith))
  stuck_step num s _ h (falls_asleep n e i) = (let k = h.over in absurd (omega arith))
  stuck_step num s _ h (takes_task n t e i) = (let k = h.over in absurd (omega arith))
  stuck_step num s _ h (sleeps_on n e i) = (let k = h.over in absurd (omega arith))
  stuck_step num s _ h (wakes_with_task n t e i) = (let k = h.over in absurd (omega arith))
  stuck_step num s _ h (ends_task n e) = (let k = h.over in absurd (omega arith))
  stuck_step num s _ h (queues {p = p} t e) = absurd (no_room num s p t h e)
  stuck_step num s _ h (blocks t e) = moved num s (s.blocked + 1) s.signalled h (omega arith)
  stuck_step num s _ h (queues_again {p = p} n t e i) = absurd (no_room num s p t h i)
  stuck_step num s _ h (blocks_again n t e i) = moved num s (s.blocked + 1) n h (omega arith)
  stuck_step num s _ h stops = record {
    off = refl;
    size = h.size;
    full = h.full;
    over = (let k = h.over in omega arith);
    left = h.left;
  }
  stuck_step num s _ h (wakes_up n e) = (let k = h.over in absurd (omega arith))
  stuck_step num s _ h (unblocks n e) = moved num s n (s.signalled + 1) h (omega arith)

  stuck_steps : (num : ℕ) (s s' : System T) → Stuck num s → Steps s s' → Stuck num s'
  stuck_steps num s _ h begin = h
  stuck_steps num s _ h (later {s' = s1} {s'' = s2} r p) =
      stuck_step num s1 s2 (stuck_steps num s s1 h r) p

  stuck_waits : (num : ℕ) (s : System T) (t : T) → 1 ≤ num → Stuck num s → run s.pool t ≡ waits
  stuck_waits num s t one h = elim (submit_lem s.pool t) [
    | inl (none_at_all, _) ↦ (let z = h.size in absurd (omega arith))
    | inr (inl (_, _, e)) ↦ e
    | inr (inr (room, _)) ↦ (let z = h.size in let f = h.full in absurd (omega arith))
  ]

  -- A thread that sleeps in a pool without tasks, when `stop` is called: it is woken, and when it comes to the
  -- queue it reads the back of an empty deque.
  pub stop_idle_lem :
      (s : System T)
      → 1 ≤ s.sleeping
      → s.pool.tasks ≡ []
      → (1 ≤ (stopped s).woken) × (take_task (stopped s).pool ≡ fault)
  stop_idle_lem s asleep empty = (
    omega arith,
    elim (take_task_lem (stop s.pool)) [
      | inl (t, q, _, _, n, _, _) ↦ (let k = ap length empty in absurd (omega arith))
      | inr (inl (_, on, _)) ↦ absurd (cc)
      | inr (inr (_, _, e)) ↦ e
    ],
  )

  -- A caller of `run` that sleeps while all threads of its pool have ended, after any run of a pool of at
  -- least one thread, when no woken caller is on its way: whatever happens from then on, a caller still waits,
  -- and every call of `run` does.
  pub stuck_lem :
      (num : ℕ) (s s' : System T) (t : T)
      → 1 ≤ num
      → Steps (started_with num) s
      → s.ended ≡ num
      → 1 ≤ s.blocked
      → s.signalled ≡ 0
      → Steps s s'
      → (1 ≤ s'.blocked + s'.signalled) × (run s'.pool t ≡ waits)
  stuck_lem num s s' t one r all_ended asleep none_woken later_steps =
      let h = start_lem num s r in
      let all = h.threads in
      let places = h.room.places asleep in
      let stuck =
        stuck_steps num s s'
          (record {
            off = elim (Bool-cases s.pool.is_running) [
              | inl on ↦ (let k = h.gone on in absurd (omega arith))
              | inr off ↦ off
            ];
            size = h.room.size;
            full = omega arith;
            over = omega arith;
            left = omega arith;
          })
          later_steps in
      (stuck.left, stuck_waits num s' t one stuck)
