-- ===== src/ThreadPool/Wakeups.antt =====
-- base/ThreadPool.cpp: which threads of a pool, and which callers of `run`, can sleep.
use cpp_practise.Base.{
  ℕ, ◌+◌, ◌≤◌, true, ◌≡◌, ◌≢◌, refl, arith, length, Bool-cases, inl, inr, List, [], ◌∷◌, ◌==◌,
}
use cpp_practise.ThreadPool.{ThreadPool, fault, take_task}
use cpp_practise.ThreadPool.Queue.{take_task_lem}
use cpp_practise.ThreadPool.Workers.{
  System, started_with, Step, enters, leaves, falls_asleep, takes_task, sleeps_on, wakes_with_task,
  ends_task, queues, blocks, queues_again, blocks_again, stops, wakes_up, unblocks, Steps, begin,
  later,
}
use cpp_practise.ThreadPool.Sound.{
  Sound, with_task_lem, with_queued_lem, asleep_lem, blocked_lem, Room-more, Awake-less,
  take_task-takes, run-queued,
}

module _ {T : Type 0} where
  step_lem : (num : ℕ) (s s' : System T) → Sound num 0 0 s → Step s s' → Sound num 0 0 s'
  step_lem num s _ h (enters n e on) = record {
    awake = h.awake;
    room = h.room;
    threads = (let k = h.threads in omega arith);
    gone = h.gone;
  }
  step_lem num s _ h (leaves n e off) = record {
    awake = h.awake;
    room = h.room;
    threads = (let k = h.threads in omega arith);
    gone = λ on. absurd (cc);
  }
  step_lem num s _ h (falls_asleep n e i) = record {
    awake = asleep_lem s.pool (s.sleeping + 1) s.woken i;
    room = h.room;
    threads = (let k = h.threads in omega arith);
    gone = h.gone;
  }
  step_lem num s _ h (takes_task {p = p} n t e i) =
      with_task_lem num (record s { seeking = n }) p (take_task-takes s.pool p t i)
        (Awake-less s.pool s.sleeping s.woken s.woken (omega arith) h.awake) h.room
        (let k = h.threads in omega arith) h.gone
  step_lem num s _ h (sleeps_on n e i) = record {
    awake = asleep_lem s.pool (s.sleeping + 1) n i;
    room = h.room;
    threads = (let k = h.threads in omega arith);
    gone = h.gone;
  }
  step_lem num s _ h (wakes_with_task {p = p} n t e i) =
      with_task_lem num (record s { woken = n }) p (take_task-takes s.pool p t i)
        (Awake-less s.pool s.sleeping s.woken n (omega arith) h.awake) h.room
        (let k = h.threads in omega arith) h.gone
  step_lem num s _ h (ends_task n e) = record {
    awake = h.awake;
    room = h.room;
    threads = (let k = h.threads in omega arith);
    gone = h.gone;
  }
  step_lem num s _ h (queues {p = p} t e) =
      with_queued_lem num s p (run-queued s.pool p t e) (record {
        awake = h.awake;
        room = Room-more num s.pool s.blocked s.signalled s.signalled (omega arith) h.room;
        threads = h.threads;
        gone = h.gone;
      })
  step_lem num s _ h (blocks t e) = record {
    awake = h.awake;
    room = blocked_lem num s.pool t s.blocked s.signalled (s.blocked + 1) s.signalled e h.room;
    threads = h.threads;
    gone = h.gone;
  }
  step_lem num s _ h (queues_again {p = p} n t e i) =
      with_queued_lem num (record s { signalled = n }) p (run-queued s.pool p t i)
        (record {
          awake = h.awake;
          room = Room-more num s.pool s.blocked s.signalled n (omega arith) h.room;
          threads = h.threads;
          gone = h.gone;
        })
  step_lem num s _ h (blocks_again n t e i) = record {
    awake = h.awake;
    room = blocked_lem num s.pool t s.blocked s.signalled (s.blocked + 1) n i h.room;
    threads = h.threads;
    gone = h.gone;
  }
  step_lem num s _ h stops = record {
    awake = record { tasks = λ one. absurd (omega arith); asleep = λ _. refl };
    room = record { size = h.room.size; bound = h.room.bound; places = h.room.places };
    threads = (let k = h.threads in omega arith);
    gone = λ on. absurd (cc);
  }
  step_lem num s _ h (wakes_up n e) = record {
    awake = record {
      tasks = λ one. (let k = h.awake.tasks (omega arith) in omega arith);
      asleep = λ off. (let k = h.awake.asleep off in absurd (omega arith));
    };
    room = h.room;
    threads = (let k = h.threads in omega arith);
    gone = h.gone;
  }
  step_lem num s _ h (unblocks n e) = record {
    awake = h.awake;
    room = record {
      size = h.room.size;
      bound = h.room.bound;
      places = λ one. (let k = h.room.places (omega arith) in omega arith);
    };
    threads = h.threads;
    gone = h.gone;
  }

  steps_lem : (num : ℕ) (s s' : System T) → Sound num 0 0 s → Steps s s' → Sound num 0 0 s'
  steps_lem num s _ h begin = h
  steps_lem num s _ h (later {s' = s1} {s'' = s2} r p) =
      step_lem num s1 s2 (steps_lem num s s1 h r) p

  pub start_lem : (num : ℕ) (s : System T) → Steps (started_with num) s → Sound num 0 0 s
  start_lem num s r =
      steps_lem num (started_with num) s
        (record {
          awake = record { tasks = λ _. omega arith; asleep = λ _. refl };
          room = record { size = refl; bound = omega arith; places = λ one. absurd (omega arith) };
          threads = omega arith;
          gone = λ _. refl;
        })
        r

  not_idle : (p : ThreadPool T) → p.is_running ≡ true → take_task p ≢ fault
  not_idle p on e = elim (take_task_lem p) [
    | inl (t, q, e', _, _, _, _) ↦ cc
    | inr (inl (_, _, e')) ↦ cc
    | inr (inr (_, off, _)) ↦ cc
  ]

  no_tasks : (ts : List T) → length ts ≤ 0 → ts ≡ []
  no_tasks [] h = refl
  no_tasks (t ∷ ts) h = absurd (omega arith)

  -- A pool of at least one thread that was started, after any interleaving of its threads, of callers of
  -- `run`, of `stop` and of wakeups without a cause, if no task throws: as long as a thread sleeps, there are
  -- at least as many threads that were woken as tasks in the queue; as long as a caller sleeps, there are at
  -- least as many callers that were woken as free places; each thread is at one place; and while the pool
  -- runs no thread reads an empty deque. So if the pool runs and all that is left to do is to sleep, no task
  -- waits, no caller sleeps, and all threads do.
  pub wakeup_lem :
      (num : ℕ) (s : System T)
      → 1 ≤ num
      → Steps (started_with num) s
      → (1 ≤ s.sleeping → length s.pool.tasks ≤ s.woken)
        × (1 ≤ s.blocked → num ≤ length s.pool.tasks + s.signalled)
        × (s.testing + s.seeking + s.sleeping + s.woken + s.busy + s.ended ≡ num)
        × (s.pool.is_running ≡ true → take_task s.pool ≢ fault)
        × (s.pool.is_running ≡ true
            → s.testing + s.seeking + s.woken + s.busy + s.signalled ≡ 0
            → (s.pool.tasks ≡ []) × (s.blocked ≡ 0) × (s.sleeping ≡ num))
  wakeup_lem num s one r =
      let h = start_lem num s r in
      let all = h.threads in
      (
        λ asleep. (let k = h.awake.tasks asleep in omega arith),
        λ blocked. (let k = h.room.places blocked in omega arith),
        all,
        λ on. not_idle s.pool on,
        λ on rest.
            (let none_ended = h.gone on in
              let few : length s.pool.tasks ≤ 0 =
                (let k = h.awake.tasks (omega arith) in omega arith) in
              (
                no_tasks s.pool.tasks few,
                elim (Bool-cases (s.blocked == 0)) [
                  | inl e ↦ ground arith
                  | inr e ↦ (let k = h.room.places (ground arith) in absurd (omega arith))
                ],
                omega arith,
              )),
      )
