-- ===== src/ThreadPool/Workers.antt =====
-- base/ThreadPool.cpp: the threads of a pool that runs, the callers of `run`, and who sleeps. Threads are
-- counted by where they stand; `wait` and `notify` are what pthread_cond_wait(3) documents.
use cpp_practise.Base.{ℕ, suc, ◌+◌, ◌-◌, true, false, ◌≡◌, ◌==◌, if◌then◌else◌}
use cpp_practise.ThreadPool.{
  ThreadPool, queued, waits, idle, takes, make, start, stop, run, take_task,
}

-- The threads of the pool: at the test of `while (_isRunning)`, behind it and before the lock, asleep on
-- `_notEmpty`, woken and before the lock, in a task, or behind the loop. Callers of `run`: asleep on
-- `_notFull`, or woken and before the lock.
pub record System (T : Type 0) : Type 0 where
  pub pool : ThreadPool T
  pub testing : ℕ
  pub seeking : ℕ
  pub sleeping : ℕ
  pub woken : ℕ
  pub busy : ℕ
  pub ended : ℕ
  pub blocked : ℕ
  pub signalled : ℕ

module _ {T : Type 0} where
  -- A pool of `num` threads behind its `start`.
  abbrev pub started_with : ℕ → System T
  started_with num = record {
    pool = start (make num);
    testing = num;
    seeking = 0;
    sleeping = 0;
    woken = 0;
    busy = 0;
    ended = 0;
    blocked = 0;
    signalled = 0;
  }

  -- `_notEmpty.notify()` and `_notFull.notify()`: one that sleeps, if any, is woken.
  unfoldable pub notify_not_empty : System T → System T
  notify_not_empty s =
      if s.sleeping == 0 then s else record s { sleeping = s.sleeping - 1; woken = s.woken + 1 }

  unfoldable pub notify_not_full : System T → System T
  notify_not_full s =
      if s.blocked == 0
      then s
      else record s { blocked = s.blocked - 1; signalled = s.signalled + 1 }

  -- The end of the part of `loop` under the lock, with a task; `p` is the pool without it.
  abbrev pub with_task : ThreadPool T → System T → System T
  with_task p s = notify_not_full (record s { pool = p; busy = s.busy + 1 })

  -- The end of `run`; `p` is the pool with the task.
  abbrev pub with_queued : ThreadPool T → System T → System T
  with_queued p s = notify_not_empty (record s { pool = p })

  -- `stop` up to the joins, with `notifyAll`.
  abbrev pub stopped : System T → System T
  stopped s = record s { pool = stop s.pool; sleeping = 0; woken = s.woken + s.sleeping }

  -- One step of a thread of the pool, of a caller of `run`, or of the owner. The last two are wakeups
  -- without a cause, which pthread_cond_wait(3) allows.
  pub data Step (s : System T) : System T → Type 0 where
    enters :
        (n : ℕ)
        → s.testing ≡ suc n
        → s.pool.is_running ≡ true
        → Step s (record s { testing = n; seeking = s.seeking + 1 })
    leaves :
        (n : ℕ)
        → s.testing ≡ suc n
        → s.pool.is_running ≡ false
        → Step s (record s { testing = n; ended = s.ended + 1 })
    falls_asleep :
        (n : ℕ)
        → s.seeking ≡ suc n
        → take_task s.pool ≡ idle
        → Step s (record s { seeking = n; sleeping = s.sleeping + 1 })
    takes_task :
        {p : ThreadPool T} (n : ℕ) (t : T)
        → s.seeking ≡ suc n
        → take_task s.pool ≡ takes t p
        → Step s (with_task p (record s { seeking = n }))
    sleeps_on :
        (n : ℕ)
        → s.woken ≡ suc n
        → take_task s.pool ≡ idle
        → Step s (record s { woken = n; sleeping = s.sleeping + 1 })
    wakes_with_task :
        {p : ThreadPool T} (n : ℕ) (t : T)
        → s.woken ≡ suc n
        → take_task s.pool ≡ takes t p
        → Step s (with_task p (record s { woken = n }))
    ends_task : (n : ℕ) → s.busy ≡ suc n → Step s (record s { busy = n; testing = s.testing + 1 })
    queues : {p : ThreadPool T} (t : T) → run s.pool t ≡ queued p → Step s (with_queued p s)
    blocks : (t : T) → run s.pool t ≡ waits → Step s (record s { blocked = s.blocked + 1 })
    queues_again :
        {p : ThreadPool T} (n : ℕ) (t : T)
        → s.signalled ≡ suc n
        → run s.pool t ≡ queued p
        → Step s (with_queued p (record s { signalled = n }))
    blocks_again :
        (n : ℕ) (t : T)
        → s.signalled ≡ suc n
        → run s.pool t ≡ waits
        → Step s (record s { signalled = n; blocked = s.blocked + 1 })
    stops : Step s (stopped s)
    wakes_up :
        (n : ℕ) → s.sleeping ≡ suc n → Step s (record s { sleeping = n; woken = s.woken + 1 })
    unblocks :
        (n : ℕ) → s.blocked ≡ suc n → Step s (record s { blocked = n; signalled = s.signalled + 1 })

  pub data Steps (s : System T) : System T → Type 0 where
    begin : Steps s s
    later : {s' s'' : System T} → Steps s s' → Step s' s'' → Steps s s''
