-- ===== src/ThreadPool/Sound.antt =====
-- base/ThreadPool.cpp: what holds of the threads of a pool, and what a wakeup changes.
use mathlib.Core.Path.{subst}
use cpp_practise.Base.{
  ℕ, ◌+◌, ◌≤◌, ◌<◌, true, false, ◌≡◌, sym, ap, ◌∙◌, arith, length, Bool-cases, inl, inr, ◌==◌,
}
use cpp_practise.ThreadPool.{ThreadPool, queued, waits, idle, takes, run, take_task}
use cpp_practise.ThreadPool.Queue.{take_task_lem, submit_lem, same_task, same_queue}
use cpp_practise.ThreadPool.Workers.{
  System, notify_not_empty, notify_not_full, with_task, with_queued,
}

module _ {T : Type 0} where
  pub take_task-idle :
      (p : ThreadPool T) → take_task p ≡ idle → (length p.tasks ≡ 0) × (p.is_running ≡ true)
  take_task-idle p e = elim (take_task_lem p) [
    | inl (t, q, e', _, _, _, _) ↦ absurd (cc)
    | inr (inl (nil, on, _)) ↦ (ap length nil, on)
    | inr (inr (_, _, e')) ↦ absurd (cc)
  ]

  -- What a thread that has a task leaves behind.
  unfoldable pub Less : ThreadPool T → ThreadPool T → Type 0
  Less p q =
      (length p.tasks ≡ length q.tasks + 1)
      × (q.max_num ≡ p.max_num)
      × (q.is_running ≡ p.is_running)

  pub take_task-takes : (p q : ThreadPool T) (t : T) → take_task p ≡ takes t q → Less p q
  unfolding Less
  take_task-takes p q t e = elim (take_task_lem p) [
    | inl (t', q', e', _, n, m, r) ↦
        subst (λ x. Less p x) (same_task t' t q' q (sym e' ∙ e)).1 (n, m, r)
    | inr (inl (_, _, e')) ↦ absurd (cc)
    | inr (inr (_, _, e')) ↦ absurd (cc)
  ]

  pub run-queued :
      (p q : ThreadPool T) (t : T) → run p t ≡ queued q → (length p.tasks < p.max_num) × Less q p
  unfolding Less
  run-queued p q t e = elim (submit_lem p t) [
    | inl (_, e') ↦ absurd (cc)
    | inr (inl (_, _, e')) ↦ absurd (cc)
    | inr (inr (room, (q', e', _, n, m, r))) ↦
        subst (λ x. (length p.tasks < p.max_num) × Less x p) (same_queue q' q (sym e' ∙ e))
          (room, (n, sym m, sym r))
  ]

  pub run-waits : (p : ThreadPool T) (t : T) → run p t ≡ waits → p.max_num ≤ length p.tasks
  run-waits p t e = elim (submit_lem p t) [
    | inl (_, e') ↦ absurd (cc)
    | inr (inl (_, full, _)) ↦ full
    | inr (inr (_, (q, e', _, _, _, _))) ↦ absurd (cc)
  ]

  -- As long as a thread sleeps, each task has a thread that was woken for it, but for `i` tasks; and none
  -- sleeps in a pool that was stopped.
  pub record Awake (i : ℕ) (p : ThreadPool T) (sleeping woken : ℕ) : Type 0 where
    pub tasks : 1 ≤ sleeping → length p.tasks ≤ woken + i
    pub asleep : p.is_running ≡ false → sleeping ≡ 0

  -- The queue keeps its bound, and as long as a caller sleeps, each free place has a caller that was woken
  -- for it, but for `j` places.
  pub record Room (num j : ℕ) (p : ThreadPool T) (blocked signalled : ℕ) : Type 0 where
    pub size : p.max_num ≡ num
    pub bound : length p.tasks ≤ num
    pub places : 1 ≤ blocked → num ≤ length p.tasks + signalled + j

  -- What holds of a pool of `num` threads.
  pub record Sound (num i j : ℕ) (s : System T) : Type 0 where
    pub awake : Awake i s.pool s.sleeping s.woken
    pub room : Room num j s.pool s.blocked s.signalled
    pub threads : s.testing + s.seeking + s.sleeping + s.woken + s.busy + s.ended ≡ num
    pub gone : s.pool.is_running ≡ true → s.ended ≡ 0

  notify_not_full_lem :
      (num : ℕ) (s : System T) → Sound num 0 1 s → Sound num 0 0 (notify_not_full s)
  unfolding notify_not_full
  notify_not_full_lem num s h = elim (Bool-cases (s.blocked == 0)) [
    | inl e ↦ rw e (record {
      awake = h.awake;
      room = record {
        size = h.room.size;
        bound = h.room.bound;
        places = λ one. absurd (ground arith);
      };
      threads = h.threads;
      gone = h.gone;
    })
    | inr e ↦ rw e (record {
      awake = h.awake;
      room = record {
        size = h.room.size;
        bound = h.room.bound;
        places = λ _. (let k = h.room.places (ground arith) in omega (arith, k));
      };
      threads = h.threads;
      gone = h.gone;
    })
  ]

  notify_not_empty_lem :
      (num : ℕ) (s : System T) → Sound num 1 0 s → Sound num 0 0 (notify_not_empty s)
  unfolding notify_not_empty
  notify_not_empty_lem num s h = elim (Bool-cases (s.sleeping == 0)) [
    | inl e ↦ rw e (record {
      awake = record { tasks = λ one. absurd (ground arith); asleep = h.awake.asleep };
      room = h.room;
      threads = h.threads;
      gone = h.gone;
    })
    | inr e ↦ rw e (record {
      awake = record {
        tasks = λ _. (let k = h.awake.tasks (ground arith) in omega (arith, k));
        asleep = λ off. (let k = h.awake.asleep off in absurd (ground (arith, k)));
      };
      room = h.room;
      threads = (let k = h.threads in ground (arith, k));
      gone = h.gone;
    })
  ]

  -- A thread that has a task, before it wakes a caller.
  pub with_task_lem :
      (num : ℕ) (s : System T) (p : ThreadPool T)
      → Less s.pool p
      → Awake 1 s.pool s.sleeping s.woken
      → Room num 0 s.pool s.blocked s.signalled
      → s.testing + s.seeking + s.sleeping + s.woken + s.busy + s.ended + 1 ≡ num
      → (s.pool.is_running ≡ true → s.ended ≡ 0)
      → Sound num 0 0 (with_task p s)
  unfolding Less
  with_task_lem num s p (n, m, r) a h threads gone =
      notify_not_full_lem num (record s { pool = p; busy = s.busy + 1 })
        (record {
          awake = record {
            tasks = λ one. (let k = a.tasks one in omega arith);
            asleep = λ off. a.asleep (sym r ∙ off);
          };
          room = record {
            size = m ∙ h.size;
            bound = (let k = h.bound in omega arith);
            places = λ one. (let k = h.places one in omega arith);
          };
          threads = omega arith;
          gone = λ on. gone (sym r ∙ on);
        })

  -- A caller whose task is in the queue, before it wakes a thread.
  pub with_queued_lem :
      (num : ℕ) (s : System T) (p : ThreadPool T)
      → (length s.pool.tasks < s.pool.max_num) × Less p s.pool
      → Sound num 0 1 s
      → Sound num 0 0 (with_queued p s)
  unfolding Less
  with_queued_lem num s p (room, (n, m, r)) h =
      notify_not_empty_lem num (record s { pool = p })
        (record {
          awake = record {
            tasks = λ one. (let k = h.awake.tasks one in omega arith);
            asleep = λ off. h.awake.asleep (r ∙ off);
          };
          room = record {
            size = sym m ∙ h.room.size;
            bound = (let k = h.room.size in omega arith);
            places = λ one. (let k = h.room.places one in omega arith);
          };
          threads = h.threads;
          gone = λ on. h.gone (r ∙ on);
        })

  -- A thread that finds no task and sleeps.
  pub asleep_lem :
      (p : ThreadPool T) (sleeping woken : ℕ) → take_task p ≡ idle → Awake 0 p sleeping woken
  asleep_lem p sleeping woken e =
      let (none_left, on) = take_task-idle p e in
      record { tasks = λ _. omega arith; asleep = λ off. absurd (cc) }

  -- A caller that finds the queue full and sleeps.
  pub blocked_lem :
      (num : ℕ) (p : ThreadPool T) (t : T) (b c blocked signalled : ℕ)
      → run p t ≡ waits
      → Room num 0 p b c
      → Room num 0 p blocked signalled
  blocked_lem num p t b c blocked signalled e h =
      let full = run-waits p t e in
      let k = h.size in record { size = k; bound = h.bound; places = λ _. omega arith }

  -- A place more or a caller less.
  pub Room-more :
      (num : ℕ) (p : ThreadPool T) (blocked b c : ℕ)
      → b ≤ c + 1
      → Room num 0 p blocked b
      → Room num 1 p blocked c
  Room-more num p blocked b c e h = record {
    size = h.size;
    bound = h.bound;
    places = λ one. (let k = h.places one in omega arith);
  }

  pub Awake-less :
      (p : ThreadPool T) (sleeping b c : ℕ)
      → b ≤ c + 1
      → Awake 0 p sleeping b
      → Awake 1 p sleeping c
  Awake-less p sleeping b c e h = record {
    tasks = λ one. (let k = h.tasks one in omega arith);
    asleep = h.asleep;
  }
