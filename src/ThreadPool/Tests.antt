-- ===== src/ThreadPool/Tests.antt =====
-- A pool of two threads; tasks are numbers.
use cpp_practise.Base.{
  ℕ, ◌+◌, ◌*◌, ◌≤◌, true, false, List, [], ◌∷◌, ◌++◌, ◌≡◌, refl, arith, length, ◌⊎◌, ◌≢◌,
}
use cpp_practise.ThreadPool.{
  ThreadPool, run, take_task, pop_back, queued, takes, begin, submit, take, started, make, start,
  idle, fault, waits,
}
use cpp_practise.ThreadPool.Workers.{
  System, started_with, notify_not_empty, with_queued, notify_not_full, with_task, wakes_with_task,
  stopped, Step, Steps, begin, later, enters, queues, blocks, stops, leaves, falls_asleep,
}
use cpp_practise.ThreadPool.Wakeups.{wakeup_lem}
use cpp_practise.ThreadPool.Stop.{stuck_lem}
use cpp_practise.ThreadPool.Ending.{thread_steps, by_thread, ends_lem}
use cpp_practise.ThreadPool.Queue.{waiting, tasks_lem}

abbrev label : ℕ → List ℕ
label n = b' ' ∷ (b'0' + n) ∷ []

abbrev two : ThreadPool ℕ
two = record { is_running = true; max_num = 2; tasks = 8 ∷ 7 ∷ [] }

abbrev one : ThreadPool ℕ
one = record { is_running = true; max_num = 2; tasks = 8 ∷ [] }

abbrev first : ThreadPool ℕ
first = record { is_running = true; max_num = 2; tasks = 7 ∷ [] }

abbrev submitted : List ℕ
submitted = 7 ∷ 8 ∷ []

abbrev taken : List ℕ
taken = 7 ∷ []

first-queued : run (start (make 2)) 7 ≡ queued first
unfolding run
first-queued = refl

two-queued : run first 8 ≡ queued two
unfolding run
two-queued = refl

two-takes : take_task two ≡ takes 7 one
unfolding take_task pop_back
two-takes = refl

tasks_lem_example :
    (taken ++ waiting one.tasks ≡ waiting (make {T = ℕ} 2).tasks ++ submitted)
    × (length one.tasks ≤ 2)
tasks_lem_example =
    tasks_lem (make 2) one submitted taken (omega arith)
      (take 7 (submit 8 (submit 7 (started begin) first-queued) two-queued) two-takes)

-- A pool of one thread, which sleeps, and a task that wakes it.
abbrev asleep_alone : System ℕ
asleep_alone = record (started_with 1) { testing = 0; sleeping = 1 }

abbrev alone_seven : ThreadPool ℕ
alone_seven = record { is_running = true; max_num = 1; tasks = 7 ∷ [] }

abbrev woken_alone : System ℕ
woken_alone = with_queued alone_seven asleep_alone

no_task : take_task (start (make {T = ℕ} 1)) ≡ idle
unfolding take_task
no_task = refl

seven-queued : run (start (make {T = ℕ} 1)) 7 ≡ queued alone_seven
unfolding run
seven-queued = refl

asleep_alone-Steps : Steps (started_with {T = ℕ} 1) asleep_alone
asleep_alone-Steps =
    later {s' = record (started_with 1) { testing = 0; seeking = 1 }}
      (later begin (enters 0 refl refl)) (falls_asleep 0 refl no_task)

woken_alone-Steps : Steps (started_with 1) woken_alone
woken_alone-Steps = later asleep_alone-Steps (queues 7 seven-queued)

woken_alone-counts : (woken_alone.sleeping ≡ 0) × (woken_alone.woken ≡ 1)
unfolding notify_not_empty
woken_alone-counts = (refl, refl)

wakeup_lem_example :
    (1 ≤ woken_alone.sleeping → length woken_alone.pool.tasks ≤ woken_alone.woken)
    × (1 ≤ woken_alone.blocked → 1 ≤ length woken_alone.pool.tasks + woken_alone.signalled)
    × (woken_alone.testing + woken_alone.seeking + woken_alone.sleeping + woken_alone.woken
          + woken_alone.busy + woken_alone.ended
        ≡ 1)
    × (woken_alone.pool.is_running ≡ true → take_task woken_alone.pool ≢ fault)
    × (woken_alone.pool.is_running ≡ true
        → woken_alone.testing + woken_alone.seeking + woken_alone.woken + woken_alone.busy
            + woken_alone.signalled
          ≡ 0
        → (woken_alone.pool.tasks ≡ []) × (woken_alone.blocked ≡ 0) × (woken_alone.sleeping ≡ 1))
wakeup_lem_example = wakeup_lem 1 woken_alone (omega arith) woken_alone-Steps

-- A pool of one thread, with a task in the queue and a caller behind it, when it is stopped.
abbrev filled : System ℕ
filled = with_queued alone_seven (started_with 1)

abbrev left_behind : System ℕ
left_behind = record (stopped (record filled { blocked = filled.blocked + 1 })) {
  testing = 0;
  ended = 1;
}

eight-waits : run alone_seven 8 ≡ waits
unfolding run
eight-waits = refl

left_behind-Steps : Steps (started_with 1) left_behind
unfolding notify_not_empty
left_behind-Steps =
    later (later (later (later begin (queues 7 seven-queued)) (blocks 8 eight-waits)) stops)
      (leaves 0 refl refl)

left_behind-counts :
    (left_behind.ended ≡ 1) × (1 ≤ left_behind.blocked) × (left_behind.signalled ≡ 0)
unfolding notify_not_empty
left_behind-counts = (refl, omega arith, refl)

stuck_lem_example :
    (1 ≤ left_behind.blocked + left_behind.signalled) × (run left_behind.pool 9 ≡ waits)
stuck_lem_example =
    stuck_lem 1 left_behind left_behind 9 (omega arith) left_behind-Steps left_behind-counts.0
      left_behind-counts.1 left_behind-counts.2 begin

-- A pool of one thread, which sleeps, is stopped; then a task comes, and the woken thread takes it.
abbrev stopping : System ℕ
stopping = stopped asleep_alone

abbrev over : ThreadPool ℕ
over = record { is_running = false; max_num = 1; tasks = [] }

abbrev over_seven : ThreadPool ℕ
over_seven = record { is_running = false; max_num = 1; tasks = 7 ∷ [] }

abbrev late : System ℕ
late = with_queued over_seven stopping

abbrev last_task : System ℕ
last_task = with_task over (record late { woken = 0 })

late-queued : run over 7 ≡ queued over_seven
unfolding run
late-queued = refl

late-takes : take_task over_seven ≡ takes 7 over
unfolding take_task pop_back
late-takes = refl

abbrev last_steps : Steps stopping last_task
unfolding notify_not_empty notify_not_full
last_steps =
    later {s' = late} (later begin (queues 7 late-queued)) (wakes_with_task 0 7 refl late-takes)

ends_lem_example :
    (last_task.sleeping ≡ 0)
    × (thread_steps last_steps ≤ 3 * 1)
    × ((last_task.ended ≡ 1)
        ⊎ ((1 ≤ last_task.seeking + last_task.woken) × (take_task last_task.pool ≡ fault))
        ⊎ ((s : System ℕ) × (p : Step last_task s) × (by_thread p ≡ 1)))
ends_lem_example = ends_lem 1 stopping last_task last_steps (later asleep_alone-Steps stops) refl
