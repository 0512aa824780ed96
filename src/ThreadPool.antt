-- ===== src/ThreadPool.antt =====
-- base/ThreadPool.cpp: the bounded queue between the threads that submit tasks and those that run them.
-- What stands under the lock is one step; a thread that waits takes its step again when it is woken.
pub mod Queue
pub mod Threads
pub mod Workers
pub mod Sound
pub mod Wakeups
pub mod Stop
pub mod Ending
mod Tests
use mathlib.Core.Option
use cpp_practise.Base.{
  ℕ, ◌+◌, Bool, true, false, ◌&&◌, List, [], ◌∷◌, ◌++◌, Option, none, some, ◌≡◌, length, leb, ◌==◌,
  if◌then◌else◌,
}

-- `tasks` is the deque, its front first.
pub record ThreadPool (T : Type 0) : Type 0 where
  pub is_running : Bool
  pub max_num : ℕ
  pub tasks : List T

-- What `run` does: the task runs in the caller, the caller waits, or the task is in the queue.
pub data Submitted (T : Type 0) : Type 0 where
  at_once waits : Submitted T
  queued : ThreadPool T → Submitted T

-- What a thread of the pool does: it waits, it has a task, or it reads the back of an empty deque.
pub data Taken (T : Type 0) : Type 0 where
  idle fault : Taken T
  takes : T → ThreadPool T → Taken T

module _ {T : Type 0} where
  abbrev pub make : ℕ → ThreadPool T
  make num = record { is_running = false; max_num = num; tasks = [] }

  -- `start` and `stop`, less the threads.
  abbrev pub start : ThreadPool T → ThreadPool T
  start p = record p { is_running = true }

  abbrev pub stop : ThreadPool T → ThreadPool T
  stop p = record p { is_running = false }

  abbrev pub is_full : ThreadPool T → Bool
  is_full p = leb p.max_num (length p.tasks)

  unfoldable pub run : ThreadPool T → T → Submitted T
  run p t =
      if p.max_num == 0
      then at_once
      else if is_full p
      then waits
      else queued (record p { tasks = t ∷ p.tasks })

  abbrev pub is_empty : List T → Bool
  is_empty [] = true
  is_empty (t ∷ ts) = false

  -- `deque::back` and `deque::pop_back`.
  unfoldable pub pop_back : List T → Option (List T × T)
  pop_back [] = none
  pop_back (t ∷ []) = some ([], t)
  pop_back (t ∷ u ∷ ts) = Option.map (λ r. (t ∷ r.0, r.1)) (pop_back (u ∷ ts))

  abbrev pub taken : ThreadPool T → Option (List T × T) → Taken T
  taken p none = fault
  taken p (some r) = takes r.1 (record p { tasks = r.0 })

  -- The part of `loop` under the lock.
  unfoldable pub take_task : ThreadPool T → Taken T
  take_task p = if is_empty p.tasks && p.is_running then idle else taken p (pop_back p.tasks)

  -- What the threads do, with the tasks that were submitted to the queue and those that were taken.
  pub data Run (p : ThreadPool T) : ThreadPool T → List T → List T → Type 0 where
    begin : Run p p [] []
    submit :
        {q q' : ThreadPool T} {submitted done : List T} (t : T)
        → Run p q submitted done
        → run q t ≡ queued q'
        → Run p q' (submitted ++ t ∷ []) done
    take :
        {q q' : ThreadPool T} {submitted done : List T} (t : T)
        → Run p q submitted done
        → take_task q ≡ takes t q'
        → Run p q' submitted (done ++ t ∷ [])
    started :
        {q : ThreadPool T} {submitted done : List T}
        → Run p q submitted done
        → Run p (start q) submitted done
    stopped :
        {q : ThreadPool T} {submitted done : List T}
        → Run p q submitted done
        → Run p (stop q) submitted done
