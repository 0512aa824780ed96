-- ===== src/Thread.antt =====
-- base/Thread.h and base/Thread.cpp: a thread from its constructor to its destructor, and what its
-- function's end does. pthread is an interface.
pub mod Life
pub mod Handles
use mathlib.Core.Option
use cpp_practise.Base.{
  codes, ℕ, ◌+◌, Bool, true, false, List, [], ◌∷◌, ◌++◌, Option, none, some, ◌≡◌, add_int,
  if◌then◌else◌, ◌>>=◌,
}

-- A thread as pthread sees it. `none` is undefined behaviour: POSIX leaves open what a second join does, or a
-- join or detach of a thread that was joined or detached before.
pub record Pthread (H : Type 0) : Type 0 where
  pub created : H
  pub join : H → Option H
  pub detach : H → Option H
  pub joins : (h : H) × (join created ≡ some h) × (join h ≡ none) × (detach h ≡ none)
  pub detaches : (h : H) × (detach created ≡ some h) × (join h ≡ none) × (detach h ≡ none)

-- `handle` is `_pthreadId`, if it was set.
pub record Thread (H : Type 0) : Type 0 where
  pub is_running : Bool
  pub handle : Option H
  pub tid : ℕ
  pub name : List ℕ

abbrev pub is_empty : List ℕ → Bool
is_empty [] = true
is_empty (c ∷ cs) = false

-- `Thread::Thread`, with the number of threads, which it counts up; `to_string` prints that number.
unfoldable pub construct : {H : Type 0} → (ℕ → List ℕ) → ℕ → List ℕ → Thread H × ℕ
construct to_string num name = (
  record {
    is_running = false;
    handle = none;
    tid = 0;
    name = if is_empty name then codes "Thread-" ++ to_string (add_int num 1) else name;
  },
  add_int num 1,
)

module _ {H : Type 0} (api : Pthread H) where
  -- `start`; the first argument tells whether `pthread_create` succeeds. The flag tells that the program
  -- aborts.
  unfoldable pub start : Bool → Thread H → Thread H × Bool
  start true t = (record t { is_running = true; handle = some api.created }, false)
  start false t = (record t { is_running = false }, true)

  -- `join` and `~Thread`
  unfoldable pub join : Thread H → Option (Thread H)
  join t = t.handle >>= λ h. Option.map (λ h'. record t { handle = some h' }) (api.join h)

  unfoldable pub destroy : Thread H → Option (Thread H)
  destroy t =
      if t.is_running
      then (t.handle >>= λ h. Option.map (λ h'. record t { handle = some h' }) (api.detach h))
      else some t

-- How the thread's function ends, and what becomes of the thread: it is finished, the program aborts,
-- or the exception goes on.
pub data Ending : Type 0 where
  returns throws_exception throws_std throws_other : Ending

pub data Fate : Type 0 where
  finished crashed goes_on : Fate

abbrev pub fate : Ending → Fate
fate returns = finished
fate throws_exception = crashed
fate throws_std = crashed
fate throws_other = goes_on

-- `Thread::run`: the thread with its number, the names that `t_threadName` has while the function runs and
-- behind it, and its fate.
pub run : {H : Type 0} → ℕ → Ending → Thread H → Thread H × List ℕ × List ℕ × Fate
run tid ending t = (
  record t { tid = tid },
  t.name,
  elim (fate ending) [ finished ↦ codes "finished" | _ ↦ codes "crashed" ],
  fate ending,
)
