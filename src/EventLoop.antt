-- ===== src/EventLoop.antt =====
-- net/EventLoop.cpp: the loop that waits in `poll`, handles what is active and then runs the functors
-- that were handed to it. Other threads act between any two of its steps.
pub mod Flags
pub mod Wakeup
pub mod Tasks
pub mod Active
pub mod Life
mod Tests
use cpp_practise.Base.{
  ℕ, zero, suc, ◌+◌, ◌-◌, Bool, true, false, List, [], ◌∷◌, ◌++◌, Option, none, some, if◌then◌else◌,
  ◌≡◌,
}

-- Where the loop's thread is: before `loop()`, in `poll`, in the handlers, in the functors, or behind it.
pub data Phase : Type 0 where
  starting polling handling doing ended : Phase

-- The loop with functors `F`. `readable` tells that the counter of the wakeup descriptor is not zero.
-- `writers` counts the other threads that are about to call `wakeup`; `batch` is `fs` of `doLoopTasks`,
-- and `ran` what was run so far. `early` tells that a functor was handed over in the loop's own thread
-- before `loop()`, and none was taken since.
pub record EventLoop (F : Type 0) : Type 0 where
  pub phase : Phase
  pub quit : Bool
  pub is_handling : Bool
  pub is_doing_task : Bool
  pub functors : List F
  pub readable : Bool
  pub writers : ℕ
  pub batch : List F
  pub ran : List F
  pub early : Bool

-- The test of `while (!_quit)`.
abbrev pub next_poll : Bool → Phase
next_poll q = if q then ended else polling

module _ {F : Type 0} where
  abbrev pub make : EventLoop F
  make = record {
    phase = starting;
    quit = false;
    is_handling = false;
    is_doing_task = false;
    functors = [];
    readable = false;
    writers = 0;
    batch = [];
    ran = [];
    early = false;
  }

  -- A write to the descriptor fails only if its counter is close to its largest value.
  abbrev pub wakeup : EventLoop F → EventLoop F
  wakeup l = record l { readable = true }

  abbrev pub push_back : F → EventLoop F → EventLoop F
  push_back f l = record l { functors = l.functors ++ f ∷ [] }

  -- `runInLoop` in the loop's own thread.
  abbrev pub run_in_loop : F → EventLoop F → EventLoop F
  run_in_loop f l = if l.is_doing_task then wakeup (push_back f l) else push_back f l

  -- `doLoopTasks` up to its loop, and behind it.
  abbrev pub take_functors : EventLoop F → EventLoop F
  take_functors l = record l {
    phase = doing;
    is_handling = false;
    is_doing_task = true;
    batch = l.functors;
    functors = [];
    early = false;
  }

  abbrev pub finish_tasks : EventLoop F → EventLoop F
  finish_tasks l = record l { phase = next_poll l.quit; is_doing_task = false }

  abbrev pub run_functor : F → List F → EventLoop F → EventLoop F
  run_functor f fs l = record l { batch = fs; ran = l.ran ++ f ∷ [] }

  unfoldable pub run_functors : List F → EventLoop F → EventLoop F
  run_functors [] l = l
  run_functors (f ∷ fs) l = run_functors fs (run_functor f fs l)

  -- `doLoopTasks`, if nothing comes between.
  abbrev pub do_loop_tasks : EventLoop F → EventLoop F
  do_loop_tasks l = finish_tasks (run_functors l.functors (take_functors l))

  -- One step of the loop's thread or of another, and the functors that it hands to the loop. `runInLoop`
  -- and `quit` by another thread are two steps each, since the loop may act in between.
  pub data Step (l : EventLoop F) : EventLoop F → List F → Type 0 where
    push : (f : F) → Step l (record (push_back f l) { writers = l.writers + 1 }) (f ∷ [])
    ask_quit : Step l (record l { quit = true; writers = l.writers + 1 }) []
    wake : (w : ℕ) → l.writers ≡ suc w → Step l (wakeup (record l { writers = w })) []
    push_starting :
        (f : F) → l.phase ≡ starting → Step l (record (run_in_loop f l) { early = true }) (f ∷ [])
    quit_starting : l.phase ≡ starting → Step l (record l { quit = true }) []
    enter : l.phase ≡ starting → Step l (record l { phase = next_poll l.quit }) []
    poll : l.phase ≡ polling → Step l (record l { phase = handling; is_handling = true }) []
    handle_read : l.phase ≡ handling → Step l (record l { readable = false }) []
    push_handling : (f : F) → l.phase ≡ handling → Step l (run_in_loop f l) (f ∷ [])
    push_doing : (f : F) → l.phase ≡ doing → Step l (run_in_loop f l) (f ∷ [])
    quit_handling : l.phase ≡ handling → Step l (record l { quit = true }) []
    quit_doing : l.phase ≡ doing → Step l (record l { quit = true }) []
    take : l.phase ≡ handling → Step l (take_functors l) []
    next :
        (f : F) (fs : List F) → l.phase ≡ doing → l.batch ≡ f ∷ fs → Step l (run_functor f fs l) []
    finish : l.phase ≡ doing → l.batch ≡ [] → Step l (finish_tasks l) []

  -- What the steps lead to, and all functors that were handed to the loop, in order.
  pub data Run : EventLoop F → List F → Type 0 where
    start : Run make []
    goes :
        {l l' : EventLoop F} {handed fs : List F}
        → Run l handed
        → Step l l' fs
        → Run l' (handed ++ fs)
