-- ===== src/EventLoopThread/Life.antt =====
-- net/EventLoopThread.cpp: the destructor, over the model of the thread.
use mathlib.Core.Option
use cpp_practise.Base.{ℕ, Bool, true, false, List, Option, none, some, ◌≡◌, refl, ◌>>=◌, ap}
use cpp_practise.Thread.{Pthread, Thread, construct, start, join, destroy}
use cpp_practise.Thread.Life.{destroy_lem}

module _ {L H : Type 0} (api : Pthread H) where
  -- The body of the destructor and then the end of `_thread`; the flag tells that the loop was asked to quit.
  -- The first argument is `_loop`.
  unfoldable pub destroy_loop_thread : Option L → Thread H → Option (Thread H × Bool)
  destroy_loop_thread none t = Option.map (λ t'. (t', false)) (destroy api t)
  destroy_loop_thread (some loop) t =
      join api t >>= λ t1. Option.map (λ t2. (t2, true)) (destroy api t1)

  -- An object whose thread was started and whose loop is known asks the loop to quit and joins the thread; then
  -- the end of the thread's object detaches it again, which is undefined behaviour. Before `start` the
  -- object may be destroyed, and so it may between the creation of the thread and its loop's, when the thread
  -- is detached and goes on.
  pub destroy_loop_thread_lem :
      (to_string : ℕ → List ℕ) (count : ℕ) (name : List ℕ) (loop : L)
      → (destroy_loop_thread (some loop) (start api true (construct to_string count name).0).0
          ≡ none)
        × (destroy_loop_thread none (construct to_string count name).0
            ≡ some ((construct to_string count name).0, false))
        × ((t : Thread H) × (destroy_loop_thread none
                (start api true (construct to_string count name).0).0
              ≡ some (t, false)))
  unfolding destroy_loop_thread construct
  destroy_loop_thread_lem to_string count name loop =
      let t = (construct {H = H} to_string count name).0 in
      let ((t0, detached), (t', e, _, gone, _), fresh, _) = destroy_lem api t in
      (rw (e, gone) refl, ap (Option.map (λ x. (x, false))) (fresh refl), (t0, rw detached refl))
