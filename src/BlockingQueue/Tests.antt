-- ===== src/BlockingQueue/Tests.antt =====
-- A thread that waits in `take`, one that pushes, and the wakeup.
use cpp_practise.Base.{ℕ, true, false, List, [], ◌∷◌, ◌++◌, none, some, ◌≡◌, refl}
use cpp_practise.Mutex.{holder}
use cpp_practise.Mutex.Holder.{holders}
use cpp_practise.Monitor.{
  System, Steps, begin, later, locks, locks_again, sleeps, begins, acts, notifies, leaves, effects,
  notify,
}
use cpp_practise.Monitor.Atomic.{At, atomic_lem}
use cpp_practise.BlockingQueue.{BlockingQueue, take, push}
use cpp_practise.BlockingQueue.Guarded.{
  Method, pushing, taking, Shared, popped, waits, body, start, guarded_lem,
}

abbrev empty : BlockingQueue ℕ
empty = record { queue = [] }

abbrev methods : List (Method ℕ)
methods = taking ∷ pushing 7 ∷ taking ∷ []

run :
    (s : System holders (waits {T = ℕ}) body) × Steps holders waits body (start empty) s methods
    × (holder holders s.mutex ≡ none)
run = (
  _,
  later
      (later
        (later
          (later
            (later
              (later
                (later
                  (later
                    (later
                      (later (later begin (locks 0 taking refl refl))
                        (sleeps 0 taking refl refl refl))
                      (locks 1 (pushing 7) refl refl))
                    (begins 1 (pushing 7) refl refl))
                  (acts 1 (λ s. record s { queue = push s.queue 7 }) (notify (λ s. true) ∷ [])
                    refl))
                (notifies 1 0 taking (λ s. true) [] refl refl refl))
              (leaves 1 refl refl))
            (locks_again 0 taking refl refl))
          (begins 0 taking refl refl))
        (acts 0 (λ s. popped s (take s.queue)) [] refl))
      (leaves 0 refl refl),
  refl,
)

guarded_lem_example :
    (run.0.state.fault ≡ false) × (run.0.state.done ++ run.0.state.queue.queue ≡ 7 ∷ [])
guarded_lem_example = guarded_lem holders empty run.0 methods run.1 run.2

atomic_lem_example :
    (holder holders run.0.mutex ≡ none → run.0.state ≡ effects waits body methods (start empty))
    × ((t : ℕ) (f : Shared ℕ → Shared ℕ)
        → At holders waits body run.0 t (some f)
        → (holder holders run.0.mutex ≡ some t)
          × (f run.0.state ≡ effects waits body methods (start empty)))
atomic_lem_example = atomic_lem holders waits body (start empty) run.0 methods run.1
