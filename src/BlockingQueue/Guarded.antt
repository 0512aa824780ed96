-- ===== src/BlockingQueue/Guarded.antt =====
-- base/BlockingQueue.h with its lock and its condition: `push` and `take` as threads run them.
use mathlib.Core.Path.{subst}
use cpp_practise.Base.{
  Bool, true, false, List, [], ◌∷◌, ◌++◌, Option, none, some, ◌≡◌, refl, sym, ap, ◌∙◌, append-nil,
  append_assoc, Bool-cases, inl, inr, if_true, if_false,
}
use cpp_practise.Mutex.{PthreadMutex, holder}
use cpp_practise.Monitor.{Op, act, notify, System, Steps, finish, effect, effects}
use cpp_practise.Monitor.Atomic.{atomic_lem}
use cpp_practise.BlockingQueue.{BlockingQueue, push, take, Run, begin, pushes, takes, elements_lem}

pub data Method (T : Type 0) : Type 0 where
  pushing : T → Method T
  taking : Method T

-- The queue, what `take` returned so far, and whether it read the front of an empty deque.
pub record Shared (T : Type 0) : Type 0 where
  pub queue : BlockingQueue T
  pub done : List T
  pub fault : Bool

abbrev pub pushed : {T : Type 0} → List (Method T) → List T
pushed [] = []
pushed (pushing t ∷ ms) = t ∷ pushed ms
pushed (taking ∷ ms) = pushed ms

module _ {T : Type 0} where
  abbrev pub is_empty : List T → Bool
  is_empty [] = true
  is_empty (t ∷ ts) = false

  abbrev pub popped : Shared T → Option (T × BlockingQueue T) → Shared T
  popped s none = record s { fault = true }
  popped s (some r) = record s { queue = r.1; done = s.done ++ r.0 ∷ [] }

  -- `while (_queue.empty())`
  abbrev pub waits : Method T → Shared T → Bool
  waits (pushing t) s = false
  waits taking s = is_empty s.queue.queue

  -- What follows it under the lock.
  abbrev pub body : Method T → List (Op (Shared T))
  body (pushing t) = act (λ s. record s { queue = push s.queue t }) ∷ notify (λ s. true) ∷ []
  body taking = act (λ s. popped s (take s.queue)) ∷ []

  abbrev pub start : BlockingQueue T → Shared T
  start p = record { queue = p; done = []; fault = false }

  Good : BlockingQueue T → List T → Shared T → Type 0
  Good p before s = Run p s.queue before s.done × (s.fault ≡ false)

  front :
      (q : BlockingQueue T) (ts : List T)
      → q.queue ≡ ts
      → is_empty ts ≡ false
      → (r : T × BlockingQueue T) × (take q ≡ some r)
  front q [] e h = absurd (cc)
  front q (t ∷ ts) e h = ((t, record { queue = ts }), rw e refl)

  effect_lem :
      (p : BlockingQueue T) (before : List T) (s : Shared T) (m : Method T)
      → Good p before s
      → Good p (before ++ pushed (m ∷ [])) (effect waits body m s)
  unfolding Good effect finish
  effect_lem p before s (pushing t) (r, sound) = (pushes t r, sound)
  effect_lem p before s taking (r, sound) = elim (Bool-cases (is_empty s.queue.queue)) [
    | inl e ↦
        subst (λ b. Good p b (effect waits body taking s)) (sym (append-nil before))
          (subst (Good p before) (sym (if_true s (popped s (take s.queue)) e)) (r, sound))
    | inr e ↦
        (let ((t, q'), there) = front s.queue s.queue.queue refl e in
          let s' : Shared T = popped s (some (t, q')) in
          subst (λ b. Good p b (effect waits body taking s)) (sym (append-nil before))
            (subst (Good p before)
              (sym (if_false s (popped s (take s.queue)) e ∙ ap (popped s) there))
              (takes t r there, sound)))
  ]

  pushed-append :
      (m : Method T) (ms : List (Method T)) → pushed (m ∷ ms) ≡ pushed (m ∷ []) ++ pushed ms
  pushed-append (pushing t) ms = refl
  pushed-append taking ms = refl

  effects_lem :
      (p : BlockingQueue T) (before : List T) (s : Shared T) (ms : List (Method T))
      → Good p before s
      → Good p (before ++ pushed ms) (effects waits body ms s)
  unfolding effects
  effects_lem p before s [] g = subst (λ b. Good p b s) (sym (append-nil before)) g
  effects_lem p before s (m ∷ ms) g =
      subst (λ b. Good p b (effects waits body ms (effect waits body m s)))
        (append_assoc before (pushed (m ∷ [])) (pushed ms)
          ∙ ap (λ x. before ++ x) (sym (pushed-append m ms)))
        (effects_lem p (before ++ pushed (m ∷ [])) (effect waits body m s) ms
          (effect_lem p before s m g))

-- Threads that push and take, with a mutex of pthread, in any interleaving of single calls of the lock and
-- of the condition, and with wakeups without a cause. Whenever the lock is free, no `take` has read an empty
-- deque, and what was taken and then what is in the queue is what was in it at first and then what was
-- pushed, in the order of the acquisitions of the lock.
pub guarded_lem :
    {M T : Type 0} (pthread : PthreadMutex M) (p : BlockingQueue T) (s : System pthread waits body)
    (ms : List (Method T))
    → Steps pthread waits body (start p) s ms
    → holder pthread s.mutex ≡ none
    → (s.state.fault ≡ false) × (s.state.done ++ s.state.queue.queue ≡ p.queue ++ pushed ms)
unfolding Good
guarded_lem pthread p s ms r free =
    let same = (atomic_lem pthread waits body (start p) s ms r).0 free in
    let (run, sound) = effects_lem p [] (start p) ms (begin, refl) in
    (
      ap (λ x. x.fault) same ∙ sound,
      ap (λ x. x.done ++ x.queue.queue) same ∙ elements_lem p _ _ _ run,
    )
