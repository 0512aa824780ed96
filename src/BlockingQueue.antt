-- ===== src/BlockingQueue.antt =====
-- base/BlockingQueue.h: an unbounded queue between threads. What stands under the lock is one step; a
-- thread that waits takes its step again when it is woken.
pub mod Guarded
mod Tests
use cpp_practise.Base.{
  ℕ, List, [], ◌∷◌, ◌++◌, ◌≡◌, refl, sym, ap, ◌∙◌, append-nil, append_assoc, length, Option, none,
  some,
}
use mathlib.Core.Path.{subst}
use mathlib.Core.Option.{some-injective}

pub record BlockingQueue (T : Type 0) : Type 0 where
  pub queue : List T

module _ {T : Type 0} where
  -- Both versions of `push`.
  abbrev pub push : BlockingQueue T → T → BlockingQueue T
  push q t = record q { queue = q.queue ++ t ∷ [] }

  abbrev pop_front : List T → Option (T × BlockingQueue T)
  pop_front [] = none
  pop_front (t ∷ ts) = some (t, record { queue = ts })

  -- `none`: the caller waits.
  abbrev pub take : BlockingQueue T → Option (T × BlockingQueue T)
  take q = pop_front q.queue

  abbrev pub size : BlockingQueue T → ℕ
  size q = length q.queue

  -- What the threads do, with what was pushed and what was taken.
  pub data Run (p : BlockingQueue T) : BlockingQueue T → List T → List T → Type 0 where
    begin : Run p p [] []
    pushes :
        {q : BlockingQueue T} {pushed done : List T} (t : T)
        → Run p q pushed done
        → Run p (push q t) (pushed ++ t ∷ []) done
    takes :
        {q q' : BlockingQueue T} {pushed done : List T} (t : T)
        → Run p q pushed done
        → take q ≡ some (t, q')
        → Run p q' pushed (done ++ t ∷ [])

  take_lem :
      (ts : List T) (t : T) (q : BlockingQueue T) → pop_front ts ≡ some (t, q) → ts ≡ t ∷ q.queue
  take_lem [] t q e = absurd (cc)
  take_lem (u ∷ ts) t q e = ap (λ (r : T × BlockingQueue T). r.0 ∷ r.1.queue) (some-injective _ _ e)

  -- Any run: what was taken, and then what is in the queue, is what was in it at first and then what was
  -- pushed, in order, nothing lost and nothing twice.
  pub elements_lem :
      (p q : BlockingQueue T) (pushed done : List T)
      → Run p q pushed done
      → done ++ q.queue ≡ p.queue ++ pushed
  elements_lem p _ _ _ begin = sym (append-nil p.queue)
  elements_lem p _ _ _ (pushes {q = q} {pushed = pushed} {done = done} t r) =
      sym (append_assoc done q.queue (t ∷ []))
      ∙ ap (λ x. x ++ t ∷ []) (elements_lem p q pushed done r)
      ∙ append_assoc p.queue pushed (t ∷ [])
  elements_lem p _ _ _ (takes {q = q} {q' = q'} {pushed = pushed} {done = done} t r e) =
      append_assoc done (t ∷ []) q'.queue
      ∙ ap (λ x. done ++ x) (sym (take_lem q.queue t q' e))
      ∙ elements_lem p q pushed done r
