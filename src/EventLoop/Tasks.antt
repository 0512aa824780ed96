-- ===== src/EventLoop/Tasks.antt =====
-- net/EventLoop.cpp: what one round makes of the functors that were handed over.
use cpp_practise.Base.{
  List, [], ◌∷◌, ◌++◌, ◌≡◌, refl, sym, ap, ◌∙◌, append-nil, append_assoc, inl, inr,
}
use mathlib.Core.Path.{subst}
use cpp_practise.EventLoop.{
  EventLoop, handling, doing, Run, goes, take, next, finish, run_functor, run_functors,
  take_functors, do_loop_tasks,
}
use cpp_practise.EventLoop.Flags.{batch-resting}
use cpp_practise.EventLoop.Wakeup.{fifo_lem}

module _ {F : Type 0} where
  Run-same : {l : EventLoop F} {handed more : List F} → handed ≡ more → Run l handed → Run l more
  Run-same {l} e r = subst (λ h. Run l h) e r

  run_functors_lem :
      (fs : List F) (l : EventLoop F) (handed : List F)
      → Run l handed
      → l.phase ≡ doing
      → l.batch ≡ fs
      → Run (run_functors fs l) handed
        × ((run_functors fs l).phase ≡ doing)
        × ((run_functors fs l).batch ≡ [])
        × ((run_functors fs l).ran ≡ l.ran ++ fs)
        × ((run_functors fs l).functors ≡ l.functors)
  unfolding run_functors
  run_functors_lem [] l handed r p b = (r, p, b, sym (append-nil l.ran), refl)
  run_functors_lem (f ∷ fs) l handed r p b =
      let (r', p', b', ran', rest') =
        run_functors_lem fs (run_functor f fs l) handed
          (Run-same (append-nil handed) (goes r (next f fs p b))) p refl in
      (r', p', b', ran' ∙ append_assoc l.ran (f ∷ []) fs, rest')

  -- A loop that steps led to, with its thread in the handlers: `doLoopTasks`, with nothing between its
  -- steps, leads to a loop that has run every functor that it was handed, in order, and keeps none.
  pub do_loop_tasks_lem :
      (l : EventLoop F) (handed : List F)
      → Run l handed
      → l.phase ≡ handling
      → Run (do_loop_tasks l) handed
        × ((do_loop_tasks l).ran ≡ handed)
        × ((do_loop_tasks l).functors ≡ [])
  do_loop_tasks_lem l handed r p =
      let (s, e) = fifo_lem l handed r in
      let none_left = (batch-resting l.phase l.batch l.is_doing_task (inr (inl p)) s.batch).1 in
      let (r', p', b', ran', rest') =
        run_functors_lem l.functors (take_functors l) handed
          (Run-same (append-nil handed) (goes r (take p))) refl refl in
      (
        Run-same (append-nil handed) (goes r' (finish p' b')),
        ran' ∙ ap (λ b. l.ran ++ (b ++ l.functors)) (sym none_left) ∙ e,
        rest',
      )
