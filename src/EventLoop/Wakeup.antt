-- ===== src/EventLoop/Wakeup.antt =====
-- net/EventLoop.cpp: the order of the functors, and the wakeups, over any steps.
use cpp_practise.Base.{
  true, List, [], ◌∷◌, ◌++◌, ◌≡◌, refl, sym, arith, ap, ◌∙◌, append-nil, append_assoc, inl, inr,
}
use mathlib.Core.Path.{subst}
use cpp_practise.EventLoop.{
  EventLoop, Step, Run, start, goes, push, ask_quit, wake, push_starting, quit_starting, enter,
  poll, handle_read, push_handling, push_doing, quit_handling, quit_doing, take, next, finish,
}
use cpp_practise.EventLoop.Flags.{
  quits-all, quits-next, quits-busy, quits-starting, or-true, IsSound, all, wakes_all,
  wakes_handling, batch-doing, batch-of_doing, appended, wakes_next, wakes_for, batch-resting,
  batch-next, run_in_loop-resting, run_in_loop-doing,
}

module _ {F : Type 0} where
  -- One step keeps the loop sound, and adds what it hands over behind the other functors.
  step_lem :
      (l l' : EventLoop F) (fs : List F)
      → IsSound l
      → Step l l' fs
      → IsSound l' × (all l' ≡ all l ++ fs)
  step_lem l _ _ s (push f) = (
    record {
      woken = wakes_all l.phase _ _ _ (inr (omega arith));
      quits = quits-all l.phase _ _ _ (inr (omega arith));
      batch = s.batch;
    },
    appended l.ran l.batch l.functors f,
  )
  step_lem l _ _ s ask_quit = (
    record {
      woken = wakes_all l.phase _ _ _ (inr (omega arith));
      quits = quits-all l.phase _ _ _ (inr (omega arith));
      batch = s.batch;
    },
    sym (append-nil (all l)),
  )
  step_lem l _ _ s (wake w e) = (
    record {
      woken = wakes_all l.phase _ _ _ (inl refl);
      quits = quits-all l.phase _ _ _ (inl refl);
      batch = s.batch;
    },
    sym (append-nil (all l)),
  )
  step_lem l _ _ s (push_starting f e) =
      subst
        (λ l'.
          IsSound (record l' { early = true })
          × (all (record l' { early = true }) ≡ all l ++ f ∷ []))
        (sym (run_in_loop-resting l f (batch-resting l.phase _ _ (inl e) s.batch).0))
        (
          record {
            woken = wakes_all l.phase _ _ _ (inl (or-true l.readable));
            quits = quits-starting l.phase _ _ _ e;
            batch = s.batch;
          },
          appended l.ran l.batch l.functors f,
        )
  step_lem l _ _ s (quit_starting e) = (
    record { woken = s.woken; quits = quits-starting l.phase _ _ _ e; batch = s.batch },
    sym (append-nil (all l)),
  )
  step_lem l _ _ s (enter e) = (
    record {
      woken = wakes_next l.quit _ _ _ (wakes_for l.phase _ _ _ (inl e) s.woken);
      quits = quits-next l.quit _ _;
      batch = batch-next l.quit _ _ (batch-resting l.phase _ _ (inl e) s.batch);
    },
    sym (append-nil (all l)),
  )
  step_lem l _ _ s (poll e) = (
    record { woken = tt; quits = tt; batch = batch-resting l.phase _ _ (inr (inr e)) s.batch },
    sym (append-nil (all l)),
  )
  step_lem l _ _ s (handle_read e) = (
    record {
      woken = wakes_handling l.phase _ _ _ e;
      quits = quits-busy l.phase _ _ _ (inl e);
      batch = s.batch;
    },
    sym (append-nil (all l)),
  )
  step_lem l _ _ s (push_handling f e) =
      subst (λ l'. IsSound l' × (all l' ≡ all l ++ f ∷ []))
        (sym (run_in_loop-resting l f (batch-resting l.phase _ _ (inr (inl e)) s.batch).0))
        (
          record {
            woken = wakes_handling l.phase _ _ _ e;
            quits = quits-busy l.phase _ _ _ (inl e);
            batch = s.batch;
          },
          appended l.ran l.batch l.functors f,
        )
  step_lem l _ _ s (push_doing f e) =
      subst (λ l'. IsSound l' × (all l' ≡ all l ++ f ∷ []))
        (sym (run_in_loop-doing l f (batch-doing l.phase _ _ e s.batch)))
        (
          record {
            woken = wakes_all l.phase _ _ _ (inl refl);
            quits = quits-all l.phase _ _ _ (inl refl);
            batch = s.batch;
          },
          appended l.ran l.batch l.functors f,
        )
  step_lem l _ _ s (quit_handling e) = (
    record { woken = s.woken; quits = quits-busy l.phase _ _ _ (inl e); batch = s.batch },
    sym (append-nil (all l)),
  )
  step_lem l _ _ s (quit_doing e) = (
    record { woken = s.woken; quits = quits-busy l.phase _ _ _ (inr e); batch = s.batch },
    sym (append-nil (all l)),
  )
  step_lem l _ _ s (take e) = (
    record { woken = tt; quits = tt; batch = refl },
    ap (λ t. l.ran ++ t)
          (append-nil l.functors
            ∙ ap (λ b. b ++ l.functors) (sym (batch-resting l.phase _ _ (inr (inl e)) s.batch).1))
        ∙ sym (append-nil (all l)),
  )
  step_lem l _ _ s (next f fs e b) = (
    record {
      woken = s.woken;
      quits = s.quits;
      batch = batch-of_doing l.phase fs _ e (batch-doing l.phase _ _ e s.batch);
    },
    append_assoc l.ran (f ∷ []) (fs ++ l.functors)
        ∙ ap (λ b'. l.ran ++ (b' ++ l.functors)) (sym b)
        ∙ sym (append-nil (all l)),
  )
  step_lem l _ _ s (finish e b) = (
    record {
      woken = wakes_next l.quit _ _ _ (wakes_for l.phase _ _ _ (inr e) s.woken);
      quits = quits-next l.quit _ _;
      batch = batch-next l.quit _ _ (refl, b);
    },
    sym (append-nil (all l)),
  )

  -- From a loop that was just made, by any steps of its thread and of others: what it ran, what it is running
  -- and what waits are together the functors that it was handed, in order, none lost and none twice. If
  -- it is in `poll` and a functor waits, or it was told to quit, then the wakeup descriptor is readable or
  -- a thread is about to write to it; or, for a functor that waits, one was handed over in the loop's own
  -- thread before `loop()`, and none was taken since.
  pub fifo_lem : (l : EventLoop F) (handed : List F) → Run l handed → IsSound l × (all l ≡ handed)
  fifo_lem _ _ start = (record { woken = tt; quits = tt; batch = (refl, refl) }, refl)
  fifo_lem _ _ (goes {l = l} {l' = l'} {fs = fs} r p) =
      let (s, e) = fifo_lem l _ r in
      let (s', e') = step_lem l l' fs s p in (s', e' ∙ ap (λ t. t ++ fs) e)
