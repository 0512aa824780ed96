-- ===== src/EventLoopThread/Handover.antt =====
-- net/EventLoopThread.cpp: what the caller of `start` and the new thread know of each other.
use cpp_practise.Base.{Option, none, some, ◌≡◌, refl, ◌⊎◌, inl, inr}
use mathlib.Core.Path.{subst}
use cpp_practise.EventLoopThread.{
  Starter, outside, testing, asleep, returned, Worker, absent, building, looping, EventLoopThread,
  Step, Steps, starts, tests, wakes, publishes, begin, later, notify, test_loop,
}

module _ {L : Type 0} where
  abbrev pub WorkerSound : Worker → Option L → Type 0
  WorkerSound absent o = o ≡ none
  WorkerSound building o = o ≡ none
  WorkerSound looping o = (x : L) × (o ≡ some x)

  abbrev pub StarterSound : Starter L → Worker → Option L → Type 0
  StarterSound outside w o = w ≡ absent
  StarterSound testing w o = (w ≡ building) × (o ≡ none) ⊎ (w ≡ looping)
  StarterSound asleep w o = (w ≡ building) × (o ≡ none)
  StarterSound (returned x) w o = (w ≡ looping) × (o ≡ some x)

  pub record IsSound (t : EventLoopThread L) : Type 0 where
    pub worker : WorkerSound t.worker t.loop
    pub starter : StarterSound t.starter t.worker t.loop

  test_lem :
      (w : Worker) (o : Option L)
      → WorkerSound w o
      → (w ≡ building) × (o ≡ none) ⊎ (w ≡ looping)
      → StarterSound (test_loop o) w o
  test_lem w none h (inl k) = k
  test_lem looping none h (inr k) = absurd (cc)
  test_lem absent none h (inr k) = absurd (cc)
  test_lem building none h (inr k) = absurd (cc)
  test_lem w (some x) h (inl k) = absurd (cc)
  test_lem w (some x) h (inr k) = (k, refl)

  testing_lem :
      (s : Starter L) (w : Worker) (o : Option L)
      → s ≡ testing
      → StarterSound s w o
      → (w ≡ building) × (o ≡ none) ⊎ (w ≡ looping)
  testing_lem outside w o e h = absurd (cc)
  testing_lem testing w o e h = h
  testing_lem asleep w o e h = absurd (cc)
  testing_lem (returned x) w o e h = absurd (cc)

  asleep_lem :
      (s : Starter L) (w : Worker) (o : Option L)
      → s ≡ asleep
      → StarterSound s w o
      → (w ≡ building) × (o ≡ none)
  asleep_lem outside w o e h = absurd (cc)
  asleep_lem testing w o e h = absurd (cc)
  asleep_lem asleep w o e h = h
  asleep_lem (returned x) w o e h = absurd (cc)

  notify_lem :
      (s : Starter L) (w : Worker) (o : Option L) (x : L)
      → w ≡ building
      → StarterSound s w o
      → StarterSound (notify s) looping (some x)
  notify_lem outside w o x e h = absurd (cc)
  notify_lem testing w o x e h = inr refl
  notify_lem asleep w o x e h = inr refl
  notify_lem (returned y) w o x e (h, k) = absurd (cc)

  absent_lem : (w : Worker) (o : Option L) → w ≡ absent → WorkerSound w o → o ≡ none
  absent_lem absent o e h = h
  absent_lem building o e h = absurd (cc)
  absent_lem looping o e h = absurd (cc)

  step_lem : (t t' : EventLoopThread L) → IsSound t → Step t t' → IsSound t'
  step_lem t _ s (starts e f) =
      let gone = absent_lem t.worker t.loop f s.worker in
      record { worker = gone; starter = inl (refl, gone) }
  step_lem t _ s (tests e) = record {
    worker = s.worker;
    starter = test_lem t.worker t.loop s.worker (testing_lem t.starter _ _ e s.starter);
  }
  step_lem t _ s (wakes e) = record {
    worker = s.worker;
    starter = inl (asleep_lem t.starter _ _ e s.starter);
  }
  step_lem t _ s (publishes x e) = record {
    worker = (x, refl);
    starter = notify_lem t.starter t.worker t.loop x e s.starter;
  }

  -- From a thread that was just made, by any steps of the caller of `start` and of the new thread: a caller that
  -- sleeps does so before the new thread's notification, and a loop that `start` returned is the
  -- one that the new thread runs.
  pub handover_lem :
      (t : EventLoopThread L)
      → Steps t
      → (t.starter ≡ asleep → (t.worker ≡ building) × (t.loop ≡ none))
        × ((x : L) → t.starter ≡ returned x → (t.worker ≡ looping) × (t.loop ≡ some x))
  handover_lem t r = (
    λ e. asleep_lem t.starter _ _ e (go t r).starter,
    λ x e. subst (λ s. StarterSound s t.worker t.loop) e (go t r).starter,
  )
    where
      go : (t : EventLoopThread L) → Steps t → IsSound t
      go _ begin = record { worker = refl; starter = refl }
      go _ (later {t = t1} {t' = t2} r p) = step_lem t1 t2 (go t1 r) p
