-- ===== src/EventLoopThread/Tests.antt =====
-- The caller sleeps, is woken and returns with the loop, which is a number here.
use cpp_practise.Base.{ℕ, none, some, ◌≡◌, refl}
use cpp_practise.EventLoopThread.{
  EventLoopThread, asleep, returned, building, looping, begin, later, starts, tests, publishes,
}
use cpp_practise.EventLoopThread.Handover.{handover_lem}

abbrev done : EventLoopThread ℕ
done = record { loop = some 5; starter = returned 5; worker = looping }

handover_lem_example :
    (done.starter ≡ asleep → (done.worker ≡ building) × (done.loop ≡ none))
    × ((x : ℕ) → done.starter ≡ returned x → (done.worker ≡ looping) × (done.loop ≡ some x))
handover_lem_example = handover_lem done (
    later (later (later (later begin (starts refl refl)) (tests refl)) (publishes 5 refl))
      (tests refl))
