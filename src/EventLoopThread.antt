-- ===== src/EventLoopThread.antt =====
-- net/EventLoopThread.cpp: the hand-over of the loop from the new thread to the one that starts it.
pub mod Handover
pub mod Life
mod Tests
use cpp_practise.Base.{Option, none, some, ◌≡◌}

-- Where the caller of `start` is: before it, about to test `_loop`, in `_cond.wait()`, or behind it.
pub data Starter (L : Type 0) : Type 0 where
  outside testing asleep : Starter L
  returned : L → Starter L

-- Where the new thread is: not there yet, before its part under the lock, or in the loop.
pub data Worker : Type 0 where
  absent building looping : Worker

pub record EventLoopThread (L : Type 0) : Type 0 where
  pub loop : Option L
  pub starter : Starter L
  pub worker : Worker

module _ {L : Type 0} where
  abbrev pub make : EventLoopThread L
  make = record { loop = none; starter = outside; worker = absent }

  -- `start` up to its lock.
  abbrev pub start_thread : EventLoopThread L → EventLoopThread L
  start_thread t = record t { starter = testing; worker = building }

  -- The test of `while (_loop == nullptr)`, and what follows it.
  abbrev pub test_loop : Option L → Starter L
  test_loop none = asleep
  test_loop (some x) = returned x

  abbrev pub test : EventLoopThread L → EventLoopThread L
  test t = record t { starter = test_loop t.loop }

  -- `_cond.notify()`: a thread that sleeps tests again.
  abbrev pub notify : Starter L → Starter L
  notify outside = outside
  notify testing = testing
  notify asleep = testing
  notify (returned x) = returned x

  -- The part of `run` under the lock.
  abbrev pub publish : L → EventLoopThread L → EventLoopThread L
  publish x t = record t { loop = some x; starter = notify t.starter; worker = looping }

  pub data Step (t : EventLoopThread L) : EventLoopThread L → Type 0 where
    starts : t.starter ≡ outside → t.worker ≡ absent → Step t (start_thread t)
    tests : t.starter ≡ testing → Step t (test t)
    wakes : t.starter ≡ asleep → Step t (record t { starter = testing })
    publishes : (x : L) → t.worker ≡ building → Step t (publish x t)

  pub data Steps : EventLoopThread L → Type 0 where
    begin : Steps make
    later : {t t' : EventLoopThread L} → Steps t → Step t t' → Steps t'
