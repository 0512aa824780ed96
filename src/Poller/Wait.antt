-- ===== src/Poller/Wait.antt =====
-- What `Epoller::poll` hands to the loop, and the size of its array of events.
use cpp_practise.Base.{ℕ, ◌≤◌, ◌<◌, ◌≡◌, refl, true, List, [], ◌∷◌, arith, length}
use cpp_practise.Channel.{Revents}
use cpp_practise.Poller.{Waited, interrupted, failed, events, poll}

-- The events that were delivered.
abbrev pub delivered : Waited → List (ℕ × Revents)
delivered interrupted = []
delivered (failed e) = []
delivered (events es) = es

-- With an array that is not empty, and a kernel that delivers at most as many events as fit, the loop
-- gets every event in order and none besides, an error is logged exactly for a failure other than an
-- interruption, and the array then has space for more events than were delivered.
pub poll_lem :
    (size : ℕ) (w : Waited)
    → 0 < size
    → length (delivered w) ≤ size
    → ((poll size w).1 ≡ delivered w)
      × (((poll size w).2 ≡ true → (e : ℕ) × (w ≡ failed e))
          × ((e : ℕ) → w ≡ failed e → (poll size w).2 ≡ true))
      × (length (delivered w) < (poll size w).0)
      × (size ≤ (poll size w).0)
unfolding poll
poll_lem size interrupted h k = (refl, (λ q. cc, λ e q. cc), omega arith, omega arith)
poll_lem size (failed e) h k = (refl, (λ q. (e, refl), λ e' q. refl), omega arith, omega arith)
poll_lem size (events []) h k = (refl, (λ q. cc, λ e q. cc), omega arith, omega arith)
poll_lem size (events (e ∷ es)) h k = (refl, (λ q. cc, λ e' q. cc), ground arith, ground arith)
