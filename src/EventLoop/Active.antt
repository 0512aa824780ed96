-- ===== src/EventLoop/Active.antt =====
-- net/EventLoop.cpp with net/Epoller.cpp and net/Channel.cpp: from what the kernel reports to the
-- callbacks of the channels. A channel is told by the pointer that the kernel keeps, and handlers leave
-- the other channels of the same round alone.
use mathlib.Core.Path.{subst}
use mathlib.Core.Option.{some-injective}
use cpp_practise.Base.{
  ℕ, ◌+◌, ◌≤◌, ◌<◌, ◌&&◌, List, [], ◌∷◌, ◌++◌, Option, none, some, ◌≡◌, refl, sym, ap, ◌∙◌, ◌==◌,
  ==_iff, if◌then◌else◌, if_true, if_false, Bool-cases, inl, inr, length, arith,
}
use cpp_practise.Channel.{Channel, Callback, Revents, set_revents, handle_event}
use cpp_practise.Channel.Dispatch.{wanted, same, times, handle_event_lem}
use cpp_practise.Poller.{Waited, poll}
use cpp_practise.Poller.Wait.{delivered, poll_lem}

-- `setREvents` of each channel that is reported.
unfoldable pub set_all : (ℕ → Channel) → List (ℕ × Revents) → ℕ → Channel
set_all chans [] = chans
set_all chans ((p, r) ∷ es) = set_all (λ q. if p == q then set_revents (chans p) r else chans q) es

abbrev pub tagged : ℕ → List Callback → List (ℕ × Callback)
tagged p [] = []
tagged p (k ∷ ks) = (p, k) ∷ tagged p ks

-- The loop over the active channels: the callbacks that are called, each with its channel.
unfoldable pub handle_all : (ℕ → Channel) → List (ℕ × Revents) → List (ℕ × Callback)
handle_all chans [] = []
handle_all chans ((p, r) ∷ es) = tagged p (handle_event (chans p)) ++ handle_all chans es

-- `poll` and the loop behind it.
pub handle_round : ℕ → Waited → (ℕ → Channel) → List (ℕ × Callback)
unfolding set_all handle_all
handle_round size w chans = handle_all (set_all chans (poll size w).1) (poll size w).1

-- What is reported for a pointer, and that none is reported twice.
abbrev pub reported : ℕ → List (ℕ × Revents) → Option Revents
reported p [] = none
reported p ((q, r) ∷ es) = if q == p then some r else reported p es

abbrev pub Distinct : List (ℕ × Revents) → Type 0
Distinct [] = Unit
Distinct ((q, r) ∷ es) = (reported q es ≡ none) × Distinct es

-- How often a callback of a channel is called.
abbrev pub times_at : ℕ → Callback → List (ℕ × Callback) → ℕ
times_at p k [] = 0
times_at p k ((q, j) ∷ cs) = (if (q == p) && same k j then 1 else 0) + times_at p k cs

times_at-append :
    (p : ℕ) (k : Callback) (cs ds : List (ℕ × Callback))
    → times_at p k (cs ++ ds) ≡ times_at p k cs + times_at p k ds
times_at-append p k [] ds = omega arith
times_at-append p k ((q, j) ∷ cs) ds = omega (arith, times_at-append p k cs ds)

times_at-tagged :
    (p q : ℕ) (k : Callback) (ks : List Callback)
    → times_at p k (tagged q ks) ≡ (if q == p then times k ks else 0)
times_at-tagged p q k [] = ground arith
times_at-tagged p q k (j ∷ ks) = ground (arith, times_at-tagged p q k ks)

abbrev pub calls_of : Callback → Option Revents → Channel → ℕ
calls_of k none c = 0
calls_of k (some r) c = times k (handle_event c)

handle_all-times :
    (chans : ℕ → Channel) (es : List (ℕ × Revents)) (p : ℕ) (k : Callback)
    → Distinct es
    → times_at p k (handle_all chans es) ≡ calls_of k (reported p es) (chans p)
unfolding handle_all
handle_all-times chans [] p k h = refl
handle_all-times chans ((q, r) ∷ es) p k h =
    let both = times_at-append p k (tagged q (handle_event (chans q))) (handle_all chans es) in
    let first = times_at-tagged p q k (handle_event (chans q)) in
    let others = handle_all-times chans es p k h.1 in
    elim (Bool-cases (q == p)) [
      | inl here ↦
          (let e : q ≡ p = (==_iff q p).0 here in
            let no = subst (λ x. reported x es ≡ none) e h.0 in
            rw here (
              omega (
                arith,
                both,
                first ∙ if_true (times k (handle_event (chans q))) 0 here,
                others ∙ ap (λ o. calls_of k o (chans p)) no,
                ap (λ x. times k (handle_event (chans x))) e,
              )))
      | inr away ↦
          rw away
            (omega (arith, both, first, others, if_false (times k (handle_event (chans q))) 0 away))
    ]

set_all-reported :
    (chans : ℕ → Channel) (es : List (ℕ × Revents)) (p : ℕ)
    → Distinct es
    → (reported p es ≡ none → set_all chans es p ≡ chans p)
      × ((r : Revents) → reported p es ≡ some r → set_all chans es p ≡ set_revents (chans p) r)
unfolding set_all
set_all-reported chans [] p h = (λ e. refl, λ r e. absurd (cc))
set_all-reported chans ((q, r) ∷ es) p h =
    let (absent, present) =
      set_all-reported (λ j. if q == j then set_revents (chans q) r else chans j) es p h.1 in
    elim (Bool-cases (q == p)) [
      | inl here ↦
          (let at : q ≡ p = (==_iff q p).0 here in
            let no = subst (λ x. reported x es ≡ none) at h.0 in
            let found = if_true (some r) (reported p es) here in
            (
              λ e. absurd (cc),
              λ r' e.
                  absent no
                  ∙ if_true (set_revents (chans q) r) (chans p) here
                  ∙ ap (λ x. set_revents (chans x) r) at
                  ∙ ap (λ x. set_revents (chans p) x) (some-injective _ _ (sym found ∙ e)),
            ))
      | inr away ↦
          (let older = if_false (some r) (reported p es) away in
            let kept = if_false (set_revents (chans q) r) (chans p) away in
            (
              λ e. absent (sym older ∙ e) ∙ kept,
              λ r' e. present r' (sym older ∙ e) ∙ ap (λ c. set_revents c r') kept,
            ))
    ]

-- A round of the loop, with an array of events that is not empty and a kernel that reports no more
-- events than fit and no channel twice: a channel that is not reported gets no call, and each callback
-- of one that is reported is called once if it is set and what happened asks for it, and otherwise not.
pub handle_round_lem :
    (size : ℕ) (w : Waited) (chans : ℕ → Channel) (p : ℕ) (k : Callback)
    → 0 < size
    → length (delivered w) ≤ size
    → Distinct (delivered w)
    → (reported p (delivered w) ≡ none → times_at p k (handle_round size w chans) ≡ 0)
      × ((r : Revents)
          → reported p (delivered w) ≡ some r
          → times_at p k (handle_round size w chans)
            ≡ (if wanted k r && (chans p).is_set k then 1 else 0))
unfolding handle_round
handle_round_lem size w chans p k h fits distinct =
    let es = delivered w in
    let got = (poll_lem size w h fits).0 in
    let same_calls =
      ap (λ ds. times_at p k (handle_all (set_all chans ds) ds)) got
      ∙ handle_all-times (set_all chans es) es p k distinct in
    (
      λ e. same_calls ∙ ap (λ o. calls_of k o (set_all chans es p)) e,
      λ r e.
          same_calls
          ∙ ap (λ o. calls_of k o (set_all chans es p)) e
          ∙ ap (λ c. times k (handle_event c)) ((set_all-reported chans es p distinct).1 r e)
          ∙ (handle_event_lem (set_revents (chans p) r)).1 k,
    )
