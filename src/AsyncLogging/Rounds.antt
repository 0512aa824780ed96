-- ===== src/AsyncLogging/Rounds.antt =====
-- base/AsyncLogging.cpp: what is logged over any sequence of messages and of rounds of the thread.
use cpp_practise.Base.{
  ℕ, ◌^◌, ◌<◌, List, [], ◌∷◌, ◌++◌, Option, some, ◌≡◌, refl, sym, length, ◌>>=◌, append-nil,
  append_assoc, ap, ◌∙◌,
}
use cpp_practise.AsyncLogging.{AsyncLogging, make, append}
use cpp_practise.AsyncLogging.Sound.{IsSound}
use cpp_practise.AsyncLogging.Steps.{logged, entry, make-IsSound, logged-append}
use cpp_practise.AsyncLogging.Turn.{next_round, next_round_lem}

-- What loggers and the thread do: a message is logged, or the thread goes on to its next step.
pub data Action : Type 0 where
  log : List ℕ → Action
  turn : Action

abbrev pub Fit : List Action → Type 0
Fit [] = Unit
Fit (log msg ∷ acts) = (length msg < 2 ^ 31) × Fit acts
Fit (turn ∷ acts) = Fit acts

abbrev pub entries : ℕ → List Action → List ℕ
entries size [] = []
entries size (log msg ∷ acts) = entry size msg ++ entries size acts
entries size (turn ∷ acts) = entries size acts

unfoldable pub run : List ℕ → AsyncLogging → List Action → Option AsyncLogging
run memory l [] = some l
run memory l (log msg ∷ acts) = append memory l msg >>= λ l'. run memory l' acts
run memory l (turn ∷ acts) = next_round l >>= λ l'. run memory l' acts

module _ (memory : List ℕ) (small : length memory < 2 ^ 31) where
  abbrev size : ℕ
  size = length memory

  run_from :
      (acts : List Action) (l : AsyncLogging)
      → IsSound size l
      → Fit acts
      → (l' : AsyncLogging) × (run memory l acts ≡ some l')
        × IsSound size l'
        × (logged l' ≡ logged l ++ entries size acts)
  unfolding run
  run_from [] l s h = (l, refl, s, sym (append-nil (logged l)))
  run_from (log msg ∷ acts) l s h =
      let (l1, e1, s1, t1) = logged-append memory small l msg s h.0 in
      let (l2, e2, s2, t2) = run_from acts l1 s1 h.1 in
      (
        l2,
        rw (e1, e2),
        s2,
        t2
            ∙ ap (λ t. t ++ entries size acts) t1
            ∙ append_assoc (logged l) (entry size msg) (entries size acts),
      )
  run_from (turn ∷ acts) l s h =
      let (l1, e1, s1, t1) = next_round_lem memory small l s in
      let (l2, e2, s2, t2) = run_from acts l1 s1 h in
      (l2, rw (e1, e2), s2, t2 ∙ ap (λ t. t ++ entries size acts) t1)

  -- Logging that begins with buffers of less than 2 ^ 31 bytes, and then any sequence of messages shorter
  -- than 2 ^ 31 and steps of the thread, if `fwrite` takes all that it is given: nothing faults, so no
  -- pointer that is used is null, and the file, the buffers that the thread writes, the full buffers and the
  -- front buffer hold, in this order, every message shorter than a buffer with a blank behind it, in the
  -- order in which they were logged.
  pub run_lem :
      (acts : List Action)
      → Fit acts
      → (l : AsyncLogging) × (run memory (make memory) acts ≡ some l)
        × IsSound size l
        × (logged l ≡ entries size acts)
  run_lem acts h = run_from acts (make memory) (make-IsSound memory small) h
