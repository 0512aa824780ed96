-- ===== src/AsyncLogging/Shutdown.antt =====
-- base/AsyncLogging.cpp: what the file holds when the destructor has joined the thread.
use cpp_practise.Base.{ℕ, ◌^◌, ◌<◌, Bool, true, false, List, [], ◌∷◌, ◌++◌, some, ◌≡◌, length}
use cpp_practise.AsyncLogging.{AsyncLogging}
use cpp_practise.AsyncLogging.Write.{texts}
use cpp_practise.AsyncLogging.Sound.{IsSound}
use cpp_practise.AsyncLogging.Steps.{text_of, logged, entry}
use cpp_practise.AsyncLogging.Service.{Place, waiting, writing, Service, Steps, run_out}

abbrev pub AllShort : List (List ℕ) → Type 0
AllShort [] = Unit
AllShort (m ∷ ms) = (length m < 2 ^ 31) × AllShort ms

abbrev pub all_entries : ℕ → List (List ℕ) → List ℕ
all_entries size [] = []
all_entries size (m ∷ ms) = entry size m ++ all_entries size ms

-- The text that is in the loggers' buffers.
abbrev pub unwritten : AsyncLogging → List ℕ
unwritten l = texts l.full ++ text_of l.front

-- The text that the file will not get if the destructor is called with the thread at this place.
abbrev pub lost : Place → AsyncLogging → List ℕ
lost waiting l = []
lost _ l = unwritten l

-- Where the thread is, and whether it holds buffers to write.
abbrev pub is_writing : Place → Bool
is_writing writing = true
is_writing _ = false

module _ (memory : List ℕ) (small : length memory < 2 ^ 31) where
  abbrev size : ℕ
  size = length memory

  pub record IsLive (s : Service) : Type 0 where
    pub sound : IsSound size s.log
    pub busy : s.log.busy ≡ is_writing s.place

  -- What one step keeps, and what it adds to the log.
  Goes : Service → Service → List (List ℕ) → Type 0
  Goes s s' msgs = IsLive s' × (logged s'.log ≡ logged s.log ++ all_entries size msgs)

  -- The thread goes on from its place until its end.
  RunsOut : Place → AsyncLogging → Type 0
  RunsOut p l = (l' : AsyncLogging) × (run_out p l ≡ some l') × (l'.file ++ lost p l ≡ logged l)
