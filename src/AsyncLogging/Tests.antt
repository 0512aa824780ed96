-- ===== src/AsyncLogging/Tests.antt =====
-- Runs of base/AsyncLogging.cpp on small inputs.
use cpp_practise.Base.{ℕ, List, [], ◌∷◌, some, true, false, ◌≡◌, refl, arith}
use cpp_practise.AsyncLogging.{AsyncLogging, make, fwriten}
use cpp_practise.AsyncLogging.Write.{fwriten_lem}
use cpp_practise.AsyncLogging.Sound.{IsSound}
use cpp_practise.AsyncLogging.Steps.{logged, logged-append, make-IsSound}
use cpp_practise.AsyncLogging.Service.{Service, waiting, Steps}
use cpp_practise.AsyncLogging.Rounds.{Action, log, turn, run, entries, run_lem}

-- Buffers of eight bytes.
abbrev memory : List ℕ
memory = 0 ∷ 0 ∷ 0 ∷ 0 ∷ 0 ∷ 0 ∷ 0 ∷ 0 ∷ []

abbrev hello : List ℕ
hello = 0x68 ∷ 0x65 ∷ 0x6c ∷ 0x6c ∷ 0x6f ∷ []

-- Two messages before the thread's first round, one within it, and one that no buffer holds.
abbrev acts : List Action
acts = log hello ∷ log hello ∷ turn ∷ log hello ∷ log memory ∷ turn ∷ turn ∷ turn ∷ []

fwriten_lem_example : fwriten hello (2 ∷ 3 ∷ []) ≡ some (0x68 ∷ 0x65 ∷ 0x68 ∷ 0x65 ∷ 0x6c ∷ [])
fwriten_lem_example = fwriten_lem hello (2 ∷ 3 ∷ []) (omega arith, (omega arith, tt)) refl

run_lem_example :
    (l : AsyncLogging) × (run memory (make memory) acts ≡ some l)
    × IsSound 8 l
    × (logged l ≡ entries 8 acts)
run_lem_example =
    run_lem memory (omega arith) acts (omega arith, (omega arith, (omega arith, (omega arith, tt))))

-- The destructor is called while the thread waits, with one message in the front buffer.
abbrev after_hello : AsyncLogging
after_hello =
    (logged-append memory (omega arith) (make memory) hello (make-IsSound memory (omega arith))
      (omega arith)).0

abbrev service : Service
service = record { log = after_hello; is_running = true; place = waiting }

abbrev stopped : Service
stopped = record service { is_running = false }
