-- ===== src/AsyncLogging/Service.antt =====
-- base/AsyncLogging.cpp from the constructor to the destructor: `start`, the test of the thread's loop,
-- its wait, and the end.
use cpp_practise.Base.{
  ℕ, Bool, true, false, List, [], ◌∷◌, ◌++◌, Option, none, some, ◌≡◌, ◌>>=◌, if◌then◌else◌,
}
use cpp_practise.AsyncLogging.{AsyncLogging, make, append, swap, finish}

-- Where the thread is: not made yet, at the test of its loop, behind it and before the buffers are taken
-- (where it may wait), before the buffers are written, or at its end.
pub data Place : Type 0 where
  absent testing waiting writing ended : Place

pub record Service : Type 0 where
  pub log : AsyncLogging
  pub is_running : Bool
  pub place : Place

module _ (memory : List ℕ) where
  -- The constructor sets `_isRuning`.
  abbrev pub construct : Service
  construct = record { log = make memory; is_running = true; place = absent }

-- What the destructor does before it joins the thread. `none`: `_thread` is null.
abbrev pub join_thread : Place → Service → Option Service
join_thread absent s = none
join_thread _ s = some (record s { is_running = false })

unfoldable pub destroy : Service → Option Service
destroy s = if s.is_running then join_thread s.place s else some s

module _ (memory : List ℕ) where
  -- One step of a logger, of the owner or of the thread, and the messages that it logs.
  pub data Step (s : Service) : Service → List (List ℕ) → Type 0 where
    logs :
        {l : AsyncLogging} (msg : List ℕ)
        → append memory s.log msg ≡ some l
        → Step s (record s { log = l }) (msg ∷ [])
    starts : s.place ≡ absent → Step s (record s { is_running = true; place = testing }) []
    enters : s.place ≡ testing → s.is_running ≡ true → Step s (record s { place = waiting }) []
    leaves : s.place ≡ testing → s.is_running ≡ false → Step s (record s { place = ended }) []
    swaps :
        {l : AsyncLogging}
        → s.place ≡ waiting
        → swap s.log ≡ some l
        → Step s (record s { log = l; place = writing }) []
    writes :
        {l : AsyncLogging}
        → s.place ≡ writing
        → finish s.log ≡ some l
        → Step s (record s { log = l; place = testing }) []
    stops : {s' : Service} → destroy s ≡ some s' → Step s s' []

  pub data Steps : Service → List (List ℕ) → Type 0 where
    begin : Steps (construct memory) []
    later :
        {s s' : Service} {before msgs : List (List ℕ)}
        → Steps s before
        → Step s s' msgs
        → Steps s' (before ++ msgs)

-- What the thread still does once the destructor waits for it, if no logger comes between.
unfoldable pub run_out : Place → AsyncLogging → Option AsyncLogging
run_out waiting l = swap l >>= λ l'. finish l'
run_out writing l = finish l
run_out _ l = some l
