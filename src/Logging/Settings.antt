-- ===== src/Logging/Settings.antt =====
-- base/Logging.cpp: what `setLogLevel`, `setOutput` and `setFlush` choose for the statements that follow.
use cpp_practise.Base.{ℕ, Bool, List, Option}
use cpp_practise.Logging.{LogLevel, trace, Site, Item, log_statement}

-- `g_logLevel`, `g_output` and `g_flush`, over the state that the functions change.
pub record Settings (S : Type 0) : Type 0 where
  pub log_level : LogLevel
  pub output : S → List ℕ → Option S
  pub flush : S → S

module _ {S : Type 0} where
  -- The settings at first, with `defaultOutput` and `defaultFlush`, which write to stdout.
  abbrev pub initial : (S → List ℕ → Option S) → (S → S) → Settings S
  initial stdout flush_stdout = record { log_level = trace; output = stdout; flush = flush_stdout }

  abbrev pub set_log_level : LogLevel → Settings S → Settings S
  set_log_level level g = record g { log_level = level }

  abbrev pub set_output : (S → List ℕ → Option S) → Settings S → Settings S
  set_output f g = record g { output = f }

  abbrev pub set_flush : (S → S) → Settings S → Settings S
  set_flush f g = record g { flush = f }

  -- A statement with a log macro, with the settings of its time.
  abbrev pub statement : Settings S → List ℕ → List ℕ → Site → List Item → S → Option (S × Bool)
  statement g memory time site items s =
      log_statement g.output g.flush g.log_level memory time site items s
