-- ===== src/Logging.antt =====
-- base/Logging.h and base/Logging.cpp: a log line, from the test of its level to the call of the output
-- function. The line is made in the buffer of a log stream.
pub mod Line
pub mod Async
pub mod Settings
pub mod Time
mod Tests
use mathlib.Core.Option
use cpp_practise.Base.{
  codes, ℕ, zero, suc, Bool, true, false, List, [], ◌∷◌, ◌++◌, Option, none, some, ◌>>=◌, take, leb,
  if◌then◌else◌,
}
use cpp_practise.Base.Int.{ℤ}
use cpp_practise.LogStream.{
  FixedBuffer, format_integer, stream_bool, stream_char, stream_c_string, stream_string,
}

-- `LogLevel`; the last one is the number of the others.
pub data LogLevel : Type 0 where
  trace debug info warning error fatal num_log_levels : LogLevel

abbrev pub rank : LogLevel → ℕ
rank trace = 0
rank debug = 1
rank info = 2
rank warning = 3
rank error = 4
rank fatal = 5
rank num_log_levels = 6

-- `logLevelName`. `none`: the index is behind the table.
abbrev pub log_level_name : LogLevel → Option (List ℕ)
log_level_name trace = some (codes "TRACE ")
log_level_name debug = some (codes "DEBUG ")
log_level_name info = some (codes "INFO  ")
log_level_name warning = some (codes "WARNING  ")
log_level_name error = some (codes "ERROR ")
log_level_name fatal = some (codes "FATAL ")
log_level_name num_log_levels = none

-- What `operator<<` is given: a value of any type but a pointer or a floating-point number.
pub data Item : Type 0 where
  string : List ℕ → Item
  c_string : Option (List ℕ) → Item
  char : ℕ → Item
  integer : ℤ → Item
  bool : Bool → Item

unfoldable pub stream_item : FixedBuffer → Item → Option FixedBuffer
stream_item b (string s) = stream_string b s
stream_item b (c_string s) = stream_c_string b s
stream_item b (char c) = stream_char b c
stream_item b (integer v) = format_integer b v
stream_item b (bool v) = stream_bool b v

unfoldable pub stream_items : FixedBuffer → List Item → Option FixedBuffer
stream_items b [] = some b
stream_items b (i ∷ is) = stream_item b i >>= λ b'. stream_items b' is

-- The place of a log macro in the program: `__FILE__`, `__LINE__`, `__func__` and the level.
pub record Site : Type 0 where
  pub filename : List ℕ
  pub line : ℤ
  pub funcname : List ℕ
  pub level : LogLevel

-- What the constructor streams; `time` is what `now` returns.
abbrev pub heading : List ℕ → List ℕ → Site → List Item
heading time name s =
    string time
    ∷ char b'-'
    ∷ c_string (some name)
    ∷ char b'-'
    ∷ string s.filename
    ∷ char b'-'
    ∷ integer s.line
    ∷ char b'-'
    ∷ string s.funcname
    ∷ char b'-'
    ∷ []

-- The destructor's newline.
abbrev pub ending : List Item
ending = char b'\n' ∷ []

-- The buffer of a stream that was just made, of which `memory` is what it holds.
abbrev pub new_stream : List ℕ → FixedBuffer
new_stream memory = record { storage = memory; cur = 0 }

-- Constructor, message and the destructor's first line. `none` is a fault.
pub make_line : List ℕ → List ℕ → Site → List Item → Option FixedBuffer
unfolding stream_items
make_line memory time s items = log_level_name s.level >>= λ name.
    stream_items (new_stream memory) (heading time name s) >>= λ b.
    stream_items b items >>= λ b'. stream_items b' ending

abbrev pub is_fatal : LogLevel → Bool
is_fatal fatal = true
is_fatal _ = false

-- The output function `g_output` and `g_flush` work on a state `S`.
module _ {S : Type 0} (output : S → List ℕ → Option S) (flush : S → S) where
  -- The rest of the destructor; the flag tells that it calls `abort`.
  abbrev pub put_out : LogLevel → FixedBuffer → S → Option (S × Bool)
  put_out level b s =
      Option.map (λ s'. if is_fatal level then (flush s', true) else (s', false))
        (output s (take b.cur b.storage))

  -- A statement with a log macro, if `g_logLevel` is `bar`.
  pub log_statement : LogLevel → List ℕ → List ℕ → Site → List Item → S → Option (S × Bool)
  unfolding make_line
  log_statement bar memory time site items s =
      if leb (rank bar) (rank site.level)
      then (make_line memory time site items >>= λ b. put_out site.level b s)
      else some (s, false)
