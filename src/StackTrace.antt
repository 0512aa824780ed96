-- ===== src/StackTrace.antt =====
-- base/CurrentThread.cpp: the text of a stack trace, out of the symbols of its frames.
pub mod Frame
mod Tests
use mathlib.Core.Option
use cpp_practise.Base.{
  ℕ, zero, suc, ◌+◌, ◌-◌, Bool, true, false, List, [], ◌∷◌, ◌++◌, Option, none, some, ◌==◌, ltb,
  if◌then◌else◌, take, drop,
}

-- The pointers `leftPar` and `plus`, as offsets into the symbol.
pub record Marks : Type 0 where
  pub left_par : Option ℕ
  pub plus : Option ℕ

abbrev pub mark : ℕ → ℕ → Marks → Marks
mark c i m =
    if c == b'('
    then record m { left_par = some i }
    else if c == b'+'
    then record m { plus = some i }
    else m

-- The loop over the characters of a symbol.
unfoldable pub scan : List ℕ → ℕ → Marks → Marks
scan [] i m = m
scan (c ∷ cs) i m = scan cs (i + 1) (mark c i m)

-- The text from behind the parenthesis at `l` to the NUL that replaces the plus sign at `p`.
abbrev pub mangled : List ℕ → ℕ → ℕ → List ℕ
mangled s l p = if ltb l p then take (p - (l + 1)) (drop (l + 1) s) else drop (l + 1) s

-- `demangle` is `__cxa_demangle`; `none`: its status is not 0.
module _ (demangle : List ℕ → Option (List ℕ)) where
  abbrev pub append_name : List ℕ → ℕ → ℕ → Option (List ℕ) → List ℕ
  append_name s l p none = []
  append_name s l p (some name) = take (l + 1) s ++ (name ++ (drop p s ++ b'\n' ∷ []))

  abbrev pub append_marked : List ℕ → Option ℕ → Option ℕ → List ℕ
  append_marked s none p = []
  append_marked s (some l) none = []
  append_marked s (some l) (some p) = append_name s l p (demangle (mangled s l p))

  -- What one symbol adds.
  pub frame : List ℕ → List ℕ
  unfolding scan
  frame s =
      let m = scan s 0 (record { left_par = none; plus = none }) in
      append_marked s m.left_par m.plus

  frames : List (List ℕ) → List ℕ
  unfolding frame
  frames [] = []
  frames (s ∷ ss) = frame s ++ frames ss

  -- `stackTrace`: the first symbol is its own. `none`: `backtrace_symbols` returns null.
  pub stack_trace : Option (List (List ℕ)) → List ℕ
  unfolding frames
  stack_trace none = []
  stack_trace (some symbols) = frames (drop 1 symbols)
