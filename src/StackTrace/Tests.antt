-- ===== src/StackTrace/Tests.antt =====
-- A frame of a function whose name can be demangled.
use cpp_practise.Base.{codes, ℕ, List, [], ◌∷◌, ◌++◌, Option, some, none, ◌≡◌, arith}
use cpp_practise.StackTrace.{frame}
use cpp_practise.StackTrace.Frame.{symbol, frame_lem}

abbrev demangle : List ℕ → Option (List ℕ)
demangle [] = none
demangle (c ∷ cs) = some (codes "run()")

frame_lem_example :
    ((out : List ℕ)
      → demangle (codes "_Z3runv") ≡ some out
      → frame demangle (symbol (codes "./a.out") (codes "_Z3runv") (codes "0x1f) [0x40]"))
        ≡ symbol (codes "./a.out") out (codes "0x1f) [0x40]") ++ b'\n' ∷ [])
    × (demangle (codes "_Z3runv") ≡ none
        → frame demangle (symbol (codes "./a.out") (codes "_Z3runv") (codes "0x1f) [0x40]")) ≡ [])
frame_lem_example =
    frame_lem (codes "./a.out") (codes "_Z3runv") (codes "0x1f) [0x40]") demangle (omega arith)
      (omega arith) (omega arith)
