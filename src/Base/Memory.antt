-- ===== src/Base/Memory.antt =====
-- Reads and writes of a block of bytes at an offset. Both fault outside the block.
use cpp_practise.Base.Tests.{leb, if◌then◌else◌, le→leb}
use cpp_practise.Base.Lists.{
  length, take, drop, length-append, length-take, length-drop, take-append_two,
}
use Prim.Native.Nat.{ℕ, ◌+◌, ◌≤◌}
use mathlib.Core.Path.{◌≡◌}
use mathlib.Core.Option.{Option, none, some}
use mathlib.Core.List.{List, ◌++◌}
use native.Mathlib.Omega.{arith}

-- The `n` bytes at offset `i`, and a write of `d` there. An index that is negative as an `int` is an
-- offset of almost 2 ^ 64.
unfoldable pub load : List ℕ → ℕ → ℕ → Option (List ℕ)
load s i n = if leb (i + n) (length s) then some (take n (drop i s)) else none

unfoldable pub store : List ℕ → ℕ → List ℕ → Option (List ℕ)
store s i d =
    if leb (i + length d) (length s) then some (take i s ++ (d ++ drop (i + length d) s)) else none

-- A store in range succeeds, with this result.
pub store-some :
    (s : List ℕ) (i : ℕ) (d : List ℕ)
    → i + length d ≤ length s
    → store s i d ≡ some (take i s ++ (d ++ drop (i + length d) s))
unfolding store
store-some s i d h = rw (le→leb (i + length d) (length s) h)

pub length-stored :
    (s : List ℕ) (i : ℕ) (d : List ℕ)
    → i + length d ≤ length s
    → length (take i s ++ (d ++ drop (i + length d) s)) ≡ length s
length-stored s i d h = omega (
  arith,
  length-append (take i s) (d ++ drop (i + length d) s),
  length-append d (drop (i + length d) s),
  length-take i s,
  length-drop (i + length d) s,
)

-- The bytes up to the end of a write.
pub take-stored :
    (s : List ℕ) (i : ℕ) (d : List ℕ) (k : ℕ)
    → i ≤ length s
    → k ≡ i + length d
    → take k (take i s ++ (d ++ drop (i + length d) s)) ≡ take i s ++ d
take-stored s i d k h e = take-append_two (take i s) d _ k (omega (arith, length-take i s))
