-- ===== src/Base/Words.antt =====
-- Machine integers as bit patterns: `int` has 32 bits, `size_t` and `ssize_t` have 64.
use Prim.Native.Nat.{ℕ, ◌+◌, ◌-◌, ◌%◌, ◌^◌, ◌<◌}
use mathlib.Core.Path.{◌≡◌}
use native.Mathlib.Omega.{arith}
use cpp_practise.Base.Tests.{ltb, if◌then◌else◌}

-- Conversion of an integer to `int` keeps its low 32 bits.
abbrev pub to_int : ℕ → ℕ
to_int n = n % 2 ^ 32

-- Conversion of an `int` to `size_t` extends its sign.
abbrev pub to_size : ℕ → ℕ
to_size w = if ltb w (2 ^ 31) then w else w + (2 ^ 64 - 2 ^ 32)

abbrev pub add_int : ℕ → ℕ → ℕ
add_int a b = (a + b) % 2 ^ 32

abbrev pub sub_int : ℕ → ℕ → ℕ
sub_int a b = (a + 2 ^ 32 - b) % 2 ^ 32

abbrev pub add_size : ℕ → ℕ → ℕ
add_size a b = (a + b) % 2 ^ 64

abbrev pub sub_size : ℕ → ℕ → ℕ
sub_size a b = (a + (2 ^ 64 - b % 2 ^ 64)) % 2 ^ 64

pub to_size_of_lt : (w : ℕ) → w < 2 ^ 31 → to_size w ≡ w
to_size_of_lt w h = ground arith

pub to_int_of_lt : (w : ℕ) → w < 2 ^ 31 → to_int w ≡ w
to_int_of_lt w h = omega arith
