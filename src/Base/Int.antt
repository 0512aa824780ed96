-- ===== src/Base/Int.antt =====
-- Signed integers over the native numbers, and division that truncates towards zero, as in C++.
use Prim.Native.Nat.{ℕ, zero, suc, ◌/◌, ◌%◌}

-- `negsuc n` is -(n + 1).
pub data ℤ : Type 0 where
  pos : ℕ → ℤ
  negsuc : ℕ → ℤ

-- -n
abbrev pub neg_ℕ : ℕ → ℤ
neg_ℕ zero = pos 0
neg_ℕ (suc n) = negsuc n

-- The absolute value.
abbrev pub magnitude : ℤ → ℕ
magnitude (pos n) = n
magnitude (negsuc n) = suc n

-- `i / d` and `i % d`: the remainder has the sign of `i`.
abbrev pub quot : ℤ → ℕ → ℤ
quot (pos n) d = pos (n / d)
quot (negsuc n) d = neg_ℕ (suc n / d)

abbrev pub rem : ℤ → ℕ → ℤ
rem (pos n) d = pos (n % d)
rem (negsuc n) d = neg_ℕ (suc n % d)
