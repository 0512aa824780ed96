-- ===== src/LogStream/Overloads.antt =====
-- base/LogStream.cpp: the operators for integers and `float`, which all lead to `formatInteger` and to the
-- operator for `double`. A value is of its type, so that the casts leave it as it is.
use cpp_practise.Base.{ℕ, List, Option, ◌≡◌, refl}
use cpp_practise.Base.Int.{ℤ}
use cpp_practise.LogStream.{FixedBuffer, format_integer, stream_double}

pub data Overload : Type 0 where
  short unsigned_short int unsigned_int long unsigned_long long_long unsigned_long_long : Overload

unfoldable pub stream_integer : Overload → FixedBuffer → ℤ → Option FixedBuffer
stream_integer short b v = format_integer b v
stream_integer unsigned_short b v = format_integer b v
stream_integer int b v = format_integer b v
stream_integer unsigned_int b v = format_integer b v
stream_integer long b v = format_integer b v
stream_integer unsigned_long b v = format_integer b v
stream_integer long_long b v = format_integer b v
stream_integer unsigned_long_long b v = format_integer b v

-- The text is that of the value as a `double`.
abbrev pub stream_float : FixedBuffer → List ℕ → Option FixedBuffer
stream_float b text = stream_double b text

pub stream_integer_lem :
    (o : Overload) (b : FixedBuffer) (v : ℤ) → stream_integer o b v ≡ format_integer b v
unfolding stream_integer
stream_integer_lem short b v = refl
stream_integer_lem unsigned_short b v = refl
stream_integer_lem int b v = refl
stream_integer_lem unsigned_int b v = refl
stream_integer_lem long b v = refl
stream_integer_lem unsigned_long b v = refl
stream_integer_lem long_long b v = refl
stream_integer_lem unsigned_long_long b v = refl
