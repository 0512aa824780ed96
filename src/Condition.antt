-- ===== src/Condition.antt =====
-- base/Condition.h: the time until which `wait(double)` waits.
mod Tests
use cpp_practise.Base.{
  ℕ, ◌+◌, ◌*◌, ◌/◌, ◌%◌, ◌^◌, ◌≤◌, ◌<◌, Option, none, some, ◌≡◌, refl, arith, ltb, lt→ltb,
  if◌then◌else◌, ap₂, Bool, true, false, ◌&&◌,
}

pub record Timespec : Type 0 where
  pub sec : ℕ
  pub nsec : ℕ

abbrev pub nanos_per_second : ℕ
nanos_per_second = 1000 * 1000 * 1000

abbrev pub nanos : Timespec → ℕ
nanos t = t.sec * nanos_per_second + t.nsec

-- `nano_seconds` is what the conversion of the product to `int64_t` gives, for seconds that are not
-- negative. `none` is an overflow of a signed 64-bit number.
unfoldable pub deadline : Timespec → ℕ → Option Timespec
deadline now nano_seconds =
    if ltb (now.nsec + nano_seconds) (2 ^ 63)
      && ltb (now.sec + (now.nsec + nano_seconds) / nanos_per_second) (2 ^ 63)
    then some (record {
      sec = now.sec + (now.nsec + nano_seconds) / nanos_per_second;
      nsec = (now.nsec + nano_seconds) % nanos_per_second;
    })
    else none

-- For a clock whose nanoseconds are less than a second, and a time that does not overflow: the result is
-- the clock's time and the given nanoseconds later, and its nanoseconds are less than a second again.
pub deadline_lem :
    (now : Timespec) (nano_seconds : ℕ)
    → now.nsec < nanos_per_second
    → now.nsec + nano_seconds < 2 ^ 62
    → now.sec < 2 ^ 62
    → (t : Timespec) × (deadline now nano_seconds ≡ some t)
      × (nanos t ≡ nanos now + nano_seconds)
      × (t.nsec < nanos_per_second)
unfolding deadline
deadline_lem now n h small secs = (
  record {
    sec = now.sec + (now.nsec + n) / nanos_per_second;
    nsec = (now.nsec + n) % nanos_per_second;
  },
  rw
      (
        lt→ltb (now.nsec + n) (2 ^ 63) (omega arith),
        lt→ltb (now.sec + (now.nsec + n) / nanos_per_second) (2 ^ 63) (omega arith),
      )
      refl,
  omega arith,
  omega arith,
)
