-- ===== src/LogStream/Numbers.antt =====
-- `convert` writes the decimal notation of every 64-bit integer, and `formatInteger` appends it.
use mathlib.Core.List.{map, reverse, reverse-append, map-append}
use native.Mathlib.Nat.{pow-suc}
use cpp_practise.Base.{
  ltb→ge, holds_below, holds_at, ◌&&◌, length-map, ==_iff, ℕ, zero, suc, ◌+◌, ◌/◌, ◌%◌, ◌^◌, ◌≤◌,
  ◌<◌, ◌≡◌, refl, List, [], ◌∷◌, ◌++◌, arith, length, length-append, some, ltb, ◌==◌, if◌then◌else◌,
  Bool-cases, inl, inr, true, false, take-append_self,
}
use cpp_practise.Base.Int.{ℤ, pos, negsuc, quot, rem, magnitude, neg_ℕ}
use cpp_practise.LogStream.{
  FixedBuffer, convert, convert_loop, digit_at, is_zero, sign, format_integer,
}
use cpp_practise.LogStream.Fixed.{IsValid, text, rest-ltb, write_text_lem}
use cpp_practise.LogStream.Digits.{Little, last, more, Spells, reverse-Spells, length-Little}

abbrev pub decimal_char : ℕ → ℕ
decimal_char d = b'0' + d

-- `out` is the decimal notation of `v`: a minus sign if it is negative, and the digits.
pub record IsDecimal (v : ℤ) (out : List ℕ) : Type 0 where
  pub ds : List ℕ
  pub spells : Spells 10 (magnitude v) ds
  pub shape : out ≡ sign v ++ map decimal_char ds
  pub short : length out ≤ 21

digit_table :
    holds_below (λ d. digit_at (pos d) == decimal_char d && digit_at (neg_ℕ d) == decimal_char d) 10
    ≡ true
unfolding holds_below
digit_table = refl

digit_at_lem :
    (d : ℕ) → d < 10 → (digit_at (pos d) ≡ decimal_char d) × (digit_at (neg_ℕ d) ≡ decimal_char d)
digit_at_lem d h = ground (
  arith,
  holds_at (λ e. digit_at (pos e) == decimal_char e && digit_at (neg_ℕ e) == decimal_char e) d 10 h
      digit_table,
)

-- One round of the loop: the digit that it writes, and the test at its end. The remainder and the
-- quotient of a negative value are those of its absolute value, with the sign.
digit_at-rem : (i : ℤ) → digit_at (rem i 10) ≡ decimal_char (magnitude i % 10)
digit_at-rem (pos n) = (digit_at_lem (n % 10) (omega arith)).0
digit_at-rem (negsuc n) = (digit_at_lem (suc n % 10) (omega arith)).1

magnitude-neg : (n : ℕ) → magnitude (neg_ℕ n) ≡ n
magnitude-neg zero = refl
magnitude-neg (suc n) = refl

magnitude-quot : (i : ℤ) → magnitude (quot i 10) ≡ magnitude i / 10
magnitude-quot (pos n) = refl
magnitude-quot (negsuc n) = magnitude-neg (suc n / 10)

is_zero-magnitude : (i : ℤ) → is_zero i ≡ (magnitude i == 0)
is_zero-magnitude (pos n) = refl
is_zero-magnitude (negsuc n) = ground arith

-- Where the loop ends after one round, the value has one digit.
one_digit :
    (i : ℤ)
    → is_zero (quot i 10) ≡ true
    → (magnitude i < 10) × (digit_at (rem i 10) ≡ decimal_char (magnitude i))
one_digit i done = (small, rw (digit_at-rem i) (omega (arith, small)))
  where
    tenth : (magnitude i / 10 == 0) ≡ true
    tenth = rw (← magnitude-quot i, ← is_zero-magnitude (quot i 10)) done

    small : magnitude i < 10
    small = omega (arith, (==_iff (magnitude i / 10) 0).0 tenth)

more_digits : (i : ℤ) → is_zero (quot i 10) ≡ false → 10 ≤ magnitude i
more_digits i goes_on = ground (arith, magnitude-quot i, is_zero-magnitude (quot i 10))

-- With fuel for its digits the loop ends, and writes them all.
convert_loop_lem :
    (fuel : ℕ) (i : ℤ)
    → magnitude i < 10 ^ suc fuel
    → (ds : List ℕ) × (convert_loop (suc fuel) i ≡ some (map decimal_char ds))
      × Little 10 (magnitude i) ds
unfolding convert_loop
convert_loop_lem zero i h = elim (Bool-cases (is_zero (quot i 10))) [
  | inl done ↦ (magnitude i ∷ [], rw (done, (one_digit i done).1), last (one_digit i done).0)
  | inr goes_on ↦ absurd (omega (arith, more_digits i goes_on))
]
convert_loop_lem (suc fuel) i h = elim (Bool-cases (is_zero (quot i 10))) [
  | inl done ↦ (magnitude i ∷ [], rw (done, (one_digit i done).1), last (one_digit i done).0)
  | inr goes_on ↦
      (let (ds, e, l) =
          convert_loop_lem fuel (quot i 10)
            (omega (arith, magnitude-quot i, pow-suc 10 (suc fuel))) in
        (
          (magnitude i % 10) ∷ ds,
          rw (goes_on, e, digit_at-rem i),
          more (more_digits i goes_on) (rw (magnitude-quot i) at l),
        ))
]

pub map-reverse : (f : ℕ → ℕ) (ds : List ℕ) → reverse (map f ds) ≡ map f (reverse ds)
map-reverse f [] = refl
map-reverse f (d ∷ ds) = rw (
  reverse-append (f d ∷ []) (map f ds),
  reverse-append (d ∷ []) ds,
  map-append f (reverse ds) (d ∷ []),
  map-reverse f ds,
)

reverse-sign : (v : ℤ) → reverse (sign v) ≡ sign v
reverse-sign (pos n) = refl
reverse-sign (negsuc n) = refl

length-sign : (v : ℤ) → length (sign v) ≤ 1
length-sign (pos n) = omega arith
length-sign (negsuc n) = omega arith

pub length-reverse : (ds : List ℕ) → length (reverse ds) ≡ length ds
length-reverse [] = refl
length-reverse (d ∷ ds) =
    rw (reverse-append (d ∷ []) ds)
      (omega (arith, length-append (reverse ds) (d ∷ []), length-reverse ds))

-- `convert` ends on every value of at most 64 bits, the smallest negative one included, and writes its
-- decimal notation: a minus sign exactly if it is negative, then its digits, with no zero in front,
-- in at most 21 characters.
pub convert_lem :
    (v : ℤ) → magnitude v < 2 ^ 64 → (out : List ℕ) × (convert v ≡ some out) × IsDecimal v out
unfolding convert
convert_lem v h =
    let (ds, e, l) = convert_loop_lem 19 v (omega arith) in
    (
      reverse (map decimal_char ds ++ sign v),
      rw e,
      rw
          (
            reverse-append (map decimal_char ds) (sign v),
            reverse-sign v,
            map-reverse decimal_char ds,
          )
          (record {
            ds = reverse ds;
            spells = reverse-Spells (omega arith) l;
            shape = refl;
            short = omega (
              arith,
              length-append (sign v) (map decimal_char (reverse ds)),
              length-sign v,
              length-map (reverse ds) decimal_char,
              length-reverse ds,
              length-Little l 19 (omega arith) (omega arith),
            );
          }),
    )

-- `formatInteger`, on a valid buffer and a value of at most 64 bits, never writes outside the buffer
-- and leaves it valid. With at least 32 bytes left it appends the decimal notation and a blank; with
-- fewer it changes nothing.
pub format_integer_lem :
    {b : FixedBuffer} (v : ℤ)
    → IsValid b
    → magnitude v < 2 ^ 64
    → (out : List ℕ) × IsDecimal v out
      × ((b' : FixedBuffer) × (format_integer b v ≡ some b')
          × IsValid b'
          × (text b' ≡ (
              if ltb (length b.storage) (b.cur + 32) then text b else text b ++ (out ++ 0x20 ∷ [])))
          × (length b'.storage ≡ length b.storage))
unfolding format_integer
format_integer_lem {b} v valid h =
    let (out, e, d) = convert_lem v h in
    (
      out,
      d,
      elim (Bool-cases (ltb (length b.storage) (b.cur + 32))) [
        | inl full ↦ (b, rw (rest-ltb valid, full), valid, rw full, refl)
        | inr roomy ↦
            (let (b', e', valid', written, _, long) =
                write_text_lem {b = b} out (length out) valid
                  (omega (arith, d.short, ltb→ge (length b.storage) (b.cur + 32) roomy))
                  (omega (arith, length-append out (0 ∷ []))) in
              (
                b',
                rw (rest-ltb valid, roomy, e, e'),
                valid',
                rw (roomy, written, take-append_self (length out) out (0 ∷ []) refl),
                long,
              ))
      ],
    )
