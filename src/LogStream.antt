-- ===== src/LogStream.antt =====
-- base/LogStream.h and base/LogStream.cpp: the fixed buffer of a log line, the conversion of numbers
-- to text, and the stream operators. The proofs stand in the modules below.
pub mod Fixed
pub mod Digits
pub mod Overloads
pub mod Numbers
pub mod Pointers
mod Tests
use mathlib.Core.Option
use cpp_practise.Base.{
  codes, ℕ, zero, suc, ◌+◌, ◌-◌, ◌/◌, ◌%◌, ◌^◌, Bool, true, false, Option, none, some, List, [],
  ◌∷◌, ◌++◌, ltb, leb, ◌==◌, if◌then◌else◌, ◌>>=◌, length, get_or, take, to_int, to_size, add_int,
  sub_int, add_size, sub_size, load, store,
}
use cpp_practise.Base.Int.{ℤ, pos, negsuc, quot, rem}
use mathlib.Core.List.{reverse}

-- `FixedBuffer<SIZE>`: `_buf`, of `SIZE` bytes, and the offset of `_cur` in it.
pub record FixedBuffer : Type 0 where
  pub storage : List ℕ
  pub cur : ℕ

-- `_cur - _buf` and `end() - _cur`, cast to `int`.
abbrev pub buffer_length : FixedBuffer → ℕ
buffer_length b = to_int b.cur

abbrev pub rest : FixedBuffer → ℕ
rest b = to_int (sub_size (length b.storage) b.cur)

-- `a < b` on `int`: a pattern from 2 ^ 31 on is negative.
abbrev pub ltb_int : ℕ → ℕ → Bool
ltb_int a b = ltb (add_int a (2 ^ 31)) (add_int b (2 ^ 31))

-- The pointer moves behind the text and one byte more, which becomes a blank.
pub add_length : FixedBuffer → ℕ → Option FixedBuffer
unfolding store
add_length b len =
    let cur' = b.cur + (len + 1) in
    Option.map (λ s. record { storage = s; cur = cur' })
      (store b.storage (to_size (sub_int (to_int cur') 1)) (0x20 ∷ []))

-- `FixedBuffer::append`: a message that does not fit is dropped.
pub append : FixedBuffer → List ℕ → Option FixedBuffer
unfolding add_length
append b msg =
    if ltb_int (to_int (length msg)) (rest b)
    then (store b.storage b.cur msg >>= λ s.
        add_length (record b { storage = s }) (to_size (to_int (length msg))))
    else some b

abbrev pub clear : FixedBuffer → FixedBuffer
clear b = record b { cur = 0 }

-- `digits`, whose tenth character is the `zero` that a remainder between -9 and 9 is counted from.
abbrev pub digits : List ℕ
digits = codes "9876543210123456789"

abbrev pub digits_hex : List ℕ
digits_hex = codes "0123456789ABCDEF"

-- `zero[lsd]`
abbrev pub digit_at : ℤ → ℕ
digit_at (pos d) = get_or digits (9 + d) 0
digit_at (negsuc d) = get_or digits (9 - (d + 1)) 0

abbrev is_zero : ℤ → Bool
is_zero (pos n) = n == 0
is_zero (negsuc n) = false

-- The loop of `convert`, on fuel: the characters that it writes, the last digit first. `none` means
-- that the fuel ran out.
unfoldable pub convert_loop : ℕ → ℤ → Option (List ℕ)
convert_loop zero i = none
convert_loop (suc fuel) i =
    let more = Option.map (◌∷◌ (digit_at (rem i 10))) (convert_loop fuel (quot i 10)) in
    if is_zero (quot i 10) then some (digit_at (rem i 10) ∷ []) else more

abbrev sign : ℤ → List ℕ
sign (pos n) = []
sign (negsuc n) = b'-' ∷ []

-- The characters that `convert` leaves in the buffer, before the final NUL. A value of at most 64
-- bits has at most 20 digits.
pub convert : ℤ → Option (List ℕ)
unfolding convert_loop
convert v = Option.map (λ cs. reverse (cs ++ sign v)) (convert_loop 20 v)

unfoldable pub convert_hex_loop : ℕ → ℕ → Option (List ℕ)
convert_hex_loop zero i = none
convert_hex_loop (suc fuel) i =
    let more = Option.map (◌∷◌ (get_or digits_hex (i % 16) 0)) (convert_hex_loop fuel (i / 16)) in
    if i / 16 == 0 then some (get_or digits_hex (i % 16) 0 ∷ []) else more

-- A `uintptr_t` has at most 16 digits.
pub convert_hex : ℕ → Option (List ℕ)
unfolding convert_hex_loop
convert_hex v = Option.map reverse (convert_hex_loop 16 v)

-- Characters and a NUL are written at the pointer, which then moves on by `len` and one.
abbrev pub write_text : FixedBuffer → List ℕ → ℕ → Option FixedBuffer
write_text b text len =
    store b.storage b.cur (text ++ 0 ∷ []) >>= λ s. add_length (record b { storage = s }) len

-- `LogStream::formatInteger`, for every integer type.
pub format_integer : FixedBuffer → ℤ → Option FixedBuffer
unfolding convert add_length
format_integer b v =
    if ltb_int (rest b) 32 then some b else convert v >>= λ text. write_text b text (length text)

-- `operator<<(const void*)`: two characters and the hexadecimal digits are written, and the pointer
-- moves on by the number of digits and one.
pub stream_pointer : FixedBuffer → ℕ → Option FixedBuffer
unfolding convert_hex add_length
stream_pointer b p =
    if ltb_int (rest b) 32
    then some b
    else convert_hex p >>= λ hex. write_text b (b'0' ∷ b'x' ∷ hex) (length hex)

-- `operator<<(double)`: `snprintf` with "%.12g" gives `text`; it writes at most 31 bytes of it and a
-- NUL, and returns its whole length.
pub stream_double : FixedBuffer → List ℕ → Option FixedBuffer
unfolding add_length
stream_double b text =
    if ltb_int (rest b) 32 then some b else write_text b (take 31 text) (length text)

-- The operators for `bool`, `char`, C strings (`none` is a null pointer) and `std::string`.
unfoldable pub stream_bool : FixedBuffer → Bool → Option FixedBuffer
unfolding format_integer
stream_bool b v = format_integer b (if v then pos 1 else pos 0)

unfoldable pub stream_char : FixedBuffer → ℕ → Option FixedBuffer
unfolding append
stream_char b c = append b (c ∷ [])

unfoldable pub stream_c_string : FixedBuffer → Option (List ℕ) → Option FixedBuffer
unfolding append
stream_c_string b none = append b (codes "(null)")
stream_c_string b (some s) = append b s

unfoldable pub stream_string : FixedBuffer → List ℕ → Option FixedBuffer
unfolding append
stream_string b s = append b s
