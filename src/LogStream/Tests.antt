-- ===== src/LogStream/Tests.antt =====
-- The log stream on small inputs.
use mathlib.Core.Option
use cpp_practise.Base.{
  ℕ, ◌≡◌, refl, List, [], ◌∷◌, ◌++◌, arith, length, Option, some, none, take, replicate, codes,
  true,
}
use cpp_practise.Base.Int.{pos, negsuc}
use cpp_practise.LogStream.{
  FixedBuffer, append, convert, format_integer, stream_pointer, stream_bool, stream_c_string,
  stream_char, stream_string, stream_double,
}
use cpp_practise.LogStream.Fixed.{IsValid, text, text-append}
use cpp_practise.LogStream.Numbers.{IsDecimal, convert_lem, format_integer_lem}
use cpp_practise.LogStream.Pointers.{IsHex, stream_pointer_lem}

abbrev line : FixedBuffer
line = record { storage = codes "ab " ++ replicate 40 0; cur = 3 }

abbrev shown : Option FixedBuffer → Option (List ℕ)
shown = Option.map (λ b. text b)

line-IsValid : IsValid line
line-IsValid = omega arith

decimals :
    (convert (negsuc 9223372036854775807) ≡ some (codes "-9223372036854775808"))
    × (convert (pos 18446744073709551615) ≡ some (codes "18446744073709551615"))
    × (convert (pos 0) ≡ some (codes "0"))
unfolding convert
decimals = (refl, refl, refl)

streamed :
    (shown (format_integer line (negsuc 41)) ≡ some (codes "ab -42 "))
    × (shown (stream_bool line true) ≡ some (codes "ab 1 "))
    × (shown (stream_c_string line none) ≡ some (codes "ab (null) "))
    × (shown (stream_string line (codes "cd")) ≡ some (codes "ab cd "))
    × (shown (stream_char line b'x') ≡ some (codes "ab x "))
    × (shown (stream_double line (codes "2.5")) ≡ some (codes "ab 2.5 "))
unfolding format_integer stream_bool stream_c_string stream_string stream_char stream_double
streamed = (refl, refl, refl, refl, refl, refl)

-- The pointer 0x7FFE12 loses its last two digits.
pointer_cut : shown (stream_pointer line 0x7FFE12) ≡ some (codes "ab 0x7FFE ")
unfolding stream_pointer
pointer_cut = refl

text-append_example :
    (b' : FixedBuffer) × (append line (codes "cd") ≡ some b')
    × IsValid b'
    × (text b' ≡ codes "ab cd ")
    × (length b'.storage ≡ 43)
text-append_example = text-append {b = line} (codes "cd") line-IsValid (omega arith)

convert_lem_example :
    (out : List ℕ) × (convert (negsuc 9223372036854775807) ≡ some out)
    × IsDecimal (negsuc 9223372036854775807) out
convert_lem_example = convert_lem (negsuc 9223372036854775807) (omega arith)

format_integer_lem_example :
    (out : List ℕ) × IsDecimal (negsuc 41) out
    × ((b' : FixedBuffer) × (format_integer line (negsuc 41) ≡ some b')
        × IsValid b'
        × (text b' ≡ codes "ab " ++ (out ++ 0x20 ∷ []))
        × (length b'.storage ≡ 43))
format_integer_lem_example = format_integer_lem {b = line} (negsuc 41) line-IsValid (omega arith)

stream_pointer_lem_example :
    (hex : List ℕ) × IsHex 0x7FFE12 hex
    × ((b' : FixedBuffer) × (stream_pointer line 0x7FFE12 ≡ some b')
        × IsValid b'
        × (text b' ≡ codes "ab " ++ (take (length hex) (b'0' ∷ b'x' ∷ hex) ++ 0x20 ∷ []))
        × (length b'.storage ≡ 43))
stream_pointer_lem_example = stream_pointer_lem {b = line} 0x7FFE12 line-IsValid (omega arith)
