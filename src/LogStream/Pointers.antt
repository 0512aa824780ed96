-- ===== src/LogStream/Pointers.antt =====
-- `convertHex`, and the operator for pointers, which cuts two digits off what it prints.
use mathlib.Core.List.{map, reverse}
use native.Mathlib.Nat.{pow-suc}
use cpp_practise.Base.{
  ltb→ge, holds_below, holds_at, ℕ, zero, suc, ◌+◌, ◌-◌, ◌/◌, ◌%◌, ◌^◌, ◌≤◌, ◌<◌, ◌≡◌, refl, List,
  [], ◌∷◌, ◌++◌, arith, length, length-append, length-map, some, ltb, ◌==◌, ==_iff, get_or,
  if◌then◌else◌, Bool-cases, inl, inr, take, take-append, true,
}
use cpp_practise.LogStream.{FixedBuffer, convert_hex, convert_hex_loop, digits_hex, stream_pointer}
use cpp_practise.LogStream.Fixed.{IsValid, text, rest-ltb, write_text_lem}
use cpp_practise.LogStream.Digits.{Little, last, more, Spells, reverse-Spells, length-Little}
use cpp_practise.LogStream.Numbers.{map-reverse, length-reverse}

-- '0' to '9', and 'A' to 'F'
abbrev pub hex_char : ℕ → ℕ
hex_char d = if ltb d 10 then b'0' + d else b'A' + (d - 10)

-- `out` is the hexadecimal notation of `v`.
pub record IsHex (v : ℕ) (out : List ℕ) : Type 0 where
  pub ds : List ℕ
  pub spells : Spells 16 v ds
  pub shape : out ≡ map hex_char ds
  pub short : length out ≤ 16

hex_table : holds_below (λ e. get_or digits_hex e 0 == hex_char e) 16 ≡ true
unfolding holds_below
hex_table = refl

hex_at : (d : ℕ) → d < 16 → get_or digits_hex d 0 ≡ hex_char d
hex_at d h = (==_iff _ _).0 (holds_at (λ e. get_or digits_hex e 0 == hex_char e) d 16 h hex_table)

convert_hex_loop_lem :
    (fuel i : ℕ)
    → i < 16 ^ suc fuel
    → (ds : List ℕ) × (convert_hex_loop (suc fuel) i ≡ some (map hex_char ds)) × Little 16 i ds
unfolding convert_hex_loop
convert_hex_loop_lem zero i h = (i ∷ [], ground (arith, hex_at (i % 16)), last (omega arith))
convert_hex_loop_lem (suc fuel) i h = elim (Bool-cases (i / 16 == 0)) [
  | inl done ↦
      (let small : i < 16 = omega (arith, (==_iff (i / 16) 0).0 done) in
        let same : i % 16 ≡ i = omega arith in
        (i ∷ [], rw (done, same, hex_at i small), last small))
  | inr goes_on ↦
      (let (ds, e, l) = convert_hex_loop_lem fuel (i / 16) (omega (arith, pow-suc 16 (suc fuel))) in
        ((i % 16) ∷ ds, rw (goes_on, e, hex_at (i % 16) (omega arith)), more (ground arith) l))
]

-- `convertHex` ends on every pointer of at most 64 bits, and writes its hexadecimal notation with no
-- zero in front, in at most 16 characters.
pub convert_hex_lem :
    (v : ℕ) → v < 2 ^ 64 → (out : List ℕ) × (convert_hex v ≡ some out) × IsHex v out
unfolding convert_hex
convert_hex_lem v h =
    let (ds, e, l) = convert_hex_loop_lem 15 v (omega arith) in
    (
      map hex_char (reverse ds),
      rw (e, map-reverse hex_char ds),
      record {
        ds = reverse ds;
        spells = reverse-Spells (omega arith) l;
        shape = refl;
        short = omega (
          arith,
          length-map (reverse ds) hex_char,
          length-reverse ds,
          length-Little l 15 (omega arith) (omega arith),
        );
      },
    )

-- `operator<<(const void*)`, on a valid buffer, never writes outside it and leaves it valid. With at
-- least 32 bytes left, it writes "0x" and the hexadecimal notation of the pointer, but keeps as many
-- of these characters as there are digits, and a blank behind them: the last two characters of what
-- it wrote are lost. With fewer than 32 bytes left it changes nothing.
pub stream_pointer_lem :
    {b : FixedBuffer} (p : ℕ)
    → IsValid b
    → p < 2 ^ 64
    → (hex : List ℕ) × IsHex p hex
      × ((b' : FixedBuffer) × (stream_pointer b p ≡ some b')
          × IsValid b'
          × (text b' ≡ (
              if ltb (length b.storage) (b.cur + 32)
              then text b
              else text b ++ (take (length hex) (b'0' ∷ b'x' ∷ hex) ++ 0x20 ∷ [])))
          × (length b'.storage ≡ length b.storage))
unfolding stream_pointer
stream_pointer_lem {b} p valid h =
    let (hex, e, d) = convert_hex_lem p h in
    (
      hex,
      d,
      elim (Bool-cases (ltb (length b.storage) (b.cur + 32))) [
        | inl full ↦ (b, rw (rest-ltb valid, full), valid, rw full, refl)
        | inr roomy ↦
            (let (b', e', valid', written, _, long) =
                write_text_lem {b = b} (b'0' ∷ b'x' ∷ hex) (length hex) valid
                  (omega (arith, d.short, ltb→ge (length b.storage) (b.cur + 32) roomy))
                  (omega (arith, length-append hex (0 ∷ []))) in
              (
                b',
                rw (rest-ltb valid, roomy, e, e'),
                valid',
                rw (
                  roomy,
                  written,
                  take-append (length hex) (b'0' ∷ b'x' ∷ hex) (0 ∷ []) (omega arith),
                ),
                long,
              ))
      ],
    )
