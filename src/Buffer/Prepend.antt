-- ===== src/Buffer/Prepend.antt =====
-- `prepend` puts bytes in front of the readable ones, into the space before the read index.
use cpp_practise.Base.{
  store, store-some, length-stored, ℕ, ◌+◌, ◌-◌, ◌^◌, ◌≤◌, ◌<◌, ◌≡◌, refl, List, ◌++◌, some, none,
  arith, length, take, drop, ap, length-take, take-drop, drop-append_self, take-append_add,
}
use cpp_practise.Buffer.{Buffer, prepend}
use cpp_practise.Buffer.Valid.{IsValid, contents, sizes}

module _ {b : Buffer} (d : List ℕ) (v : IsValid b) where
  prepended : Buffer
  prepended = record b {
    storage =
        take (b.read_index - length d) b.storage
        ++ (d ++ drop (b.read_index - length d + length d) b.storage);
    read_index = b.read_index - length d;
  }

  prepend-eq : length d ≤ b.read_index → prepend b d ≡ some prepended
  unfolding prepend prepended
  prepend-eq h = ground (arith, sizes v, store-some b.storage (b.read_index - length d) d)

  prepended-IsValid : length d ≤ b.read_index → IsValid prepended
  unfolding prepended
  prepended-IsValid h = omega (arith, length-stored b.storage (b.read_index - length d) d)

  contents-prepended : length d ≤ b.read_index → contents prepended ≡ d ++ contents b
  unfolding prepended
  contents-prepended h =
      rw
        (
          ← take-drop (b.write_index - (b.read_index - length d)) (b.read_index - length d)
              b.write_index prepended.storage (omega arith),
          drop-append_self (b.read_index - length d) (take (b.read_index - length d) b.storage)
              (d ++ drop (b.read_index - length d + length d) b.storage)
              (omega (arith, length-take (b.read_index - length d) b.storage)),
          take-append_add d (drop (b.read_index - length d + length d) b.storage)
              (b.write_index - b.read_index) (b.write_index - (b.read_index - length d))
              (omega arith),
          take-drop (b.write_index - b.read_index) (b.read_index - length d + length d)
              b.write_index b.storage (omega arith),
        )
        (ap (λ (i : ℕ). d ++ drop i (take b.write_index b.storage)) (omega arith))

-- As many bytes as there are before the readable ones can be put in front of them: the buffer stays
-- valid and holds them, followed by what it held; the write index stays.
pub prepend_lem :
    {b : Buffer} (d : List ℕ)
    → IsValid b
    → length d ≤ b.read_index
    → (b' : Buffer) × (prepend b d ≡ some b')
      × IsValid b'
      × (contents b' ≡ d ++ contents b)
      × (b'.write_index ≡ b.write_index)
unfolding prepended
prepend_lem d v h =
    (prepended d v, prepend-eq d v h, prepended-IsValid d v h, contents-prepended d v h, refl)

-- With less space than that the write starts before the vector.
pub prepend_fault :
    {b : Buffer} (d : List ℕ)
    → IsValid b
    → b.read_index < length d
    → length d ≤ 2 ^ 31
    → prepend b d ≡ none
unfolding prepend store
prepend_fault d v h k = ground (arith, sizes v)
