-- ===== src/LogStream/Fixed.antt =====
-- A log buffer never overflows: what does not fit is dropped whole.
use cpp_practise.Base.{
  take-append_add, ◌>>=◌, ◌∙◌, take_of_ge, ℕ, ◌+◌, ◌^◌, ◌≤◌, ◌<◌, ◌≡◌, refl, List, [], ◌∷◌, ◌++◌,
  some, arith, length, take, drop, ap, store, store-some, length-stored, take-stored, length-take,
  take-append, append_assoc, length-append, ltb, if◌then◌else◌, Bool-cases, inl, inr, to_int,
  to_size, sub_int,
}
use cpp_practise.LogStream.{FixedBuffer, rest, add_length, append, ltb_int, write_text}

pub record IsValid (b : FixedBuffer) : Type 0 where
  pub inside : b.cur ≤ length b.storage
  pub small : length b.storage < 2 ^ 31

-- The text written so far.
abbrev pub text : FixedBuffer → List ℕ
text b = take b.cur b.storage

-- `add_length` behind a text that was just written.
pub add_length_lem :
    {b : FixedBuffer} (len : ℕ)
    → IsValid b
    → b.cur + len < length b.storage
    → (b' : FixedBuffer) × (add_length b len ≡ some b')
      × IsValid b'
      × (text b' ≡ take (b.cur + len) b.storage ++ 0x20 ∷ [])
      × (b'.cur ≡ b.cur + len + 1)
      × (length b'.storage ≡ length b.storage)
unfolding add_length
add_length_lem {b} len v h = (
  record {
    storage = take (b.cur + len) b.storage ++ ((0x20 ∷ []) ++ drop (b.cur + len + 1) b.storage);
    cur = b.cur + len + 1;
  },
  rw (at, store-some b.storage (b.cur + len) (0x20 ∷ []) (omega arith))
      (ap (λ (i : ℕ). some (moved i)) (omega arith)),
  omega (arith, long),
  take-stored b.storage (b.cur + len) (0x20 ∷ []) (b.cur + len + 1) (omega arith) (omega arith),
  refl,
  long,
)
  where
    ended : List ℕ
    ended = take (b.cur + len) b.storage ++ ((0x20 ∷ []) ++ drop (b.cur + len + 1) b.storage)

    long : length ended ≡ length b.storage
    long = length-stored b.storage (b.cur + len) (0x20 ∷ []) (omega arith)

    at : to_size (sub_int (to_int (b.cur + (len + 1))) 1) ≡ b.cur + len
    at = ground arith

    moved : ℕ → FixedBuffer
    moved i = record { storage = ended; cur = i }

-- Bytes `d` written at the pointer, which then moves on by `len` of them and one: the text goes on
-- with these `len` bytes and a blank.
pub written_lem :
    {b : FixedBuffer} (d : List ℕ) (len : ℕ)
    → IsValid b
    → b.cur + length d ≤ length b.storage
    → len ≤ length d
    → b.cur + len < length b.storage
    → (b' : FixedBuffer) × ((store b.storage b.cur d >>= λ s.
          add_length (record b { storage = s }) len)
        ≡ some b')
      × IsValid b'
      × (text b' ≡ text b ++ (take len d ++ 0x20 ∷ []))
      × (b'.cur ≡ b.cur + len + 1)
      × (length b'.storage ≡ length b.storage)
written_lem {b} d len v fits short room =
    let (b', e, v', written, moved, long') =
      add_length_lem {b = stored} len (omega (arith, long)) (omega (arith, long)) in
    (
      b',
      rw (store-some b.storage b.cur d fits, e),
      v',
      rw (written, kept, append_assoc),
      moved,
      long' ∙ long,
    )
  where
    stored : FixedBuffer
    stored = record b { storage = take b.cur b.storage ++ (d ++ drop (b.cur + length d) b.storage) }

    long : length stored.storage ≡ length b.storage
    long = length-stored b.storage b.cur d fits

    kept : take (b.cur + len) stored.storage ≡ take b.cur b.storage ++ take len d
    kept = rw (
      take-append_add (take b.cur b.storage) (d ++ drop (b.cur + length d) b.storage) len
          (b.cur + len) (omega (arith, length-take b.cur b.storage)),
      take-append len d (drop (b.cur + length d) b.storage) short,
    )

-- The test of `append`, without wrap-around.
pub append-test :
    {b : FixedBuffer} (len : ℕ)
    → IsValid b
    → len < 2 ^ 31
    → ltb_int (to_int len) (rest b) ≡ ltb (b.cur + len) (length b.storage)
append-test len v small = ground arith

-- `FixedBuffer::append` on a valid buffer never faults and leaves it valid. A message that is shorter
-- than the rest of the buffer is appended whole, with a blank behind it; any other is dropped whole.
pub text-append :
    {b : FixedBuffer} (msg : List ℕ)
    → IsValid b
    → length msg < 2 ^ 31
    → (b' : FixedBuffer) × (append b msg ≡ some b')
      × IsValid b'
      × (text b' ≡ (
          if ltb (b.cur + length msg) (length b.storage)
          then text b ++ (msg ++ 0x20 ∷ [])
          else text b))
      × (length b'.storage ≡ length b.storage)
unfolding append
text-append {b} msg v small = elim (Bool-cases (ltb (b.cur + length msg) (length b.storage))) [
  | inl fits ↦
      (let (b', e, v', written, _, long) =
          written_lem {b = b} msg (length msg) v (ground arith) (omega arith) (ground arith) in
        (
          b',
          rw (room_test, fits, size_test, e),
          v',
          rw (fits, written, take_of_ge (length msg) msg (omega arith)),
          long,
        ))
  | inr full ↦ (b, rw (room_test, full), v, rw full, refl)
]
  where
    room_test : ltb_int (to_int (length msg)) (rest b) ≡ ltb (b.cur + length msg) (length b.storage)
    room_test = append-test {b = b} (length msg) v small

    size_test : to_size (to_int (length msg)) ≡ length msg
    size_test = ground arith

-- The test of the operators for numbers, and what these write where there is room.
pub rest-ltb :
    {b : FixedBuffer} → IsValid b → ltb_int (rest b) 32 ≡ ltb (length b.storage) (b.cur + 32)
rest-ltb v = ground arith

pub write_text_lem :
    {b : FixedBuffer} (d : List ℕ) (len : ℕ)
    → IsValid b
    → b.cur + length d + 1 < length b.storage
    → len ≤ length (d ++ 0 ∷ [])
    → (b' : FixedBuffer) × (write_text b d len ≡ some b')
      × IsValid b'
      × (text b' ≡ text b ++ (take len (d ++ 0 ∷ []) ++ 0x20 ∷ []))
      × (b'.cur ≡ b.cur + len + 1)
      × (length b'.storage ≡ length b.storage)
write_text_lem d len v room short =
    written_lem (d ++ 0 ∷ []) len v (omega (arith, long)) short (omega (arith, long))
  where
    long : length (d ++ 0 ∷ []) ≡ length d + 1
    long = length-append d (0 ∷ [])
