-- ===== src/Buffer/Append.antt =====
-- `append` puts the bytes behind the readable ones, whichever way it makes room.
use cpp_practise.Base.{
  store-some, length-stored, if◌then◌else◌, ◌&&◌, ℕ, ◌+◌, ◌-◌, ◌^◌, ◌≤◌, ◌<◌, ◌≡◌, List, ◌++◌, some,
  arith, length, drop-take-append, take-append_two, take, drop, ap, replicate, length-take,
  length-append, length-replicate, take-append, drop-append, take_of_ge, Bool-cases, inl, inr, ltb,
  ◌∙◌,
}
use cpp_practise.Buffer.{
  Buffer, readable_bytes, prepend_size, copy_within, make_room, write_at_end, append, resize,
}
use cpp_practise.Buffer.Valid.{IsValid, contents, sizes, length-contents, load-contents}

-- What making room for `n` bytes leaves behind.
pub record HasRoom (b : Buffer) (n : ℕ) (b' : Buffer) : Type 0 where
  pub valid : IsValid b'
  pub same : contents b' ≡ contents b
  pub room : b'.write_index + n ≤ length b'.storage
  pub bounded : length b'.storage < 2 ^ 31
  pub behind : b'.write_index ≤ b.write_index

module _ {b : Buffer} (n : ℕ) (v : IsValid b) (fits : b.write_index + n < 2 ^ 31) where
  grown : Buffer
  grown = record b { storage = resize b.storage (b.write_index + n) }

  moved_storage : List ℕ
  moved_storage = take 8 b.storage ++ (contents b ++ drop (8 + length (contents b)) b.storage)

  moved : Buffer
  moved = record {
    storage = moved_storage;
    read_index = 8;
    write_index = b.write_index - b.read_index + 8;
  }

  length-grown :
      length b.storage ≤ b.write_index + n
      → length (resize b.storage (b.write_index + n)) ≡ b.write_index + n
  length-grown h = omega (
    arith,
    length-append (take (b.write_index + n) b.storage)
        (replicate {A = ℕ} (b.write_index + n - length b.storage) 0),
    length-take (b.write_index + n) b.storage,
    length-replicate {A = ℕ} (b.write_index + n - length b.storage) 0,
  )

  grown-HasRoom : length b.storage ≤ b.write_index + n → HasRoom b n grown
  unfolding grown
  grown-HasRoom h = record {
    valid = omega (arith, length-grown h);
    same = ap (drop b.read_index) (
        rw (take_of_ge (b.write_index + n) b.storage h)
          (take-append b.write_index b.storage _ (omega arith)));
    room = omega (arith, length-grown h);
    bounded = omega (arith, length-grown h);
    behind = omega arith;
  }

  moved-HasRoom :
      length b.storage < b.write_index + n
      → b.write_index - b.read_index + 8 + n ≤ length b.storage
      → HasRoom b n moved
  unfolding moved moved_storage
  moved-HasRoom tight h = record {
    valid = omega (arith, long, length-contents v);
    same =
        drop-take-append (take 8 b.storage) (contents b) _ 8 _
          (omega (arith, length-take 8 b.storage)) (omega (arith, length-contents v));
    room = omega (arith, long);
    bounded = omega (arith, long);
    behind = omega arith;
  }
    where
      long : length moved_storage ≡ length b.storage
      long = length-stored b.storage 8 (contents b) (omega (arith, length-contents v))

  length-moved :
      b.write_index - b.read_index + 8 + n ≤ length b.storage
      → length moved.storage ≡ length b.storage
  unfolding moved moved_storage
  length-moved h = length-stored b.storage 8 (contents b) (omega (arith, length-contents v))

  -- `make_room` takes the branch of the space that is left.
  make_room-grown :
      (length b.storage < b.write_index + n)
      → length b.storage - b.write_index + b.read_index < n + 8
      → make_room b n ≡ some grown
  unfolding make_room grown
  make_room-grown h k = ground (arith, sizes v)

  make_room-moved :
      (length b.storage < b.write_index + n)
      → n + 8 ≤ length b.storage - b.write_index + b.read_index
      → make_room b n ≡ some moved
  unfolding make_room moved moved_storage copy_within
  make_room-moved h k = ground (
    arith,
    sizes v,
    load-contents (b.write_index - b.read_index) v,
    store-some b.storage 8 (contents b),
    length-contents v,
    take_of_ge (b.write_index - b.read_index) (contents b),
  )

-- The vector's size after room was made for `n` more bytes.
abbrev pub grown_size : Buffer → ℕ → ℕ
grown_size b n =
    if ltb (length b.storage) (readable_bytes b + prepend_size + n)
      && ltb (length b.storage) (b.write_index + n)
    then b.write_index + n
    else length b.storage

-- The buffer once `d` is written behind its readable bytes, where there is space for it.
module _ {b : Buffer} (d : List ℕ) (v : IsValid b)
    (fits : b.write_index + length d ≤ length b.storage) where
  abbrev pub ended : Buffer
  ended = record b {
    storage = take b.write_index b.storage ++ (d ++ drop (b.write_index + length d) b.storage);
    write_index = b.write_index + length d;
  }

  pub length-ended : length ended.storage ≡ length b.storage
  length-ended = length-stored b.storage b.write_index d fits

  pub ended-IsValid : IsValid ended
  ended-IsValid = omega (arith, length-ended)

  pub contents-ended : contents ended ≡ contents b ++ d
  contents-ended = rw (
    take-append_two (take b.write_index b.storage) d _ (b.write_index + length d)
        (omega (arith, length-take b.write_index b.storage)),
    drop-append b.read_index (take b.write_index b.storage) d
        (omega (arith, length-take b.write_index b.storage)),
  )

  write_at_end-eq : write_at_end d b ≡ some ended
  unfolding write_at_end
  write_at_end-eq = ground (arith, sizes v, store-some b.storage b.write_index d fits)

make_room_lem :
    {b : Buffer} (n : ℕ)
    → IsValid b
    → b.write_index + n < 2 ^ 31
    → (b' : Buffer) × (make_room b n ≡ some b')
      × HasRoom b n b'
      × (length b'.storage ≡ grown_size b n)
unfolding make_room grown
make_room_lem {b} n v fits = elim (Bool-cases (ltb (length b.storage) (b.write_index + n))) [
  | inr plenty ↦ (b, ground (arith, sizes v), ground arith, ground arith)
  | inl tight ↦ elim (Bool-cases (ltb (length b.storage - b.write_index + b.read_index) (n + 8))) [
    | inl full ↦ (
      grown n v fits,
      make_room-grown n v fits (ground arith) (ground arith),
      grown-HasRoom n v fits (ground arith),
      ground (arith, length-grown n v fits),
    )
    | inr loose ↦ (
      moved n v fits,
      make_room-moved n v fits (ground arith) (ground arith),
      moved-HasRoom n v fits (ground arith) (ground arith),
      ground (arith, length-moved n v fits),
    )
  ]
]

-- After `append`, of a valid buffer whose indices stay below 2 ^ 31, the buffer is valid and holds
-- the old readable bytes followed by the new ones; nothing faults. The vector has grown, to end with
-- the new bytes, only if they fit neither behind the readable ones nor behind these moved to offset 8.
-- The write index moves on by the number of new bytes at most.
pub append_lem :
    {b : Buffer} (d : List ℕ)
    → IsValid b
    → b.write_index + length d < 2 ^ 31
    → (b' : Buffer) × (append b d ≡ some b')
      × IsValid b'
      × (contents b' ≡ contents b ++ d)
      × (length b'.storage ≡ grown_size b (length d))
      × (b'.write_index ≤ b.write_index + length d)
unfolding append
append_lem {b} d v fits =
    let (b', e, room, long) = make_room_lem (length d) v fits in
    (
      ended d room.valid room.room,
      rw e (write_at_end-eq d room.valid room.room),
      ended-IsValid d room.valid room.room,
      contents-ended d room.valid room.room ∙ ap (λ c. c ++ d) room.same,
      length-ended d room.valid room.room ∙ long,
      omega (arith, room.behind),
    )
