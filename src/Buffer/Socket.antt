-- ===== src/Buffer/Socket.antt =====
-- net/Buffer.cpp: `readFromFd` reads a socket into the buffer, through a second block of 65536 bytes
-- for what does not fit. The system call `readv` is outside the program: its outcome is an argument,
-- a function of the sizes of the blocks that it is given.
use mathlib.Core.Option
use native.Mathlib.Decide.{dec_le}
use cpp_practise.Base.{
  load, store, store-some, le→leb, gt→leb, ℕ, ◌+◌, ◌-◌, ◌≤◌, ◌<◌, ◌^◌, ◌≡◌, refl, sym, List, [],
  ◌∷◌, ◌++◌, Option, some, none, arith, length, take, drop, length-take, length-drop,
  take-append-drop, take_of_ge, to_size, to_int, add_size, ◌>>=◌, append_assoc, append-nil, ltb,
  leb, if◌then◌else◌,
}
use cpp_practise.Buffer.{Buffer, append, writable_bytes}
use cpp_practise.Buffer.Valid.{IsValid, contents, sizes}
use cpp_practise.Buffer.Append.{append_lem, ended, ended-IsValid, contents-ended, length-ended}

abbrev pub extra_size : ℕ
extra_size = 65536

-- What `readv` does: it fails with an `errno`, or it delivers bytes, which fill the blocks in order.
pub data Delivery : Type 0 where
  failed : ℕ → Delivery
  delivered : List ℕ → Delivery

-- The sizes of the blocks that are passed on.
unfoldable pub blocks : Buffer → List ℕ
blocks b =
    let room = to_size (writable_bytes b) in
    if ltb room extra_size then room ∷ extra_size ∷ [] else room ∷ []

-- The result, `*errorNo` where it is set, and the buffer.
pub record Reading : Type 0 where
  pub result : Option ℕ
  pub error_no : Option ℕ
  pub buffer : Buffer

-- The kernel fills the free space of the vector, and then as much of `buf` as it was given; what
-- `append` takes from `buf` must lie inside it. A result `none` stands for a negative count.
receive : Buffer → Delivery → Option Reading
unfolding store load
receive b (failed e) = some (record { result = none; error_no = some e; buffer = b })
receive b (delivered d) =
    let room = to_size (writable_bytes b) in
    let buf = take extra_size (drop room d) in
    store b.storage (to_size b.write_index) (take room d) >>= λ s.
    if leb (length d) room
    then some (record {
      result = some (length d);
      error_no = none;
      buffer = record b {
        storage = s;
        write_index = to_int (add_size (to_size b.write_index) (length d));
      };
    })
    else Option.map (λ b'. record { result = some (length d); error_no = none; buffer = b' })
        (load buf 0 (length d - room)
          >>= append (record b { storage = s; write_index = to_int (length s) }))

pub read_from_fd : (List ℕ → Delivery) → Buffer → Option Reading
unfolding receive blocks
read_from_fd readv b = receive b (readv (blocks b))

abbrev pub total : List ℕ → ℕ
total [] = 0
total (n ∷ ns) = n + total ns

receive-roomy :
    {b : Buffer} (d : List ℕ) (v : IsValid b) (h : b.write_index + length d ≤ length b.storage)
    → receive b (delivered d)
      ≡ some (record { result = some (length d); error_no = none; buffer = ended d v h })
unfolding receive
receive-roomy {b} d v h =
    rw
      (
        (sizes v).writable_size,
        (sizes v).write_offset,
        take_of_ge (length b.storage - b.write_index) d (omega arith),
        store-some b.storage b.write_index d h,
      )
      (ground (arith))

-- The bytes of a delivery, and what `readFromFd` is to return and to set for it.
abbrev pub bytes : Delivery → List ℕ
bytes (failed e) = []
bytes (delivered d) = d

abbrev pub count : Delivery → Option ℕ
count (failed e) = none
count (delivered d) = some (length d)

abbrev pub error : Delivery → Option ℕ
error (failed e) = some e
error (delivered d) = none

-- `readv` delivers no more than the blocks hold, and the write index stays an `int`.
abbrev pub Fits : Buffer → Delivery → Type 0
Fits b r = (length (bytes r) ≤ total (blocks b)) × (b.write_index + length (bytes r) < 2 ^ 31)

-- All that the kernel put into `buf` is appended.
load-rest :
    (room : ℕ) (d : List ℕ)
    → length d - room ≤ extra_size
    → load (take extra_size (drop room d)) 0 (length d - room) ≡ some (drop room d)
unfolding load
load-rest room d h = rw (
  take_of_ge extra_size (drop room d) (omega (arith, length-drop room d)),
  le→leb (0 + (length d - room)) (length (drop room d)) (omega (arith, length-drop room d)),
  take_of_ge (length d - room) (drop room d) (omega (arith, length-drop room d)),
)

receive-overfull :
    {b : Buffer} (d : List ℕ)
    → IsValid b
    → length b.storage < b.write_index + length d
    → length d ≤ length b.storage - b.write_index + extra_size
    → b.write_index + length d < 2 ^ 31
    → (b' : Buffer) × (receive b (delivered d)
        ≡ some (record { result = some (length d); error_no = none; buffer = b' }))
      × IsValid b'
      × (contents b' ≡ contents b ++ d)
unfolding receive
receive-overfull {b} d v h given small =
    let (b', e, v', held, _, _) =
      append_lem (drop room d) (ended-IsValid (take room d) v fits)
        (omega (arith, length-drop room d, first)) in
    (
      b',
      rw (
        (sizes v).writable_size,
        (sizes v).write_offset,
        store-some b.storage b.write_index (take room d) fits,
        gt→leb (length d) room (omega arith),
        load-rest room d (omega arith),
        full,
        e,
      ),
      v',
      rw (held, contents-ended (take room d) v fits, append_assoc, take-append-drop),
    )
  where
    room : ℕ
    room = length b.storage - b.write_index

    first : length (take room d) ≡ room
    first = omega (arith, length-take room d)

    fits : b.write_index + length (take room d) ≤ length b.storage
    fits = omega (arith, first)

    full :
        to_int (length (ended (take room d) v fits).storage) ≡ b.write_index + length (take room d)
    full = omega (arith, first, length-ended (take room d) v fits)

total-blocks :
    {b : Buffer} → IsValid b → total (blocks b) ≤ length b.storage - b.write_index + extra_size
unfolding blocks
total-blocks v = ground (arith, sizes v)

receive_lem :
    {b : Buffer} (r : Delivery)
    → IsValid b
    → Fits b r
    → (b' : Buffer) × (receive b r
        ≡ some (record { result = count r; error_no = error r; buffer = b' }))
      × IsValid b'
      × (contents b' ≡ contents b ++ bytes r)
unfolding receive
receive_lem {b} (failed e) v h = (b, refl, v, sym (append-nil (contents b)))
receive_lem {b} (delivered d) v h = elim (dec_le (b.write_index + length d) (length b.storage)) [
  | yes roomy ↦
      (ended d v roomy, receive-roomy d v roomy, ended-IsValid d v roomy, contents-ended d v roomy)
  | no over ↦ receive-overfull d v (omega arith) (omega (arith, total-blocks v)) h.1
]

-- What `readFromFd` does on a valid buffer, for every outcome that `readv` may have within the blocks
-- it is given. On failure it returns a negative count, sets `*errorNo` and leaves the buffer. On
-- success it returns the number of bytes delivered, sets no error, and these bytes stand behind the
-- bytes held before, in order and none lost, also those that did not fit; the buffer stays valid.
pub read_from_fd_lem :
    {b : Buffer} (readv : List ℕ → Delivery)
    → IsValid b
    → Fits b (readv (blocks b))
    → (b' : Buffer) × (read_from_fd readv b
        ≡ some (record {
          result = count (readv (blocks b));
          error_no = error (readv (blocks b));
          buffer = b';
        }))
      × IsValid b'
      × (contents b' ≡ contents b ++ bytes (readv (blocks b)))
unfolding read_from_fd
read_from_fd_lem {b} readv v fits = receive_lem (readv (blocks b)) v fits
