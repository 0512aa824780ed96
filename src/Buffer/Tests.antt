-- ===== src/Buffer/Tests.antt =====
-- The buffer on small inputs, and the cases of test/Buffer_test.cpp that it allows.
use mathlib.Core.Option
use cpp_practise.Base.{ℕ, ◌+◌, ◌≤◌, ◌≡◌, refl, List, [], ◌∷◌, some, none, arith, length, Option}
use cpp_practise.Buffer.{
  Buffer, make, append, retrieve, retrieve_as_string, find_crlf, search_crlf, writable_bytes,
  readable_bytes, prependable_bytes, make_room, write_at_end, prepend_size,
}
use cpp_practise.Buffer.Valid.{IsValid, contents}
use cpp_practise.Buffer.Append.{append_lem}
use cpp_practise.Buffer.Retrieve.{retrieve_lem, retrieve_as_string_lem}
use cpp_practise.Buffer.Find.{CrlfAt, IsFirst, find_crlf_lem}
use cpp_practise.Buffer.RoundTrip.{read_ints-append_ints, append_ints, read_ints}
use cpp_practise.Buffer.Socket.{Delivery, delivered, read_from_fd, read_from_fd_lem, blocks}

-- Holds "a\r\n" behind one byte that was read; two bytes are free.
abbrev small : Buffer
small = record {
  storage = 0 ∷ 0 ∷ 0 ∷ 0 ∷ 0 ∷ 0 ∷ 0 ∷ 0 ∷ 7 ∷ 97 ∷ 13 ∷ 10 ∷ 0 ∷ 0 ∷ [];
  read_index = 9;
  write_index = 12;
}

abbrev empty : Buffer
empty = record small { read_index = 8; write_index = 8 }

small-IsValid : IsValid small
small-IsValid = omega arith

empty-IsValid : IsValid empty
empty-IsValid = omega arith

fresh_sizes :
    (writable_bytes (make 0) ≡ 1024)
    × (readable_bytes (make 0) ≡ 0)
    × (prependable_bytes (make 0) ≡ 8)
unfolding make
fresh_sizes = (refl, refl, refl)

-- Three bytes more fit once the readable ones are moved to the front; four do not.
append_moves :
    Option.map {B = ℕ × ℕ × ℕ}
      (λ b. (b.read_index, b.write_index, length b.storage))
      (append small (1 ∷ 2 ∷ 3 ∷ []))
    ≡ some (8, 14, 14)
unfolding append make_room write_at_end
append_moves = refl

append_grows :
    Option.map {B = ℕ × ℕ × ℕ}
      (λ b. (b.read_index, b.write_index, length b.storage))
      (append small (1 ∷ 2 ∷ 3 ∷ 4 ∷ []))
    ≡ some (9, 16, 16)
unfolding append make_room write_at_end
append_grows = refl

append_lem_example :
    (b' : Buffer) × (append small (1 ∷ 2 ∷ 3 ∷ []) ≡ some b')
    × IsValid b'
    × (contents b' ≡ 97 ∷ 13 ∷ 10 ∷ 1 ∷ 2 ∷ 3 ∷ [])
    × (length b'.storage ≡ 14)
    × (b'.write_index ≤ 15)
append_lem_example = append_lem (1 ∷ 2 ∷ 3 ∷ []) small-IsValid (omega arith)

retrieve_lem_example :
    IsValid (retrieve small 2)
    × (contents (retrieve small 2) ≡ 10 ∷ [])
    × ((retrieve small 2).storage ≡ small.storage)
    × (3 ≤ 2 → (retrieve small 2).read_index ≡ prepend_size)
retrieve_lem_example = retrieve_lem 2 small-IsValid

retrieve_as_string_lem_example :
    (retrieve_as_string small 1 ≡ some (97 ∷ [], retrieve small 1))
    × IsValid (retrieve small 1)
    × (contents (retrieve small 1) ≡ 13 ∷ 10 ∷ [])
retrieve_as_string_lem_example = retrieve_as_string_lem 1 small-IsValid (omega arith)

found_crlf : find_crlf small ≡ some (some 10)
unfolding find_crlf search_crlf
found_crlf = refl

find_crlf_lem_example :
    (r : Option ℕ) × (find_crlf small ≡ some (Option.map (λ i. 9 + i) r))
    × IsFirst (CrlfAt (97 ∷ 13 ∷ 10 ∷ [])) r
find_crlf_lem_example = find_crlf_lem small-IsValid

-- 100 and -4000, as in the test
read_ints-append_ints_example :
    (b' b'' : Buffer) × (append_ints 4 empty (100 ∷ 4294963296 ∷ []) ≡ some b')
    × (read_ints 4 2 b' ≡ some (100 ∷ 4294963296 ∷ [], b''))
    × IsValid b''
    × (contents b'' ≡ [])
read_ints-append_ints_example =
    read_ints-append_ints 4 (100 ∷ 4294963296 ∷ []) empty-IsValid refl (omega arith) (omega arith)

abbrev three_bytes : List ℕ → Delivery
three_bytes sizes = delivered (1 ∷ 2 ∷ 3 ∷ [])

read_from_fd_lem_example :
    (b' : Buffer) × (read_from_fd three_bytes small
      ≡ some (record { result = some 3; error_no = none; buffer = b' }))
    × IsValid b'
    × (contents b' ≡ 97 ∷ 13 ∷ 10 ∷ 1 ∷ 2 ∷ 3 ∷ [])
unfolding blocks
read_from_fd_lem_example = read_from_fd_lem three_bytes small-IsValid (omega arith)
