-- ===== src/Buffer/Integers.antt =====
-- net/Buffer.h: integers of 8, 16, 32 and 64 bits in network byte order. A value is its bit pattern,
-- so the signed types of the source are the same functions.
use mathlib.Core.Option
use cpp_practise.Base.{load, ℕ, zero, suc, ◌+◌, ◌*◌, ◌/◌, ◌%◌, List, [], ◌∷◌, ◌++◌, Option, to_size}
use cpp_practise.Buffer.{Buffer, append, prepend, retrieve}

-- The object bytes of `htobe16(v)`, `htobe32(v)` and `htobe64(v)`: the most significant byte first.
unfoldable pub be_bytes : ℕ → ℕ → List ℕ
be_bytes zero v = []
be_bytes (suc n) v = be_bytes n (v / 256) ++ (v % 256) ∷ []

-- What `be16toh`, `be32toh` and `be64toh` make of such bytes.
unfoldable pub of_be_bytes : ℕ → List ℕ → ℕ
of_be_bytes acc [] = acc
of_be_bytes acc (x ∷ xs) = of_be_bytes (acc * 256 + x) xs

unfoldable pub append_int : ℕ → Buffer → ℕ → Option Buffer
append_int n b v = append b (be_bytes n v)

unfoldable pub prepend_int : ℕ → Buffer → ℕ → Option Buffer
prepend_int n b v = prepend b (be_bytes n v)

-- `memcpy(&v, peek(), n)`, whether or not `n` bytes are readable.
unfoldable pub peek_int : ℕ → Buffer → Option ℕ
unfolding load
peek_int n b = Option.map (of_be_bytes 0) (load b.storage (to_size b.read_index) n)

unfoldable pub read_int : ℕ → Buffer → Option (ℕ × Buffer)
read_int n b = Option.map (λ v. (v, retrieve b n)) (peek_int n b)

abbrev pub append_int8 : Buffer → ℕ → Option Buffer
append_int8 = append_int 1

abbrev pub append_int16 : Buffer → ℕ → Option Buffer
append_int16 = append_int 2

abbrev pub append_int32 : Buffer → ℕ → Option Buffer
append_int32 = append_int 4

abbrev pub append_int64 : Buffer → ℕ → Option Buffer
append_int64 = append_int 8

abbrev pub prepend_int8 : Buffer → ℕ → Option Buffer
prepend_int8 = prepend_int 1

abbrev pub prepend_int16 : Buffer → ℕ → Option Buffer
prepend_int16 = prepend_int 2

abbrev pub prepend_int32 : Buffer → ℕ → Option Buffer
prepend_int32 = prepend_int 4

abbrev pub prepend_int64 : Buffer → ℕ → Option Buffer
prepend_int64 = prepend_int 8

abbrev pub peek_int8 : Buffer → Option ℕ
peek_int8 = peek_int 1

abbrev pub peek_int16 : Buffer → Option ℕ
peek_int16 = peek_int 2

abbrev pub peek_int32 : Buffer → Option ℕ
peek_int32 = peek_int 4

abbrev pub peek_int64 : Buffer → Option ℕ
peek_int64 = peek_int 8

abbrev pub read_int8 : Buffer → Option (ℕ × Buffer)
read_int8 = read_int 1

abbrev pub read_int16 : Buffer → Option (ℕ × Buffer)
read_int16 = read_int 2

abbrev pub read_int32 : Buffer → Option (ℕ × Buffer)
read_int32 = read_int 4

abbrev pub read_int64 : Buffer → Option (ℕ × Buffer)
read_int64 = read_int 8
