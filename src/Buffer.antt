-- ===== src/Buffer.antt =====
-- net/Buffer.h and net/Buffer.cpp: the byte buffer of a connection, its space for prepending, and
-- the reading of a socket into it. The proofs stand in the modules below.
pub mod Valid
pub mod Append
pub mod Retrieve
pub mod Prepend
pub mod Integers
pub mod RoundTrip
pub mod Find
pub mod Socket
mod Tests
use cpp_practise.Base.{
  load, store, ℕ, zero, suc, ◌+◌, ◌-◌, ◌*◌, ◌/◌, ◌%◌, ◌^◌, Bool, true, false, ◌&&◌, Option, none,
  some, List, [], ◌∷◌, ◌++◌, ltb, leb, ◌==◌, if◌then◌else◌, ◌>>=◌, length, take, drop, replicate,
  to_int, to_size, add_int, sub_int, add_size, sub_size,
}
use mathlib.Core.Option

-- `std::vector<char> _data`, and the two `int` indices as 32-bit patterns. A byte is a number; only
-- the integer operations below need it under 256.
pub record Buffer : Type 0 where
  pub storage : List ℕ
  pub read_index : ℕ
  pub write_index : ℕ

abbrev pub initial_size : ℕ
initial_size = 1024

abbrev pub prepend_size : ℕ
prepend_size = 8

-- The constructor's parameter `size` is not used.
unfoldable pub make : ℕ → Buffer
make size = record {
  storage = replicate (prepend_size + initial_size) 0;
  read_index = prepend_size;
  write_index = prepend_size;
}

abbrev pub prependable_bytes : Buffer → ℕ
prependable_bytes b = b.read_index

abbrev pub readable_bytes : Buffer → ℕ
readable_bytes b = sub_int b.write_index b.read_index

-- `_data.size() - _writeIndex` is computed in `size_t` and returned as `int`.
abbrev pub writable_bytes : Buffer → ℕ
writable_bytes b = to_int (sub_size (length b.storage) (to_size b.write_index))

-- `std::copy` of the range from `first` to `last` to `dest`, which must not lie in the range.
unfoldable pub copy_within : List ℕ → ℕ → ℕ → ℕ → Option (List ℕ)
unfolding load store
copy_within s first last dest =
    if leb first dest && ltb dest last then none else load s first (last - first) >>= store s dest

-- `vector::resize`
abbrev pub resize : List ℕ → ℕ → List ℕ
resize s n = take n s ++ replicate (n - length s) 0

-- The part of `append` before its copy: grow the vector, or move the readable bytes to the front.
unfoldable pub make_room : Buffer → ℕ → Option Buffer
unfolding copy_within
make_room b len =
    if ltb (to_size (writable_bytes b)) len
    then if ltb (to_size (add_int (writable_bytes b) (prependable_bytes b)))
        (add_size len prepend_size)
      then some (record b { storage = resize b.storage (add_size (to_size b.write_index) len) })
      else Option.map
          (λ s. record b {
            storage = s;
            read_index = prepend_size;
            write_index = to_int (add_size (to_size (readable_bytes b)) prepend_size);
          })
          (copy_within b.storage (to_size b.read_index) (to_size b.write_index) prepend_size)
    else some b

-- The last two lines of `append`.
unfoldable pub write_at_end : List ℕ → Buffer → Option Buffer
unfolding store
write_at_end d b =
    Option.map
      (λ s. record b {
        storage = s;
        write_index = to_int (add_size (to_size b.write_index) (length d));
      })
      (store b.storage (to_size b.write_index) d)

pub append : Buffer → List ℕ → Option Buffer
append b d = make_room b (length d) >>= write_at_end d

-- `_readIndex -= len` is computed in `size_t` and converted back to `int`.
pub prepend : Buffer → List ℕ → Option Buffer
unfolding store
prepend b d =
    let r = to_int (sub_size (to_size b.read_index) (length d)) in
    Option.map (λ s. record b { storage = s; read_index = r }) (store b.storage (to_size r) d)

abbrev pub retrieve_all : Buffer → Buffer
retrieve_all b = record b { read_index = prepend_size; write_index = prepend_size }

pub retrieve : Buffer → ℕ → Buffer
retrieve b len =
    if ltb len (to_size (readable_bytes b))
    then record b { read_index = to_int (add_size (to_size b.read_index) len) }
    else retrieve_all b

-- Up to a pointer into the vector, given by its offset: `end - peek()` as a `size_t`.
pub retrieve_until : Buffer → ℕ → Buffer
retrieve_until b end_at = retrieve b (sub_size end_at (to_size b.read_index))

pub retrieve_as_string : Buffer → ℕ → Option (List ℕ × Buffer)
unfolding load
retrieve_as_string b len =
    Option.map (λ s. (s, retrieve b len)) (load b.storage (to_size b.read_index) len)

pub retrieve_as_string_until : Buffer → ℕ → Option (List ℕ × Buffer)
retrieve_as_string_until b end_at = retrieve_as_string b (sub_size end_at (to_size b.read_index))

pub retrieve_all_as_string : Buffer → Option (List ℕ × Buffer)
retrieve_all_as_string b = retrieve_as_string b (to_size (readable_bytes b))

-- The offset in a list of bytes of the first "\r\n", and of the first '\n'.
unfoldable pub search_crlf : List ℕ → Option ℕ
search_crlf [] = none
search_crlf (x ∷ []) = none
search_crlf (x ∷ y ∷ xs) =
    let rest = search_crlf (y ∷ xs) in
    if x == 0x0d && y == 0x0a then some 0 else Option.map suc rest

unfoldable pub search_eol : List ℕ → Option ℕ
search_eol [] = none
search_eol (x ∷ xs) = let rest = search_eol xs in if x == 0x0a then some 0 else Option.map suc rest

-- `findCRLF` and `findEOL`: a pointer into the vector is its offset there, and `nullptr` is `none`.
-- The outer option is the fault of a readable range that leaves the vector.
pub find_crlf : Buffer → Option (Option ℕ)
unfolding load
find_crlf b =
    Option.map (λ s. Option.map (λ i. to_size b.read_index + i) (search_crlf s))
      (load b.storage (to_size b.read_index) (to_size (readable_bytes b)))

pub find_eol : Buffer → Option (Option ℕ)
unfolding load
find_eol b =
    Option.map (λ s. Option.map (λ i. to_size b.read_index + i) (search_eol s))
      (load b.storage (to_size b.read_index) (to_size (readable_bytes b)))
