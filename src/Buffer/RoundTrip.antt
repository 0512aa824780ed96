-- ===== src/Buffer/RoundTrip.antt =====
-- Integers written into the buffer are read back: put in front of what it holds, and as a queue.
use mathlib.Core.Option
use native.Mathlib.Nat.{pow-suc}
use cpp_practise.Base.{
  ℕ, zero, suc, ◌+◌, ◌*◌, ◌/◌, ◌%◌, ◌^◌, ◌≤◌, ◌<◌, ◌≡◌, refl, sym, List, [], ◌∷◌, ◌++◌, Option,
  some, arith, length, drop, ap, length-append, take-append_self, drop-append_self, ◌∙◌, ◌>>=◌,
  append_assoc, append-nil,
}
use cpp_practise.Buffer.{Buffer, retrieve}
use cpp_practise.Buffer.Valid.{IsValid, contents, sizes, length-contents, load-contents}
use cpp_practise.Buffer.Append.{append_lem}
use cpp_practise.Buffer.Prepend.{prepend_lem}
use cpp_practise.Buffer.Retrieve.{retrieve_lem}
use cpp_practise.Buffer.Integers.{
  be_bytes, of_be_bytes, append_int, prepend_int, peek_int, read_int,
}

length-be_bytes : (n v : ℕ) → length (be_bytes n v) ≡ n
unfolding be_bytes
length-be_bytes zero v = refl
length-be_bytes (suc n) v =
    omega
      (arith, length-append (be_bytes n (v / 256)) ((v % 256) ∷ []), length-be_bytes n (v / 256))

of_be_bytes-snoc :
    (acc : ℕ) (xs : List ℕ) (x : ℕ) → of_be_bytes acc (xs ++ x ∷ []) ≡ of_be_bytes acc xs * 256 + x
unfolding of_be_bytes
of_be_bytes-snoc acc [] x = refl
of_be_bytes-snoc acc (y ∷ xs) x = of_be_bytes-snoc (acc * 256 + y) xs x

of_be_bytes-be_bytes : (n v : ℕ) → v < 256 ^ n → of_be_bytes 0 (be_bytes n v) ≡ v
unfolding be_bytes of_be_bytes
of_be_bytes-be_bytes zero v h = omega arith
of_be_bytes-be_bytes (suc n) v h = omega (
  arith,
  of_be_bytes-snoc 0 (be_bytes n (v / 256)) (v % 256),
  of_be_bytes-be_bytes n (v / 256) (grind (arith, pow-suc)),
)

-- Reading from a buffer whose readable bytes begin with those of `v` gives `v`, and leaves the rest.
read_int-be_bytes :
    {b : Buffer} (n v : ℕ) (rest : List ℕ)
    → IsValid b
    → v < 256 ^ n
    → contents b ≡ be_bytes n v ++ rest
    → (peek_int n b ≡ some v)
      × (read_int n b ≡ some (v, retrieve b n))
      × IsValid (retrieve b n)
      × (contents (retrieve b n) ≡ rest)
unfolding read_int peek_int
read_int-be_bytes {b} n v rest valid h e =
    (peeked, rw peeked, (retrieve_lem n valid).0, (retrieve_lem n valid).1 ∙ rest_left)
  where
    enough : n ≤ length (contents b)
    enough = omega (arith, ap length e, length-append (be_bytes n v) rest, length-be_bytes n v)

    peeked : peek_int n b ≡ some v
    peeked = rw (
      (sizes valid).read_offset,
      load-contents n valid (omega (arith, enough, length-contents valid)),
      e,
      take-append_self n (be_bytes n v) rest (sym (length-be_bytes n v)),
      of_be_bytes-be_bytes n v h,
    )

    rest_left : drop n (contents b) ≡ rest
    rest_left = rw e (drop-append_self n (be_bytes n v) rest (sym (length-be_bytes n v)))

-- An integer of `n` bytes that is put in front of a valid buffer's bytes, where there is space for
-- it, is what `readInt` then returns, and the bytes held before are left.
pub read_int-prepend_int :
    {b : Buffer} (n v : ℕ)
    → IsValid b
    → n ≤ b.read_index
    → v < 256 ^ n
    → (b' : Buffer) × (prepend_int n b v ≡ some b')
      × (read_int n b' ≡ some (v, retrieve b' n))
      × IsValid (retrieve b' n)
      × (contents (retrieve b' n) ≡ contents b)
unfolding prepend_int
read_int-prepend_int {b} n v valid h small =
    let (b', e, valid', held, _) =
      prepend_lem (be_bytes n v) valid (omega (arith, length-be_bytes n v)) in
    let (_, returned, valid'', left) = read_int-be_bytes n v (contents b) valid' small held in
    (b', e, returned, valid'', left)

-- A client that appends integers, and one that reads as many.
pub append_ints : ℕ → Buffer → List ℕ → Option Buffer
append_ints n b [] = some b
append_ints n b (v ∷ vs) = append_int n b v >>= λ b'. append_ints n b' vs

pub read_ints : ℕ → ℕ → Buffer → Option (List ℕ × Buffer)
read_ints n zero b = some ([], b)
read_ints n (suc k) b = read_int n b >>= λ r. Option.map (λ s. (r.0 ∷ s.0, s.1)) (read_ints n k r.1)

-- The bytes of a list of integers.
abbrev all_bytes : ℕ → List ℕ → List ℕ
all_bytes n [] = []
all_bytes n (v ∷ vs) = be_bytes n v ++ all_bytes n vs

abbrev pub AllBelow : ℕ → List ℕ → Type 0
AllBelow m [] = Unit
AllBelow m (v ∷ vs) = (v < m) × AllBelow m vs

append_ints_lem :
    (n : ℕ) (vs : List ℕ) (b : Buffer)
    → IsValid b
    → b.write_index + n * length vs < 2 ^ 31
    → (b' : Buffer) × (append_ints n b vs ≡ some b')
      × IsValid b'
      × (contents b' ≡ contents b ++ all_bytes n vs)
unfolding append_ints append_int
append_ints_lem n [] b valid h = (b, refl, valid, sym (append-nil (contents b)))
append_ints_lem n (v ∷ vs) b valid h =
    let (b', e, valid', held, _, near) = append_lem (be_bytes n v) valid (omega (arith, size)) in
    let (b'', e', valid'', held') = append_ints_lem n vs b' valid' (omega (arith, size, near)) in
    (b'', rw (e, e'), valid'', rw (held', held, append_assoc))
  where
    size : length (be_bytes n v) ≡ n
    size = length-be_bytes n v

read_ints_lem :
    (n : ℕ) (vs : List ℕ) (b : Buffer)
    → IsValid b
    → AllBelow (256 ^ n) vs
    → contents b ≡ all_bytes n vs
    → (b' : Buffer) × (read_ints n (length vs) b ≡ some (vs, b')) × IsValid b' × (contents b' ≡ [])
unfolding read_ints
read_ints_lem n [] b valid small e = (b, refl, valid, e)
read_ints_lem n (v ∷ vs) b valid small e =
    let (_, returned, valid', left) = read_int-be_bytes n v (all_bytes n vs) valid small.0 e in
    let (b', rest, valid'', none_left) = read_ints_lem n vs (retrieve b n) valid' small.1 left in
    (b', rw (returned, rest), valid'', none_left)

-- Integers of `n` bytes that are appended to a valid buffer with no readable bytes, one after the
-- other, are read back in the same order, and leave the buffer valid and with no readable bytes.
pub read_ints-append_ints :
    {b : Buffer} (n : ℕ) (vs : List ℕ)
    → IsValid b
    → contents b ≡ []
    → AllBelow (256 ^ n) vs
    → b.write_index + n * length vs < 2 ^ 31
    → (b' b'' : Buffer) × (append_ints n b vs ≡ some b')
      × (read_ints n (length vs) b' ≡ some (vs, b''))
      × IsValid b''
      × (contents b'' ≡ [])
read_ints-append_ints {b} n vs valid fresh small fits =
    let (b', e, valid', held) = append_ints_lem n vs b valid fits in
    let (b'', e', valid'', left) = read_ints_lem n vs b' valid' small (rw (held, fresh)) in
    (b', b'', e, e', valid'', left)
