-- ===== src/Buffer/Retrieve.antt =====
-- `retrieve` and its variants take readable bytes off the front.
use cpp_practise.Base.{
  if◌then◌else◌, ◌∙◌, ℕ, ◌+◌, ◌-◌, ◌≤◌, ◌≡◌, refl, sym, [], some, arith, length, take, drop,
  length-take, drop-drop, drop_of_ge, take_of_ge, ltb, Bool-cases, inl, inr, to_size, sub_size,
}
use cpp_practise.Buffer.{
  Buffer, readable_bytes, prepend_size, retrieve, retrieve_all, retrieve_until, retrieve_as_string,
  retrieve_as_string_until, retrieve_all_as_string,
}
use cpp_practise.Buffer.Valid.{IsValid, contents, sizes, length-contents, load-contents}

-- What `retrieve` does under the invariant, without wrap-around.
retrieve-eq :
    {b : Buffer} (len : ℕ)
    → IsValid b
    → retrieve b len ≡ (
        if ltb len (b.write_index - b.read_index)
        then record b { read_index = b.read_index + len }
        else retrieve_all b)
unfolding retrieve
retrieve-eq len v = ground (arith, sizes v)

contents-retrieve :
    {b : Buffer} (len : ℕ) → IsValid b → contents (retrieve b len) ≡ drop len (contents b)
contents-retrieve {b} len v = elim (Bool-cases (ltb len (b.write_index - b.read_index))) [
  | inl some_left ↦
      rw (retrieve-eq len v, some_left)
        (sym (drop-drop len b.read_index (b.read_index + len) (take b.write_index b.storage) refl))
  | inr none_left ↦ rw (
    retrieve-eq len v,
    none_left,
    drop_of_ge prepend_size (take prepend_size b.storage)
        (omega (arith, length-take prepend_size b.storage)),
    drop_of_ge len (contents b) (ground (arith, length-contents v)),
  )
]

-- Taking `len` bytes off a valid buffer leaves it valid, and drops that many readable bytes, all of
-- them if there are fewer. An emptied buffer starts again behind its space for prepending, and the
-- vector is not touched.
pub retrieve_lem :
    {b : Buffer} (len : ℕ)
    → IsValid b
    → IsValid (retrieve b len)
      × (contents (retrieve b len) ≡ drop len (contents b))
      × ((retrieve b len).storage ≡ b.storage)
      × (length (contents b) ≤ len → (retrieve b len).read_index ≡ prepend_size)
retrieve_lem {b} len v = (
  rw (retrieve-eq len v) (ground arith),
  contents-retrieve len v,
  rw (retrieve-eq len v) (ground arith),
  λ h. rw (retrieve-eq len v) (ground (arith, length-contents v)),
)

-- Reading at most the readable bytes returns the first of them and leaves the others.
pub retrieve_as_string_lem :
    {b : Buffer} (len : ℕ)
    → IsValid b
    → len ≤ length (contents b)
    → (retrieve_as_string b len ≡ some (take len (contents b), retrieve b len))
      × IsValid (retrieve b len)
      × (contents (retrieve b len) ≡ drop len (contents b))
unfolding retrieve_as_string
retrieve_as_string_lem {b} len v h = (
  rw ((sizes v).read_offset, load-contents len v (omega (arith, length-contents v))),
  (retrieve_lem len v).0,
  contents-retrieve len v,
)

-- `retrieveAllAsString` returns all readable bytes and leaves none.
pub retrieve_all_as_string_lem :
    {b : Buffer}
    → IsValid b
    → (b' : Buffer) × (retrieve_all_as_string b ≡ some (contents b, b'))
      × IsValid b'
      × (contents b' ≡ [])
unfolding retrieve_all_as_string
retrieve_all_as_string_lem {b} v =
    let n : ℕ = length (contents b) in
    let (e, v', rest) = retrieve_as_string_lem n v (omega arith) in
    (
      retrieve b n,
      rw (all, e, take_of_ge n (contents b) (omega arith)),
      v',
      rest ∙ drop_of_ge n (contents b) (omega arith),
    )
  where
    all : to_size (readable_bytes b) ≡ length (contents b)
    all = omega (arith, (sizes v).readable_size, length-contents v)

-- Up to a pointer into the readable bytes, as `findCRLF` returns: exactly the bytes before it are
-- returned, or dropped.
pub retrieve_until_lem :
    {b : Buffer} (n : ℕ)
    → IsValid b
    → n ≤ length (contents b)
    → (retrieve_as_string_until b (b.read_index + n)
        ≡ some (take n (contents b), retrieve_until b (b.read_index + n)))
      × IsValid (retrieve_until b (b.read_index + n))
      × (contents (retrieve_until b (b.read_index + n)) ≡ drop n (contents b))
unfolding retrieve_as_string_until retrieve_until
retrieve_until_lem {b} n v h = rw distance (retrieve_as_string_lem n v h)
  where
    distance : sub_size (b.read_index + n) (to_size b.read_index) ≡ n
    distance = ground (arith, sizes v, length-contents v)
