-- ===== src/Buffer/Valid.antt =====
-- The representation invariant of the buffer, the bytes that it holds, and what its index
-- arithmetic comes to under the invariant.
use cpp_practise.Base.{
  load, ℕ, ◌+◌, ◌-◌, ◌^◌, ◌≤◌, ◌<◌, ◌≡◌, refl, List, some, arith, length, take, drop, length-take,
  length-drop, length-replicate, take-drop, take-take, le→leb, to_size, ap,
}
use cpp_practise.Buffer.{
  Buffer, make, readable_bytes, writable_bytes, prepend_size, initial_size, load,
}

pub record IsValid (b : Buffer) : Type 0 where
  pub ordered : b.read_index ≤ b.write_index
  pub inside : b.write_index ≤ length b.storage
  pub roomy : prepend_size ≤ length b.storage
  pub small : length b.storage < 2 ^ 31

-- The readable bytes.
abbrev pub contents : Buffer → List ℕ
contents b = drop b.read_index (take b.write_index b.storage)

-- The three sizes, without wrap-around: they add up to the vector's size.
pub record Sizes (b : Buffer) : Type 0 where
  pub read_offset : to_size b.read_index ≡ b.read_index
  pub write_offset : to_size b.write_index ≡ b.write_index
  pub readable : readable_bytes b ≡ b.write_index - b.read_index
  pub readable_size : to_size (readable_bytes b) ≡ b.write_index - b.read_index
  pub writable : writable_bytes b ≡ length b.storage - b.write_index
  pub writable_size : to_size (writable_bytes b) ≡ length b.storage - b.write_index

pub sizes : {b : Buffer} → IsValid b → Sizes b
sizes v = ground arith

pub length-contents : {b : Buffer} → IsValid b → length (contents b) ≡ b.write_index - b.read_index
length-contents {b} v = omega (
  arith,
  length-drop b.read_index (take b.write_index b.storage),
  length-take b.write_index b.storage,
)

pub make-IsValid : (size : ℕ) → IsValid (make size)
unfolding make
make-IsValid size = omega (arith, length-replicate {A = ℕ} (prepend_size + initial_size) 0)

-- A load inside the readable bytes gives a prefix of them.
pub load-contents :
    {b : Buffer} (n : ℕ)
    → IsValid b
    → n ≤ b.write_index - b.read_index
    → load b.storage b.read_index n ≡ some (take n (contents b))
unfolding load
load-contents {b} n v h =
    rw (le→leb (b.read_index + n) (length b.storage) (omega arith)) (ap some same)
  where
    same :
        take n (drop b.read_index b.storage)
        ≡ take n (drop b.read_index (take b.write_index b.storage))
    same = rw (
      take-drop n b.read_index (b.read_index + n) b.storage refl,
      take-drop n b.read_index (b.read_index + n) (take b.write_index b.storage) refl,
      take-take (b.read_index + n) b.write_index b.storage (omega arith),
    )
