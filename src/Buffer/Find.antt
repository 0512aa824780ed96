-- ===== src/Buffer/Find.antt =====
-- `findCRLF` and `findEOL` find the first end of a line among the readable bytes, and only there.
use cpp_practise.Base.{
  load, ℕ, zero, suc, ◌+◌, ◌-◌, ◌≤◌, ◌≡◌, refl, inl, inr, List, [], ◌∷◌, Option, some, none, arith,
  get_elem?, take_of_ge, ◌==◌, ◌&&◌, Bool-cases, false, to_size,
}
use mathlib.Core.Option
use cpp_practise.Buffer.{Buffer, readable_bytes, search_crlf, search_eol, find_crlf, find_eol}
use cpp_practise.Buffer.Valid.{IsValid, contents, sizes, length-contents, load-contents}

-- "\r\n" stands at offset `i`; '\n' stands there.
abbrev pub CrlfAt : List ℕ → ℕ → Type 0
CrlfAt xs i = (get_elem? xs i ≡ some 0x0d) × (get_elem? xs (suc i) ≡ some 0x0a)

abbrev pub EolAt : List ℕ → ℕ → Type 0
EolAt xs i = get_elem? xs i ≡ some 0x0a

-- `r` is the first place where `P` holds, or says that there is none.
pub data IsFirst (P : ℕ → Type 0) (r : Option ℕ) : Type 0 where
  nowhere : r ≡ none → ((i : ℕ) → ¬ P i) → IsFirst P r
  first : (i : ℕ) → r ≡ some i → P i → ((j : ℕ) → P j → i ≤ j) → IsFirst P r

search_crlf-IsFirst : (xs : List ℕ) → IsFirst (CrlfAt xs) (search_crlf xs)
unfolding search_crlf
search_crlf-IsFirst [] = nowhere refl (λ i h. cc)
search_crlf-IsFirst (x ∷ []) = nowhere refl none_there
  where
    none_there : (i : ℕ) → ¬ CrlfAt (x ∷ []) i
    none_there zero h = cc
    none_there (suc i) h = cc
search_crlf-IsFirst (x ∷ y ∷ xs) = elim (Bool-cases (x == 0x0d && y == 0x0a)) [
  | inl hit ↦ first 0 (rw hit) (ground arith, ground arith) (λ j h. omega arith)
  | inr miss ↦ later miss (search_crlf-IsFirst (y ∷ xs))
]
  where
    later :
        (x == 0x0d && y == 0x0a) ≡ false
        → IsFirst (CrlfAt (y ∷ xs)) (search_crlf (y ∷ xs))
        → IsFirst (CrlfAt (x ∷ y ∷ xs)) (search_crlf (x ∷ y ∷ xs))
    later miss (nowhere e never) = nowhere (rw (miss, e)) not_here
      where
        not_here : (i : ℕ) → ¬ CrlfAt (x ∷ y ∷ xs) i
        not_here zero h = ground arith
        not_here (suc i) h = never i h
    later miss (first i e here least) = first (suc i) (rw (miss, e)) here not_before
      where
        not_before : (j : ℕ) → CrlfAt (x ∷ y ∷ xs) j → suc i ≤ j
        not_before zero h = absurd (ground arith)
        not_before (suc j) h = omega (arith, least j h)

search_eol-IsFirst : (xs : List ℕ) → IsFirst (EolAt xs) (search_eol xs)
unfolding search_eol
search_eol-IsFirst [] = nowhere refl (λ i h. cc)
search_eol-IsFirst (x ∷ xs) = elim (Bool-cases (x == 0x0a)) [
  | inl hit ↦ first 0 (rw hit) (ground arith) (λ j h. omega arith)
  | inr miss ↦ later miss (search_eol-IsFirst xs)
]
  where
    later :
        (x == 0x0a) ≡ false
        → IsFirst (EolAt xs) (search_eol xs)
        → IsFirst (EolAt (x ∷ xs)) (search_eol (x ∷ xs))
    later miss (nowhere e never) = nowhere (rw (miss, e)) not_here
      where
        not_here : (i : ℕ) → ¬ EolAt (x ∷ xs) i
        not_here zero h = ground arith
        not_here (suc i) h = never i h
    later miss (first i e here least) = first (suc i) (rw (miss, e)) here not_before
      where
        not_before : (j : ℕ) → EolAt (x ∷ xs) j → suc i ≤ j
        not_before zero h = absurd (ground arith)
        not_before (suc j) h = omega (arith, least j h)

load-all :
    {b : Buffer}
    → IsValid b
    → load b.storage (to_size b.read_index) (to_size (readable_bytes b)) ≡ some (contents b)
load-all {b} v = rw (
  (sizes v).read_offset,
  (sizes v).readable_size,
  load-contents (b.write_index - b.read_index) v (omega arith),
  take_of_ge (b.write_index - b.read_index) (contents b) (omega (arith, length-contents v)),
)

-- In a valid buffer `findCRLF` returns the offset of the first "\r\n" among the readable bytes, and
-- `nullptr` exactly if there is none; it never faults.
pub find_crlf_lem :
    {b : Buffer}
    → IsValid b
    → (r : Option ℕ) × (find_crlf b ≡ some (Option.map (λ i. b.read_index + i) r))
      × IsFirst (CrlfAt (contents b)) r
unfolding find_crlf
find_crlf_lem {b} v = (
  search_crlf (contents b),
  rw (load-all v, (sizes v).read_offset),
  search_crlf-IsFirst (contents b),
)

-- In a valid buffer `findEOL` returns the offset of the first '\n' among the readable bytes, and
-- `nullptr` exactly if there is none; it never faults.
pub find_eol_lem :
    {b : Buffer}
    → IsValid b
    → (r : Option ℕ) × (find_eol b ≡ some (Option.map (λ i. b.read_index + i) r))
      × IsFirst (EolAt (contents b)) r
unfolding find_eol
find_eol_lem {b} v = (
  search_eol (contents b),
  rw (load-all v, (sizes v).read_offset),
  search_eol-IsFirst (contents b),
)
