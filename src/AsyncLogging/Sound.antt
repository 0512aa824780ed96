-- ===== src/AsyncLogging/Sound.antt =====
-- The invariant of the two pairs of buffers: no pointer that is used is null, and the thread finds the
-- buffers that it takes back.
use cpp_practise.Base.{
  ℕ, zero, suc, ◌+◌, ◌≤◌, Bool, true, false, List, [], ◌∷◌, ◌++◌, Option, none, some, ◌≡◌, refl,
  arith, length, take,
}
use cpp_practise.LogStream.{FixedBuffer, clear}
use cpp_practise.LogStream.Fixed.{IsValid}
use cpp_practise.AsyncLogging.{AsyncLogging, split_last, refill}

module _ (size : ℕ) where
  pub record IsBuffer (b : FixedBuffer) : Type 0 where
    pub valid : IsValid b
    pub sized : length b.storage ≡ size

  abbrev pub AllBuffers : List FixedBuffer → Type 0
  AllBuffers [] = Unit
  AllBuffers (b ∷ bs) = IsBuffer b × AllBuffers bs

  -- A pointer to a buffer that is not null; one to an empty buffer; one that is empty if not null.
  abbrev pub HasBuffer : Option FixedBuffer → Type 0
  HasBuffer none = ⊥
  HasBuffer (some b) = IsBuffer b

  abbrev pub HasEmpty : Option FixedBuffer → Type 0
  HasEmpty none = ⊥
  HasEmpty (some b) = IsBuffer b × (b.cur ≡ 0)

  abbrev pub EmptyOr : Type 0 → Option FixedBuffer → Type 0
  EmptyOr P none = P
  EmptyOr P (some b) = IsBuffer b × (b.cur ≡ 0)

  -- The thread between its rounds, and within one.
  abbrev pub WorkerSound :
      Bool → Option FixedBuffer → Option FixedBuffer → List FixedBuffer → Type 0
  WorkerSound false b1 b2 bs = HasEmpty b1 × HasEmpty b2 × (length bs ≡ 0)
  WorkerSound true b1 b2 bs =
      (b1 ≡ none) × EmptyOr (2 ≤ length bs) b2 × (1 ≤ length bs) × AllBuffers bs

  pub record IsSound (l : AsyncLogging) : Type 0 where
    pub front : HasBuffer l.front
    pub spare : EmptyOr (1 ≤ length l.full) l.spare
    pub full : AllBuffers l.full
    pub worker : WorkerSound l.busy l.buffer1 l.buffer2 l.to_write

  pub AllBuffers-append :
      (bs cs : List FixedBuffer) → AllBuffers bs → AllBuffers cs → AllBuffers (bs ++ cs)
  AllBuffers-append [] cs h k = k
  AllBuffers-append (b ∷ bs) cs h k = (h.0, AllBuffers-append bs cs h.1 k)

  pub AllBuffers-take : (n : ℕ) (bs : List FixedBuffer) → AllBuffers bs → AllBuffers (take n bs)
  AllBuffers-take zero bs h = tt
  AllBuffers-take (suc n) [] h = tt
  AllBuffers-take (suc n) (b ∷ bs) h = (h.0, AllBuffers-take n bs h.1)

  split_last_lem :
      (bs : List FixedBuffer)
      → AllBuffers bs
      → 1 ≤ length bs
      → (r : List FixedBuffer × FixedBuffer) × (split_last bs ≡ some r)
        × AllBuffers r.0
        × IsBuffer r.1
        × (length r.0 + 1 ≡ length bs)
  unfolding split_last
  split_last_lem [] h k = absurd (omega arith)
  split_last_lem (b ∷ []) h k = (([], b), refl, tt, h.0, omega arith)
  split_last_lem (b ∷ c ∷ bs) h k =
      let (r, e, all, one, long) = split_last_lem (c ∷ bs) h.1 (omega arith) in
      ((b ∷ r.0, r.1), rw e, (h.0, all), one, omega (arith, long))

  -- A pointer to be filled again finds a buffer, and leaves the others.
  pub refill-null :
      (bs : List FixedBuffer)
      → AllBuffers bs
      → 1 ≤ length bs
      → (r : Option FixedBuffer × List FixedBuffer) × (refill none bs ≡ some r)
        × HasEmpty r.0
        × AllBuffers r.1
        × (length r.1 + 1 ≡ length bs)
  unfolding refill
  refill-null bs h k =
      let (r, e, all, one, long) = split_last_lem bs h k in
      (
        (some (clear r.1), r.0),
        rw e,
        (
          record { valid = omega (arith, one.valid.inside, one.valid.small); sized = one.sized },
          refl,
        ),
        all,
        long,
      )

  pub refill_lem :
      (o : Option FixedBuffer) (bs : List FixedBuffer)
      → EmptyOr (1 ≤ length bs) o
      → AllBuffers bs
      → (r : Option FixedBuffer × List FixedBuffer) × (refill o bs ≡ some r) × HasEmpty r.0
  unfolding refill
  refill_lem none bs k h = let (r, e, one, _, _) = refill-null bs h k in (r, e, one)
  refill_lem (some b) bs k h = ((some b, bs), refl, k)
