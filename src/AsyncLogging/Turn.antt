-- ===== src/AsyncLogging/Turn.antt =====
-- base/AsyncLogging.cpp: one turn of the logging thread.
use cpp_practise.Base.{
  if_true, if_false, ℕ, ◌+◌, ◌^◌, ◌≤◌, ◌<◌, Bool, true, false, List, [], ◌∷◌, ◌++◌, Option, none,
  some, ◌≡◌, refl, sym, arith, length, length-append, take, ltb, ltb→lt, if◌then◌else◌, append-nil,
  append_assoc, ap, ◌∙◌, Bool-cases, inl, inr, length-take,
}
use cpp_practise.LogStream.{FixedBuffer}
use cpp_practise.AsyncLogging.{AsyncLogging, content, swap_spare, swap, finish}
use cpp_practise.AsyncLogging.Write.{texts, write_all_lem}
use cpp_practise.AsyncLogging.Sound.{
  AllBuffers, HasBuffer, HasEmpty, EmptyOr, WorkerSound, IsSound, AllBuffers-append,
  AllBuffers-take, refill-null, refill_lem,
}
use cpp_practise.AsyncLogging.Steps.{text_of, logged, front-some, shifted}

-- The thread takes the buffers, or writes those that it took.
pub next_round : AsyncLogging → Option AsyncLogging
next_round l = if l.busy then finish l else swap l

nil-of_length {ℓ} : {A : Type ℓ} (xs : List A) → length xs ≡ 0 → xs ≡ []
nil-of_length [] e = refl
nil-of_length (x ∷ xs) e = absurd (omega arith)

module _ (memory : List ℕ) (small : length memory < 2 ^ 31) where
  abbrev pub size : ℕ
  size = length memory

  idle :
      (w : Bool) (b1 b2 : Option FixedBuffer) (bs : List FixedBuffer)
      → w ≡ false
      → WorkerSound size w b1 b2 bs
      → HasEmpty size b1 × HasEmpty size b2 × (length bs ≡ 0)
  idle false b1 b2 bs e h = h
  idle true b1 b2 bs e h = absurd (ground arith)

  working :
      (w : Bool) (b1 b2 : Option FixedBuffer) (bs : List FixedBuffer)
      → w ≡ true
      → WorkerSound size w b1 b2 bs
      → (b1 ≡ none) × EmptyOr size (2 ≤ length bs) b2 × (1 ≤ length bs) × AllBuffers size bs
  working true b1 b2 bs e h = h
  working false b1 b2 bs e h = absurd (ground arith)

  -- Between its rounds the thread holds no text.
  pub nothing_to_write :
      (l : AsyncLogging) → IsSound size l → l.busy ≡ false → texts l.to_write ≡ []
  nothing_to_write l s e =
      let (_, _, none_left) = idle l.busy l.buffer1 l.buffer2 l.to_write e s.worker in
      ap texts (nil-of_length l.to_write none_left)

  HasBuffer-of_empty : (o : Option FixedBuffer) → HasEmpty size o → HasBuffer size o
  HasBuffer-of_empty none h = h
  HasBuffer-of_empty (some b) h = h.0

  EmptyOr-of_empty : (P : Type 0) (o : Option FixedBuffer) → HasEmpty size o → EmptyOr size P o
  EmptyOr-of_empty P none h = absurd h
  EmptyOr-of_empty P (some b) h = h

  EmptyOr-map :
      (o : Option FixedBuffer) {P Q : Type 0} → (P → Q) → EmptyOr size P o → EmptyOr size Q o
  EmptyOr-map none f h = f h
  EmptyOr-map (some b) f h = h

  AllBuffers-nil : (bs : List FixedBuffer) → length bs ≡ 0 → AllBuffers size bs
  AllBuffers-nil [] e = tt
  AllBuffers-nil (b ∷ bs) e = absurd (omega arith)

  text_of-empty : (o : Option FixedBuffer) → HasEmpty size o → text_of o ≡ []
  text_of-empty none h = refl
  text_of-empty (some b) h = ap (λ (i : ℕ). take i b.storage) h.1

  swap_spare_lem :
      (o b2 : Option FixedBuffer) (n k : ℕ)
      → k ≡ n + 1
      → EmptyOr size (1 ≤ n) o
      → HasEmpty size b2
      → HasEmpty size (swap_spare o b2).0 × EmptyOr size (2 ≤ k) (swap_spare o b2).1
  swap_spare_lem none b2 n m e h k = (k, omega arith)
  swap_spare_lem (some b) none n m e h k = absurd k
  swap_spare_lem (some b) (some c) n m e h k = (h, k)

  -- The part of the round under the lock gives the loggers two buffers, and loses no text.
  pub swap_lem :
      (l : AsyncLogging)
      → IsSound size l
      → l.busy ≡ false
      → (l' : AsyncLogging) × (swap l ≡ some l')
        × IsSound size l'
        × (logged l' ≡ logged l)
        × (l'.busy ≡ true)
        × (texts l'.full ++ text_of l'.front ≡ [])
  unfolding swap
  swap_lem l s rest_time =
      let (b, e, one) = front-some memory small l.front s.front in
      let (h1, h2, h3) = idle l.busy l.buffer1 l.buffer2 l.to_write rest_time s.worker in
      let long : length (l.full ++ b ∷ []) ≡ length l.full + 1 = length-append l.full (b ∷ []) in
      let none_left = nil-of_length l.to_write h3 in
      let (k1, k2) = swap_spare_lem l.spare l.buffer2 _ _ long s.spare h2 in
      (
        record l {
          front = l.buffer1;
          spare = (swap_spare l.spare l.buffer2).0;
          full = l.to_write;
          buffer1 = none;
          buffer2 = (swap_spare l.spare l.buffer2).1;
          to_write = l.full ++ b ∷ [];
          busy = true;
        },
        rw e refl,
        record {
          front = HasBuffer-of_empty l.buffer1 h1;
          spare = EmptyOr-of_empty _ _ k1;
          full = AllBuffers-nil l.to_write h3;
          worker = (
            refl,
            k2,
            omega (arith, long),
            AllBuffers-append size l.full (b ∷ []) s.full (one, tt),
          );
        },
        rw none_left (
            ap (λ t. l.file ++ (texts (l.full ++ b ∷ []) ++ t)) (text_of-empty l.buffer1 h1)
            ∙ ap (λ t. l.file ++ t) (shifted memory small l.full b [])
            ∙ ap (λ t. l.file ++ (texts l.full ++ t)) (append-nil (content b))
            ∙ ap (λ o. l.file ++ (texts l.full ++ text_of o)) (sym e)),
        refl,
        rw none_left (text_of-empty l.buffer1 h1),
      )

  kept_lem :
      (bs : List FixedBuffer)
      → AllBuffers size bs
      → 1 ≤ length bs
      → AllBuffers size (if ltb 2 (length bs) then take 2 bs else bs)
        × (1 ≤ length (if ltb 2 (length bs) then take 2 bs else bs))
        × (2 ≤ length bs → 2 ≤ length (if ltb 2 (length bs) then take 2 bs else bs))
  kept_lem bs h k = elim (Bool-cases (ltb 2 (length bs))) [
    | inl many ↦
        (let long = length-take 2 bs in
          let more = ltb→lt 2 (length bs) many in
          rw many (
            AllBuffers-take size 2 bs h,
            omega (arith, long, more),
            (λ _. omega (arith, long, more)),
          ))
    | inr few ↦ rw few (h, k, (λ two. two))
  ]

  -- The rest of the round puts the buffers' text into the file, and gives the thread its two buffers back.
  pub finish_lem :
      (l : AsyncLogging)
      → IsSound size l
      → l.busy ≡ true
      → (l' : AsyncLogging) × (finish l ≡ some l')
        × IsSound size l'
        × (logged l' ≡ logged l)
        × (l'.busy ≡ false)
        × (l'.file ≡ l.file ++ texts l.to_write)
        × (l'.full ≡ l.full)
        × (l'.front ≡ l.front)
  unfolding finish
  finish_lem l s at_work =
      let (h1, h2, h3, h4) = working l.busy l.buffer1 l.buffer2 l.to_write at_work s.worker in
      let (k, one, two) = kept_lem l.to_write h4 h3 in
      let (r1, e1, full1, all1, long1) = refill-null size _ k one in
      let (r2, e2, full2) =
        refill_lem size l.buffer2 r1.1 (EmptyOr-map l.buffer2 (λ t. omega (arith, long1, two t)) h2)
          all1 in
      (
        record l {
          buffer1 = r1.0;
          buffer2 = r2.0;
          to_write = [];
          busy = false;
          file = l.file ++ texts l.to_write;
        },
        rw (write_all_lem l.to_write, h1, e1, e2) refl,
        record { front = s.front; spare = s.spare; full = s.full; worker = (full1, full2, refl) },
        append_assoc l.file (texts l.to_write) (texts l.full ++ text_of l.front),
        refl,
        refl,
        refl,
        refl,
      )

  pub next_round_lem :
      (l : AsyncLogging)
      → IsSound size l
      → (l' : AsyncLogging) × (next_round l ≡ some l') × IsSound size l' × (logged l' ≡ logged l)
  unfolding next_round
  next_round_lem l s = elim (Bool-cases l.busy) [
    | inl at_work ↦
        (let (l', e, s', same, _, _, _, _) = finish_lem l s at_work in
          (l', if_true (finish l) (swap l) at_work ∙ e, s', same))
    | inr rest_time ↦
        (let (l', e, s', same, _, _) = swap_lem l s rest_time in
          (l', if_false (finish l) (swap l) rest_time ∙ e, s', same))
  ]
