-- ===== src/AsyncLogging/Steps.antt =====
-- base/AsyncLogging.cpp: where `append` puts a message, whichever buffer takes it.
use cpp_practise.Base.{
  ltb→lt, ap₂, ℕ, ◌+◌, ◌^◌, ◌<◌, true, false, List, [], ◌∷◌, ◌++◌, Option, none, some, ◌≡◌, refl,
  sym, arith, length, length-append, take, ltb, lt→ltb, if◌then◌else◌, append-nil, append_assoc, ap,
  ◌∙◌, Bool-cases, inl, inr,
}
use cpp_practise.LogStream.{FixedBuffer}
use cpp_practise.LogStream.Fixed.{text-append, append-test}
use cpp_practise.AsyncLogging.{
  AsyncLogging, content, new_buffer, make, next_front, append_to, append,
}
use cpp_practise.AsyncLogging.Write.{texts, texts-append}
use cpp_practise.AsyncLogging.Sound.{IsBuffer, HasBuffer, EmptyOr, IsSound, AllBuffers-append}

abbrev pub text_of : Option FixedBuffer → List ℕ
text_of none = []
text_of (some b) = content b

-- All that was logged: what is in the file, what the thread is writing, the full buffers, and the front.
abbrev pub logged : AsyncLogging → List ℕ
logged l = l.file ++ (texts l.to_write ++ (texts l.full ++ text_of l.front))

-- What a message adds: it is dropped if it would not fit even into an empty buffer.
abbrev pub entry : ℕ → List ℕ → List ℕ
entry size msg = if ltb (length msg) size then msg ++ 0x20 ∷ [] else []

module _ (memory : List ℕ) (small : length memory < 2 ^ 31) where
  abbrev size : ℕ
  size = length memory

  new_buffer-IsBuffer : IsBuffer size (new_buffer memory)
  new_buffer-IsBuffer = record { valid = omega arith; sized = refl }

  pub make-IsSound : IsSound size (make memory)
  make-IsSound = record {
    front = new_buffer-IsBuffer;
    spare = (new_buffer-IsBuffer, refl);
    full = tt;
    worker = ((new_buffer-IsBuffer, refl), (new_buffer-IsBuffer, refl), refl);
  }

  pub front-some :
      (o : Option FixedBuffer)
      → HasBuffer size o
      → (b : FixedBuffer) × (o ≡ some b) × IsBuffer size b
  front-some none h = absurd h
  front-some (some b) h = (b, refl, h)

  next_front_lem :
      (o : Option FixedBuffer) (P : Type 0)
      → EmptyOr size P o
      → IsBuffer size (next_front memory o) × ((next_front memory o).cur ≡ 0)
  next_front_lem none P h = (new_buffer-IsBuffer, refl)
  next_front_lem (some b) P h = h

  -- More text behind the front buffer's.
  behind :
      (file out full front more : List ℕ)
      → file ++ (out ++ (full ++ (front ++ more))) ≡ (file ++ (out ++ (full ++ front))) ++ more
  behind file out full front more =
      ap (λ t. file ++ (out ++ t)) (sym (append_assoc full front more))
      ∙ ap (λ t. file ++ t) (sym (append_assoc out (full ++ front) more))
      ∙ sym (append_assoc file (out ++ (full ++ front)) more)

  -- The front buffer becomes the last of the full ones.
  pub shifted :
      (full : List FixedBuffer) (b : FixedBuffer) (more : List ℕ)
      → texts (full ++ b ∷ []) ++ more ≡ texts full ++ (content b ++ more)
  shifted full b more =
      ap (λ t. t ++ more)
        (texts-append full (b ∷ []) ∙ ap (λ t. texts full ++ t) (append-nil (content b)))
      ∙ append_assoc (texts full) (content b) more

  -- The front buffer's text once a message was appended: behind its text, or alone in an empty buffer.
  added :
      (b b' : FixedBuffer) (msg : List ℕ)
      → length b.storage ≡ size
      → ltb (b.cur + length msg) (length b.storage) ≡ true
      → content b' ≡ (
          if ltb (b.cur + length msg) (length b.storage)
          then content b ++ (msg ++ 0x20 ∷ [])
          else content b)
      → content b' ≡ content b ++ entry size msg
  added b b' msg sized fits h = h ∙ rw (fits, also) refl
    where
      also : ltb (length msg) size ≡ true
      also =
          lt→ltb (length msg) size
            (omega (arith, ltb→lt (b.cur + length msg) (length b.storage) fits))

  began :
      (f b' : FixedBuffer) (msg : List ℕ)
      → f.cur ≡ 0
      → length f.storage ≡ size
      → content b' ≡ (
          if ltb (f.cur + length msg) (length f.storage)
          then content f ++ (msg ++ 0x20 ∷ [])
          else content f)
      → content b' ≡ entry size msg
  began f b' msg zero_at sized h = h ∙ rw (test, nothing) refl
    where
      nothing : content f ≡ []
      nothing = ap (λ (i : ℕ). take i f.storage) zero_at

      test : ltb (f.cur + length msg) (length f.storage) ≡ ltb (length msg) size
      test = ground arith

  append_here :
      (l : AsyncLogging) (b : FixedBuffer) (msg : List ℕ)
      → IsSound size l
      → l.front ≡ some b
      → IsBuffer size b
      → length msg < 2 ^ 31
      → ltb (b.cur + length msg) (length b.storage) ≡ true
      → (l' : AsyncLogging) × (append_to memory l b msg ≡ some l')
        × IsSound size l'
        × (logged l' ≡ logged l ++ entry size msg)
  unfolding append_to
  append_here l b msg s e one h fits =
      let (b', done, v', written, long) = text-append {b = b} msg one.valid h in
      (
        record l { front = some b' },
        rw (append-test {b = b} (length msg) one.valid h, fits, done),
        record {
          front = record { valid = v'; sized = long ∙ one.sized };
          spare = s.spare;
          full = s.full;
          worker = s.worker;
        },
        ap (λ t. l.file ++ (texts l.to_write ++ (texts l.full ++ t)))
              (added b b' msg one.sized fits written)
            ∙ behind l.file (texts l.to_write) (texts l.full) (content b) (entry size msg)
            ∙ ap
                (λ o.
                  (l.file ++ (texts l.to_write ++ (texts l.full ++ text_of o))) ++ entry size msg)
                (sym e),
      )

  append_next :
      (l : AsyncLogging) (b : FixedBuffer) (msg : List ℕ)
      → IsSound size l
      → l.front ≡ some b
      → IsBuffer size b
      → length msg < 2 ^ 31
      → ltb (b.cur + length msg) (length b.storage) ≡ false
      → (l' : AsyncLogging) × (append_to memory l b msg ≡ some l')
        × IsSound size l'
        × (logged l' ≡ logged l ++ entry size msg)
  unfolding append_to
  append_next l b msg s e one h tight =
      let (next, zero_at) = next_front_lem l.spare _ s.spare in
      let f : FixedBuffer = next_front memory l.spare in
      let (b', done, v', written, long) = text-append {b = f} msg next.valid h in
      (
        record l { front = some b'; spare = none; full = l.full ++ b ∷ [] },
        rw (append-test {b = b} (length msg) one.valid h, tight, done),
        record {
          front = record { valid = v'; sized = long ∙ next.sized };
          spare = omega (arith, length-append l.full (b ∷ []));
          full = AllBuffers-append size l.full (b ∷ []) s.full (one, tt);
          worker = s.worker;
        },
        ap (λ t. l.file ++ (texts l.to_write ++ t)) (shifted l.full b (content b'))
            ∙ behind l.file (texts l.to_write) (texts l.full) (content b) (content b')
            ∙ ap₂ (λ o t. (l.file ++ (texts l.to_write ++ (texts l.full ++ text_of o))) ++ t)
                (sym e) (began f b' msg zero_at next.sized written),
      )

  -- `append` on logging that is sound, with a message shorter than 2 ^ 31: it does not fault, logging stays
  -- sound, and what was logged goes on with the message and a blank, or is left as it is if the message
  -- is as long as a buffer.
  pub logged-append :
      (l : AsyncLogging) (msg : List ℕ)
      → IsSound size l
      → length msg < 2 ^ 31
      → (l' : AsyncLogging) × (append memory l msg ≡ some l')
        × IsSound size l'
        × (logged l' ≡ logged l ++ entry size msg)
  unfolding append
  logged-append l msg s h =
      let (b, e, one) = front-some l.front s.front in
      elim (Bool-cases (ltb (b.cur + length msg) (length b.storage))) [
        | inl fits ↦
            (let (l', done, s', more) = append_here l b msg s e one h fits in
              (l', rw e done, s', more))
        | inr tight ↦
            (let (l', done, s', more) = append_next l b msg s e one h tight in
              (l', rw e done, s', more))
      ]
