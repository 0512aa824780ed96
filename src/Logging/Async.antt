-- ===== src/Logging/Async.antt =====
-- base/Logging.cpp with base/AsyncLogging.cpp as its output.
use cpp_practise.Base.{
  ℕ, ◌^◌, ◌≤◌, ◌<◌, ◌≡◌, refl, ap, ◌∙◌, false, List, [], ◌∷◌, ◌++◌, Option, some, length,
  length-take, take, lt→ltb, leb, arith, ◌⊎◌, inl, inr, Bool-cases, ◌>>=◌, if_true, if_false,
}
use cpp_practise.LogStream.{FixedBuffer}
use cpp_practise.LogStream.Fixed.{text}
use cpp_practise.Logging.{
  LogLevel, rank, log_level_name, Item, Site, heading, ending, is_fatal, put_out, log_statement,
}
use cpp_practise.Logging.Line.{AllFit, AddsAll, SiteFits, make_line_lem}
use cpp_practise.AsyncLogging.{AsyncLogging, append}
use cpp_practise.AsyncLogging.Sound.{IsSound}
use cpp_practise.AsyncLogging.Steps.{logged, entry, logged-append}

module _ (memory : List ℕ) (small : length memory < 2 ^ 31) where
  entry-shorter :
      (msg : List ℕ) → length msg < length memory → entry (length memory) msg ≡ msg ++ 0x20 ∷ []
  entry-shorter msg h = rw (lt→ltb (length msg) (length memory) h)

  put_out_lem :
      (flush : AsyncLogging → AsyncLogging)
      → ((l : AsyncLogging) → flush l ≡ l)
      → (level : LogLevel) (b : FixedBuffer) (l l' : AsyncLogging)
      → append memory l (take b.cur b.storage) ≡ some l'
      → put_out (append memory) flush level b l ≡ some (l', is_fatal level)
  put_out_lem flush same level b l l' e = elim (Bool-cases (is_fatal level)) [
    | inl f ↦ rw (e, f, same l') refl
    | inr f ↦ rw (e, f) refl
  ]

  -- A statement with a log macro, whose lines go to logging that is sound, with log buffers larger than
  -- the stream's, and a flush that does not touch logging. If its level is below the global one nothing
  -- happens. Otherwise nothing faults, logging stays sound, the whole line that the stream made goes
  -- behind all that was logged, with a blank, never dropped, and the program aborts exactly if the level is FATAL.
  pub log_statement_lem :
      (flush : AsyncLogging → AsyncLogging)
      → ((l : AsyncLogging) → flush l ≡ l)
      → (bar : LogLevel) (stream_memory time : List ℕ) (site : Site) (items : List Item)
        (l : AsyncLogging)
      → length stream_memory < length memory
      → length time < 2 ^ 31
      → SiteFits site
      → AllFit items
      → IsSound (length memory) l
      → ((rank site.level < rank bar)
          × (log_statement (append memory) flush bar stream_memory time site items l
              ≡ some (l, false)))
        ⊎ ((rank bar ≤ rank site.level)
            × ((l' : AsyncLogging) × (line : List ℕ) × (name : List ℕ) × (log_statement
                    (append memory)
                    flush
                    bar
                    stream_memory
                    time
                    site
                    items
                    l
                  ≡ some (l', is_fatal site.level))
                × IsSound (length memory) l'
                × (log_level_name site.level ≡ some name)
                × AddsAll
                    (length stream_memory)
                    []
                    (heading time name site ++ (items ++ ending))
                    line
                × (logged l' ≡ logged l ++ (line ++ 0x20 ∷ []))))
  unfolding log_statement
  log_statement_lem flush same bar stream_memory time site items l shorter h f fit s =
      elim (Bool-cases (leb (rank bar) (rank site.level))) [
        | inr below ↦ inl (ground arith, if_false _ (some (l, false)) below)
        | inl enabled ↦
            (let (b, name, e, n, v, long, added) =
                make_line_lem stream_memory time site items (omega arith) h f fit in
              let (l', e', s', more) =
                logged-append memory small l (text b) s
                  (omega (arith, length-take b.cur b.storage, long)) in
              inr (
                ground arith,
                (
                  l',
                  text b,
                  name,
                  if_true _ (some (l, false)) enabled
                      ∙ ap
                          (λ (o : Option FixedBuffer).
                            o >>= λ b'. put_out (append memory) flush site.level b' l)
                          e
                      ∙ put_out_lem flush same site.level b l l' e',
                  s',
                  n,
                  added,
                  more
                      ∙ ap (λ t. logged l ++ t)
                          (entry-shorter (text b)
                            (omega (arith, length-take b.cur b.storage, long))),
                ),
              ))
      ]
