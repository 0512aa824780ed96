-- ===== src/AsyncLogging.antt =====
-- base/AsyncLogging.cpp: loggers append to a front buffer under a lock, and one thread writes full
-- buffers to a file. The part of the thread's round under the lock is one step (`swap`), the rest
-- another (`finish`), so loggers may come between.
pub mod Write
pub mod Sound
pub mod Steps
pub mod Turn
pub mod Rounds
pub mod Service
pub mod Shutdown
mod Tests
use mathlib.Core.Option
use cpp_practise.Base.{
  ℕ, zero, suc, ◌+◌, ◌-◌, Bool, true, false, List, [], ◌∷◌, ◌++◌, Option, none, some, if◌then◌else◌,
  ltb, leb, length, take, ◌>>=◌, to_int,
}
use cpp_practise.LogStream
use cpp_practise.LogStream.{FixedBuffer, clear, rest, ltb_int}

-- `fwriten`: `counts` are what the calls of `fwrite` return, one after the other. Each call is given
-- the message from its beginning, and `remain` bytes of it; the result is what the file gets. `none`
-- means that the counts are used up.
unfoldable pub fwriten_loop : List ℕ → ℕ → List ℕ → Option (List ℕ)
fwriten_loop msg zero counts = some []
fwriten_loop msg (suc r) [] = none
fwriten_loop msg (suc r) (zero ∷ counts) = some []
fwriten_loop msg (suc r) (suc w ∷ counts) =
    Option.map (λ out. take (suc w) msg ++ out) (fwriten_loop msg (suc r - suc w) counts)

pub fwriten : List ℕ → List ℕ → Option (List ℕ)
unfolding fwriten_loop
fwriten msg counts = fwriten_loop msg (length msg) counts

-- The members that loggers and the thread share, the thread's own variables, and the file.
pub record AsyncLogging : Type 0 where
  pub front : Option FixedBuffer
  pub spare : Option FixedBuffer
  pub full : List FixedBuffer
  pub buffer1 : Option FixedBuffer
  pub buffer2 : Option FixedBuffer
  pub to_write : List FixedBuffer
  pub busy : Bool
  pub file : List ℕ

-- The bytes from `data()` to `length()`.
abbrev pub content : FixedBuffer → List ℕ
content b = take b.cur b.storage

-- `vector::back` and `vector::pop_back`, which fault on an empty vector.
unfoldable pub split_last : List FixedBuffer → Option (List FixedBuffer × FixedBuffer)
split_last [] = none
split_last (b ∷ []) = some ([], b)
split_last (b ∷ c ∷ bs) = Option.map (λ r. (b ∷ r.0, r.1)) (split_last (c ∷ bs))

-- A null pointer is `none`. Its use is a fault; so is, here, its move into a vector.
-- `memory` is what a new buffer of the program's size holds before anything is written.
module _ (memory : List ℕ) where
  abbrev pub new_buffer : FixedBuffer
  new_buffer = record { storage = memory; cur = 0 }

  -- The thread starts with two buffers of its own, as the loggers do.
  abbrev pub make : AsyncLogging
  make = record {
    front = some new_buffer;
    spare = some new_buffer;
    full = [];
    buffer1 = some new_buffer;
    buffer2 = some new_buffer;
    to_write = [];
    busy = false;
    file = [];
  }

  abbrev next_front : Option FixedBuffer → FixedBuffer
  next_front none = new_buffer
  next_front (some b) = b

  append_to : AsyncLogging → FixedBuffer → List ℕ → Option AsyncLogging
  append_to l b msg =
      if ltb_int (to_int (length msg)) (rest b)
      then Option.map (λ b'. record l { front = some b' }) (LogStream.append b msg)
      else Option.map (λ b'. record l { front = some b'; spare = none; full = l.full ++ b ∷ [] })
          (LogStream.append (next_front l.spare) msg)

  -- `AsyncLogging::append`
  pub append : AsyncLogging → List ℕ → Option AsyncLogging
  unfolding append_to
  append l msg = l.front >>= λ b. append_to l b msg

-- If the spare buffer is gone, the thread's second one takes its place.
abbrev pub swap_spare :
    Option FixedBuffer → Option FixedBuffer → Option FixedBuffer × Option FixedBuffer
swap_spare none b2 = (b2, none)
swap_spare (some b) b2 = (some b, b2)

-- The part of the round under the lock.
pub swap : AsyncLogging → Option AsyncLogging
swap l = l.front >>= λ b. some (record l {
  front = l.buffer1;
  spare = (swap_spare l.spare l.buffer2).0;
  full = l.to_write;
  buffer1 = none;
  buffer2 = (swap_spare l.spare l.buffer2).1;
  to_write = l.full ++ b ∷ [];
  busy = true;
})

-- What the file gets if each call of `fwrite` takes all that it is given.
unfoldable pub write_all : List FixedBuffer → Option (List ℕ)
unfolding fwriten
write_all [] = some []
write_all (b ∷ bs) = fwriten (content b) (length (content b) ∷ []) >>= λ out.
    Option.map (λ more. out ++ more) (write_all bs)

-- A buffer that was given away is replaced by the last of those that were written.
pub refill : Option FixedBuffer → List FixedBuffer → Option (Option FixedBuffer × List FixedBuffer)
unfolding split_last
refill (some b) bs = some (some b, bs)
refill none bs = Option.map (λ r. (some (clear r.1), r.0)) (split_last bs)

-- The rest of the round.
pub finish : AsyncLogging → Option AsyncLogging
unfolding write_all refill
finish l = write_all l.to_write >>= λ out.
    refill l.buffer1 (if ltb 2 (length l.to_write) then take 2 l.to_write else l.to_write) >>= λ r1.
    refill l.buffer2 r1.1 >>= λ r2.
    some (record l {
      buffer1 = r1.0;
      buffer2 = r2.0;
      to_write = [];
      busy = false;
      file = l.file ++ out;
    })
