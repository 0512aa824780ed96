-- ===== src/Logging/Tests.antt =====
-- A line in a stream of ninety bytes, to logging with buffers of a hundred.
use native.Mathlib.Nat.{pow-suc}
use cpp_practise.Base.{
  codes, ℕ, zero, suc, ◌+◌, ◌-◌, ◌*◌, ◌/◌, ◌%◌, ◌^◌, length-append, ◌≤◌, ◌<◌, List, [], ◌∷◌, ◌++◌,
  some, ◌≡◌, ◌≢◌, refl, arith, replicate, length, ◌⊎◌, false,
}
use cpp_practise.Base.Int.{pos, negsuc}
use cpp_practise.LogStream.{FixedBuffer}
use cpp_practise.LogStream.Fixed.{IsValid, text}
use cpp_practise.AsyncLogging.{AsyncLogging, append, make}
use cpp_practise.AsyncLogging.Sound.{IsSound}
use cpp_practise.AsyncLogging.Steps.{logged, make-IsSound}
use cpp_practise.Logging.{
  debug, warning, num_log_levels, log_level_name, Site, Item, string, integer, heading, ending,
  make_line, is_fatal, log_statement,
}
use cpp_practise.Logging.Line.{SiteFits, AddsAll, make_line_lem}
use cpp_practise.Logging.Async.{log_statement_lem}
use cpp_practise.Logging.Time.{Moment, IsMoment, Printing, Tells, read, now, now_lem}

abbrev time : List ℕ
time = codes "2024-01-31 08:48:17.067"

abbrev site : Site
site = record {
  filename = codes "Main.cpp";
  line = pos 352;
  funcname = codes "main";
  level = warning;
}

abbrev items : List Item
items = string (codes "low") ∷ integer (negsuc 6) ∷ []

abbrev stream_memory : List ℕ
stream_memory = replicate 90 0

abbrev memory : List ℕ
memory = replicate 100 0

warning-ne : warning ≢ num_log_levels
warning-ne e = cc

site-SiteFits : SiteFits site
site-SiteFits = record {
  filename = omega arith;
  line = omega arith;
  funcname = omega arith;
  level = warning-ne;
}

make_line_lem_example :
    (b : FixedBuffer) × (name : List ℕ) × (make_line stream_memory time site items ≡ some b)
    × (log_level_name warning ≡ some name)
    × IsValid b
    × (length b.storage ≡ 90)
    × AddsAll 90 [] (heading time name site ++ (items ++ ending)) (text b)
make_line_lem_example =
    make_line_lem stream_memory time site items (omega arith) (omega arith) site-SiteFits
      (omega arith, (omega arith, tt))

log_statement_lem_example :
    ((3 < 1)
      × (log_statement (append memory) (λ l. l) debug stream_memory time site items (make memory)
          ≡ some (make memory, false)))
    ⊎ ((1 ≤ 3)
        × ((l' : AsyncLogging) × (line : List ℕ) × (name : List ℕ) × (log_statement
                (append memory)
                (λ l. l)
                debug
                stream_memory
                time
                site
                items
                (make memory)
              ≡ some (l', is_fatal warning))
            × IsSound 100 l'
            × (log_level_name warning ≡ some name)
            × AddsAll 90 [] (heading time name site ++ (items ++ ending)) line
            × (logged l' ≡ logged (make memory) ++ (line ++ 0x20 ∷ []))))
log_statement_lem_example =
    log_statement_lem memory (omega arith) (λ l. l) (λ l. refl) debug stream_memory time site items
      (make memory) (omega arith) (omega arith) site-SiteFits (omega arith, (omega arith, tt))
      (make-IsSound memory (omega arith))

-- A printer of decimal digits.
print : ℕ → ℕ → List ℕ
print zero n = []
print (suc width) n = print width (n / 10) ++ (48 + n % 10) ∷ []

length-print : (width n : ℕ) → length (print width n) ≡ width
unfolding print
length-print zero n = refl
length-print (suc width) n =
    omega (
      arith,
      length-append (print width (n / 10)) ((48 + n % 10) ∷ []),
      length-print width (n / 10),
    )

read-snoc : (acc : ℕ) (bs : List ℕ) (b : ℕ) → read acc (bs ++ b ∷ []) ≡ read acc bs * 10 + (b - 48)
unfolding read
read-snoc acc [] b = refl
read-snoc acc (a ∷ bs) b = read-snoc (acc * 10 + (a - 48)) bs b

div-lt_pow : (width n : ℕ) → n < 10 ^ suc width → n / 10 < 10 ^ width
div-lt_pow width n h = grind (arith, pow-suc)

read-print : (width n : ℕ) → n < 10 ^ width → read 0 (print width n) ≡ n
unfolding print read
read-print zero n h = omega arith
read-print (suc width) n h = omega (
  arith,
  read-snoc 0 (print width (n / 10)) (48 + n % 10),
  read-print width (n / 10) (div-lt_pow width n h),
)

-- Numbers of as many digits as the width need no blank.
abbrev decimal : Printing
decimal = record {
  print_blank = print;
  print_zero = print;
  length-print_blank = λ width n _ _. length-print (suc width) n;
  read-print_blank = λ width n _ h. read-print (suc width) n h;
  length-print_zero = λ width n _. length-print (suc width) n;
  read-print_zero = λ width n h. read-print (suc width) n h;
}

abbrev moment : Moment
moment = record { year = 124; month = 0; day = 31; hour = 8; minute = 48; second = 17; millis = 67 }

now-moment : now decimal moment ≡ time
unfolding now print
now-moment = refl

moment-IsMoment : IsMoment moment
moment-IsMoment = record {
  year = omega arith;
  month = omega arith;
  day = omega arith;
  hour = omega arith;
  minute = omega arith;
  second = omega arith;
  millis = omega arith;
}

now_lem_example :
    Tells moment (now decimal moment) × ((u : Moment) → Tells u (now decimal moment) → moment ≡ u)
now_lem_example = now_lem decimal moment moment-IsMoment
