-- ===== src/Logging/Time.antt =====
-- `now` of base/Logging.cpp: the time at the beginning of a line.
use mathlib.Core.Path.{subst}
use cpp_practise.Base.{
  suc, drop-drop, codes, ℕ, ◌≤◌, ◌<◌, ◌+◌, ◌-◌, ◌*◌, ◌^◌, List, [], ◌∷◌, ◌++◌, ◌≡◌, refl, sym, ap,
  ◌∙◌, arith, length, length-append, take, drop, take_of_ge, take-append_self, drop-append_self,
}

-- What `localtime_r` and `ftime` give. `year` counts from 1900, `month` from 0.
pub record Moment : Type 0 where
  pub year : ℕ
  pub month : ℕ
  pub day : ℕ
  pub hour : ℕ
  pub minute : ℕ
  pub second : ℕ
  pub millis : ℕ

-- A moment that the calls may give, less than 8100 years from 1900.
pub record IsMoment (t : Moment) : Type 0 where
  pub year : t.year < 8100
  pub month : t.month < 12
  pub day : t.day ≤ 31
  pub hour : t.hour < 24
  pub minute : t.minute < 60
  pub second : t.second ≤ 60
  pub millis : t.millis < 1000

-- What a sequence of bytes stands for, as decimal digits.
unfoldable pub read : ℕ → List ℕ → ℕ
read acc [] = acc
read acc (b ∷ bs) = read (acc * 10 + (b - 48)) bs

-- The conversions "%wd" and "%0wd" of `snprintf`. A number is printed as its decimal digits, with blanks
-- or zeros in front of them up to the width.
pub record Printing : Type 0 where
  pub print_blank : (width n : ℕ) → List ℕ
  pub print_zero : (width n : ℕ) → List ℕ
  pub length-print_blank :
      (width n : ℕ)
      → 10 ^ width ≤ n
      → n < 10 ^ suc width
      → length (print_blank (suc width) n) ≡ suc width
  pub read-print_blank :
      (width n : ℕ) → 10 ^ width ≤ n → n < 10 ^ suc width → read 0 (print_blank (suc width) n) ≡ n
  pub length-print_zero :
      (width n : ℕ) → n < 10 ^ suc width → length (print_zero (suc width) n) ≡ suc width
  pub read-print_zero : (width n : ℕ) → n < 10 ^ suc width → read 0 (print_zero (suc width) n) ≡ n

-- A text that tells a moment: at fixed places the year, the month from 1 on, the day, the time of
-- day and the milliseconds, in decimal digits, as in "2024-01-31 08:48:17.067".
pub record Tells (t : Moment) (text : List ℕ) : Type 0 where
  pub size : length text ≡ 23
  pub year : read 0 (take 4 text) ≡ 1900 + t.year
  pub year_end : take 1 (drop 4 text) ≡ codes "-"
  pub month : read 0 (take 2 (drop 5 text)) ≡ 1 + t.month
  pub month_end : take 1 (drop 7 text) ≡ codes "-"
  pub day : read 0 (take 2 (drop 8 text)) ≡ t.day
  pub day_end : take 1 (drop 10 text) ≡ codes " "
  pub hour : read 0 (take 2 (drop 11 text)) ≡ t.hour
  pub hour_end : take 1 (drop 13 text) ≡ codes ":"
  pub minute : read 0 (take 2 (drop 14 text)) ≡ t.minute
  pub minute_end : take 1 (drop 16 text) ≡ codes ":"
  pub second : read 0 (take 2 (drop 17 text)) ≡ t.second
  pub second_end : take 1 (drop 19 text) ≡ codes "."
  pub millis : read 0 (drop 20 text) ≡ t.millis

-- A number at a place of a text, and what stands behind it.
piece :
    (k w n : ℕ) (bytes after xs text : List ℕ)
    → drop k text ≡ bytes ++ (after ++ xs)
    → length bytes ≡ w
    → read 0 bytes ≡ n
    → (read 0 (take w (drop k text)) ≡ n)
      × (take (length after) (drop (k + w) text) ≡ after)
      × (drop (k + (w + length after)) text ≡ xs)
piece k w n bytes after xs text e size value =
    let rest : drop (k + w) text ≡ after ++ xs =
      sym (drop-drop w k (k + w) text refl)
      ∙ ap (drop w) e
      ∙ drop-append_self w bytes (after ++ xs) (sym size) in
    (
      ap (λ bs. read 0 (take w bs)) e
          ∙ ap (read 0) (take-append_self w bytes (after ++ xs) (sym size))
          ∙ value,
      ap (take (length after)) rest ∙ take-append_self (length after) after xs refl,
      sym (drop-drop (length after) (k + w) (k + (w + length after)) text (omega arith))
          ∙ ap (drop (length after)) rest
          ∙ drop-append_self (length after) after xs refl,
    )

module _ (printing : Printing) where
  -- The text of the format "%4d-%02d-%02d %02d:%02d:%02d.%03d", from its pieces on.
  abbrev from_second : Moment → List ℕ
  from_second t = printing.print_zero 2 t.second ++ (codes "." ++ printing.print_zero 3 t.millis)

  abbrev from_minute : Moment → List ℕ
  from_minute t = printing.print_zero 2 t.minute ++ (codes ":" ++ from_second t)

  abbrev from_hour : Moment → List ℕ
  from_hour t = printing.print_zero 2 t.hour ++ (codes ":" ++ from_minute t)

  abbrev from_day : Moment → List ℕ
  from_day t = printing.print_zero 2 t.day ++ (codes " " ++ from_hour t)

  abbrev from_month : Moment → List ℕ
  from_month t = printing.print_zero 2 (t.month + 1) ++ (codes "-" ++ from_day t)

  abbrev pub printed : Moment → List ℕ
  printed t = printing.print_blank 4 (t.year + 1900) ++ (codes "-" ++ from_month t)

  -- `now`: `snprintf` writes no more than 24 bytes and a zero.
  unfoldable pub now : Moment → List ℕ
  now t = take 24 (printed t)

  two_digits :
      (k n : ℕ) (after xs text : List ℕ)
      → n < 100
      → drop k text ≡ printing.print_zero 2 n ++ (after ++ xs)
      → (read 0 (take 2 (drop k text)) ≡ n)
        × (take (length after) (drop (k + 2) text) ≡ after)
        × (drop (k + (2 + length after)) text ≡ xs)
  two_digits k n after xs text h e =
      piece k 2 n (printing.print_zero 2 n) after xs text e (printing.length-print_zero 1 n h)
        (printing.read-print_zero 1 n h)

  printed-length : (t : Moment) → IsMoment t → length (printed t) ≡ 23
  printed-length t h =
      let blank = printing.length-print_blank in
      let size = printing.length-print_zero in
      omega (
        arith,
        length-append (printing.print_blank 4 (t.year + 1900)) (codes "-" ++ from_month t),
        length-append (printing.print_zero 2 (t.month + 1)) (codes "-" ++ from_day t),
        length-append (printing.print_zero 2 t.day) (codes " " ++ from_hour t),
        length-append (printing.print_zero 2 t.hour) (codes ":" ++ from_minute t),
        length-append (printing.print_zero 2 t.minute) (codes ":" ++ from_second t),
        length-append (printing.print_zero 2 t.second)
            (codes "." ++ printing.print_zero 3 t.millis),
        blank 3 (t.year + 1900) (omega arith) (omega (arith, h.year)),
        size 1 (t.month + 1) (omega (arith, h.month)),
        size 1 t.day (omega (arith, h.day)),
        size 1 t.hour (omega (arith, h.hour)),
        size 1 t.minute (omega (arith, h.minute)),
        size 1 t.second (omega (arith, h.second)),
        size 2 t.millis (omega (arith, h.millis)),
      )

  printed-Tells : (t : Moment) → IsMoment t → Tells t (printed t)
  printed-Tells t h =
      let text = printed t in
      let (year, year_end, e1) =
        piece 0 4 (t.year + 1900) (printing.print_blank 4 (t.year + 1900)) (codes "-")
          (from_month t) text refl
          (printing.length-print_blank 3 (t.year + 1900) (omega arith) (omega (arith, h.year)))
          (printing.read-print_blank 3 (t.year + 1900) (omega arith) (omega (arith, h.year))) in
      let (month, month_end, e2) =
        two_digits 5 (t.month + 1) (codes "-") (from_day t) text (omega (arith, h.month)) e1 in
      let (day, day_end, e3) =
        two_digits 8 t.day (codes " ") (from_hour t) text (omega (arith, h.day)) e2 in
      let (hour, hour_end, e4) =
        two_digits 11 t.hour (codes ":") (from_minute t) text (omega (arith, h.hour)) e3 in
      let (minute, minute_end, e5) =
        two_digits 14 t.minute (codes ":") (from_second t) text (omega (arith, h.minute)) e4 in
      let (second, second_end, e6) =
        two_digits 17 t.second (codes ".") (printing.print_zero 3 t.millis) text
          (omega (arith, h.second)) e5 in
      record {
        size = printed-length t h;
        year = year ∙ omega arith;
        year_end = year_end;
        month = month ∙ omega arith;
        month_end = month_end;
        day = day;
        day_end = day_end;
        hour = hour;
        hour_end = hour_end;
        minute = minute;
        minute_end = minute_end;
        second = second;
        second_end = second_end;
        millis = ap (read 0) e6 ∙ printing.read-print_zero 2 t.millis (omega (arith, h.millis));
      }

-- A text tells one moment only.
Tells-injective : (t u : Moment) (text : List ℕ) → Tells t text → Tells u text → t ≡ u
Tells-injective t u text a b =
    let year : t.year ≡ u.year = omega (arith, a.year, b.year) in
    let month : t.month ≡ u.month = omega (arith, a.month, b.month) in
    λ i. record {
      year = year i;
      month = month i;
      day = (sym a.day ∙ b.day) i;
      hour = (sym a.hour ∙ b.hour) i;
      minute = (sym a.minute ∙ b.minute) i;
      second = (sym a.second ∙ b.second) i;
      millis = (sym a.millis ∙ b.millis) i;
    }

module _ (printing : Printing) where
  -- A moment whose fields are as `localtime_r` gives them, in a year of four digits: the text of `now` has 23
  -- bytes, so that the buffer of 25 cuts nothing off, and tells the moment, in decimal digits: the year in
  -- the bytes from 0 on, the month, from 1 on, from 5, the day from 8, the hour from 11, the minute from
  -- 14, the second from 17 and the milliseconds from 20, with "-", "-", " ", ":", ":" and "." between them.
  -- It tells no other moment.
  pub now_lem :
      (t : Moment)
      → IsMoment t
      → Tells t (now printing t) × ((u : Moment) → Tells u (now printing t) → t ≡ u)
  unfolding now
  now_lem t h =
      let whole : now printing t ≡ printed printing t =
        take_of_ge 24 (printed printing t) (omega (arith, printed-length printing t h)) in
      let tells = subst (Tells t) (sym whole) (printed-Tells printing t h) in
      (tells, λ u told. Tells-injective t u (now printing t) tells told)
