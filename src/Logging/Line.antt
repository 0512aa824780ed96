-- ===== src/Logging/Line.antt =====
-- base/Logging.cpp: the text of a line.
use mathlib.Core.Path.{subst}
use cpp_practise.Base.{
  codes, ℕ, ◌+◌, ◌^◌, ◌<◌, ◌≡◌, refl, ◌∙◌, true, false, List, [], ◌∷◌, ◌++◌, none, some, length,
  length-take, ltb, if◌then◌else◌, arith, ◌≢◌,
}
use cpp_practise.Base.Int.{ℤ, pos, magnitude}
use cpp_practise.LogStream.{
  FixedBuffer, stream_bool, stream_char, stream_c_string, stream_string, format_integer,
}
use cpp_practise.LogStream.Fixed.{IsValid, text, text-append}
use cpp_practise.LogStream.Numbers.{IsDecimal, format_integer_lem}
use cpp_practise.Logging.{
  LogLevel, trace, debug, info, warning, error, fatal, num_log_levels, log_level_name, Item, string,
  c_string, char, integer, bool, stream_item, stream_items, Site, heading, ending, new_stream,
  make_line,
}

-- What an item may be: a text shorter than 2 ^ 31, or a number of at most 64 bits.
abbrev pub Fits : Item → Type 0
Fits (string s) = length s < 2 ^ 31
Fits (c_string none) = Unit
Fits (c_string (some s)) = length s < 2 ^ 31
Fits (char c) = Unit
Fits (integer v) = magnitude v < 2 ^ 64
Fits (bool v) = Unit

abbrev pub AllFit : List Item → Type 0
AllFit [] = Unit
AllFit (i ∷ is) = Fits i × AllFit is

-- A text goes behind the line with a blank, if the buffer holds more than both.
abbrev pub with_text : ℕ → List ℕ → List ℕ → List ℕ
with_text size t s = if ltb (length t + length s) size then t ++ (s ++ 0x20 ∷ []) else t

-- A number does so if there are 32 bytes left.
abbrev pub with_number : ℕ → List ℕ → List ℕ → List ℕ
with_number size t s = if ltb size (length t + 32) then t else t ++ (s ++ 0x20 ∷ [])

-- The line `t` becomes `t'` by an item, or by several.
abbrev pub Adds : ℕ → List ℕ → Item → List ℕ → Type 0
Adds size t (string s) t' = t' ≡ with_text size t s
Adds size t (c_string none) t' = t' ≡ with_text size t (codes "(null)")
Adds size t (c_string (some s)) t' = t' ≡ with_text size t s
Adds size t (char c) t' = t' ≡ with_text size t (c ∷ [])
Adds size t (integer v) t' = (s : List ℕ) × IsDecimal v s × (t' ≡ with_number size t s)
Adds size t (bool v) t' =
    (s : List ℕ) × IsDecimal (if v then pos 1 else pos 0) s × (t' ≡ with_number size t s)

abbrev pub AddsAll : ℕ → List ℕ → List Item → List ℕ → Type 0
AddsAll size t [] t' = t' ≡ t
AddsAll size t (i ∷ is) t' = (u : List ℕ) × Adds size t i u × AddsAll size u is t'

length-text : {b : FixedBuffer} → IsValid b → length (text b) ≡ b.cur
length-text {b} v = omega (arith, length-take b.cur b.storage)

text_item :
    {b : FixedBuffer} (s : List ℕ)
    → IsValid b
    → length s < 2 ^ 31
    → (b' : FixedBuffer) × (stream_string b s ≡ some b')
      × IsValid b'
      × (text b' ≡ with_text (length b.storage) (text b) s)
      × (length b'.storage ≡ length b.storage)
unfolding stream_string
text_item {b} s v h =
    let (b', e, v', written, long) = text-append {b = b} s v h in
    (b', e, v', written ∙ rw (length-text v) refl, long)

number_item :
    {b : FixedBuffer} (n : ℤ)
    → IsValid b
    → magnitude n < 2 ^ 64
    → (b' : FixedBuffer) × (format_integer b n ≡ some b')
      × IsValid b'
      × ((s : List ℕ) × IsDecimal n s × (text b' ≡ with_number (length b.storage) (text b) s))
      × (length b'.storage ≡ length b.storage)
number_item {b} n v h =
    let (s, d, (b', e, v', written, long)) = format_integer_lem {b = b} n v h in
    (b', e, v', (s, d, written ∙ rw (length-text v) refl), long)

-- One item, whatever its type.
item_lem :
    {b : FixedBuffer} (i : Item)
    → IsValid b
    → Fits i
    → (b' : FixedBuffer) × (stream_item b i ≡ some b')
      × IsValid b'
      × Adds (length b.storage) (text b) i (text b')
      × (length b'.storage ≡ length b.storage)
unfolding stream_item stream_bool stream_char stream_c_string stream_string
item_lem (string s) v h = text_item s v h
item_lem (c_string none) v h = text_item (codes "(null)") v (omega arith)
item_lem (c_string (some s)) v h = text_item s v h
item_lem (char c) v h = text_item (c ∷ []) v (omega arith)
item_lem (integer n) v h = number_item n v h
item_lem (bool true) v h = number_item (pos 1) v (omega arith)
item_lem (bool false) v h = number_item (pos 0) v (omega arith)

items_lem :
    {b : FixedBuffer} (is : List Item)
    → IsValid b
    → AllFit is
    → (b' : FixedBuffer) × (stream_items b is ≡ some b')
      × IsValid b'
      × AddsAll (length b.storage) (text b) is (text b')
      × (length b'.storage ≡ length b.storage)
unfolding stream_items
items_lem {b} [] v h = (b, refl, v, refl, refl)
items_lem {b} (i ∷ is) v h =
    let (b1, e1, v1, a1, l1) = item_lem {b = b} i v h.0 in
    let (b2, e2, v2, a2, l2) = items_lem {b = b1} is v1 h.1 in
    (
      b2,
      rw (e1, e2),
      v2,
      (text b1, a1, subst (λ n. AddsAll n (text b1) is (text b2)) l1 a2),
      l2 ∙ l1,
    )

AddsAll-append :
    (size : ℕ) (t u w : List ℕ) (is js : List Item)
    → AddsAll size t is u
    → AddsAll size u js w
    → AddsAll size t (is ++ js) w
AddsAll-append size t u w [] js h k = subst (λ x. AddsAll size x js w) h k
AddsAll-append size t u w (i ∷ is) js (x, a, h) k = (x, a, AddsAll-append size x u w is js h k)

-- The name of a level that is not the number of levels.
name_lem :
    (l : LogLevel)
    → l ≢ num_log_levels
    → (name : List ℕ) × (log_level_name l ≡ some name) × (length name < 2 ^ 31)
name_lem trace h = (codes "TRACE ", refl, omega arith)
name_lem debug h = (codes "DEBUG ", refl, omega arith)
name_lem info h = (codes "INFO  ", refl, omega arith)
name_lem warning h = (codes "WARNING  ", refl, omega arith)
name_lem error h = (codes "ERROR ", refl, omega arith)
name_lem fatal h = (codes "FATAL ", refl, omega arith)
name_lem num_log_levels h = absurd (h refl)

pub record SiteFits (s : Site) : Type 0 where
  pub filename : length s.filename < 2 ^ 31
  pub line : magnitude s.line < 2 ^ 64
  pub funcname : length s.funcname < 2 ^ 31
  pub level : s.level ≢ num_log_levels

-- A line of any items: no write leaves the stream's buffer. From an empty line, the time, the level's
-- name, the file, the line number and the function, a hyphen behind each, then the items and a
-- newline are added in this order, each whole and with a blank behind it, or not at all if there is no room.
pub make_line_lem :
    (memory time : List ℕ) (site : Site) (items : List Item)
    → length memory < 2 ^ 31
    → length time < 2 ^ 31
    → SiteFits site
    → AllFit items
    → (b : FixedBuffer) × (name : List ℕ) × (make_line memory time site items ≡ some b)
      × (log_level_name site.level ≡ some name)
      × IsValid b
      × (length b.storage ≡ length memory)
      × AddsAll (length memory) [] (heading time name site ++ (items ++ ending)) (text b)
unfolding make_line
make_line_lem memory time site items small short f fit =
    let (name, e, h) = name_lem site.level f.level in
    let (b1, e1, v1, a1, l1) =
      items_lem {b = new_stream memory} (heading time name site) (omega arith)
        (short, (tt, (h, (tt, (f.filename, (tt, (f.line, (tt, (f.funcname, (tt, tt)))))))))) in
    let (b2, e2, v2, a2, l2) = items_lem {b = b1} items v1 fit in
    let (b3, e3, v3, a3, l3) = items_lem {b = b2} ending v2 (tt, tt) in
    let size = length memory in
    (
      b3,
      name,
      rw (e, e1, e2, e3) refl,
      e,
      v3,
      l3 ∙ l2 ∙ l1,
      AddsAll-append size [] (text b1) (text b3) (heading time name site) (items ++ ending) a1 (
          AddsAll-append size (text b1) (text b2) (text b3) items ending
            (subst (λ n. AddsAll n (text b1) items (text b2)) l1 a2)
            (subst (λ n. AddsAll n (text b2) ending (text b3)) (l2 ∙ l1) a3)),
    )
