-- ===== src/StackTrace/Frame.antt =====
-- base/CurrentThread.cpp: what a symbol with a name and an offset adds to a stack trace.
use cpp_practise.Base.{
  ℕ, ◌+◌, ◌-◌, List, [], ◌∷◌, ◌++◌, Option, none, some, ◌≡◌, ◌≢◌, refl, sym, ap, ap₂, ◌∙◌, if_true,
  drop-append_self, lt→ltb, take, drop, length, length-append, append_assoc, arith,
  take-append_self,
}
use cpp_practise.StackTrace.{Marks, mark, scan, mangled, append_name, append_marked, frame}

abbrev pub Lacks : ℕ → List ℕ → Type 0
Lacks c [] = Unit
Lacks c (x ∷ xs) = (x ≢ c) × Lacks c xs

scan-append :
    (s t : List ℕ) (i : ℕ) (m : Marks) → scan (s ++ t) i m ≡ scan t (i + length s) (scan s i m)
unfolding scan
scan-append [] t i m = ap (λ (k : ℕ). scan t k m) (omega arith)
scan-append (c ∷ s) t i m =
    scan-append s t (i + 1) (mark c i m)
    ∙ ap (λ (k : ℕ). scan t k (scan s (i + 1) (mark c i m))) (omega arith)

left_par-scan : (s : List ℕ) (i : ℕ) (m : Marks) → Lacks b'(' s → (scan s i m).left_par ≡ m.left_par
unfolding scan
left_par-scan [] i m h = refl
left_par-scan (c ∷ s) i m h = left_par-scan s (i + 1) (mark c i m) h.1 ∙ ground (arith, h.0)

plus-scan : (s : List ℕ) (i : ℕ) (m : Marks) → Lacks b'+' s → (scan s i m).plus ≡ m.plus
unfolding scan
plus-scan [] i m h = refl
plus-scan (c ∷ s) i m h = plus-scan s (i + 1) (mark c i m) h.1 ∙ ground (arith, h.0)

-- A symbol: the file, a parenthesis, the mangled name, a plus sign, and the offset with what follows it.
abbrev pub symbol : List ℕ → List ℕ → List ℕ → List ℕ
symbol path name offset = path ++ b'(' ∷ (name ++ b'+' ∷ offset)

module _ (path name offset : List ℕ) where
  behind_par : symbol path name offset ≡ (path ++ b'(' ∷ []) ++ (name ++ b'+' ∷ offset)
  behind_par = sym (append_assoc path (b'(' ∷ []) (name ++ b'+' ∷ offset))

  behind_name : symbol path name offset ≡ ((path ++ b'(' ∷ []) ++ name) ++ b'+' ∷ offset
  behind_name = behind_par ∙ sym (append_assoc (path ++ b'(' ∷ []) name (b'+' ∷ offset))

  long_par : length (path ++ b'(' ∷ []) ≡ length path + 1
  long_par = length-append path (b'(' ∷ [])

  -- The last parenthesis and the last plus sign are those of the symbol's form.
  marks_lem :
      (m : Marks)
      → Lacks b'(' name
      → Lacks b'(' offset
      → Lacks b'+' offset
      → ((scan (symbol path name offset) 0 m).left_par ≡ some (length path))
        × ((scan (symbol path name offset) 0 m).plus ≡ some (length path + 1 + length name))
  unfolding scan
  marks_lem m h k l =
      let m1 : Marks = scan path 0 m in
      let m2 : Marks = scan name (length path + 1) (mark b'(' (length path) m1) in
      let at : scan (symbol path name offset) 0 m
          ≡ scan offset (length path + 1 + length name + 1)
              (mark b'+' (length path + 1 + length name) m2) =
        scan-append path (b'(' ∷ (name ++ b'+' ∷ offset)) 0 m
        ∙ ap (λ (i : ℕ). scan (b'(' ∷ (name ++ b'+' ∷ offset)) i m1) (omega arith)
        ∙ scan-append name (b'+' ∷ offset) (length path + 1) (mark b'(' (length path) m1) in
      (
        ap (λ x. x.left_par) at ∙ left_par-scan offset _ _ k ∙ left_par-scan name _ _ h,
        ap (λ x. x.plus) at ∙ plus-scan offset _ _ l,
      )

  before_par : take (length path + 1) (symbol path name offset) ≡ path ++ b'(' ∷ []
  before_par =
      ap (λ s. take (length path + 1) s) behind_par
      ∙ take-append_self (length path + 1) (path ++ b'(' ∷ []) (name ++ b'+' ∷ offset)
          (omega (arith, long_par))

  from_plus : drop (length path + 1 + length name) (symbol path name offset) ≡ b'+' ∷ offset
  from_plus =
      ap (λ s. drop (length path + 1 + length name) s) behind_name
      ∙ drop-append_self (length path + 1 + length name) ((path ++ b'(' ∷ []) ++ name)
          (b'+' ∷ offset) (omega (arith, length-append (path ++ b'(' ∷ []) name, long_par))

  mangled_lem :
      mangled (symbol path name offset) (length path) (length path + 1 + length name) ≡ name
  mangled_lem =
      if_true _ _ (lt→ltb (length path) (length path + 1 + length name) (omega arith))
      ∙ ap
          (λ s. take (length path + 1 + length name - (length path + 1)) (drop (length path + 1) s))
          behind_par
      ∙ ap (λ s. take (length path + 1 + length name - (length path + 1)) s)
          (drop-append_self (length path + 1) (path ++ b'(' ∷ []) (name ++ b'+' ∷ offset)
            (omega (arith, long_par)))
      ∙ take-append_self (length path + 1 + length name - (length path + 1)) name (b'+' ∷ offset)
          (omega arith)

  -- A symbol with no further parenthesis behind the first, and no plus sign in its last part: if its name can be
  -- demangled, the frame is the symbol with that name in place of the mangled one, and a newline; if it
  -- cannot, the frame adds nothing.
  pub frame_lem :
      (demangle : List ℕ → Option (List ℕ))
      → Lacks b'(' name
      → Lacks b'(' offset
      → Lacks b'+' offset
      → ((out : List ℕ)
          → demangle name ≡ some out
          → frame demangle (symbol path name offset) ≡ symbol path out offset ++ b'\n' ∷ [])
        × (demangle name ≡ none → frame demangle (symbol path name offset) ≡ [])
  unfolding frame
  frame_lem demangle h k l =
      let (left, plus) = marks_lem (record { left_par = none; plus = none }) h k l in
      let s = symbol path name offset in
      let marked : frame demangle s
          ≡ append_name demangle s (length path) (length path + 1 + length name) (demangle name) =
        ap₂ (λ x y. append_marked demangle s x y) left plus
        ∙ ap
            (λ t. append_name demangle s (length path) (length path + 1 + length name) (demangle t))
            mangled_lem in
      (
        λ out e.
            marked
            ∙ ap (λ o. append_name demangle s (length path) (length path + 1 + length name) o) e
            ∙ ap₂ (λ x y. x ++ (out ++ (y ++ b'\n' ∷ []))) before_par from_plus
            ∙ simp (append_assoc),
        λ e.
            marked
            ∙ ap (λ o. append_name demangle s (length path) (length path + 1 + length name) o) e,
      )
