-- ===== src/Base/Lists.antt =====
-- Lists measured and cut by native numbers, under the library's names.
use Prim.Native.Nat.{ℕ, zero, suc, ◌+◌, ◌-◌, ◌≤◌, min}
use mathlib.Core.Path.{◌≡◌, refl, ap}
use mathlib.Core.List.{List, [], ◌∷◌, ◌++◌, map}
use mathlib.Core.Option.{Option, none, some}
use native.Mathlib.Omega.{arith}

module _ {ℓ} {A : Type ℓ} where
  abbrev pub length : List A → ℕ
  length [] = 0
  length (x ∷ xs) = suc (length xs)

  abbrev pub get_elem? : List A → ℕ → Option A
  get_elem? [] i = none
  get_elem? (x ∷ xs) zero = some x
  get_elem? (x ∷ xs) (suc i) = get_elem? xs i

  abbrev pub take : ℕ → List A → List A
  take zero xs = []
  take (suc n) [] = []
  take (suc n) (x ∷ xs) = x ∷ take n xs

  abbrev pub drop : ℕ → List A → List A
  drop zero xs = xs
  drop (suc n) [] = []
  drop (suc n) (x ∷ xs) = drop n xs

  abbrev pub replicate : ℕ → A → List A
  replicate zero a = []
  replicate (suc n) a = a ∷ replicate n a

  pub length-append : (xs ys : List A) → length (xs ++ ys) ≡ length xs + length ys
  length-append [] ys = omega arith
  length-append (x ∷ xs) ys = omega (arith, length-append xs ys)

module _ {ℓ} {A : Type ℓ} where
  pub length-take : (n : ℕ) (xs : List A) → length (take n xs) ≡ min n (length xs)
  length-take zero xs = omega arith
  length-take (suc n) [] = omega arith
  length-take (suc n) (x ∷ xs) = omega (arith, length-take n xs)

  pub length-drop : (n : ℕ) (xs : List A) → length (drop n xs) ≡ length xs - n
  length-drop zero xs = omega arith
  length-drop (suc n) [] = omega arith
  length-drop (suc n) (x ∷ xs) = omega (arith, length-drop n xs)

  pub length-replicate : (n : ℕ) (a : A) → length (replicate n a) ≡ n
  length-replicate zero a = refl
  length-replicate (suc n) a = ap suc (length-replicate n a)

  pub take-append-drop : (n : ℕ) (xs : List A) → take n xs ++ drop n xs ≡ xs
  take-append-drop zero xs = refl
  take-append-drop (suc n) [] = refl
  take-append-drop (suc n) (x ∷ xs) = ap (◌∷◌ x) (take-append-drop n xs)

  -- A cut inside the first of two lists, and a cut exactly between them.
  pub take-append : (n : ℕ) (xs ys : List A) → n ≤ length xs → take n (xs ++ ys) ≡ take n xs
  take-append zero xs ys h = refl
  take-append (suc n) [] ys h = absurd (omega arith)
  take-append (suc n) (x ∷ xs) ys h = ap (◌∷◌ x) (take-append n xs ys (omega arith))

  pub drop-append : (n : ℕ) (xs ys : List A) → n ≤ length xs → drop n (xs ++ ys) ≡ drop n xs ++ ys
  drop-append zero xs ys h = refl
  drop-append (suc n) [] ys h = absurd (omega arith)
  drop-append (suc n) (x ∷ xs) ys h = drop-append n xs ys (omega arith)

  pub take-append_self : (n : ℕ) (xs ys : List A) → n ≡ length xs → take n (xs ++ ys) ≡ xs
  take-append_self zero [] ys h = refl
  take-append_self zero (x ∷ xs) ys h = absurd (omega arith)
  take-append_self (suc n) [] ys h = absurd (omega arith)
  take-append_self (suc n) (x ∷ xs) ys h = ap (◌∷◌ x) (take-append_self n xs ys (omega arith))

  pub drop-append_self : (n : ℕ) (xs ys : List A) → n ≡ length xs → drop n (xs ++ ys) ≡ ys
  drop-append_self zero [] ys h = refl
  drop-append_self zero (x ∷ xs) ys h = absurd (omega arith)
  drop-append_self (suc n) [] ys h = absurd (omega arith)
  drop-append_self (suc n) (x ∷ xs) ys h = drop-append_self n xs ys (omega arith)

  pub take_of_ge : (n : ℕ) (xs : List A) → length xs ≤ n → take n xs ≡ xs
  take_of_ge zero [] h = refl
  take_of_ge zero (x ∷ xs) h = absurd (omega arith)
  take_of_ge (suc n) [] h = refl
  take_of_ge (suc n) (x ∷ xs) h = ap (◌∷◌ x) (take_of_ge n xs (omega arith))

  pub drop_of_ge : (n : ℕ) (xs : List A) → length xs ≤ n → drop n xs ≡ []
  drop_of_ge zero [] h = refl
  drop_of_ge zero (x ∷ xs) h = absurd (omega arith)
  drop_of_ge (suc n) [] h = refl
  drop_of_ge (suc n) (x ∷ xs) h = drop_of_ge n xs (omega arith)

  -- Taking within what was taken, and dropping in two goes.
  pub take-take : (m n : ℕ) (xs : List A) → m ≤ n → take m (take n xs) ≡ take m xs
  take-take zero n xs h = refl
  take-take (suc m) zero xs h = absurd (omega arith)
  take-take (suc m) (suc n) [] h = refl
  take-take (suc m) (suc n) (x ∷ xs) h = ap (◌∷◌ x) (take-take m n xs (omega arith))

  pub drop-drop : (m n k : ℕ) (xs : List A) → k ≡ n + m → drop m (drop n xs) ≡ drop k xs
  drop-drop m zero k xs h = ap (λ (i : ℕ). drop i xs) (omega arith)
  drop-drop m (suc n) zero xs h = absurd (omega arith)
  drop-drop zero (suc n) (suc k) [] h = refl
  drop-drop (suc m) (suc n) (suc k) [] h = refl
  drop-drop m (suc n) (suc k) (x ∷ xs) h = drop-drop m n k xs (omega arith)

  pub take-drop : (m n k : ℕ) (xs : List A) → k ≡ n + m → take m (drop n xs) ≡ drop n (take k xs)
  take-drop m zero k xs h = ap (λ (i : ℕ). take i xs) (omega arith)
  take-drop m (suc n) zero xs h = absurd (omega arith)
  take-drop zero (suc n) (suc k) [] h = refl
  take-drop (suc m) (suc n) (suc k) [] h = refl
  take-drop m (suc n) (suc k) (x ∷ xs) h = take-drop m n k xs (omega arith)

  -- A window on the middle of three lists.
  pub drop-take-append :
      (p c q : List A) (i k : ℕ)
      → i ≡ length p
      → k ≡ i + length c
      → drop i (take k (p ++ (c ++ q))) ≡ c
  drop-take-append p c q i k hi hk =
      rw (← take-drop (length c) i k (p ++ (c ++ q)) hk, drop-append_self i p (c ++ q) hi)
        (take-append_self (length c) c q refl)

  -- A cut at the end of the second of three lists.
  pub take-append_two :
      (p c q : List A) (k : ℕ) → k ≡ length p + length c → take k (p ++ (c ++ q)) ≡ p ++ c
  take-append_two [] c q k h = take-append_self k c q (omega arith)
  take-append_two (x ∷ p) c q zero h = absurd (omega arith)
  take-append_two (x ∷ p) c q (suc k) h = ap (◌∷◌ x) (take-append_two p c q k (omega arith))

  -- A cut behind the first of two lists.
  pub take-append_add :
      (xs ys : List A) (m k : ℕ) → k ≡ length xs + m → take k (xs ++ ys) ≡ xs ++ take m ys
  take-append_add [] ys m k h = ap (λ (i : ℕ). take i ys) (omega arith)
  take-append_add (x ∷ xs) ys m zero h = absurd (omega arith)
  take-append_add (x ∷ xs) ys m (suc k) h = ap (◌∷◌ x) (take-append_add xs ys m k (omega arith))

module _ {ℓ} {A : Type ℓ} where
  abbrev pub get_or : List A → ℕ → A → A
  get_or [] i d = d
  get_or (x ∷ xs) zero d = x
  get_or (x ∷ xs) (suc i) d = get_or xs i d

  abbrev pub set : List A → ℕ → A → List A
  set [] i v = []
  set (x ∷ xs) zero v = v ∷ xs
  set (x ∷ xs) (suc i) v = x ∷ set xs i v

  pub length-map {κ} : {B : Type κ} (xs : List A) (f : A → B) → length (map f xs) ≡ length xs
  length-map [] f = refl
  length-map (x ∷ xs) f = ap suc (length-map xs f)
