-- ===== src/LogStream/Digits.antt =====
-- The positional notation of a number: its digits, what they stand for, and how many there are.
use native.Mathlib.Nat.{pow-suc, pow-zero, le-div_iff_mul-le}
use mathlib.Core.List.{reverse, reverse-append}
use cpp_practise.Base.{
  ℕ, zero, suc, ◌+◌, ◌*◌, ◌/◌, ◌%◌, ◌^◌, ◌≤◌, ◌<◌, ◌≡◌, ◌≢◌, refl, List, [], ◌∷◌, ◌++◌, arith,
  length, ap,
}

-- The digits of a number, the last one first.
pub data Little (base : ℕ) : ℕ → List ℕ → Type 0 where
  last : {m : ℕ} → m < base → Little base m (m ∷ [])
  more :
      {m : ℕ} {ds : List ℕ} → base ≤ m → Little base (m / base) ds → Little base m ((m % base) ∷ ds)

-- What digits stand for, the first one first.
unfoldable pub value : ℕ → ℕ → List ℕ → ℕ
value base acc [] = acc
value base acc (d ∷ ds) = value base (acc * base + d) ds

abbrev pub AllBelow : ℕ → List ℕ → Type 0
AllBelow base [] = Unit
AllBelow base (d ∷ ds) = (d < base) × AllBelow base ds

abbrev pub HeadNonzero : List ℕ → Type 0
HeadNonzero [] = ⊥
HeadNonzero (d ∷ ds) = d ≢ 0

-- `ds` is the notation of `m`, the first digit first, with no zero in front.
pub record Spells (base m : ℕ) (ds : List ℕ) : Type 0 where
  pub in_range : AllBelow base ds
  pub exact : value base 0 ds ≡ m
  pub positive : 0 < m → HeadNonzero ds
  pub nought : m ≡ 0 → ds ≡ 0 ∷ []

value-snoc :
    (base acc : ℕ) (ds : List ℕ) (d : ℕ)
    → value base acc (ds ++ d ∷ []) ≡ value base acc ds * base + d
unfolding value
value-snoc base acc [] d = refl
value-snoc base acc (e ∷ ds) d = value-snoc base (acc * base + e) ds d

AllBelow-snoc :
    (base : ℕ) (ds : List ℕ) (d : ℕ) → AllBelow base ds → d < base → AllBelow base (ds ++ d ∷ [])
AllBelow-snoc base [] d h k = (k, tt)
AllBelow-snoc base (e ∷ ds) d h k = (h.0, AllBelow-snoc base ds d h.1 k)

HeadNonzero-append : (ds es : List ℕ) → HeadNonzero ds → HeadNonzero (ds ++ es)
HeadNonzero-append [] es h = absurd h
HeadNonzero-append (d ∷ ds) es h = h

reverse-cons : (d : ℕ) (ds : List ℕ) → reverse (d ∷ ds) ≡ reverse ds ++ d ∷ []
reverse-cons d ds = reverse-append (d ∷ []) ds

-- Reversed, the digits spell the number.
pub reverse-Spells :
    {base m : ℕ} {ds : List ℕ} → 1 < base → Little base m ds → Spells base m (reverse ds)
unfolding value
reverse-Spells h (last k) = record {
  in_range = (k, tt);
  exact = omega arith;
  positive = λ p. omega arith;
  nought = λ e. ap (λ (i : ℕ). i ∷ []) e;
}
reverse-Spells {base} h (more {m = m} {ds = ds} k l) =
    let before = reverse-Spells h l in
    rw (reverse-cons (m % base) ds) (record {
      in_range = AllBelow-snoc base (reverse ds) (m % base) before.in_range (omega arith);
      exact = rw (value-snoc base 0 (reverse ds) (m % base), before.exact) (omega arith);
      positive = λ p. HeadNonzero-append (reverse ds) _ (
          before.positive
            ((le-div_iff_mul-le {k = base} {x = 1} {y = m} (omega arith)).1 (omega arith)));
      nought = λ e. absurd (omega arith);
    })

div-lt_pow : (base m k : ℕ) → 1 < base → m < base ^ suc (suc k) → m / base < base ^ suc k
div-lt_pow base m k big small = grind (arith, pow-suc)

pow_one : (n : ℕ) → n ^ 1 ≡ n
pow_one n = rw (pow-suc n 0, pow-zero n) (omega arith)

pub length-Little :
    {base : ℕ} {m : ℕ} {ds : List ℕ}
    → Little base m ds
    → (k : ℕ) → 1 < base
    → m < base ^ suc k
    → length ds ≤ suc k
length-Little (last h) k big small = omega arith
length-Little {base} (more h l) zero big small = absurd (omega (arith, pow_one base))
length-Little {base} (more {m = m} h l) (suc k) big small =
    omega (arith, length-Little l k big (div-lt_pow base m k big small))
