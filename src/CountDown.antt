-- ===== src/CountDown.antt =====
-- base/CountDown.h: threads wait until a count has come down to zero.
mod Tests
use mathlib.Core.Path.{subst}
use cpp_practise.Base.{
  ℕ, zero, suc, ◌+◌, ◌-◌, ◌*◌, ◌%◌, ◌^◌, ◌≤◌, ◌<◌, Bool, true, false, ◌&&◌, List, [], ◌∷◌, ◌≡◌,
  refl, arith, ltb, ◌==◌, sub_int, if◌then◌else◌, Bool-cases, inl, inr, if_true, if_false, sym, ◌≢◌,
}

-- `asleep` counts the threads in `_cond.wait()` that were not woken, `awake` those that were.
pub record CountDown : Type 0 where
  pub count : ℕ
  pub asleep : ℕ
  pub awake : ℕ

abbrev pub make : ℕ → CountDown
make count = record { count = count; asleep = 0; awake = 0 }

-- `_count > 0` of an int's pattern.
abbrev pub is_positive : ℕ → Bool
is_positive c = ltb 0 c && ltb c (2 ^ 31)

abbrev pub notify_all : CountDown → CountDown
notify_all c = record c { asleep = 0; awake = c.awake + c.asleep }

abbrev pub down : CountDown → CountDown
down c =
    if sub_int c.count 1 == 0
    then notify_all (record c { count = sub_int c.count 1 })
    else record c { count = sub_int c.count 1 }

-- The first test of `wait`: the thread goes to sleep, or `wait` returns.
abbrev pub wait : CountDown → CountDown
wait c = if is_positive c.count then record c { asleep = c.asleep + 1 } else c

-- A thread that was woken tests again.
abbrev pub wait_again : ℕ → CountDown → CountDown
wait_again n c =
    if is_positive c.count
    then record c { asleep = c.asleep + 1; awake = n }
    else record c { awake = n }

pub data Step (c : CountDown) : CountDown → Type 0 where
  downs : Step c (down c)
  waits : Step c (wait c)
  tests : (n : ℕ) → c.awake ≡ suc n → Step c (wait_again n c)
  wakes : (n : ℕ) → c.asleep ≡ suc n → Step c (record c { asleep = n; awake = c.awake + 1 })

pub data Steps (c : CountDown) : CountDown → Type 0 where
  done : Steps c c
  later : {c' c'' : CountDown} → Steps c c' → Step c' c'' → Steps c c''

-- No thread is asleep once the count is not positive.
pub record IsSound (c : CountDown) : Type 0 where
  pub sleeps : 1 ≤ c.asleep → is_positive c.count ≡ true
  pub fits : c.count < 2 ^ 32

positive_before :
    (n : ℕ) → n < 2 ^ 32 → is_positive n ≡ true → sub_int n 1 ≢ 0 → is_positive (sub_int n 1) ≡ true
positive_before n h p e = ground arith

step_lem : (c c' : CountDown) → IsSound c → Step c c' → IsSound c'
step_lem c _ s downs = elim (Bool-cases (sub_int c.count 1 == 0)) [
  | inl e ↦
      subst IsSound (sym (if_true (notify_all (record c { count = sub_int c.count 1 })) _ e))
        (record { sleeps = λ h. absurd (omega arith); fits = omega arith })
  | inr e ↦
      subst IsSound (sym (if_false (notify_all (record c { count = sub_int c.count 1 })) _ e))
        (record {
          sleeps = λ h. positive_before c.count s.fits (s.sleeps h) (ground arith);
          fits = omega arith;
        })
]
step_lem c _ s waits = elim (Bool-cases (is_positive c.count)) [
  | inl e ↦
      subst IsSound (sym (if_true (record c { asleep = c.asleep + 1 }) c e))
        (record { sleeps = λ h. e; fits = s.fits })
  | inr e ↦ subst IsSound (sym (if_false (record c { asleep = c.asleep + 1 }) c e)) s
]
step_lem c _ s (tests n e) = elim (Bool-cases (is_positive c.count)) [
  | inl e ↦
      subst IsSound
        (sym (if_true (record c { asleep = c.asleep + 1; awake = n }) (record c { awake = n }) e))
        (record { sleeps = λ h. e; fits = s.fits })
  | inr e ↦
      subst IsSound
        (sym (if_false (record c { asleep = c.asleep + 1; awake = n }) (record c { awake = n }) e))
        (record { sleeps = s.sleeps; fits = s.fits })
]
step_lem c _ s (wakes n e) = record { sleeps = λ h. s.sleeps (omega arith); fits = s.fits }

-- From a count that was just made, by any calls of `down` and `wait` in any threads and by any wakeups,
-- spurious ones among them: while a thread sleeps in `wait`, the count is above zero. So none
-- sleeps on once the count came down to zero.
pub wait_lem :
    (count : ℕ) (c : CountDown)
    → count < 2 ^ 32
    → Steps (make count) c
    → 1 ≤ c.asleep
    → is_positive c.count ≡ true
wait_lem count c h r = (go c r).sleeps
  where
    go : (c : CountDown) → Steps (make count) c → IsSound c
    go _ done = record { sleeps = λ k. absurd (omega arith); fits = h }
    go _ (later {c' = c1} {c'' = c2} r p) = step_lem c1 c2 (go c1 r) p
