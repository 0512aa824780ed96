-- ===== src/Mutex/Holder.antt =====
-- base/Mutex.h: an instance of the interface, a mutex that is the thread that holds it, if any.
use cpp_practise.Base.{ℕ, Option, none, some, ◌≡◌, refl, ◌==◌, if◌then◌else◌, arith}
use cpp_practise.Mutex.{PthreadMutex}

abbrev pub take : ℕ → Option ℕ → Option (Option ℕ)
take t none = some (some t)
take t (some u) = none

abbrev pub give : ℕ → Option ℕ → Option (Option ℕ)
give t none = none
give t (some u) = if t == u then some none else none

pub take_free :
    (t : ℕ) (m : Option ℕ) → m ≡ none → (m' : Option ℕ) × (take t m ≡ some m') × (m' ≡ some t)
take_free t none e = (some t, refl, refl)
take_free t (some u) e = absurd (cc)

pub take_held : (t u : ℕ) (m : Option ℕ) → m ≡ some u → take t m ≡ none
take_held t u none e = absurd (cc)
take_held t u (some v) e = refl

pub give_own :
    (t : ℕ) (m : Option ℕ) → m ≡ some t → (m' : Option ℕ) × (give t m ≡ some m') × (m' ≡ none)
give_own t none e = absurd (cc)
give_own t (some u) e = (none, ground arith, refl)

abbrev pub holders : PthreadMutex (Option ℕ)
holders = record {
  init = none;
  holder = λ m. m;
  lock = take;
  unlock = give;
  holder-init = refl;
  lock_free = take_free;
  lock_held = take_held;
  unlock_own = give_own;
}
