-- ===== src/Mutex.antt =====
-- base/Mutex.h: the lock and its guard. What pthread_mutex_lock(3) documents is an interface.
pub mod Holder
use mathlib.Core.Path.{subst}
use mathlib.Core.Option.{some-injective}
use cpp_practise.Base.{ℕ, Option, none, some, ◌≡◌, ◌⊎◌, inl, inr, refl, sym, ap, ◌∙◌}

none-or-some {ℓ} : {A : Type ℓ} (o : Option A) → (o ≡ none) ⊎ ((a : A) × (o ≡ some a))
none-or-some none = inl refl
none-or-some (some a) = inr (a, refl)

-- A mutex of pthread that is not recursive. `lock` gives `none` where the caller waits, `unlock` where the
-- behaviour is undefined.
pub record PthreadMutex (M : Type 0) : Type 0 where
  pub init : M
  pub holder : M → Option ℕ
  pub lock : ℕ → M → Option M
  pub unlock : ℕ → M → Option M
  pub holder-init : holder init ≡ none
  pub lock_free :
      (thread : ℕ) (m : M)
      → holder m ≡ none
      → (m' : M) × (lock thread m ≡ some m') × (holder m' ≡ some thread)
  pub lock_held : (thread other : ℕ) (m : M) → holder m ≡ some other → lock thread m ≡ none
  pub unlock_own :
      (thread : ℕ) (m : M)
      → holder m ≡ some thread
      → (m' : M) × (unlock thread m ≡ some m') × (holder m' ≡ none)

pub record Mutex (M : Type 0) : Type 0 where
  pub mutex : M

module _ {M : Type 0} (pthread : PthreadMutex M) where
  abbrev pub make : Mutex M
  make = record { mutex = pthread.init }

  abbrev wrap : Option M → Option (Mutex M)
  wrap none = none
  wrap (some m) = some (record { mutex = m })

  abbrev pub lock : ℕ → Mutex M → Option (Mutex M)
  lock thread m = wrap (pthread.lock thread m.mutex)

  abbrev pub unlock : ℕ → Mutex M → Option (Mutex M)
  unlock thread m = wrap (pthread.unlock thread m.mutex)

  -- The constructor and the destructor of `MutexLockGuard`.
  abbrev pub guard : ℕ → Mutex M → Option (Mutex M)
  guard thread m = lock thread m

  abbrev pub release : ℕ → Mutex M → Option (Mutex M)
  release thread m = unlock thread m

  abbrev pub holder : Mutex M → Option ℕ
  holder m = pthread.holder m.mutex

  pub guard_free :
      (thread : ℕ) (m : Mutex M)
      → holder m ≡ none
      → (m' : Mutex M) × (guard thread m ≡ some m') × (holder m' ≡ some thread)
  guard_free thread m e =
      let (m', e', h) = pthread.lock_free thread m.mutex e in (record { mutex = m' }, ap wrap e', h)

  -- A guard that was constructed found the mutex free, and holds it.
  pub guard-some :
      (thread : ℕ) (m m' : Mutex M)
      → guard thread m ≡ some m'
      → (holder m ≡ none) × (holder m' ≡ some thread)
  guard-some thread m m' e = elim (none-or-some (holder m)) [
    | inl free ↦
        (let (m1, e1, h1) = guard_free thread m free in
          (free, subst (λ x. holder x ≡ some thread) (some-injective _ _ (sym e1 ∙ e)) h1))
    | inr (u, taken) ↦ (let e1 = ap wrap (pthread.lock_held thread u m.mutex taken) in absurd (cc))
  ]

  pub release_own :
      (thread : ℕ) (m : Mutex M)
      → holder m ≡ some thread
      → (m' : Mutex M) × (release thread m ≡ some m') × (holder m' ≡ none)
  release_own thread m e =
      let (m', e', h) = pthread.unlock_own thread m.mutex e in
      (record { mutex = m' }, ap wrap e', h)
