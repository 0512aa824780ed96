-- ===== src/Monitor/Atomic.antt =====
-- base/Mutex.h and base/Condition.h: what stands under one lock is one step.
use mathlib.Core.Path.{subst}
use mathlib.Core.Option.{some-injective}
use cpp_practise.Base.{
  ℕ, Bool, List, [], ◌∷◌, ◌++◌, Option, none, some, ◌≡◌, ◌≢◌, ◌==◌, ==_iff, refl, sym, ap, ◌∙◌,
  arith, ◌⊎◌, inl, inr, Bool-cases, if_true, if_false,
}
use cpp_practise.Mutex.{PthreadMutex, Mutex, guard, release, holder, guard-some, release_own}
use cpp_practise.Monitor.{
  Op, act, notify, notify_all, Place, outside, testing, working, asleep, woken, update, wake,
  System, Step, locks, locks_again, sleeps, begins, acts, notifies, notifies_none, notifies_all,
  skips, leaves, wakes_up, Steps, begin, later, finish, effect, effects,
}

module _ {M L S : Type 0} (pthread : PthreadMutex M) (waits : L → S → Bool)
    (body : L → List (Op S)) where
  -- What a thread that has the lock still makes of the object; `none` for one that has not.
  abbrev pub rest : Place L S → Option (S → S)
  rest outside = none
  rest (testing l) = some (effect waits body l)
  rest (working ops) = some (finish ops)
  rest (asleep l) = none
  rest (woken l) = none

  abbrev pub At : System pthread waits body → ℕ → Option (S → S) → Type 0
  At s t r = rest (s.place t) ≡ r

  -- The lock is free, no thread is in a body, and the object is as the methods left it.
  record Free (s : System pthread waits body) (spec : S) : Type 0 where
    free : holder pthread s.mutex ≡ none
    value : s.state ≡ spec
    nobody : (u : ℕ) → At s u none

  -- One thread has the lock, it alone is in a body, and what it still does gives what the methods leave.
  record Held (s : System pthread waits body) (spec : S) (t : ℕ) (f : S → S) : Type 0 where
    held : holder pthread s.mutex ≡ some t
    here : At s t (some f)
    value : f s.state ≡ spec
    others : (u : ℕ) → t ≢ u → At s u none

  Sound : System pthread waits body → S → Type 0
  Sound s spec = Free s spec ⊎ ((t : ℕ) × (f : S → S) × Held s spec t f)

  -- A thread in a body has the lock.
  running :
      (s : System pthread waits body) (spec : S) (t : ℕ) (f : S → S)
      → Sound s spec
      → At s t (some f)
      → Held s spec t f
  unfolding Sound
  running s spec t f (inl h) e = (let n = h.nobody t in absurd (cc))
  running s spec t f (inr (u, g, h)) e = elim (Bool-cases (u == t)) [
    | inl same ↦
        (let there = subst (λ x. Held s spec x g) ((==_iff u t).0 same) h in
          subst (λ k. Held s spec t k) (some-injective _ _ (sym there.here ∙ e)) there)
    | inr apart ↦ (let n = h.others t (ground arith) in absurd (cc))
  ]

  rest-update :
      (place : ℕ → Place L S) (t u : ℕ) (v : Place L S)
      → t ≢ u
      → rest (update place t v u) ≡ rest (place u)
  rest-update place t u v ne = ap rest (if_false v (place u) (ground arith))

  rest_here : (place : ℕ → Place L S) (t : ℕ) (v : Place L S) → rest (update place t v t) ≡ rest v
  rest_here place t v = ap rest (if_true v (place t) (ground arith))

  -- The thread with the lock goes on.
  goes_on :
      (s : System pthread waits body) (spec state : S) (t : ℕ) (f g : S → S) (v : Place L S)
      → Held s spec t f
      → rest v ≡ some g
      → g state ≡ spec
      → Sound (record s { state = state; place = update s.place t v }) spec
  unfolding Sound
  goes_on s spec state t f g v h e value = inr (
    t,
    g,
    record {
      held = h.held;
      here = rest_here s.place t v ∙ e;
      value = value;
      others = λ u ne. rest-update s.place t u v ne ∙ h.others u ne;
    },
  )

  -- A thread takes the lock.
  enters :
      (s : System pthread waits body) (spec : S) (m : Mutex M) (t : ℕ) (l : L)
      → Sound s spec
      → guard pthread t s.mutex ≡ some m
      → Sound
          (record s { mutex = m; place = update s.place t (testing l) })
          (effect waits body l spec)
  unfolding Sound
  enters s spec m t l (inl h) e =
      let (_, held) = guard-some pthread t s.mutex m e in
      inr (
        t,
        effect waits body l,
        record {
          held = held;
          here = rest_here s.place t (testing l);
          value = ap (effect waits body l) h.value;
          others = λ u ne. rest-update s.place t u (testing l) ne ∙ h.nobody u;
        },
      )
  enters s spec m t l (inr (u, f, h)) e =
      let (free, _) = guard-some pthread t s.mutex m e in let held = h.held in absurd (cc)

  -- The thread with the lock, which has nothing left to do, gives it back.
  exits :
      (s : System pthread waits body) (spec : S) (m : Mutex M) (t : ℕ) (f : S → S) (v : Place L S)
      → Held s spec t f
      → f s.state ≡ s.state
      → rest v ≡ none
      → release pthread t s.mutex ≡ some m
      → Sound (record s { mutex = m; place = update s.place t v }) spec
  unfolding Sound
  exits s spec m t f v h still gone e =
      let (m', e', free) = release_own pthread t s.mutex h.held in
      inl (record {
        free = subst (λ x. holder pthread x ≡ none) (some-injective _ _ (sym e' ∙ e)) free;
        value = sym still ∙ h.value;
        nobody = λ u. elim (Bool-cases (t == u)) [
          | inl same ↦ ap rest (if_true v (s.place u) same) ∙ gone
          | inr apart ↦ rest-update s.place t u v (ground arith) ∙ h.others u (ground arith)
        ];
      })

  -- Threads that are woken are in a body neither before nor after.
  woken_lem :
      (s : System pthread waits body) (spec : S) (place : ℕ → Place L S)
      → Sound s spec
      → ((u : ℕ) → rest (place u) ≡ rest (s.place u))
      → Sound (record s { place = place }) spec
  unfolding Sound
  woken_lem s spec place (inl h) same =
      inl (record { free = h.free; value = h.value; nobody = λ u. same u ∙ h.nobody u })
  woken_lem s spec place (inr (t, f, h)) same = inr (
    t,
    f,
    record {
      held = h.held;
      here = same t ∙ h.here;
      value = h.value;
      others = λ u ne. same u ∙ h.others u ne;
    },
  )

  rest-wake : (p : Place L S) → rest (wake p) ≡ rest p
  rest-wake outside = refl
  rest-wake (testing l) = refl
  rest-wake (working ops) = refl
  rest-wake (asleep l) = refl
  rest-wake (woken l) = refl

  rest_woken :
      (place : ℕ → Place L S) (u : ℕ) (l : L)
      → place u ≡ asleep l
      → (v : ℕ) → rest (update place u (woken l) v) ≡ rest (place v)
  rest_woken place u l e v = elim (Bool-cases (u == v)) [
    | inl same ↦
        ap rest (if_true (woken l) (place v) same)
        ∙ sym (ap rest (sym (ap place ((==_iff u v).0 same)) ∙ e))
    | inr apart ↦ ap rest (if_false (woken l) (place v) apart)
  ]

  step_lem :
      (s s' : System pthread waits body) (ls : List L) (spec : S)
      → Sound s spec
      → Step pthread waits body s s' ls
      → Sound s' (effects waits body ls spec)
  unfolding finish effect effects
  step_lem s _ _ spec h (locks {m = m} t l e g) = enters s spec m t l h g
  step_lem s _ _ spec h (locks_again {m = m} t l e g) = enters s spec m t l h g
  step_lem s _ _ spec h (sleeps {m = m} t l e p r) =
      exits s spec m t (effect waits body l) (asleep l) (running s spec t _ h (ap rest e))
        (if_true s.state _ p) refl r
  step_lem s _ _ spec h (begins t l e p) =
      let k = running s spec t (effect waits body l) h (ap rest e) in
      goes_on s spec s.state t (effect waits body l) (finish (body l)) (working (body l)) k refl
        (sym (if_false s.state (finish (body l) s.state) p) ∙ k.value)
  step_lem s _ _ spec h (acts t f ops e) =
      let k = running s spec t (finish (act f ∷ ops)) h (ap rest e) in
      goes_on s spec (f s.state) t (finish (act f ∷ ops)) (finish ops) (working ops) k refl k.value
  step_lem s _ _ spec h (notifies t u l p ops e on there) =
      let k = running s spec t (finish (notify p ∷ ops)) h (ap rest e) in
      let s1 : System pthread waits body = record s { place = update s.place t (working ops) } in
      woken_lem s1 spec (update s1.place u (woken l))
        (goes_on s spec s.state t (finish (notify p ∷ ops)) (finish ops) (working ops) k refl
          k.value)
        (rest_woken s1.place u l (elim (Bool-cases (t == u)) [
          | inl same ↦ (let w = ap s.place ((==_iff t u).0 same) in absurd (cc))
          | inr apart ↦ if_false (working ops) (s.place u) apart ∙ there
        ]))
  step_lem s _ _ spec h (notifies_none t p ops e none_asleep) =
      let k = running s spec t (finish (notify p ∷ ops)) h (ap rest e) in
      goes_on s spec s.state t (finish (notify p ∷ ops)) (finish ops) (working ops) k refl k.value
  step_lem s _ _ spec h (notifies_all t p ops e on) =
      let s1 : System pthread waits body = record s { place = λ u. wake (s.place u) } in
      let h1 = woken_lem s spec s1.place h (λ u. rest-wake (s.place u)) in
      let k =
        running s1 spec t (finish (notify_all p ∷ ops)) h1 (rest-wake (s.place t) ∙ ap rest e) in
      goes_on s1 spec s.state t (finish (notify_all p ∷ ops)) (finish ops) (working ops) k refl
        k.value
  step_lem s _ _ spec h (skips t p ops e off) =
      let k = running s spec t (finish (notify_all p ∷ ops)) h (ap rest e) in
      goes_on s spec s.state t (finish (notify_all p ∷ ops)) (finish ops) (working ops) k refl
        k.value
  step_lem s _ _ spec h (leaves {m = m} t e r) =
      exits s spec m t (finish []) outside (running s spec t (finish []) h (ap rest e)) refl refl r
  step_lem s _ _ spec h (wakes_up t l e) =
      woken_lem s spec (update s.place t (woken l)) h (rest_woken s.place t l e)

  effects-append :
      (before ls : List L) (state : S)
      → effects waits body (before ++ ls) state
        ≡ effects waits body ls (effects waits body before state)
  unfolding effects
  effects-append [] ls state = refl
  effects-append (l ∷ before) ls state = effects-append before ls (effect waits body l state)

  steps_lem :
      (state : S) (s : System pthread waits body) (ls : List L)
      → Steps pthread waits body state s ls
      → Sound s (effects waits body ls state)
  unfolding Sound effects
  steps_lem state _ _ begin =
      inl (record { free = pthread.holder-init; value = refl; nobody = λ u. refl })
  steps_lem state _ _ (later {s = s1} {s' = s2} {before = before} {ls = ls} r p) =
      subst (Sound s2) (sym (effects-append before ls state))
        (step_lem s1 s2 ls (effects waits body before state) (steps_lem state s1 before r) p)

  -- Methods under one lock, in any number of threads and any interleaving of single calls of the lock, of the
  -- condition and of the changes in the bodies, wakeups without a cause among them. Whenever the lock is
  -- free, the object is as if each stretch from an acquisition of the lock to its release were one step,
  -- in the order of the acquisitions: a method that finds its condition unmet does nothing, and every other
  -- does all of its body. A thread within a body has the lock, so that it is alone, and what it still does
  -- leads to that same object.
  pub atomic_lem :
      (state : S) (s : System pthread waits body) (ls : List L)
      → Steps pthread waits body state s ls
      → (holder pthread s.mutex ≡ none → s.state ≡ effects waits body ls state)
        × ((t : ℕ) (f : S → S)
            → At s t (some f)
            → (holder pthread s.mutex ≡ some t) × (f s.state ≡ effects waits body ls state))
  unfolding Sound
  atomic_lem state s ls r =
      let h = steps_lem state s ls r in
      (
        λ free. elim h [ inl k ↦ k.value | inr (t, f, k) ↦ (let held = k.held in absurd (cc)) ],
        λ t f e. (let k = running s (effects waits body ls state) t f h e in (k.held, k.value)),
      )
