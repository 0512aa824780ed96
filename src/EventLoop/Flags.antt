-- ===== src/EventLoop/Flags.antt =====
-- What the loop's flags tell in each phase: when a wakeup is due, and what is in the batch.
use cpp_practise.Base.{
  if_true, if_false, ℕ, ◌≤◌, Bool, true, false, List, [], ◌∷◌, ◌++◌, ◌||◌, ◌≡◌, refl, sym, ap, ◌∙◌,
  append_assoc, inl, inr, ◌⊎◌,
}
use cpp_practise.EventLoop.{
  Phase, starting, polling, handling, doing, ended, EventLoop, next_poll, run_in_loop, push_back,
  wakeup,
}

-- The wakeup descriptor is readable, or a thread is about to make it so.
abbrev pub Woken : Bool → ℕ → Type 0
Woken r w = (r ≡ true) ⊎ (1 ≤ w)

abbrev pub QuitSound : Phase → Bool → Bool → ℕ → Type 0
QuitSound polling true r w = Woken r w
QuitSound _ q r w = Unit

pub quits-all : (p : Phase) (q r : Bool) (w : ℕ) → Woken r w → QuitSound p q r w
quits-all starting q r w h = tt
quits-all polling true r w h = h
quits-all polling false r w h = tt
quits-all handling q r w h = tt
quits-all doing q r w h = tt
quits-all ended q r w h = tt

pub quits-next : (q r : Bool) (w : ℕ) → QuitSound (next_poll q) q r w
quits-next true r w = tt
quits-next false r w = tt

-- In the handlers and in the functors the loop does not sleep.
pub quits-busy : (p : Phase) (q r : Bool) (w : ℕ) → (p ≡ handling) ⊎ (p ≡ doing) → QuitSound p q r w
quits-busy starting q r w h = tt
quits-busy polling q r w (inl e) = absurd (cc)
quits-busy polling q r w (inr e) = absurd (cc)
quits-busy handling q r w h = tt
quits-busy doing q r w h = tt
quits-busy ended q r w h = tt

pub quits-starting : (p : Phase) (q r : Bool) (w : ℕ) → p ≡ starting → QuitSound p q r w
quits-starting starting q r w e = tt
quits-starting polling q r w e = absurd (cc)
quits-starting handling q r w e = tt
quits-starting doing q r w e = tt
quits-starting ended q r w e = tt

pub or-true : (b : Bool) → (b || true) ≡ true
or-true true = refl
or-true false = refl

module _ {F : Type 0} where
  abbrev pub WokenFor : List F → Bool → ℕ → Type 0
  WokenFor [] r w = Unit
  WokenFor (f ∷ fs) r w = Woken r w

  -- Handlers run before the functors are taken, so what they find needs no wakeup.
  abbrev pub WakeSound : Phase → List F → Bool → ℕ → Type 0
  WakeSound starting fs r w = WokenFor fs r w
  WakeSound polling fs r w = WokenFor fs r w
  WakeSound handling fs r w = Unit
  WakeSound doing fs r w = WokenFor fs r w
  WakeSound ended fs r w = Unit

  abbrev pub BatchSound : Phase → List F → Bool → Type 0
  BatchSound doing fs d = d ≡ true
  BatchSound _ fs d = (d ≡ false) × (fs ≡ [])

  -- A functor that was handed over before `loop()` in the loop's own thread waits for the first poll.
  pub record IsSound (l : EventLoop F) : Type 0 where
    pub woken : WakeSound l.phase l.functors (l.readable || l.early) l.writers
    pub quits : QuitSound l.phase l.quit l.readable l.writers
    pub batch : BatchSound l.phase l.batch l.is_doing_task

  -- All functors that the loop was handed: those it ran, those it is running, and those that wait.
  abbrev pub all : EventLoop F → List F
  all l = l.ran ++ (l.batch ++ l.functors)

  pub wakes_any : (fs : List F) (r : Bool) (w : ℕ) → Woken r w → WokenFor fs r w
  wakes_any [] r w h = tt
  wakes_any (f ∷ fs) r w h = h

  pub wakes_all : (p : Phase) (fs : List F) (r : Bool) (w : ℕ) → Woken r w → WakeSound p fs r w
  wakes_all starting fs r w h = wakes_any fs r w h
  wakes_all polling fs r w h = wakes_any fs r w h
  wakes_all handling fs r w h = tt
  wakes_all doing fs r w h = wakes_any fs r w h
  wakes_all ended fs r w h = tt

  pub appended :
      (ran batch fs : List F) (f : F)
      → ran ++ (batch ++ (fs ++ f ∷ [])) ≡ (ran ++ (batch ++ fs)) ++ f ∷ []
  appended ran batch fs f =
      ap (λ t. ran ++ t) (sym (append_assoc batch fs (f ∷ [])))
      ∙ sym (append_assoc ran (batch ++ fs) (f ∷ []))

  pub wakes_next :
      (q : Bool) (fs : List F) (r : Bool) (w : ℕ) → WokenFor fs r w → WakeSound (next_poll q) fs r w
  wakes_next true fs r w h = tt
  wakes_next false fs r w h = h

  pub wakes_handling :
      (p : Phase) (fs : List F) (r : Bool) (w : ℕ) → p ≡ handling → WakeSound p fs r w
  wakes_handling starting fs r w e = absurd (cc)
  wakes_handling polling fs r w e = absurd (cc)
  wakes_handling handling fs r w e = tt
  wakes_handling doing fs r w e = absurd (cc)
  wakes_handling ended fs r w e = absurd (cc)

  pub wakes_for :
      (p : Phase) (fs : List F) (r : Bool) (w : ℕ)
      → (p ≡ starting) ⊎ (p ≡ doing)
      → WakeSound p fs r w
      → WokenFor fs r w
  wakes_for starting fs r w e h = h
  wakes_for polling fs r w e h = h
  wakes_for handling fs r w (inl e) h = absurd (cc)
  wakes_for handling fs r w (inr e) h = absurd (cc)
  wakes_for doing fs r w e h = h
  wakes_for ended fs r w (inl e) h = absurd (cc)
  wakes_for ended fs r w (inr e) h = absurd (cc)

  pub batch-resting :
      (p : Phase) (fs : List F) (d : Bool)
      → (p ≡ starting) ⊎ (p ≡ handling) ⊎ (p ≡ polling)
      → BatchSound p fs d
      → (d ≡ false) × (fs ≡ [])
  batch-resting starting fs d e h = h
  batch-resting polling fs d e h = h
  batch-resting handling fs d e h = h
  batch-resting doing fs d (inl e) h = absurd (cc)
  batch-resting doing fs d (inr (inl e)) h = absurd (cc)
  batch-resting doing fs d (inr (inr e)) h = absurd (cc)
  batch-resting ended fs d e h = h

  pub batch-doing : (p : Phase) (fs : List F) (d : Bool) → p ≡ doing → BatchSound p fs d → d ≡ true
  batch-doing starting fs d e h = absurd (cc)
  batch-doing polling fs d e h = absurd (cc)
  batch-doing handling fs d e h = absurd (cc)
  batch-doing doing fs d e h = h
  batch-doing ended fs d e h = absurd (cc)

  pub batch-of_doing :
      (p : Phase) (fs : List F) (d : Bool) → p ≡ doing → d ≡ true → BatchSound p fs d
  batch-of_doing starting fs d e h = absurd (cc)
  batch-of_doing polling fs d e h = absurd (cc)
  batch-of_doing handling fs d e h = absurd (cc)
  batch-of_doing doing fs d e h = h
  batch-of_doing ended fs d e h = absurd (cc)

  pub batch-next :
      (q : Bool) (fs : List F) (d : Bool) → (d ≡ false) × (fs ≡ []) → BatchSound (next_poll q) fs d
  batch-next true fs d h = h
  batch-next false fs d h = h

  pub run_in_loop-resting :
      (l : EventLoop F) (f : F) → l.is_doing_task ≡ false → run_in_loop f l ≡ push_back f l
  run_in_loop-resting l f e = if_false (wakeup (push_back f l)) (push_back f l) e

  pub run_in_loop-doing :
      (l : EventLoop F) (f : F) → l.is_doing_task ≡ true → run_in_loop f l ≡ wakeup (push_back f l)
  run_in_loop-doing l f e = if_true (wakeup (push_back f l)) (push_back f l) e
