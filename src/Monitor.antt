-- ===== src/Monitor.antt =====
-- base/Mutex.h and base/Condition.h: methods of an object whose bodies stand under one lock, with a wait at
-- their beginning, as threads run them, one call of the lock or of the condition at a time.
pub mod Atomic
use cpp_practise.Base.{
  ℕ, Bool, true, false, List, [], ◌∷◌, ◌++◌, Option, none, some, ◌≡◌, ◌≢◌, ◌==◌, if◌then◌else◌,
}
use cpp_practise.Mutex.{PthreadMutex, Mutex, make, guard, release}

-- What a method does behind its wait: a change of the object, `_cond.notify()` or `_cond.notifyAll()`, the
-- latter two under a test.
pub data Op (S : Type 0) : Type 0 where
  act : (S → S) → Op S
  notify notify_all : (S → Bool) → Op S

-- Where a thread is: in no method, at the test of `while (…) _cond.wait();` with the lock, behind it with
-- the lock, in `_cond.wait()`, or woken there and before the lock.
pub data Place (L S : Type 0) : Type 0 where
  outside : Place L S
  testing : L → Place L S
  working : List (Op S) → Place L S
  asleep woken : L → Place L S

abbrev pub update : {A : Type 0} → (ℕ → A) → ℕ → A → ℕ → A
update f i v j = if i == j then v else f j

-- `pthread_cond_broadcast`, for one thread.
abbrev pub wake : {L S : Type 0} → Place L S → Place L S
wake (asleep l) = woken l
wake outside = outside
wake (testing l) = testing l
wake (working ops) = working ops
wake (woken l) = woken l

-- The methods `L` of an object `S`: what a method waits on, and its body.
module _ {M L S : Type 0} (pthread : PthreadMutex M) (waits : L → S → Bool)
    (body : L → List (Op S)) where
  pub record System : Type 0 where
    pub mutex : Mutex M
    pub state : S
    pub place : ℕ → Place L S

  -- One step of a thread, and the methods of which it begins a stretch under the lock.
  pub data Step (s : System) : System → List L → Type 0 where
    locks :
        {m : Mutex M} (t : ℕ) (l : L)
        → s.place t ≡ outside
        → guard pthread t s.mutex ≡ some m
        → Step s (record s { mutex = m; place = update s.place t (testing l) }) (l ∷ [])
    locks_again :
        {m : Mutex M} (t : ℕ) (l : L)
        → s.place t ≡ woken l
        → guard pthread t s.mutex ≡ some m
        → Step s (record s { mutex = m; place = update s.place t (testing l) }) (l ∷ [])
    sleeps :
        {m : Mutex M} (t : ℕ) (l : L)
        → s.place t ≡ testing l
        → waits l s.state ≡ true
        → release pthread t s.mutex ≡ some m
        → Step s (record s { mutex = m; place = update s.place t (asleep l) }) []
    begins :
        (t : ℕ) (l : L)
        → s.place t ≡ testing l
        → waits l s.state ≡ false
        → Step s (record s { place = update s.place t (working (body l)) }) []
    acts :
        (t : ℕ) (f : S → S) (ops : List (Op S))
        → s.place t ≡ working (act f ∷ ops)
        → Step s (record s { state = f s.state; place = update s.place t (working ops) }) []
    notifies :
        (t u : ℕ) (l : L) (p : S → Bool) (ops : List (Op S))
        → s.place t ≡ working (notify p ∷ ops)
        → p s.state ≡ true
        → s.place u ≡ asleep l
        → Step s (record s { place = update (update s.place t (working ops)) u (woken l) }) []
    notifies_none :
        (t : ℕ) (p : S → Bool) (ops : List (Op S))
        → s.place t ≡ working (notify p ∷ ops)
        → (p s.state ≡ true → (u : ℕ) (l : L) → s.place u ≢ asleep l)
        → Step s (record s { place = update s.place t (working ops) }) []
    notifies_all :
        (t : ℕ) (p : S → Bool) (ops : List (Op S))
        → s.place t ≡ working (notify_all p ∷ ops)
        → p s.state ≡ true
        → Step s (record s { place = update (λ u. wake (s.place u)) t (working ops) }) []
    skips :
        (t : ℕ) (p : S → Bool) (ops : List (Op S))
        → s.place t ≡ working (notify_all p ∷ ops)
        → p s.state ≡ false
        → Step s (record s { place = update s.place t (working ops) }) []
    leaves :
        {m : Mutex M} (t : ℕ)
        → s.place t ≡ working []
        → release pthread t s.mutex ≡ some m
        → Step s (record s { mutex = m; place = update s.place t outside }) []
    wakes_up :
        (t : ℕ) (l : L)
        → s.place t ≡ asleep l
        → Step s (record s { place = update s.place t (woken l) }) []

  -- An object that was just made, in a state, and no thread in its methods.
  abbrev pub started : S → System
  started state = record { mutex = make pthread; state = state; place = λ t. outside }

  pub data Steps (state : S) : System → List L → Type 0 where
    begin : Steps state (started state) []
    later :
        {s s' : System} {before ls : List L}
        → Steps state s before
        → Step s s' ls
        → Steps state s' (before ++ ls)

-- What the changes of a body make of an object.
unfoldable pub finish : {S : Type 0} → List (Op S) → S → S
finish [] s = s
finish (act f ∷ ops) s = finish ops (f s)
finish (notify p ∷ ops) s = finish ops s
finish (notify_all p ∷ ops) s = finish ops s

-- A method as one step: it sleeps, or does all of its body.
module _ {L S : Type 0} (waits : L → S → Bool) (body : L → List (Op S)) where
  unfoldable pub effect : L → S → S
  unfolding finish
  effect l s = if waits l s then s else finish (body l) s

  unfoldable pub effects : List L → S → S
  unfolding effect
  effects [] s = s
  effects (l ∷ ls) s = effects ls (effect l s)
