-- ===== src/ThreadPool/Queue.antt =====
-- base/ThreadPool.cpp: the order of the tasks, and the size of the queue.
use mathlib.Core.Path.{subst}
use cpp_practise.Base.{
  ◌+◌, ◌≤◌, ◌<◌, true, false, ◌&&◌, List, [], ◌∷◌, ◌++◌, none, some, ◌≡◌, refl, sym, ap, ap₂, ◌∙◌,
  arith, length, leb, ◌==◌, append-nil, append_assoc, Bool-cases, inl, inr, ◌⊎◌, if_true, if_false,
}
use cpp_practise.ThreadPool.{
  ThreadPool, at_once, waits, queued, idle, fault, takes, run, take_task, pop_back, is_empty, taken,
  Run, begin, submit, take, started, stopped,
}

module _ {T : Type 0} where
  -- The tasks in the order in which they came: the back of the deque first.
  abbrev pub waiting : List T → List T
  waiting [] = []
  waiting (t ∷ ts) = waiting ts ++ t ∷ []

  pop_back_lem :
      (ts : List T)
      → ((ts ≡ []) × (pop_back ts ≡ none))
        ⊎ ((r : List T × T) × (pop_back ts ≡ some r)
            × (waiting ts ≡ r.1 ∷ waiting r.0)
            × (length ts ≡ length r.0 + 1))
  unfolding pop_back
  pop_back_lem [] = inl (refl, refl)
  pop_back_lem (t ∷ []) = inr (([], t), refl, refl, refl)
  pop_back_lem (t ∷ u ∷ ts) = elim (pop_back_lem (u ∷ ts)) [
    | inl (e, _) ↦ absurd (cc)
    | inr (r, e, w, n) ↦ inr ((t ∷ r.0, r.1), rw e, ap (λ x. x ++ t ∷ []) w, omega (arith, n))
  ]

  is_empty-some : (ts : List T) → 1 ≤ length ts → is_empty ts ≡ false
  is_empty-some [] h = absurd (omega arith)
  is_empty-some (t ∷ ts) h = refl

  -- What a thread of the pool finds: if there is a task it has the one that came first, the others stay in
  -- order and the rest of the pool is as before; if there is none it waits while the pool runs, and reads an empty deque once the pool was
  -- stopped.
  pub take_task_lem :
      (p : ThreadPool T)
      → ((t : T) × (q : ThreadPool T) × (take_task p ≡ takes t q)
          × (waiting p.tasks ≡ t ∷ waiting q.tasks)
          × (length p.tasks ≡ length q.tasks + 1)
          × (q.max_num ≡ p.max_num)
          × (q.is_running ≡ p.is_running))
        ⊎ ((p.tasks ≡ []) × (p.is_running ≡ true) × (take_task p ≡ idle))
        ⊎ ((p.tasks ≡ []) × (p.is_running ≡ false) × (take_task p ≡ fault))
  unfolding take_task
  take_task_lem p = elim (pop_back_lem p.tasks) [
    | inl (e, back) ↦ elim (Bool-cases p.is_running) [
      | inl on ↦ inr (
          inl (
            e,
            on,
            if_true idle (taken p (pop_back p.tasks)) (ap₂ (λ ts b. is_empty ts && b) e on),
          ))
      | inr off ↦ inr (
          inr (
            e,
            off,
            if_false idle (taken p (pop_back p.tasks)) (ap₂ (λ ts b. is_empty ts && b) e off)
                ∙ ap (taken p) back,
          ))
    ]
    | inr (r, back, w, n) ↦ inl (
      r.1,
      record p { tasks = r.0 },
      if_false idle (taken p (pop_back p.tasks))
            (ap (λ b. b && p.is_running) (is_empty-some p.tasks (omega (arith, n))))
          ∙ ap (taken p) back,
      w,
      n,
      refl,
      refl,
    )
  ]

  -- What a caller of `run` meets: the task runs at once if the pool has no threads; the caller waits if the
  -- queue is full; and otherwise the task is the last of those that wait.
  pub submit_lem :
      (p : ThreadPool T) (t : T)
      → ((p.max_num ≡ 0) × (run p t ≡ at_once))
        ⊎ ((1 ≤ p.max_num) × (p.max_num ≤ length p.tasks) × (run p t ≡ waits))
        ⊎ ((length p.tasks < p.max_num)
            × ((q : ThreadPool T) × (run p t ≡ queued q)
                × (waiting q.tasks ≡ waiting p.tasks ++ t ∷ [])
                × (length q.tasks ≡ length p.tasks + 1)
                × (q.max_num ≡ p.max_num)
                × (q.is_running ≡ p.is_running)))
  unfolding run
  submit_lem p t = elim (Bool-cases (p.max_num == 0)) [
    | inl e ↦ inl (ground arith, if_true at_once _ e)
    | inr e ↦ elim (Bool-cases (leb p.max_num (length p.tasks))) [
      | inl full ↦
          inr (inl (ground arith, ground arith, if_false at_once _ e ∙ if_true waits _ full))
      | inr room ↦ inr (
          inr (
            ground arith,
            (
              record p { tasks = t ∷ p.tasks },
              if_false at_once _ e ∙ if_false waits _ room,
              refl,
              omega arith,
              refl,
              refl,
            ),
          ))
    ]
  ]

  pub same_queue : (q q' : ThreadPool T) → queued q ≡ queued q' → q ≡ q'
  same_queue q q' e = cc

  pub same_task : (t t' : T) (q q' : ThreadPool T) → takes t q ≡ takes t' q' → (t ≡ t') × (q ≡ q')
  same_task t t' q q' e = (cc, cc)

  kept :
      (done ts us : List T) (t : T) (submitted : List T)
      → ts ≡ t ∷ us
      → done ++ ts ≡ submitted
      → (done ++ t ∷ []) ++ us ≡ submitted
  kept done ts us t submitted e h = append_assoc done (t ∷ []) us ∙ ap (λ x. done ++ x) (sym e) ∙ h

  Kept : ThreadPool T → ThreadPool T → List T → List T → Type 0
  Kept p q submitted done =
      (done ++ waiting q.tasks ≡ waiting p.tasks ++ submitted)
      × (length q.tasks ≤ q.max_num)
      × (q.max_num ≡ p.max_num)

  submit_keeps :
      (p q q' : ThreadPool T) (submitted done : List T) (t : T)
      → run q t ≡ queued q'
      → Kept p q submitted done
      → Kept p q' (submitted ++ t ∷ []) done
  unfolding Kept
  submit_keeps p q q' submitted done t e (h, bound, num) = elim (submit_lem q t) [
    | inl (_, e') ↦ absurd (cc)
    | inr (inl (_, _, e')) ↦ absurd (cc)
    | inr (inr (room, (q'', e', w, n, m, _))) ↦
        subst (λ x. Kept p x (submitted ++ t ∷ []) done) (same_queue q'' q' (sym e' ∙ e))
          (
            ap (λ x. done ++ x) w
                ∙ sym (append_assoc done (waiting q.tasks) (t ∷ []))
                ∙ ap (λ x. x ++ t ∷ []) h
                ∙ append_assoc (waiting p.tasks) submitted (t ∷ []),
            omega (arith, n, m, room),
            m ∙ num,
          )
  ]

  take_keeps :
      (p q q' : ThreadPool T) (submitted done : List T) (t : T)
      → take_task q ≡ takes t q'
      → Kept p q submitted done
      → Kept p q' submitted (done ++ t ∷ [])
  unfolding Kept
  take_keeps p q q' submitted done t e (h, bound, num) = elim (take_task_lem q) [
    | inl (t', q'', e', w, n, m, _) ↦
        (let (same_t, same_q) = same_task t' t q'' q' (sym e' ∙ e) in
          subst (λ x. Kept p q' submitted (done ++ x ∷ [])) same_t
            (subst (λ x. Kept p x submitted (done ++ t' ∷ [])) same_q
              (
                kept done (waiting q.tasks) (waiting q''.tasks) t' (waiting p.tasks ++ submitted) w
                    h,
                omega (arith, n, m, bound),
                m ∙ num,
              )))
    | inr (inl (_, _, e')) ↦ absurd (cc)
    | inr (inr (_, _, e')) ↦ absurd (cc)
  ]

  -- Any run of the pool that begins with a queue within its bound: the tasks that were taken and then those
  -- that still wait are the ones that waited at first and then the ones submitted, in order, none lost and
  -- none twice, and the queue never holds more tasks than the pool has threads.
  pub tasks_lem :
      (p q : ThreadPool T) (submitted done : List T)
      → length p.tasks ≤ p.max_num
      → Run p q submitted done
      → (done ++ waiting q.tasks ≡ waiting p.tasks ++ submitted) × (length q.tasks ≤ p.max_num)
  unfolding Kept
  tasks_lem p q submitted done bound r =
      let (h, k, m) = go q submitted done r in (h, omega (arith, k, m))
    where
      go :
          (q : ThreadPool T) (submitted done : List T)
          → Run p q submitted done
          → Kept p q submitted done
      go _ _ _ begin = (sym (append-nil (waiting p.tasks)), bound, refl)
      go _ _ _ (submit {q = q} {q' = q'} {submitted = s} {done = d} t r e) =
          submit_keeps p q q' s d t e (go q s d r)
      go _ _ _ (take {q = q} {q' = q'} {submitted = s} {done = d} t r e) =
          take_keeps p q q' s d t e (go q s d r)
      go _ _ _ (started {q = q} {submitted = s} {done = d} r) = go q s d r
      go _ _ _ (stopped {q = q} {submitted = s} {done = d} r) = go q s d r
