-- ===== src/EventLoopThreadPool/Round.antt =====
-- net/EventLoopThreadPool.cpp: the order in which `getNextLoop` returns the loops.
use cpp_practise.Base.{
  Bool-cases, inl, inr, ◌==◌, zero, suc, ◌≤◌, ℕ, ◌+◌, ◌%◌, ◌^◌, ◌<◌, List, [], ◌∷◌, ◌++◌, Option,
  some, length, get_elem?, ◌>>=◌, ◌≡◌, refl, sym, ap, ap₂, ◌∙◌, arith, length-append, append_assoc,
  le→leb, gt→leb,
}
use cpp_practise.EventLoopThreadPool.{EventLoopThreadPool, get_next_loop, next_loops}

module _ {L : Type 0} where
  get_elem-append :
      (xs : List L) (y : L) (ys : List L) → get_elem? (xs ++ y ∷ ys) (length xs) ≡ some y
  get_elem-append [] y ys = refl
  get_elem-append (x ∷ xs) y ys = get_elem-append xs y ys

  element :
      {all : List L} {i : ℕ} {y : L} (before rest : List L)
      → all ≡ before ++ y ∷ rest
      → i ≡ length before
      → get_elem? all i ≡ some y
  element {y = y} before rest e at =
      ap₂ (λ xs j. get_elem? xs j) e at ∙ get_elem-append before y rest

  at_end :
      (base : L) (num : ℕ) (all : List L) (i : ℕ) (y : L)
      → length all < 2 ^ 63
      → get_elem? all i ≡ some y
      → i + 1 ≡ length all
      → get_next_loop
          (record { base_loop = base; thread_num = num; current_index = i; loops = all })
        ≡ some (y, record { base_loop = base; thread_num = num; current_index = 0; loops = all })
  unfolding get_next_loop
  at_end base num [] i y small e last = absurd (cc)
  at_end base num (x ∷ xs) i y small e last =
      rw (e, le→leb (length (x ∷ xs)) ((i + 1) % 2 ^ 64) (omega arith)) refl

  before_end :
      (base : L) (num : ℕ) (all : List L) (i : ℕ) (y : L)
      → length all < 2 ^ 63
      → get_elem? all i ≡ some y
      → i + 1 < length all
      → get_next_loop
          (record { base_loop = base; thread_num = num; current_index = i; loops = all })
        ≡ some
            (y, record { base_loop = base; thread_num = num; current_index = i + 1; loops = all })
  unfolding get_next_loop
  before_end base num [] i y small e more = absurd (cc)
  before_end base num (x ∷ xs) i y small e more =
      rw (e, gt→leb (length (x ∷ xs)) ((i + 1) % 2 ^ 64) (omega arith), wraps) refl
    where
      wraps : (i + 1) % 2 ^ 64 ≡ i + 1
      wraps = omega arith

  rest_of_round :
      (base : L) (num : ℕ) (all : List L) (i : ℕ) (before : List L) (y : L) (rest : List L)
      → length all < 2 ^ 63
      → all ≡ before ++ y ∷ rest
      → i ≡ length before
      → next_loops
          (length (y ∷ rest))
          (record { base_loop = base; thread_num = num; current_index = i; loops = all })
        ≡ some (
          y ∷ rest,
          record { base_loop = base; thread_num = num; current_index = 0; loops = all },
        )
  unfolding next_loops
  rest_of_round base num all i before y [] small e at =
      rw
        (at_end base num all i y small (element before [] e at)
          (omega (arith, at, ap length e, length-append before (y ∷ []))))
        refl
  rest_of_round base num all i before y (z ∷ rest) small e at =
      ap (λ o. o >>= λ r. next_loops (length (z ∷ rest)) r.1 >>= λ rs. some (r.0 ∷ rs.0, rs.1))
        (before_end base num all i y small (element before (z ∷ rest) e at)
          (omega (arith, at, ap length e, length-append before (y ∷ z ∷ rest))))
      ∙ ap (λ (o : Option (List L × EventLoopThreadPool L)). o >>= λ rs. some (y ∷ rs.0, rs.1))
          (rest_of_round base num all (i + 1) (before ++ y ∷ []) z rest small
            (e ∙ sym (append_assoc before (y ∷ []) (z ∷ rest)))
            (omega (arith, at, length-append before (y ∷ []))))

  round_of :
      (base : L) (num : ℕ) (i : ℕ) (all : List L)
      → i ≡ 0
      → length all < 2 ^ 63
      → next_loops
          (length all)
          (record { base_loop = base; thread_num = num; current_index = i; loops = all })
        ≡ some (all, record { base_loop = base; thread_num = num; current_index = i; loops = all })
  unfolding next_loops
  round_of base num i [] e small = refl
  round_of base num i (x ∷ xs) e small =
      rest_of_round base num (x ∷ xs) i [] x xs small refl e
      ∙ ap
          (λ j. some (
            x ∷ xs,
            record { base_loop = base; thread_num = num; current_index = j; loops = x ∷ xs },
          ))
          (sym e)

  base_only :
      (base : L) (num : ℕ) (i : ℕ) (all : List L)
      → all ≡ []
      → get_next_loop
          (record { base_loop = base; thread_num = num; current_index = i; loops = all })
        ≡ some (base, record { base_loop = base; thread_num = num; current_index = i; loops = all })
  unfolding get_next_loop
  base_only base num i [] e = refl
  base_only base num i (x ∷ xs) e = absurd (cc)

  -- A pool that is about to return its first loop, and has at least one: as many calls of `getNextLoop` as
  -- it has loops return each of them once, in order, and leave the pool as it was, so that the next calls do
  -- the same. Without loops every call returns the base loop.
  pub round_lem :
      (p : EventLoopThreadPool L)
      → p.current_index ≡ 0
      → length p.loops < 2 ^ 63
      → (next_loops (length p.loops) p ≡ some (p.loops, p))
        × (p.loops ≡ [] → get_next_loop p ≡ some (p.base_loop, p))
  round_lem p e small = (
    round_of p.base_loop p.thread_num p.current_index p.loops e small,
    base_only p.base_loop p.thread_num p.current_index p.loops,
  )

  -- The index is inside the vector, if there are any loops.
  pub record IsSound (p : EventLoopThreadPool L) : Type 0 where
    pub small : length p.loops < 2 ^ 63
    pub inside : 1 ≤ length p.loops → p.current_index < length p.loops

  get_elem-some : (xs : List L) (i : ℕ) → i < length xs → (y : L) × (get_elem? xs i ≡ some y)
  get_elem-some [] i h = absurd (omega arith)
  get_elem-some (x ∷ xs) zero h = (x, refl)
  get_elem-some (x ∷ xs) (suc i) h = get_elem-some xs i (omega arith)

  next_of :
      (base : L) (num : ℕ) (all : List L) (i : ℕ)
      → length all < 2 ^ 63
      → (1 ≤ length all → i < length all)
      → (x : L) × (p' : EventLoopThreadPool L) × (get_next_loop
            (record { base_loop = base; thread_num = num; current_index = i; loops = all })
          ≡ some (x, p'))
        × IsSound p'
  next_of base num [] i small inside = (
    base,
    record { base_loop = base; thread_num = num; current_index = i; loops = [] },
    base_only base num i [] refl,
    record { small = small; inside = inside },
  )
  next_of base num (x ∷ xs) i small inside =
      let h = inside (omega arith) in
      let (y, e) = get_elem-some (x ∷ xs) i h in
      elim (Bool-cases (i + 1 == length (x ∷ xs))) [
        | inl last ↦ (
          y,
          record { base_loop = base; thread_num = num; current_index = 0; loops = x ∷ xs },
          at_end base num (x ∷ xs) i y small e (ground arith),
          record { small = small; inside = λ k. k },
        )
        | inr more ↦ (
          y,
          record { base_loop = base; thread_num = num; current_index = i + 1; loops = x ∷ xs },
          before_end base num (x ∷ xs) i y small e (ground arith),
          record { small = small; inside = λ k. ground arith },
        )
      ]

  -- `getNextLoop` does not read outside the vector, and keeps the index inside.
  pub next_loop_lem :
      (p : EventLoopThreadPool L)
      → IsSound p
      → (x : L) × (p' : EventLoopThreadPool L) × (get_next_loop p ≡ some (x, p')) × IsSound p'
  next_loop_lem p s = next_of p.base_loop p.thread_num p.loops p.current_index s.small s.inside
