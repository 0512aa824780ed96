-- ===== src/EventLoopThreadPool/Tests.antt =====
-- Three loops, which are numbers here.
use cpp_practise.Base.{ℕ, ◌+◌, List, [], ◌∷◌, some, ◌≡◌, refl, arith}
use cpp_practise.EventLoopThreadPool.{
  EventLoopThreadPool, make, start, started, get_next_loop, next_loops,
}
use cpp_practise.EventLoopThreadPool.Round.{round_lem}

abbrev pool : EventLoopThreadPool ℕ
pool = record { base_loop = 9; thread_num = 3; current_index = 0; loops = 10 ∷ 11 ∷ 12 ∷ [] }

abbrev three : List ℕ
three = 10 ∷ 11 ∷ 12 ∷ []

pool-started : start (λ i. i + 10) (make 9 3) ≡ pool
unfolding started
pool-started = refl

round_lem_example :
    (next_loops 3 pool ≡ some (three, pool)) × (three ≡ [] → get_next_loop pool ≡ some (9, pool))
round_lem_example = round_lem pool refl (omega arith)
