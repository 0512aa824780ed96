-- ===== src/ThreadPool/Threads.antt =====
-- base/ThreadPool.cpp: the threads of a pool, from `start` to the destructor.
use mathlib.Core.Option
use cpp_practise.Base.{
  ℕ, zero, suc, ◌+◌, Bool, true, false, List, [], ◌∷◌, ◌++◌, Option, none, some, ◌>>=◌,
}
use cpp_practise.Thread.{Pthread, Thread, construct, start, join, destroy}

-- `label i` is the text " Thread-%d" of the number `i`, and `to_string` that of `std::to_string`.
module _ {H : Type 0} (api : Pthread H) (label to_string : ℕ → List ℕ) where
  -- `start`: the threads from number `i` on, if `pthread_create` succeeds. `count` is the number of threads
  -- of the program.
  pub start_threads : List ℕ → ℕ → ℕ → ℕ → List (Thread H)
  start_threads name count i zero = []
  start_threads name count i (suc n) =
      let (t, count') = construct to_string count (name ++ label (i + 1)) in
      (start api true t).0 ∷ start_threads name count' (i + 1) n

module _ {H : Type 0} (api : Pthread H) where
  -- The joins of `stop`. `none`: a fault, such as an index behind the threads.
  pub join_threads : ℕ → List (Thread H) → Option (List (Thread H))
  join_threads zero ts = some ts
  join_threads (suc n) [] = none
  join_threads (suc n) (t ∷ ts) = join api t >>= λ t'. Option.map (◌∷◌ t') (join_threads n ts)

  -- The end of the vector `_threads`.
  pub destroy_threads : List (Thread H) → Option (List (Thread H))
  destroy_threads [] = some []
  destroy_threads (t ∷ ts) = destroy api t >>= λ t'. Option.map (◌∷◌ t') (destroy_threads ts)

  -- `~ThreadPool`, of a pool that runs or does not.
  pub destroy_pool : Bool → ℕ → List (Thread H) → Option (List (Thread H))
  unfolding join_threads destroy_threads
  destroy_pool true n ts = join_threads n ts >>= λ ts'. destroy_threads ts'
  destroy_pool false n ts = destroy_threads ts
