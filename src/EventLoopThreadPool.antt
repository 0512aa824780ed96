-- ===== src/EventLoopThreadPool.antt =====
-- net/EventLoopThreadPool.cpp: the loops that the server's connections are spread over.
pub mod Round
mod Tests
use cpp_practise.Base.{
  ℕ, zero, suc, ◌+◌, ◌%◌, ◌^◌, List, [], ◌∷◌, ◌++◌, Option, none, some, length, get_elem?, leb,
  if◌then◌else◌, ◌>>=◌,
}

pub record EventLoopThreadPool (L : Type 0) : Type 0 where
  pub base_loop : L
  pub thread_num : ℕ
  pub current_index : ℕ
  pub loops : List L

module _ {L : Type 0} where
  -- `int num` is taken to be no less than zero.
  abbrev pub make : L → ℕ → EventLoopThreadPool L
  make base num = record { base_loop = base; thread_num = num; current_index = 0; loops = [] }

  -- The loops that `num` threads return, the one with number `i` first.
  unfoldable pub started : (ℕ → L) → ℕ → ℕ → List L
  started start i zero = []
  started start i (suc num) = start i ∷ started start (i + 1) num

  -- `start` stands for the start of thread `i`, which returns its loop.
  abbrev pub start : (ℕ → L) → EventLoopThreadPool L → EventLoopThreadPool L
  start start_thread p = record p { loops = p.loops ++ started start_thread 0 p.thread_num }

  -- `none`: the index is not inside the vector.
  unfoldable pub get_next_loop : EventLoopThreadPool L → Option (L × EventLoopThreadPool L)
  get_next_loop p = elim p.loops [
    | [] ↦ some (p.base_loop, p)
    | x ∷ xs ↦ get_elem? p.loops p.current_index >>= λ loop. some (
      loop,
      record p {
        current_index =
            if leb (length p.loops) ((p.current_index + 1) % 2 ^ 64)
            then 0
            else (p.current_index + 1) % 2 ^ 64;
      },
    )
  ]

  -- The loops that so many calls return.
  unfoldable pub next_loops : ℕ → EventLoopThreadPool L → Option (List L × EventLoopThreadPool L)
  next_loops zero p = some ([], p)
  next_loops (suc k) p = get_next_loop p >>= λ r. next_loops k r.1 >>= λ rs. some (r.0 ∷ rs.0, rs.1)
