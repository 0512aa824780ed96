-- ===== src/CurrentThread.antt =====
-- base/CurrentThread.h and base/Exception.h: what a thread knows of itself, and an exception with its trace.
mod Tests
use cpp_practise.Base.{
  codes, ℕ, ◌<◌, Bool, List, Option, ◌≡◌, refl, ◌==◌, if◌then◌else◌, if_false, arith,
}
use cpp_practise.StackTrace.{stack_trace}

-- `t_catchedTid` and `t_threadName` of a thread.
pub record Locals : Type 0 where
  pub catched_tid : ℕ
  pub thread_name : List ℕ

abbrev pub initial : Locals
initial = record { catched_tid = 0; thread_name = codes "unknow" }

-- `gettid`; the first argument is what the system call answers.
unfoldable pub gettid : ℕ → Locals → ℕ × Locals
gettid answer l =
    if l.catched_tid == 0 then (answer, record l { catched_tid = answer }) else (l.catched_tid, l)

abbrev pub thread_name : Locals → List ℕ
thread_name l = l.thread_name

-- `Exception`
pub record Exception : Type 0 where
  pub msg : List ℕ
  pub stack : List ℕ

abbrev pub make_exception : (List ℕ → Option (List ℕ)) → Option (List (List ℕ)) → List ℕ → Exception
make_exception demangle symbols msg = record { msg = msg; stack = stack_trace demangle symbols }

-- Numbers of threads are above zero: the first call asks the system, and every later one gives that answer,
-- whatever the system would say, and leaves the name as it is.
pub gettid_lem :
    (tid answer : ℕ) (l : Locals)
    → 0 < tid
    → l.catched_tid ≡ 0
    → ((gettid tid l).0 ≡ tid)
      × (gettid answer (gettid tid l).1 ≡ (tid, (gettid tid l).1))
      × ((gettid tid l).1.thread_name ≡ l.thread_name)
unfolding gettid
gettid_lem tid answer l some_tid none_yet = (ground arith, ground arith, ground arith)
