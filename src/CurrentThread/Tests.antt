-- ===== src/CurrentThread/Tests.antt =====
-- A thread with number 41.
use cpp_practise.Base.{codes, ◌≡◌, refl}
use cpp_practise.CurrentThread.{gettid, initial, thread_name}

tid_kept : (gettid 42 (gettid 41 initial).1).0 ≡ 41
unfolding gettid
tid_kept = refl

name_at_first : thread_name initial ≡ codes "unknow"
name_at_first = refl
