-- ===== src/Thread/Life.antt =====
-- base/Thread.cpp and its users' destructors: what the end of a thread calls.
use cpp_practise.Base.{if_false, true, false, none, some, ◌≡◌, refl}
use cpp_practise.Thread.{Pthread, Thread, start, join, destroy}

module _ {H : Type 0} (api : Pthread H) where
  -- A thread that was started: its destructor alone detaches it, and so does `join` alone join it. After a
  -- `join` the destructor still calls `pthread_detach`, which is undefined behaviour, whatever else the
  -- thread's fields hold. A thread that was not started may be destroyed.
  pub destroy_lem :
      (t : Thread H)
      → ((t' : Thread H) × (destroy api (start api true t).0 ≡ some t'))
        × ((t' : Thread H) × (join api (start api true t).0 ≡ some t')
            × (t'.is_running ≡ true)
            × (destroy api t' ≡ none)
            × (join api t' ≡ none))
        × (t.is_running ≡ false → destroy api t ≡ some t)
        × (destroy api (start api false t).0 ≡ some (start api false t).0)
  unfolding start join destroy
  destroy_lem t =
      let (j, je, jj, jd) = api.joins in
      let (d, de, _, _) = api.detaches in
      (
        (record t { is_running = true; handle = some d }, rw de refl),
        (record t { is_running = true; handle = some j }, rw je refl, refl, rw jd refl, rw jj refl),
        λ off. if_false _ (some t) off,
        refl,
      )
