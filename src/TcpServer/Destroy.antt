-- ===== src/TcpServer/Destroy.antt =====
-- net/TcpServer.cpp: the destructor of the server.
use mathlib.Core.Path.{subst}
use cpp_practise.Base.{ℕ, List, [], ◌∷◌, Option, none, some, ◌≡◌, refl, sym, ◌∙◌}
use cpp_practise.Poller.{Closing, Interest, Epoll}
use cpp_practise.Poller.Watch.{entry}
use cpp_practise.TcpConnection.Close.{destory_lem}
use cpp_practise.TcpServer.World.{Member, World, update, remove, destroy_member, destroy_all}
use cpp_practise.TcpServer.Open.{IsSound, live, live-IsSound}
use cpp_practise.TcpServer.Leaving.{remove_lem}

-- The descriptors of a map, each once.
abbrev pub Lists : {A : Type 0} → List ℕ → (ℕ → Option A) → Type 0
Lists [] f = (fd : ℕ) → f fd ≡ none
Lists {A = A} (fd ∷ fds) f = ((a : A) × (f fd ≡ some a)) × Lists fds (update f fd none)

module _ {K : Type 0} (epoll : Epoll K) (own : ℕ → ℕ → Option Interest)
    (closing : Closing epoll) where
  destroy_member_lem :
      (w : World K) (fd : ℕ) (m : Member K)
      → IsSound epoll own w
      → w.members fd ≡ some m
      → (w' : World K) × (destroy_member epoll closing w fd m ≡ some w')
        × IsSound epoll own w'
        × (w'.members ≡ update w.members fd none)
  unfolding destroy_member
  destroy_member_lem w fd m s e =
      let h = s.open_members fd m e in
      let (o, e', _, _, _, _, others) =
        destory_lem epoll (live epoll own w m) (live-IsSound epoll own w fd m h).synced
          h.callbacks.connection in
      (
        remove epoll closing w m.loop fd o,
        rw e' refl,
        remove_lem epoll own closing w fd m o s h
            (λ k ne. others k (λ same. ne (sym h.same_fd ∙ same))),
        refl,
      )

  -- The destructor of a server whose connections are watched by their loops, with the descriptors of its map,
  -- each once: no connection's `destory` faults, and in the end the map is empty and each loop watches what it
  -- does for itself.
  pub destroy_all_lem :
      (fds : List ℕ) (w : World K)
      → IsSound epoll own w
      → Lists fds w.members
      → (w' : World K) × (destroy_all epoll closing fds w ≡ some w')
        × ((fd : ℕ) → w'.members fd ≡ none)
        × ((fd loop : ℕ) → entry epoll (w'.pollers loop) fd ≡ own loop fd)
  unfolding destroy_all
  destroy_all_lem [] w s l = (w, refl, l, λ fd loop. s.others fd (l fd) loop)
  destroy_all_lem (fd ∷ fds) w s ((m, e), l) =
      let (w1, e1, s1, left) = destroy_member_lem w fd m s e in
      let (w2, e2, none_left, unwatched) =
        destroy_all_lem fds w1 s1 (subst (λ f. Lists fds f) (sym left) l) in
      (w2, rw (e, e1) e2, none_left, unwatched)
