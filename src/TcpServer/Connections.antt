-- ===== src/TcpServer/Connections.antt =====
-- net/TcpServer.cpp: the descriptors that the map of connections holds after any events.
use cpp_practise.Base.{
  ℕ, Bool, true, false, List, [], ◌∷◌, Option, none, some, ◌≡◌, refl, ap, ◌∙◌, ◌==◌, if◌then◌else◌,
  inl, inr, Bool-cases,
}
use cpp_practise.EventLoopThreadPool.Round.{next_loop_lem, IsSound}
use cpp_practise.TcpServer.{
  TcpServer, Member, Event, incoming, ended, accepted, accept_failed, new_connection,
  remove_connection, put, serve, given,
}

-- Whether a descriptor has a connection after the events, if `b` tells it before them.
abbrev pub alive : ℕ → Bool → List Event → Bool
alive fd b [] = b
alive fd b (incoming (accepted g) ∷ es) = alive fd (if g == fd then true else b) es
alive fd b (incoming accept_failed ∷ es) = alive fd b es
alive fd b (ended g ∷ es) = alive fd (if g == fd then false else b) es

module _ {L : Type 0} where
  abbrev pub has : Option (Member L) → Bool
  has none = false
  has (some c) = true

  has-put :
      (f : ℕ → Option (Member L)) (i : ℕ) (v : Option (Member L)) (j : ℕ)
      → has (put f i v j) ≡ (if i == j then has v else has (f j))
  has-put f i v j = elim (Bool-cases (i == j)) [ inl e ↦ rw e | inr e ↦ rw e ]

  -- Any events, for a server whose pool is sound: nothing faults, the pool stays sound, and a descriptor
  -- is in the map exactly if its last connection came and did not end since, or it was in it at first.
  pub serve_lem :
      (es : List Event) (s : TcpServer L)
      → IsSound s.pool
      → (s' : TcpServer L) × (serve s es ≡ some s')
        × IsSound s'.pool
        × ((fd : ℕ) → has (s'.connections fd) ≡ alive fd (has (s.connections fd)) es)
  unfolding serve new_connection
  serve_lem [] s h = (s, refl, h, λ fd. refl)
  serve_lem (incoming accept_failed ∷ es) s h = serve_lem es s h
  serve_lem (incoming (accepted g) ∷ es) s h =
      let (x, p', e, h') = next_loop_lem s.pool h in
      let c : Member L = record { fd = g; loop = x; is_set = given s.is_set } in
      let (s', e', h'', same) =
        serve_lem es (record s { pool = p'; connections = put s.connections g (some c) }) h' in
      (
        s',
        rw e e',
        h'',
        λ fd. same fd ∙ ap (λ b. alive fd b es) (has-put s.connections g (some c) fd),
      )
  serve_lem (ended g ∷ es) s h =
      let (s', e', h', same) = serve_lem es (remove_connection s g) h in
      (s', e', h', λ fd. same fd ∙ ap (λ b. alive fd b es) (has-put s.connections g none fd))
