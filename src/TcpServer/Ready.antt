-- ===== src/TcpServer/Ready.antt =====
-- net/TcpServer.cpp: a connection of the server that is readable.
use mathlib.Core.Path.{subst}
use cpp_practise.Base.{
  ℕ, Bool, true, false, List, [], ◌∷◌, Option, none, some, ◌≡◌, refl, sym, ap, ◌∙◌, ◌==◌,
  Bool-cases, inl, inr, not, if_true, if_false, length,
}
use cpp_practise.Buffer.Valid.{IsValid, contents}
use cpp_practise.Poller.Writing.{IsWatched}
use cpp_practise.TcpConnection.Sound
use cpp_practise.TcpConnection.Frame.{Framed}
use cpp_practise.Buffer.Socket.{Delivery, delivered, failed, Fits, blocks}
use cpp_practise.Channel.{Channel, has_write}
use cpp_practise.Poller.{Closing, Interest, Epoll}
use cpp_practise.Poller.Watch.{IsSynced, entry}
use cpp_practise.TcpConnection.{Connection, State, Outcome}
use cpp_practise.TcpConnection.Close.{calls_for, state_after, channel_after, handle_read_lem}
use cpp_practise.TcpServer.World.{Member, World, ends, remove, stay, read_member, read_ready}
use cpp_practise.TcpServer.Open.{update_self, IsSound, live-IsSound}
use cpp_practise.TcpServer.Leaving.{stay_lem, remove_lem}

-- A delivery of no bytes is the peer's end.
abbrev pub peer_ends : Delivery → Bool
peer_ends (delivered []) = true
peer_ends (delivered (x ∷ xs)) = false
peer_ends (failed e) = false

abbrev pub is_member : {A : Type 0} → Option A → Bool
is_member none = false
is_member (some a) = true

module _ {K : Type 0} (epoll : Epoll K) (own : ℕ → ℕ → Option Interest)
    (closing : Closing epoll) where
  stays :
      (d : Delivery) (st : State) (ch : Channel)
      → peer_ends d ≡ false
      → (state_after d st ≡ st) × (channel_after d ch ≡ ch) × (ends (calls_for d) ≡ false)
  stays (failed e) st ch h = (refl, refl, refl)
  stays (delivered []) st ch h = absurd (cc)
  stays (delivered (x ∷ xs)) st ch h = (refl, refl, refl)

  leaves : (d : Delivery) → peer_ends d ≡ true → ends (calls_for d) ≡ true
  leaves (failed e) h = cc
  leaves (delivered []) h = refl
  leaves (delivered (x ∷ xs)) h = cc

  -- A handler that leaves the channel, the poller and the output buffer as they were.
  unchanged :
      (c : Connection K) (o : Outcome K)
      → Sound.IsSound epoll c
      → IsWatched epoll c.poller c.channel
      → IsValid o.conn.input
      → o.conn.output ≡ c.output
      → o.conn.poller ≡ c.poller
      → o.conn.state ≡ c.state
      → o.conn.channel ≡ c.channel
      → o.conn.is_set ≡ c.is_set
      → Framed epoll c o.conn × Sound.IsSound epoll o.conn
  unchanged c o s w v out p st ch set = (
    record {
      input = λ _. v;
      state = st;
      is_set = set;
      same_fd = ap (λ x. x.fd) ch;
      others = λ k ne. ap (λ x. entry epoll x k) p;
      watched =
          subst (λ x. IsWatched epoll x o.conn.channel) (sym p)
            (subst (IsWatched epoll c.poller) (sym ch) w);
    },
    record {
      valid = subst IsValid (sym out) s.valid;
      synced =
          subst (λ x. IsSynced epoll x o.conn.channel) (sym p)
            (subst (IsSynced epoll c.poller) (sym ch) s.synced);
      waiting = ap has_write ch ∙ s.waiting ∙ ap (λ b. not (length (contents b) == 0)) (sym out);
    },
  )

  -- A connection of the server is readable: its handler does not fault, and its bytes or its end leave the
  -- server sound. It stays in the map exactly if the peer has not closed.
  pub read_ready_lem :
      (readv : List ℕ → Delivery) (w : World K) (fd : ℕ) (m : Member K)
      → IsSound epoll own w
      → w.members fd ≡ some m
      → Fits m.conn.input (readv (blocks m.conn.input))
      → (w' : World K) × (read_ready epoll closing readv w fd ≡ some w')
        × IsSound epoll own w'
        × (is_member (w'.members fd) ≡ not (peer_ends (readv (blocks m.conn.input))))
  unfolding read_ready read_member
  read_ready_lem readv w fd m s e fits =
      let h = s.open_members fd m e in
      let c : Connection K = record m.conn { poller = w.pollers m.loop } in
      let (o, e', v, _, out, p, st, calls, _, ch, set) =
        handle_read_lem epoll {c = c} readv h.input
          (record {
            connection = h.callbacks.connection;
            message = h.callbacks.message;
            close = h.callbacks.close;
          })
          fits in
      let d = readv (blocks m.conn.input) in
      elim (Bool-cases (peer_ends d)) [
        | inl over ↦ (
          remove epoll closing w m.loop fd o,
          rw (e, e')
              (ap some
                (if_true (remove epoll closing w m.loop fd o) _ (ap ends calls ∙ leaves d over))),
          remove_lem epoll own closing w fd m o s h (λ k _. ap (λ x. entry epoll x k) p),
          ap is_member (update_self w.members fd none) ∙ ap not (sym over),
        )
        | inr on ↦
            (let (same_st, same_ch, more) = stays d m.conn.state m.conn.channel on in
              let (f, live_sound) =
                unchanged c o (live-IsSound epoll own w fd m h) h.watched v out p (st ∙ same_st)
                  (ch ∙ same_ch) set in
              (
                stay epoll closing w m.loop fd o,
                rw (e, e')
                    (ap some
                      (if_false _ (stay epoll closing w m.loop fd o) (ap ends calls ∙ more))),
                stay_lem epoll own closing w fd m o s h f live_sound,
                ap is_member
                      (update_self w.members fd (some (record { loop = m.loop; conn = o.conn })))
                    ∙ ap not (sym on),
              ))
      ]
