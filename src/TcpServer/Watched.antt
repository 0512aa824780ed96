-- ===== src/TcpServer/Watched.antt =====
-- net/TcpServer.cpp: the connections in the map and what the kernel watches.
use mathlib.Core.Option.{some-injective}
use mathlib.Core.Path.{subst}
use cpp_practise.Base.{ℕ, ◌+◌, ◌<◌, ◌^◌, length, List, Option, none, some, ◌≡◌, refl, sym, ap, ◌∙◌}
use cpp_practise.Buffer.Valid.{make-IsValid, contents}
use cpp_practise.Buffer
use cpp_practise.Buffer.Socket.{Delivery, Fits, blocks}
use cpp_practise.Poller.{Closing, Interest, Epoll, enable_reading}
use cpp_practise.Poller.Watch.{entry}
use cpp_practise.TcpConnection.{Connection, Written, connected, construct, with_channel}
use cpp_practise.TcpConnection.Close.{established-enable_reading}
use cpp_practise.EventLoopThreadPool.Round.{next_loop_lem}
use cpp_practise.TcpServer.{given}
use cpp_practise.TcpServer.World.{
  Member, World, update, new_connection, read_ready, send_message, write_ready, Step, comes, reads,
  sends, writes, Steps, begin, later,
}
use cpp_practise.TcpServer.Open.{update_self, update_other, IsOpen, IsSound, after, after-IsSound}
use cpp_practise.TcpServer.Ready.{read_ready_lem}
use cpp_practise.TcpServer.Sending.{send_message_lem, write_ready_lem}
use cpp_practise.Poller.Writing.{IsWatched, enable_reading-IsWatched}
use cpp_practise.TcpConnection.Send.{Within}

module _ {K : Type 0} (epoll : Epoll K) (own : ℕ → ℕ → Option Interest)
    (closing : Closing epoll) where
  pub new_connection_lem :
      (self mark fd : ℕ) (w : World K)
      → IsSound epoll own w
      → w.members fd ≡ none
      → ((loop : ℕ) → own loop fd ≡ none)
      → (w' : World K) × (new_connection epoll closing self mark w fd ≡ some w')
        × IsSound epoll own w'
        × ((m : Member K) × (w'.members ≡ update w.members fd (some m)))
  unfolding new_connection Buffer.make
  new_connection_lem self mark fd w s free apart =
      let (loop, pool', e, s') = next_loop_lem w.pool s.pool in
      let c : Connection K = construct self fd mark (w.pollers loop) (given w.is_set) in
      let (k, events) =
        enable_reading-IsWatched epoll c.poller c.channel refl
          (s.others fd free loop ∙ apart loop) in
      let done = established-enable_reading epoll c s.connection in
      let entered : Connection K =
        record (with_channel c (enable_reading epoll c.poller c.channel)) { state = connected } in
      let w' : World K =
        after epoll own w loop fd entered.poller (some (record { loop = loop; conn = entered }))
          pool' (λ j ne. k.others j ne) in
      (
        w',
        rw (e, done) refl,
        after-IsSound epoll own w loop fd entered.poller
            (some (record { loop = loop; conn = entered })) pool' (λ j ne. k.others j ne) s s'
            (λ m e.
              subst (λ x. IsOpen epoll own w' fd x) (some-injective _ _ e)
                (record {
                  same_fd = k.same_fd;
                  state = refl;
                  input = make-IsValid Buffer.initial_size;
                  output = make-IsValid Buffer.initial_size;
                  waiting = ap (λ x. x.writes) events;
                  callbacks = record {
                    connection = s.connection;
                    message = s.message;
                    close = refl;
                  };
                  watched =
                      subst (λ x. IsWatched epoll x entered.channel)
                        (sym (update_self w.pollers loop entered.poller)) k.after;
                  elsewhere = λ i ne.
                      ap (λ x. entry epoll x fd) (update_other w.pollers loop i entered.poller ne)
                      ∙ s.others fd free i
                      ∙ apart i;
                  apart = apart;
                }))
            (λ no. absurd (cc)),
        (record { loop = loop; conn = entered }, refl),
      )

  step_lem :
      (w w' : World K) → IsSound epoll own w → Step epoll closing own w w' → IsSound epoll own w'
  step_lem w w' s (comes self mark fd free apart e) =
      let (w'', e', s', _) = new_connection_lem self mark fd w s free apart in
      subst (λ x. IsSound epoll own x) (some-injective _ _ (sym e' ∙ e)) s'
  step_lem w w' s (reads readv fd m there fits e) =
      let (w'', e', s', _) = read_ready_lem epoll own closing readv w fd m s there fits in
      subst (λ x. IsSound epoll own x) (some-injective _ _ (sym e' ∙ e)) s'
  step_lem w w' s (sends write fd m message there mark small within e) =
      let (w'', e', s') =
        send_message_lem epoll own closing write w fd m message s there mark small within in
      subst (λ x. IsSound epoll own x) (some-injective _ _ (sym e' ∙ e)) s'
  step_lem w w' s (writes write fd m there within e) =
      let (w'', e', s') = write_ready_lem epoll own closing write w fd m s there within in
      subst (λ x. IsSound epoll own x) (some-injective _ _ (sym e' ∙ e)) s'

  steps_lem :
      (w w' : World K) → IsSound epoll own w → Steps epoll closing own w w' → IsSound epoll own w'
  steps_lem w _ s begin = s
  steps_lem w _ s (later {w' = w1} {w'' = w2} r p) = step_lem w1 w2 (steps_lem w w1 s r) p

  -- From a sound server, in any order: connections that come on a descriptor that has none and that no
  -- loop watches for itself, connections
  -- that are readable or take bytes, and messages that are sent to connections, with any outcome of `readv`
  -- and `write`, high-water marks that are off and buffers whose indices stay an `int`. In every state that is
  -- reached each connection in the map is connected, and the poller of its own loop, and no other, watches its
  -- descriptor, for reading, and for writing exactly while bytes wait to be sent, with the address of
  -- its channel; a descriptor that is not in the map is watched as the loops do for themselves, `own`. In such a state none of those
  -- events faults.
  pub watched_lem :
      (w w' : World K)
      → IsSound epoll own w
      → Steps epoll closing own w w'
      → IsSound epoll own w'
        × ((self mark fd : ℕ)
            → w'.members fd ≡ none
            → ((loop : ℕ) → own loop fd ≡ none)
            → (w'' : World K) × (new_connection epoll closing self mark w' fd ≡ some w''))
        × ((readv : List ℕ → Delivery) (fd : ℕ) (m : Member K)
            → w'.members fd ≡ some m
            → Fits m.conn.input (readv (blocks m.conn.input))
            → (w'' : World K) × (read_ready epoll closing readv w' fd ≡ some w''))
        × ((write : List ℕ → Written) (fd : ℕ) (m : Member K) (message : List ℕ)
            → w'.members fd ≡ some m
            → m.conn.high_water_mark ≡ 0
            → m.conn.output.write_index + length message < 2 ^ 31
            → Within (write message) (length message)
            → (w'' : World K) × (send_message epoll closing write w' fd message ≡ some w''))
        × ((write : List ℕ → Written) (fd : ℕ) (m : Member K)
            → w'.members fd ≡ some m
            → Within (write (contents m.conn.output)) (length (contents m.conn.output))
            → (w'' : World K) × (write_ready epoll closing write w' fd ≡ some w''))
  watched_lem w w' s r =
      let s' = steps_lem w w' s r in
      (
        s',
        λ self mark fd free apart.
            (let (w'', e, _, _) = new_connection_lem self mark fd w' s' free apart in (w'', e)),
        λ readv fd m there fits.
            (let (w'', e, _, _) = read_ready_lem epoll own closing readv w' fd m s' there fits in
              (w'', e)),
        λ write fd m message there mark small within.
            (let (w'', e, _) =
                send_message_lem epoll own closing write w' fd m message s' there mark small
                  within in
              (w'', e)),
        λ write fd m there within.
            (let (w'', e, _) = write_ready_lem epoll own closing write w' fd m s' there within in
              (w'', e)),
      )
