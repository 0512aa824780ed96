-- ===== src/TcpServer/Leaving.antt =====
-- net/TcpServer.cpp: a connection that stays in the map behind a handler, or leaves it.
use mathlib.Core.Option.{some-injective}
use mathlib.Core.Path.{subst}
use cpp_practise.Base.{
  ℕ, Option, none, some, ◌≡◌, ◌≢◌, sym, ap, ◌∙◌, ◌==◌, Bool-cases, inl, inr, arith, if_true,
  if_false,
}
use cpp_practise.Poller.Writing.{IsWatched}
use cpp_practise.TcpConnection.Sound
use cpp_practise.TcpConnection.Frame.{Framed}
use cpp_practise.Poller.{Closing, Interest, Epoll, Poller}
use cpp_practise.Poller.Watch.{entry}
use cpp_practise.TcpConnection.{Outcome, on_connection, on_message, on_close}
use cpp_practise.TcpServer.World.{Member, World, remove, stay}
use cpp_practise.TcpServer.Open.{update_self, update_other, IsOpen, IsSound, after-IsSound, live}

module _ {K : Type 0} (epoll : Epoll K) (own : ℕ → ℕ → Option Interest)
    (closing : Closing epoll) where
  -- The connection goes on, watched as its channel says.
  pub stay_lem :
      (w : World K) (fd : ℕ) (m : Member K) (o : Outcome K)
      → IsSound epoll own w
      → IsOpen epoll own w fd m
      → Framed epoll (live epoll own w m) o.conn
      → Sound.IsSound epoll o.conn
      → IsSound epoll own (stay epoll closing w m.loop fd o)
  stay_lem w fd m o s h f c =
      let next : Member K = record { loop = m.loop; conn = o.conn } in
      let w' : World K = stay epoll closing w m.loop fd o in
      after-IsSound epoll own w m.loop fd o.conn.poller (some next) w.pool
        (λ k ne. f.others k (λ e. ne (sym h.same_fd ∙ e))) s s.pool
        (λ n e.
          subst (λ x. IsOpen epoll own w' fd x) (some-injective _ _ e)
            (record {
              same_fd = f.same_fd ∙ h.same_fd;
              state = f.state ∙ h.state;
              input = f.input h.input;
              output = c.valid;
              waiting = c.waiting;
              callbacks = record {
                connection = ap (λ g. g on_connection) f.is_set ∙ h.callbacks.connection;
                message = ap (λ g. g on_message) f.is_set ∙ h.callbacks.message;
                close = ap (λ g. g on_close) f.is_set ∙ h.callbacks.close;
              };
              watched =
                  subst (λ p. IsWatched epoll p o.conn.channel)
                    (sym (update_self w.pollers m.loop o.conn.poller)) f.watched;
              elsewhere = λ i ne.
                  ap (λ x. entry epoll x fd) (update_other w.pollers m.loop i o.conn.poller ne)
                  ∙ h.elsewhere i ne;
              apart = h.apart;
            }))
        (λ no. absurd (cc))

  -- The connection leaves the map, and the kernel forgets its descriptor.
  pub remove_lem :
      (w : World K) (fd : ℕ) (m : Member K) (o : Outcome K)
      → IsSound epoll own w
      → IsOpen epoll own w fd m
      → ((k : ℕ) → fd ≢ k → entry epoll o.conn.poller k ≡ entry epoll (w.pollers m.loop) k)
      → IsSound epoll own (remove epoll closing w m.loop fd o)
  remove_lem w fd m o s h same =
      let left : Poller K = record o.conn.poller {
        kernel = closing.close fd o.conn.poller.kernel;
      } in
      after-IsSound epoll own w m.loop fd left none w.pool
        (λ k ne. closing.close_others o.conn.poller.kernel fd k ne ∙ same k ne) s s.pool
        (λ n e. absurd (cc))
        (λ _ i. elim (Bool-cases (m.loop == i)) [
          | inl here ↦
              ap (λ x. entry epoll x fd) (if_true left (w.pollers i) here)
              ∙ closing.interest-close o.conn.poller.kernel fd
              ∙ sym (h.apart i)
          | inr away ↦
              ap (λ x. entry epoll x fd) (if_false left (w.pollers i) away)
              ∙ h.elsewhere i (ground arith)
              ∙ sym (h.apart i)
        ])
