-- ===== src/TcpServer/Open.antt =====
-- net/TcpServer.cpp: what holds of a connection in the map, and of the server.
use mathlib.Core.Path.{subst}
use cpp_practise.Base.{
  ℕ, true, Option, none, some, ◌≡◌, ◌≢◌, sym, ap, ◌∙◌, ◌==◌, ==_iff, Bool-cases, inl, inr, arith,
  not, length, if_true, if_false,
}
use cpp_practise.Buffer.Valid.{IsValid, contents}
use cpp_practise.Poller.Writing.{IsWatched, Entry-added}
use cpp_practise.TcpConnection.Sound
use cpp_practise.Channel.{has_write}
use cpp_practise.Poller.{Interest, Epoll, Poller}
use cpp_practise.Poller.Watch.{entry}
use cpp_practise.TcpConnection.{Connection, connected, on_connection, on_message}
use cpp_practise.TcpConnection.Close.{HasCallbacks}
use cpp_practise.EventLoopThreadPool.{EventLoopThreadPool}
use cpp_practise.EventLoopThreadPool.Round
use cpp_practise.EventLoopThreadPool.Round.{next_loop_lem}
use cpp_practise.TcpServer.World.{Member, World, update}

module _ {A : Type 0} where
  pub update_self : (f : ℕ → A) (i : ℕ) (v : A) → update f i v i ≡ v
  update_self f i v = ground arith

  pub update_other : (f : ℕ → A) (i j : ℕ) (v : A) → i ≢ j → update f i v j ≡ f j
  update_other f i j v h = ground arith

module _ {K : Type 0} (epoll : Epoll K) (own : ℕ → ℕ → Option Interest) where
  -- What holds of a connection in the map: it is connected, can be read from, and its own loop alone
  -- watches its descriptor, for reading, and for writing exactly while bytes wait to be sent, with the
  -- address of its channel.
  pub record IsOpen (w : World K) (fd : ℕ) (m : Member K) : Type 0 where
    pub same_fd : m.conn.channel.fd ≡ fd
    pub state : m.conn.state ≡ connected
    pub input : IsValid m.conn.input
    pub output : IsValid m.conn.output
    pub waiting : has_write m.conn.channel ≡ not (length (contents m.conn.output) == 0)
    pub callbacks : HasCallbacks K m.conn
    pub watched : IsWatched epoll (w.pollers m.loop) m.conn.channel
    pub elsewhere : (loop : ℕ) → m.loop ≢ loop → entry epoll (w.pollers loop) fd ≡ none
    pub apart : (loop : ℕ) → own loop fd ≡ none

  -- A descriptor without a connection is watched as the loops do for themselves, `own`.
  pub record IsSound (w : World K) : Type 0 where
    pub pool : Round.IsSound w.pool
    pub connection : w.is_set on_connection ≡ true
    pub message : w.is_set on_message ≡ true
    pub open_members : (fd : ℕ) (m : Member K) → w.members fd ≡ some m → IsOpen w fd m
    pub others :
        (fd : ℕ) → w.members fd ≡ none → (loop : ℕ) → entry epoll (w.pollers loop) fd ≡ own loop fd

  -- A poller that was changed at one descriptor only, put back for its loop.
  entry-update :
      (w : World K) (loop : ℕ) (p : Poller K) (fd j : ℕ)
      → fd ≢ j
      → ((k : ℕ) → fd ≢ k → entry epoll p k ≡ entry epoll (w.pollers loop) k)
      → (i : ℕ) → entry epoll (update w.pollers loop p i) j ≡ entry epoll (w.pollers i) j
  entry-update w loop p fd j ne same i = elim (Bool-cases (loop == i)) [
    | inl e ↦
        ap (λ x. entry epoll x j) (if_true p (w.pollers i) e)
        ∙ same j ne
        ∙ ap (λ k. entry epoll (w.pollers k) j) ((==_iff loop i).0 e)
    | inr e ↦ ap (λ x. entry epoll x j) (if_false p (w.pollers i) e)
  ]

  keep-IsOpen :
      (w w' : World K) (j : ℕ) (m : Member K)
      → ((i : ℕ) → entry epoll (w'.pollers i) j ≡ entry epoll (w.pollers i) j)
      → IsOpen w j m
      → IsOpen w' j m
  keep-IsOpen w w' j m same o = record {
    same_fd = o.same_fd;
    state = o.state;
    input = o.input;
    output = o.output;
    waiting = o.waiting;
    callbacks = o.callbacks;
    watched = record {
      is_added = o.watched.is_added;
      reads = o.watched.reads;
      watched =
          ap (entry epoll (w'.pollers m.loop)) o.same_fd
          ∙ same m.loop
          ∙ ap (entry epoll (w.pollers m.loop)) (sym o.same_fd)
          ∙ o.watched.watched;
    };
    elsewhere = λ loop ne. same loop ∙ o.elsewhere loop ne;
    apart = o.apart;
  }

  -- The connection itself, with the poller of its loop.
  abbrev pub live : World K → Member K → Connection K
  live w m = record m.conn { poller = w.pollers m.loop }

  pub live-IsSound :
      (w : World K) (fd : ℕ) (m : Member K) → IsOpen w fd m → Sound.IsSound epoll (live w m)
  live-IsSound w fd m o = record {
    valid = o.output;
    synced =
        Entry-added m.conn.channel.state m.conn.channel.events m.conn.channel.self
          o.watched.is_added o.watched.watched;
    waiting = o.waiting;
  }

  -- The world after a step at descriptor `fd`, in the loop `loop`: what holds of the others is kept.
  module _ (w : World K) (loop fd : ℕ) (p : Poller K) (v : Option (Member K))
      (pool : EventLoopThreadPool ℕ)
      (same : (k : ℕ) → fd ≢ k → entry epoll p k ≡ entry epoll (w.pollers loop) k) where
    abbrev pub after : World K
    after = record w {
      pool = pool;
      pollers = update w.pollers loop p;
      members = update w.members fd v;
    }

    pub after-IsSound :
        IsSound w
        → Round.IsSound pool
        → ((m : Member K) → v ≡ some m → IsOpen after fd m)
        → (v ≡ none → (i : ℕ) → entry epoll (after.pollers i) fd ≡ own i fd)
        → IsSound after
    after-IsSound s sound new_open new_closed = record {
      pool = sound;
      connection = s.connection;
      message = s.message;
      open_members = λ j m e. elim (Bool-cases (fd == j)) [
        | inl here ↦
            subst (λ k. IsOpen after k m) ((==_iff fd j).0 here)
              (new_open m (sym (if_true v (w.members j) here) ∙ e))
        | inr away ↦
            keep-IsOpen w after j m (entry-update w loop p fd j (ground arith) same)
              (s.open_members j m (sym (if_false v (w.members j) away) ∙ e))
      ];
      others = λ j e i. elim (Bool-cases (fd == j)) [
        | inl here ↦
            subst (λ k. entry epoll (after.pollers i) k ≡ own i k) ((==_iff fd j).0 here)
              (new_closed (sym (if_true v (w.members j) here) ∙ e) i)
        | inr away ↦
            entry-update w loop p fd j (ground arith) same i
            ∙ s.others j (sym (if_false v (w.members j) away) ∙ e) i
      ];
    }
