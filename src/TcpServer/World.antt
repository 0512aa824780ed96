-- ===== src/TcpServer/World.antt =====
-- net/TcpServer.cpp with the connections, the pollers of their loops and the kernel: a connection from
-- `newConnection` to `removeConnection`. What stands in a loop's callbacks is one step.
use cpp_practise.Base.{
  ℕ, Bool, true, false, List, [], ◌∷◌, Option, none, some, ◌≡◌, ◌==◌, if◌then◌else◌, ◌>>=◌, length,
  ◌<◌, ◌+◌, ◌^◌,
}
use cpp_practise.Buffer.Socket.{Delivery, Fits, blocks}
use cpp_practise.Poller.{Closing, Interest, Epoll, Poller}
use cpp_practise.TcpConnection.{
  Written, send, handle_write, Connection, Callback, Call, call, on_close, Outcome, construct,
  established, destory, handle_read,
}
use cpp_practise.Buffer.Valid.{contents}
use cpp_practise.TcpConnection.Send.{Within}
use cpp_practise.EventLoopThreadPool.{EventLoopThreadPool, get_next_loop}
use cpp_practise.TcpServer.{given}

-- A connection and the number of its loop.
pub record Member (K : Type 0) : Type 0 where
  pub loop : ℕ
  pub conn : Connection K

-- The server, the pollers of all loops, and whether a step called the close callback that removes its
-- connection.
pub record World (K : Type 0) : Type 0 where
  pub pool : EventLoopThreadPool ℕ
  pub pollers : ℕ → Poller K
  pub members : ℕ → Option (Member K)
  pub is_set : Callback → Bool

abbrev pub update : {A : Type 0} → (ℕ → A) → ℕ → A → ℕ → A
update f i v j = if i == j then v else f j

abbrev pub ends : List Call → Bool
ends [] = false
ends (call on_close ∷ cs) = true
ends (c ∷ cs) = ends cs

module _ {K : Type 0} (epoll : Epoll K) (closing : Closing epoll) where
  abbrev pub enter : World K → EventLoopThreadPool ℕ → ℕ → ℕ → Outcome K → World K
  enter w pool loop fd o = record w {
    pool = pool;
    pollers = update w.pollers loop o.conn.poller;
    members = update w.members fd (some (record { loop = loop; conn = o.conn }));
  }

  -- `newConnection`
  unfoldable pub new_connection : (self mark : ℕ) → World K → ℕ → Option (World K)
  new_connection self mark w fd = get_next_loop w.pool >>= λ r.
      established epoll (construct self fd mark (w.pollers r.0) (given w.is_set)) >>= λ o.
      some (enter w r.1 r.0 fd o)

  -- The connection leaves the map and is destroyed, if nothing else holds it, and its socket is closed.
  abbrev pub remove : World K → ℕ → ℕ → Outcome K → World K
  remove w loop fd o = record w {
    pollers =
        update w.pollers loop
          (record o.conn.poller { kernel = closing.close fd o.conn.poller.kernel });
    members = update w.members fd none;
  }

  abbrev pub stay : World K → ℕ → ℕ → Outcome K → World K
  stay w loop fd o = record w {
    pollers = update w.pollers loop o.conn.poller;
    members = update w.members fd (some (record { loop = loop; conn = o.conn }));
  }

  unfoldable pub read_member : (List ℕ → Delivery) → World K → ℕ → Member K → Option (World K)
  read_member readv w fd m =
      handle_read epoll readv (record m.conn { poller = w.pollers m.loop }) >>= λ o.
      some (if ends o.calls then remove w m.loop fd o else stay w m.loop fd o)

  -- `handleRead` of the connection on a descriptor that is readable.
  unfoldable pub read_ready : (List ℕ → Delivery) → World K → ℕ → Option (World K)
  unfolding read_member
  read_ready readv w fd = w.members fd >>= λ m. read_member readv w fd m

  -- `send` of the connection on a descriptor, in the thread of its loop, and `handleWrite` once the
  -- descriptor takes bytes.
  unfoldable pub send_message : (List ℕ → Written) → World K → ℕ → List ℕ → Option (World K)
  send_message write w fd message = w.members fd >>= λ m.
      send epoll write (record m.conn { poller = w.pollers m.loop }) message >>= λ o.
      some (stay w m.loop fd o)

  unfoldable pub write_ready : (List ℕ → Written) → World K → ℕ → Option (World K)
  write_ready write w fd = w.members fd >>= λ m.
      handle_write epoll write (record m.conn { poller = w.pollers m.loop }) >>= λ o.
      some (stay w m.loop fd o)

  -- `~TcpServer`, with the descriptors of the map in its order. A connection is destroyed behind its
  -- `destory`, if nothing else holds it. `none`: a descriptor is not in the map, or a callback is not set.
  unfoldable pub destroy_member : World K → ℕ → Member K → Option (World K)
  destroy_member w fd m = destory epoll (record m.conn { poller = w.pollers m.loop }) >>= λ o.
      some (remove w m.loop fd o)

  unfoldable pub destroy_all : List ℕ → World K → Option (World K)
  unfolding destroy_member
  destroy_all [] w = some w
  destroy_all (fd ∷ fds) w =
      w.members fd >>= λ m. destroy_member w fd m >>= λ w'. destroy_all fds w'

  -- What happens: the kernel hands out a descriptor that has no connection, or one is readable, is
  -- sent a message or takes bytes. The high-water mark is off. `own` is what the loops watch for
  -- themselves, the acceptor's socket among it; none of it is handed out.
  pub data Step (own : ℕ → ℕ → Option Interest) (w : World K) : World K → Type 0 where
    comes :
        {w' : World K} (self mark fd : ℕ)
        → w.members fd ≡ none
        → ((loop : ℕ) → own loop fd ≡ none)
        → new_connection self mark w fd ≡ some w'
        → Step own w w'
    reads :
        {w' : World K} (readv : List ℕ → Delivery) (fd : ℕ) (m : Member K)
        → w.members fd ≡ some m
        → Fits m.conn.input (readv (blocks m.conn.input))
        → read_ready readv w fd ≡ some w'
        → Step own w w'
    sends :
        {w' : World K} (write : List ℕ → Written) (fd : ℕ) (m : Member K) (message : List ℕ)
        → w.members fd ≡ some m
        → m.conn.high_water_mark ≡ 0
        → m.conn.output.write_index + length message < 2 ^ 31
        → Within (write message) (length message)
        → send_message write w fd message ≡ some w'
        → Step own w w'
    writes :
        {w' : World K} (write : List ℕ → Written) (fd : ℕ) (m : Member K)
        → w.members fd ≡ some m
        → Within (write (contents m.conn.output)) (length (contents m.conn.output))
        → write_ready write w fd ≡ some w'
        → Step own w w'

  pub data Steps (own : ℕ → ℕ → Option Interest) (w : World K) : World K → Type 0 where
    begin : Steps own w w
    later : {w' w'' : World K} → Steps own w w' → Step own w' w'' → Steps own w w''
