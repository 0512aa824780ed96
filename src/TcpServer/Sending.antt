-- ===== src/TcpServer/Sending.antt =====
-- net/TcpServer.cpp: a connection of the server that is sent a message, or takes bytes.
use cpp_practise.Base.{ℕ, List, Option, some, ◌≡◌, refl, inl, length, ◌+◌, ◌<◌, ◌^◌}
use cpp_practise.Buffer.Valid.{contents}
use cpp_practise.TcpConnection.Frame.{send_frame, handle_write_frame}
use cpp_practise.TcpConnection.Send.{Within, send_lem}
use cpp_practise.TcpConnection.Drain.{handle_write_lem}
use cpp_practise.Poller.{Closing, Interest, Epoll}
use cpp_practise.TcpConnection.{Written}
use cpp_practise.TcpServer.World.{Member, World, stay, send_message, write_ready}
use cpp_practise.TcpServer.Open.{IsSound, live, live-IsSound}
use cpp_practise.TcpServer.Leaving.{stay_lem}

module _ {K : Type 0} (epoll : Epoll K) (own : ℕ → ℕ → Option Interest)
    (closing : Closing epoll) where
  -- A message is sent to a connection of the server: nothing faults, and the server is left sound.
  pub send_message_lem :
      (write : List ℕ → Written) (w : World K) (fd : ℕ) (m : Member K) (message : List ℕ)
      → IsSound epoll own w
      → w.members fd ≡ some m
      → m.conn.high_water_mark ≡ 0
      → m.conn.output.write_index + length message < 2 ^ 31
      → Within (write message) (length message)
      → (w' : World K) × (send_message epoll closing write w fd message ≡ some w')
        × IsSound epoll own w'
  unfolding send_message
  send_message_lem write w fd m message s e mark small within =
      let h = s.open_members fd m e in
      let (o, e', c, _) =
        send_lem epoll {c = live epoll own w m} write message (live-IsSound epoll own w fd m h)
          (inl mark) small within in
      (
        stay epoll closing w m.loop fd o,
        rw (e, e') refl,
        stay_lem epoll own closing w fd m o s h
            (send_frame epoll write (live epoll own w m) message o h.watched e') c,
      )

  -- A connection of the server takes bytes again.
  pub write_ready_lem :
      (write : List ℕ → Written) (w : World K) (fd : ℕ) (m : Member K)
      → IsSound epoll own w
      → w.members fd ≡ some m
      → Within (write (contents m.conn.output)) (length (contents m.conn.output))
      → (w' : World K) × (write_ready epoll closing write w fd ≡ some w') × IsSound epoll own w'
  unfolding write_ready
  write_ready_lem write w fd m s e within =
      let h = s.open_members fd m e in
      let (o, e', c, _, _) =
        handle_write_lem epoll {c = live epoll own w m} write (live-IsSound epoll own w fd m h)
          within in
      (
        stay epoll closing w m.loop fd o,
        rw (e, e') refl,
        stay_lem epoll own closing w fd m o s h
            (handle_write_frame epoll write (live epoll own w m) o h.watched e') c,
      )
