-- ===== src/TcpConnection/Sound.antt =====
-- The invariant of a connection that is open: it watches for space exactly while bytes are waiting.
use cpp_practise.Base.{◌<◌, not, ◌≡◌, arith, length, ◌==◌, ◌∙◌, ap}
use cpp_practise.Buffer.Valid.{IsValid, contents, sizes, length-contents}
use cpp_practise.Channel.{has_write}
use cpp_practise.Poller.{Epoll}
use cpp_practise.Poller.Watch.{IsSynced}
use cpp_practise.Poller.Enable.{enable_writing_lem, disable_writing_lem}
use cpp_practise.TcpConnection.{Connection, pending, watch_writing, unwatch_writing}

pub pending-length :
    {K : Type 0} (c : Connection K) → IsValid c.output → pending c ≡ length (contents c.output)
pending-length c v = omega (arith, (sizes v).readable_size, length-contents v)

module _ {K : Type 0} (epoll : Epoll K) where
  pub record IsSound (c : Connection K) : Type 0 where
    pub valid : IsValid c.output
    pub synced : IsSynced epoll c.poller c.channel
    pub waiting : has_write c.channel ≡ not (length (contents c.output) == 0)

  -- Watching for space once bytes are waiting, and no longer once none are.
  pub watch_writing-IsSound :
      (c : Connection K)
      → IsValid c.output
      → IsSynced epoll c.poller c.channel
      → 0 < length (contents c.output)
      → IsSound (watch_writing epoll c)
  watch_writing-IsSound c v s h =
      let (k, e) = enable_writing_lem epoll c.poller c.channel s in
      record { valid = v; synced = k.synced; waiting = ap (λ ev. ev.writes) e ∙ ground arith }

  pub unwatch_writing-IsSound :
      (c : Connection K)
      → IsValid c.output
      → IsSynced epoll c.poller c.channel
      → length (contents c.output) ≡ 0
      → IsSound (unwatch_writing epoll c)
  unwatch_writing-IsSound c v s h =
      let (k, e) = disable_writing_lem epoll c.poller c.channel s in
      record { valid = v; synced = k.synced; waiting = ap (λ ev. ev.writes) e ∙ ground arith }
