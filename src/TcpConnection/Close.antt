-- ===== src/TcpConnection/Close.antt =====
-- Reading from the peer, and the beginning and end of a connection.
use cpp_practise.Base.{
  ℕ, Bool, true, false, List, [], ◌∷◌, ◌++◌, none, some, ◌≡◌, ◌≢◌, refl, ◌∙◌, ap,
}
use cpp_practise.Buffer.Valid.{IsValid, contents}
use cpp_practise.Buffer.Socket.{
  Delivery, failed, delivered, blocks, bytes, Fits, count, read_from_fd_lem,
}
use cpp_practise.Channel.{Channel, reading_on, disable_all, no_events}
use cpp_practise.Poller.{Epoll, enable_reading, remove_channel}
use cpp_practise.Poller.Watch.{IsSynced, entry, updated, remove_channel_lem}
use cpp_practise.Poller.Enable.{enable_reading_lem}
use cpp_practise.TcpConnection.{
  Connection, State, connected, disconnected, on_connection, on_message, on_close, Call, call,
  Outcome, quiet, call_all, handle_close, after_read, handle_read, established, destory,
  with_channel,
}

-- The callbacks that `TcpServer` sets are set.
pub record HasCallbacks (K : Type 0) (c : Connection K) : Type 0 where
  pub connection : c.is_set on_connection ≡ true
  pub message : c.is_set on_message ≡ true
  pub close : c.is_set on_close ≡ true

-- What a delivery makes `handleRead` call, and the state that it leaves: no byte is the peer's end.
abbrev pub calls_for : Delivery → List Call
calls_for (failed e) = []
calls_for (delivered []) = call on_connection ∷ call on_close ∷ []
calls_for (delivered (x ∷ xs)) = call on_message ∷ []

abbrev pub state_after : Delivery → State → State
state_after (delivered []) s = disconnected
state_after (delivered (x ∷ xs)) s = s
state_after (failed e) s = s

abbrev pub channel_after : Delivery → Channel → Channel
channel_after (delivered []) c = disable_all c
channel_after (delivered (x ∷ xs)) c = c
channel_after (failed e) c = c

abbrev pub is_failure : Delivery → Bool
is_failure (failed e) = true
is_failure (delivered d) = false

module _ {K : Type 0} (epoll : Epoll K) where
  after_read_lem :
      (c : Connection K) (r : Delivery)
      → HasCallbacks K c
      → (o : Outcome K) × (after_read epoll c (count r) ≡ some o)
        × (o.conn.input ≡ c.input)
        × (o.conn.output ≡ c.output)
        × (o.conn.poller ≡ c.poller)
        × (o.conn.state ≡ state_after r c.state)
        × (o.calls ≡ calls_for r)
        × (o.logged ≡ is_failure r)
        × (o.conn.channel ≡ channel_after r c.channel)
        × (o.conn.is_set ≡ c.is_set)
  unfolding after_read handle_close call_all
  after_read_lem c (failed e) h = (
    record { conn = c; calls = []; sent = []; logged = true },
    refl,
    refl,
    refl,
    refl,
    refl,
    refl,
    refl,
    refl,
    refl,
  )
  after_read_lem c (delivered []) h = (
    quiet (record c { channel = disable_all c.channel; state = disconnected })
        (call on_connection ∷ call on_close ∷ []),
    rw (h.connection, h.close),
    refl,
    refl,
    refl,
    refl,
    refl,
    refl,
    refl,
    refl,
  )
  after_read_lem c (delivered (x ∷ xs)) h =
      (quiet c (call on_message ∷ []), rw h.message, refl, refl, refl, refl, refl, refl, refl, refl)

  -- `handleRead` with the callbacks set, for every outcome of `readv` within the blocks that it is given:
  -- it does not fault. The bytes delivered stand behind those held before. If there are any, the message
  -- callback is called, and the state stays. If there is none, the peer has closed: the state becomes
  -- disconnected, and the connection callback and then the close callback are called. A failure is
  -- logged, and nothing is called. The bytes waiting to be sent, the poller and the callbacks are left as
  -- they are, and the channel too but for the end, which turns off its events.
  pub handle_read_lem :
      {c : Connection K} (readv : List ℕ → Delivery)
      → IsValid c.input
      → HasCallbacks K c
      → Fits c.input (readv (blocks c.input))
      → (o : Outcome K) × (handle_read epoll readv c ≡ some o)
        × IsValid o.conn.input
        × (contents o.conn.input ≡ contents c.input ++ bytes (readv (blocks c.input)))
        × (o.conn.output ≡ c.output)
        × (o.conn.poller ≡ c.poller)
        × (o.conn.state ≡ state_after (readv (blocks c.input)) c.state)
        × (o.calls ≡ calls_for (readv (blocks c.input)))
        × (o.logged ≡ is_failure (readv (blocks c.input)))
        × (o.conn.channel ≡ channel_after (readv (blocks c.input)) c.channel)
        × (o.conn.is_set ≡ c.is_set)
  unfolding handle_read
  handle_read_lem {c} readv v h f =
      let (b, e, v', held) = read_from_fd_lem readv v f in
      let (o, e', i, out, p, s, k, l, ch, set) =
        after_read_lem (record c { input = b }) (readv (blocks c.input))
          (record { connection = h.connection; message = h.message; close = h.close }) in
      (o, rw e e', rw i v', rw i held, out, p, s, k, l, ch, set)

  -- `destory`, on a connection whose channel's state tells whether it is watched and whose connection
  -- callback is set, does not fault: the state becomes disconnected, that callback alone is called, no
  -- call of `epoll_ctl` fails, and the kernel watches the descriptor no longer, and the others as before.
  pub destory_lem :
      (c : Connection K)
      → IsSynced epoll c.poller c.channel
      → c.is_set on_connection ≡ true
      → (o : Outcome K) × (destory epoll c ≡ some o)
        × (o.conn.state ≡ disconnected)
        × (o.calls ≡ call on_connection ∷ [])
        × (entry epoll o.conn.poller c.channel.fd ≡ none)
        × (o.conn.poller.failures ≡ c.poller.failures)
        × ((fd : ℕ) → c.channel.fd ≢ fd → entry epoll o.conn.poller fd ≡ entry epoll c.poller fd)
  unfolding destory call_all
  destory_lem c s h =
      let off = disable_all c.channel in
      let (k, gone, _, _) = remove_channel_lem epoll c.poller off s in
      (
        quiet
            (with_channel (record c { channel = off; state = disconnected })
              (remove_channel epoll c.poller off))
            (call on_connection ∷ []),
        rw h,
        refl,
        refl,
        gone,
        k.no_failure,
        k.others,
      )

  -- `established`, on such a connection that is not watched yet, does not fault: the state becomes
  -- connected, the connection callback alone is called, no call of `epoll_ctl` fails, and the kernel
  -- watches the descriptor for reading and for what was enabled before.
  pub established_lem :
      (c : Connection K)
      → c.channel.state ≡ cpp_practise.Channel.new
      → IsSynced epoll c.poller c.channel
      → c.is_set on_connection ≡ true
      → (o : Outcome K) × (established epoll c ≡ some o)
        × (o.conn.state ≡ connected)
        × (o.calls ≡ call on_connection ∷ [])
        × (entry epoll o.conn.poller c.channel.fd
            ≡ some (record { events = (reading_on c.channel).events; ptr = c.channel.self }))
        × (o.conn.poller.failures ≡ c.poller.failures)
  unfolding established call_all
  established_lem c fresh s h =
      let (k, there) = enable_reading_lem epoll c.poller c.channel s in
      (
        quiet
            (record (with_channel c (enable_reading epoll c.poller c.channel)) {
              state = connected;
            })
            (call on_connection ∷ []),
        rw h,
        refl,
        refl,
        there ∙ ap (λ st. updated st (reading_on c.channel)) fresh,
        k.no_failure,
      )

  -- `established`, by the operation of the channel that it calls.
  pub established-enable_reading :
      (c : Connection K)
      → c.is_set on_connection ≡ true
      → established epoll c
        ≡ some (
            quiet
              (record (with_channel c (enable_reading epoll c.poller c.channel)) {
                state = connected;
              })
              (call on_connection ∷ []))
  unfolding established call_all
  established-enable_reading c h = rw h
