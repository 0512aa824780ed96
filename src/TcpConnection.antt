-- ===== src/TcpConnection.antt =====
-- net/TcpConnection.h and net/TcpConnection.cpp: sending, the handlers of a connection's events, and
-- its beginning and end. The callbacks that the user sets are logged, not run; the system calls are
-- arguments. `none` is a fault: an access outside a buffer, or a call of an empty `std::function`.
pub mod Sound
pub mod Send
pub mod Drain
pub mod Stream
pub mod Close
pub mod Frame
pub mod Link
mod Tests
use mathlib.Core.Option
use cpp_practise.Base.{
  ℕ, zero, suc, ◌+◌, ◌-◌, Bool, true, false, not, ◌&&◌, List, [], ◌∷◌, ◌++◌, Option, none, some,
  if◌then◌else◌, ltb, ◌==◌, length, take, drop, ◌>>=◌, load, to_size, add_size,
}
use cpp_practise.Buffer
use cpp_practise.Channel
use cpp_practise.Buffer.{Buffer, initial_size, append, retrieve, readable_bytes}
use cpp_practise.Buffer.Socket.{Delivery, Reading, read_from_fd}
use cpp_practise.Channel.{Channel, has_write, disable_all}
use cpp_practise.Poller.{
  Epoll, Poller, enable_reading, enable_writing, disable_writing, remove_channel,
}

pub data State : Type 0 where
  connected disconnected : State

-- The callbacks that may be set, and a call of one.
pub data Callback : Type 0 where
  on_connection on_message on_write_complete on_high_water_mark on_close : Callback

pub data Call : Type 0 where
  call : Callback → Call
  call_high_water_mark : ℕ → Call

-- What `write` returns: the number of bytes taken, or an `errno`.
pub data Written : Type 0 where
  wrote : ℕ → Written
  write_failed : ℕ → Written

-- The connection, with its channel and the poller of its loop.
pub record Connection (K : Type 0) : Type 0 where
  pub input : Buffer
  pub output : Buffer
  pub channel : Channel
  pub poller : Poller K
  pub high_water_mark : ℕ
  pub state : State
  pub is_set : Callback → Bool

-- What an operation leaves: the connection, the callbacks called in order, the bytes that `write` took,
-- and whether an error was logged.
pub record Outcome (K : Type 0) : Type 0 where
  pub conn : Connection K
  pub calls : List Call
  pub sent : List ℕ
  pub logged : Bool

-- An operation that did nothing but call back.
abbrev pub quiet : {K : Type 0} → Connection K → List Call → Outcome K
quiet c calls = record { conn = c; calls = calls; sent = []; logged = false }

-- The channel with the three callbacks that the constructor sets.
abbrev handled : Channel.Callback → Bool
handled Channel.on_read = true
handled Channel.on_write = true
handled Channel.on_close = true
handled Channel.on_error = false

-- `TcpConnection::TcpConnection` on a descriptor, and then the callbacks `is_set`. `mark` is what
-- `_highWaterMark`, which is not set, holds; `self` is the address of the channel.
abbrev pub construct : {K : Type 0} → ℕ → ℕ → ℕ → Poller K → (Callback → Bool) → Connection K
construct self fd mark poller is_set = record {
  input = Buffer.make initial_size;
  output = Buffer.make initial_size;
  channel = record (Channel.make self fd) { is_set = handled };
  poller = poller;
  high_water_mark = mark;
  state = disconnected;
  is_set = is_set;
}

-- The setters of the callbacks, one for each, and the callbacks that are set then.
abbrev pub is_now : Callback → (Callback → Bool) → Callback → Bool
is_now on_connection f on_connection = true
is_now on_message f on_message = true
is_now on_write_complete f on_write_complete = true
is_now on_high_water_mark f on_high_water_mark = true
is_now on_close f on_close = true
is_now _ f k = f k

abbrev pub set_callback : {K : Type 0} → Callback → Connection K → Connection K
set_callback k c = record c { is_set = is_now k c.is_set }

abbrev pub is_connected : {K : Type 0} → Connection K → Bool
is_connected c = elim c.state [ connected ↦ true | disconnected ↦ false ]

-- The number of bytes left to send.
abbrev pub pending : {K : Type 0} → Connection K → ℕ
pending c = to_size (readable_bytes c.output)

abbrev pub with_channel : {K : Type 0} → Connection K → Poller K × Channel → Connection K
with_channel c (p, ch) = record c { poller = p; channel = ch }

module _ {K : Type 0} (epoll : Epoll K) where
  abbrev pub watch_writing : Connection K → Connection K
  watch_writing c = with_channel c (enable_writing epoll c.poller c.channel)

  abbrev pub unwatch_writing : Connection K → Connection K
  unwatch_writing c = with_channel c (disable_writing epoll c.poller c.channel)

  -- The call of `_highWaterMarkCallback`, if it is due: it faults if the callback is empty.
  high_water_calls : Connection K → ℕ → Option (List Call)
  high_water_calls c remain =
      if ltb c.high_water_mark (add_size (pending c) remain) && not (c.high_water_mark == 0)
      then if c.is_set on_high_water_mark
        then some (call_high_water_mark (add_size (pending c) remain) ∷ [])
        else none
      else some []

  -- The second half of `send`: `rest` goes to the output buffer, if there is any.
  keep_rest : Connection K → List ℕ → Option (Connection K × List Call)
  unfolding high_water_calls
  keep_rest c [] = some (c, [])
  keep_rest c (x ∷ xs) = high_water_calls c (length (x ∷ xs)) >>= λ calls.
      append c.output (x ∷ xs) >>= λ b. some (
        (if has_write c.channel
            then record c { output = b }
            else watch_writing (record c { output = b })),
        calls,
      )

  -- What follows a call of `write` that took `n` bytes, or failed. A failure leaves `remain` at 0: no
  -- byte of the message is kept, whatever the `errno`.
  after_write : Connection K → List ℕ → Written → Option (Outcome K)
  unfolding keep_rest
  after_write c message (write_failed e) = some (quiet c [])
  after_write c message (wrote n) =
      let done =
        if length message == n && c.is_set on_write_complete
        then call on_write_complete ∷ []
        else [] in
      Option.map
        (λ r. record { conn = r.0; calls = done ++ r.1; sent = take n message; logged = false })
        (keep_rest c (drop n message))

  -- The test of `send`.
  writes_at_once : Connection K → Bool
  writes_at_once c = not (has_write c.channel) && (pending c == 0)

  -- `TcpConnection::send`. While bytes are waiting, or the channel watches for space, `write` is not
  -- tried and `remain` stays 0.
  pub send : (List ℕ → Written) → Connection K → List ℕ → Option (Outcome K)
  unfolding after_write writes_at_once
  send write c message =
      if writes_at_once c then after_write c message (write message) else some (quiet c [])

  -- What `handleWrite` does once `n` bytes were taken.
  after_drain : Connection K → List ℕ → Written → Outcome K
  after_drain c bytes (write_failed e) = record { conn = c; calls = []; sent = []; logged = true }
  after_drain c bytes (wrote zero) = record { conn = c; calls = []; sent = []; logged = true }
  after_drain c bytes (wrote (suc n)) =
      let c' = record c { output = retrieve c.output (suc n) } in
      if pending c' == 0
      then record {
        conn = unwatch_writing c';
        calls = if c.is_set on_write_complete then call on_write_complete ∷ [] else [];
        sent = take (suc n) bytes;
        logged = false;
      }
      else record { conn = c'; calls = []; sent = take (suc n) bytes; logged = false }

  -- `TcpConnection::handleWrite`
  pub handle_write : (List ℕ → Written) → Connection K → Option (Outcome K)
  unfolding after_drain load
  handle_write write c =
      if has_write c.channel
      then Option.map (λ bytes. after_drain c bytes (write bytes))
          (load c.output.storage (to_size c.output.read_index) (pending c))
      else some (quiet c [])

  -- Calls of callbacks that the source makes without a test.
  call_all : Connection K → List Callback → Option (List Call)
  call_all c [] = some []
  call_all c (k ∷ ks) = if c.is_set k then Option.map (◌∷◌ (call k)) (call_all c ks) else none

  -- `TcpConnection::handleClose`: the kernel is not told that nothing is watched any more.
  pub handle_close : Connection K → Option (Outcome K)
  unfolding call_all
  handle_close c =
      let c' = record c { channel = disable_all c.channel; state = disconnected } in
      Option.map (quiet c') (call_all c' (on_connection ∷ on_close ∷ []))

  after_read : Connection K → Option ℕ → Option (Outcome K)
  unfolding handle_close
  after_read c none = some (record { conn = c; calls = []; sent = []; logged = true })
  after_read c (some zero) = handle_close c
  after_read c (some (suc n)) = Option.map (quiet c) (call_all c (on_message ∷ []))

  -- `TcpConnection::handleRead`
  pub handle_read : (List ℕ → Delivery) → Connection K → Option (Outcome K)
  unfolding after_read
  handle_read readv c =
      read_from_fd readv c.input >>= λ r. after_read (record c { input = r.buffer }) r.result

  -- `TcpConnection::established` and `TcpConnection::destory`
  pub established : Connection K → Option (Outcome K)
  unfolding call_all
  established c =
      let c' = record (with_channel c (enable_reading epoll c.poller c.channel)) {
        state = connected;
      } in
      Option.map (quiet c') (call_all c' (on_connection ∷ []))

  pub destory : Connection K → Option (Outcome K)
  unfolding call_all
  destory c =
      let off = disable_all c.channel in
      let c' = record c { channel = off; state = disconnected } in
      Option.map (quiet (with_channel c' (remove_channel epoll c.poller off)))
        (call_all c' (on_connection ∷ []))
