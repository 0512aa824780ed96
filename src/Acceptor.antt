-- ===== src/Acceptor.antt =====
-- net/Acceptor.h and net/Acceptor.cpp: the listening socket and its channel. What becomes of an accepted
-- descriptor is in TcpServer.antt.
pub mod Listening
mod Tests
use cpp_practise.Base.{ℕ, ◌-◌, ◌^◌, Bool, true, false, Option, none, some}
use cpp_practise.Channel
use cpp_practise.Channel.{Channel}
use cpp_practise.Logging.{LogLevel}
use cpp_practise.Poller.{Epoll, Closing, close, Poller, enable_reading}
use cpp_practise.Poller.Visit.{left}
use cpp_practise.Sockets.{
  Sockets, Status, goes_on, logs, aborts, create_nonblocking_socket, set_reuse_addr, bind, listen,
}

-- One operation behind another, which is reached unless the program ends.
abbrev pub behind : Status → Status → Status
behind goes_on s = s
behind aborts s = aborts
behind logs goes_on = logs
behind logs logs = logs
behind logs aborts = aborts

-- The pattern of an `int` for a descriptor, of which `none` is -1.
abbrev pub to_fd : Option ℕ → ℕ
to_fd none = 2 ^ 32 - 1
to_fd (some fd) = fd

-- The constructor sets the channel's read callback alone.
abbrev pub reads_only : Channel.Callback → Bool
reads_only Channel.on_read = true
reads_only Channel.on_write = false
reads_only Channel.on_close = false
reads_only Channel.on_error = false

pub record Acceptor : Type 0 where
  pub sockets : Sockets
  pub channel : Channel
  pub is_set : Bool

-- What the system calls of the constructor answer: the descriptor, two options and `bind`.
pub record Answers : Type 0 where
  pub fd : Option ℕ
  pub reuse : Bool
  pub reuse_again : Bool
  pub bound : Bool

-- `Acceptor::Acceptor`; `self` is the address of the channel.
unfoldable pub construct : LogLevel → ℕ → Answers → Status × Acceptor
construct bar self a =
    let (fd, created) = create_nonblocking_socket bar a.fd in
    (
      behind created (
          behind (set_reuse_addr a.reuse)
            (behind (set_reuse_addr a.reuse_again) (bind bar a.bound))),
      record {
        sockets = record { fd = fd };
        channel = record (Channel.make self (to_fd fd)) { is_set = reads_only };
        is_set = false;
      },
    )

abbrev pub set_read_callback : Acceptor → Acceptor
set_read_callback a = record a { is_set = true }

module _ {K : Type 0} (epoll : Epoll K) where
  -- `listen`; the third argument tells whether `listen` of the socket succeeds.
  unfoldable pub start_listening :
      LogLevel → Poller K → Bool → Acceptor → Status × Poller K × Acceptor
  start_listening bar p done a =
      let (p', channel) = enable_reading epoll p a.channel in
      (listen bar done, p', record a { channel = channel })

  -- `~Acceptor`, with the end of its members, of which the socket closes its descriptor.
  unfoldable pub destroy : Closing epoll → Poller K → Acceptor → Poller K × Acceptor
  destroy closing p a =
      let (p', channel) = left epoll p a.channel in
      (close closing a.sockets.fd p', record a { channel = channel })
