-- ===== src/Sockets.antt =====
-- net/Sockets.h and net/Sockets.cpp: what follows from the outcome of each system call. A call's outcome is
-- an argument.
pub mod TcpInfo
mod Tests
use cpp_practise.Base.{
  ℕ, ◌≤◌, Bool, true, false, ◌&&◌, not, Option, none, some, ◌≡◌, refl, ◌==◌, leb, le→leb,
  if◌then◌else◌, if_true, arith, ap, ◌∙◌, ◌↔◌,
}
use cpp_practise.InetAddress.{InetAddress}
use cpp_practise.Logging.{LogLevel, rank, fatal}

-- What an operation does besides its result: nothing, a line in the log, or the end of the program.
pub data Status : Type 0 where
  goes_on logs aborts : Status

-- `LOG_FATAL`, if `g_logLevel` is `bar`: the program ends unless the statement is switched off.
abbrev pub log_fatal : LogLevel → Status
log_fatal bar = if leb (rank bar) (rank fatal) then aborts else goes_on

-- A call whose failure is fatal, and one whose failure is logged; the last argument tells whether it
-- succeeds.
abbrev pub check_fatal : LogLevel → Bool → Status
check_fatal bar true = goes_on
check_fatal bar false = log_fatal bar

abbrev pub check_option : Bool → Status
check_option true = goes_on
check_option false = logs

abbrev pub bind : LogLevel → Bool → Status
bind bar done = check_fatal bar done

abbrev pub listen : LogLevel → Bool → Status
listen bar done = check_fatal bar done

abbrev pub shutdown_write : LogLevel → Bool → Status
shutdown_write bar done = check_fatal bar done

abbrev pub set_reuse_addr : Bool → Status
set_reuse_addr done = check_option done

abbrev pub set_tcp_no_delay : Bool → Status
set_tcp_no_delay done = check_option done

abbrev pub set_keep_alive : Bool → Status
set_keep_alive done = check_option done

-- `createNonblockingSocket`; `none` is -1.
abbrev pub create_nonblocking_socket : LogLevel → Option ℕ → Option ℕ × Status
create_nonblocking_socket bar none = (none, log_fatal bar)
create_nonblocking_socket bar (some fd) = (some fd, goes_on)

-- `setReusePort`, where the system has that option.
abbrev pub set_reuse_port : LogLevel → Bool → Bool → Status
set_reuse_port bar done on = if not done && on then log_fatal bar else goes_on

-- The errors that the source names.
pub data Errno : Type 0 where
  eagain econnaborted eintr eproto eperm emfile : Errno
  ebadf efault einval enfile enobufs enomem enotsock eopnotsupp : Errno
  unknown : ℕ → Errno

abbrev pub is_transient : Errno → Bool
is_transient eagain = true
is_transient econnaborted = true
is_transient eintr = true
is_transient eproto = true
is_transient eperm = true
is_transient emfile = true
is_transient _ = false

abbrev pub no_address : InetAddress
no_address = record { family = 0; port_field = 0; addr = 0 }

pub data Incoming : Type 0 where
  connection : ℕ → InetAddress → Incoming
  error : Errno → Incoming

-- `accept`: the descriptor (`none` is -1), the client's address, and the status.
pub accept : LogLevel → Incoming → Option ℕ × InetAddress × Status
accept bar (connection fd addr) = (some fd, addr, goes_on)
accept bar (error e) = (none, no_address, if is_transient e then goes_on else log_fatal bar)

-- `_fd`, where `none` is -1, and the free function `close`; `closes` tells which descriptors can be closed.
pub record Sockets : Type 0 where
  pub fd : Option ℕ

abbrev pub close : LogLevel → (ℕ → Bool) → Option ℕ → Status
close bar closes none = log_fatal bar
close bar closes (some fd) = check_fatal bar (closes fd)

-- `Sockets(Sockets&&)`: the new one, and what is left of the old one.
abbrev pub move : Sockets → Sockets × Sockets
move s = (record { fd = s.fd }, record { fd = none })

-- `~Sockets`
unfoldable pub destroy : LogLevel → (ℕ → Bool) → Sockets → Status
destroy bar closes s = close bar closes s.fd

-- `getLocalAddr` and `getPeerAddr`: if the call fails, the address is all zero.
abbrev pub get_addr : Option InetAddress → InetAddress
get_addr none = no_address
get_addr (some a) = a

unfoldable pub is_self_connect : Option InetAddress → Option InetAddress → Bool
is_self_connect local peer =
    ((get_addr local).port_field == (get_addr peer).port_field)
    && ((get_addr local).addr == (get_addr peer).addr)

-- `getSocketError`: the value of the option, or the `errno` of the call.
abbrev pub get_socket_error : Bool → ℕ → ℕ → ℕ
get_socket_error true val err = val
get_socket_error false val err = err

-- A socket that can be closed: its destructor goes on. If it was moved, the destructor of the new one goes
-- on and that of the old one ends the program, at every log level that leaves LOG_FATAL on.
pub move_lem :
    (bar : LogLevel) (closes : ℕ → Bool) (s : Sockets) (fd : ℕ)
    → s.fd ≡ some fd
    → closes fd ≡ true
    → rank bar ≤ rank fatal
    → (destroy bar closes s ≡ goes_on)
      × (destroy bar closes (move s).0 ≡ goes_on)
      × (destroy bar closes (move s).1 ≡ aborts)
unfolding destroy
move_lem bar closes s fd e open_fd on =
    let gone = ap (λ o. close bar closes o) e ∙ ap (λ b. check_fatal bar b) open_fd in
    (gone, gone, if_true aborts goes_on (le→leb (rank bar) (rank fatal) on))

-- `isSelfConnect` compares ports and addresses if both calls succeed, and takes a socket for connected to
-- itself if both fail.
pub is_self_connect_lem :
    (local peer : InetAddress)
    → ((is_self_connect (some local) (some peer) ≡ true)
        ↔ ((local.port_field ≡ peer.port_field) × (local.addr ≡ peer.addr)))
      × (is_self_connect none none ≡ true)
unfolding is_self_connect
is_self_connect_lem local peer = (ground arith, refl)
