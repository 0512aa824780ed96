-- ===== src/TcpServer.antt =====
-- net/TcpServer.cpp and net/Acceptor.cpp: what becomes of an accepted descriptor, and the map of
-- connections. A connection is told by its descriptor, its loop and its callbacks; what it does itself is
-- in TcpConnection.antt. All steps are taken one after the other.
pub mod Connections
pub mod World
pub mod Open
pub mod Leaving
pub mod Ready
pub mod Sending
pub mod Watched
pub mod Destroy
pub mod Start
mod Tests
use cpp_practise.Base.{
  ℕ, Bool, true, false, List, [], ◌∷◌, Option, none, some, ◌==◌, if◌then◌else◌, ◌>>=◌,
}
use cpp_practise.TcpConnection.{
  Callback, on_connection, on_message, on_write_complete, on_high_water_mark, on_close,
}
use cpp_practise.EventLoopThreadPool.{EventLoopThreadPool, get_next_loop}

pub record Member (L : Type 0) : Type 0 where
  pub fd : ℕ
  pub loop : L
  pub is_set : Callback → Bool

-- `is_set` tells which callbacks the server has for its connections.
pub record TcpServer (L : Type 0) : Type 0 where
  pub pool : EventLoopThreadPool L
  pub connections : ℕ → Option (Member L)
  pub is_set : Callback → Bool

-- What `accept` returns, and what `Acceptor::handleRead` does with it.
pub data Accepted : Type 0 where
  accepted : ℕ → Accepted
  accept_failed : Accepted

pub data Reaction : Type 0 where
  hands_on closes : ℕ → Reaction
  logs : Reaction

-- `Acceptor::handleRead`; the first argument tells whether its callback is set.
abbrev pub handle_accept : Bool → Accepted → Reaction
handle_accept set accept_failed = logs
handle_accept true (accepted fd) = hands_on fd
handle_accept false (accepted fd) = closes fd

-- The server's callbacks, and its own for the end of the connection.
abbrev pub given : (Callback → Bool) → Callback → Bool
given is_set on_connection = is_set on_connection
given is_set on_message = is_set on_message
given is_set on_write_complete = is_set on_write_complete
given is_set on_high_water_mark = false
given is_set on_close = true

module _ {L : Type 0} where
  abbrev pub put : (ℕ → Option (Member L)) → ℕ → Option (Member L) → ℕ → Option (Member L)
  put f i v j = if i == j then v else f j

  unfoldable pub new_connection : TcpServer L → ℕ → Option (TcpServer L)
  new_connection s fd = get_next_loop s.pool >>= λ r. some (record s {
    pool = r.1;
    connections =
        put s.connections fd (some (record { fd = fd; loop = r.0; is_set = given s.is_set }));
  })

  abbrev pub remove_connection : TcpServer L → ℕ → TcpServer L
  remove_connection s fd = record s { connections = put s.connections fd none }

  -- The server has set the acceptor's callback.
  abbrev pub react : TcpServer L → Reaction → Option (TcpServer L)
  react s (hands_on fd) = new_connection s fd
  react s (closes fd) = some s
  react s logs = some s

-- What happens to the server: the acceptor's descriptor is readable, or a connection ends.
pub data Event : Type 0 where
  incoming : Accepted → Event
  ended : ℕ → Event

module _ {L : Type 0} where
  unfoldable pub serve : TcpServer L → List Event → Option (TcpServer L)
  serve s [] = some s
  serve s (incoming a ∷ es) = react s (handle_accept true a) >>= λ s'. serve s' es
  serve s (ended fd ∷ es) = serve (remove_connection s fd) es
