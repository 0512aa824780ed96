-- ===== src/TcpConnection/Tests.antt =====
-- A connection on small inputs.
use cpp_practise.Base.{ℕ, true, false, List, [], ◌∷◌, ◌++◌, none, some, ◌≡◌, refl, arith, inl}
use cpp_practise.Buffer.{Buffer}
use cpp_practise.Buffer.Valid.{IsValid, contents}
use cpp_practise.Buffer.Socket.{Delivery, delivered, blocks}
use cpp_practise.Channel
use cpp_practise.Channel.{disable_all, Channel, reading_on, has_write}
use cpp_practise.Poller.Kernel.{Table, table_epoll}
use cpp_practise.TcpConnection.{
  Connection, disconnected, on_connection, on_close, on_write_complete, call, Written, wrote,
  Outcome, send, handle_write, handle_read,
}
use cpp_practise.TcpConnection.Sound.{IsSound}
use cpp_practise.TcpConnection.Send.{accepted, send_lem}
use cpp_practise.TcpConnection.Drain.{handle_write_lem}
use cpp_practise.TcpConnection.Stream.{start, drains, Run_lem}
use cpp_practise.TcpConnection.Link.{Link, Steps, begin, later, sends, under_way, link_lem}
use cpp_practise.TcpConnection.Close.{HasCallbacks, handle_read_lem}

abbrev empty : Buffer
empty = record {
  storage = 0 ∷ 0 ∷ 0 ∷ 0 ∷ 0 ∷ 0 ∷ 0 ∷ 0 ∷ 0 ∷ 0 ∷ 0 ∷ 0 ∷ [];
  read_index = 8;
  write_index = 8;
}

abbrev socket : Channel
socket = Channel.make 100 7

-- A connection that is set up, with nothing waiting and no entry in the kernel.
abbrev idle : Connection Table
idle = record {
  input = empty;
  output = empty;
  channel = socket;
  poller = record { kernel = λ fd. none; channels = λ fd. none; failures = 0 };
  high_water_mark = 0;
  state = disconnected;
  is_set = λ k. true;
}

-- One byte waits, and the kernel watches for space.
abbrev busy : Connection Table
busy = record idle {
  output = record empty { write_index = 9 };
  channel = record socket {
    state = Channel.added;
    events = record { reads = true; writes = true };
  };
  poller = record {
    kernel = λ fd. some (record { events = record { reads = true; writes = true }; ptr = 100 });
    channels = λ fd. none;
    failures = 0;
  };
}

idle-IsSound : IsSound table_epoll idle
idle-IsSound = record { valid = omega arith; synced = refl; waiting = refl }

busy-IsSound : IsSound table_epoll busy
busy-IsSound = record {
  valid = omega arith;
  synced = (record { events = record { reads = true; writes = true }; ptr = 100 }, refl, refl);
  waiting = refl;
}

callbacks : HasCallbacks Table idle
callbacks = record { connection = refl; message = refl; close = refl }

abbrev takes_one : List ℕ → Written
takes_one m = wrote 1

send_lem_example :
    (o : Outcome Table) × (send table_epoll takes_one idle (5 ∷ 6 ∷ 7 ∷ []) ≡ some o)
    × IsSound table_epoll o.conn
    × (o.sent ++ contents o.conn.output
        ≡ contents idle.output ++ accepted table_epoll takes_one idle (5 ∷ 6 ∷ 7 ∷ []))
send_lem_example =
    send_lem table_epoll takes_one (5 ∷ 6 ∷ 7 ∷ []) idle-IsSound (inl refl) (omega arith)
      (omega arith)

-- A message sent while a byte waits is lost.
send_lost :
    send table_epoll takes_one busy (5 ∷ [])
    ≡ some (record { conn = busy; calls = []; sent = []; logged = false })
unfolding send
send_lost = refl

handle_write_lem_example :
    (o : Outcome Table) × (handle_write table_epoll takes_one busy ≡ some o)
    × IsSound table_epoll o.conn
    × (o.sent ++ contents o.conn.output ≡ 0 ∷ [])
    × (o.calls ≡ call on_write_complete ∷ [])
handle_write_lem_example = handle_write_lem table_epoll takes_one busy-IsSound (omega arith)

abbrev drained : Outcome Table
drained = (handle_write_lem table_epoll takes_one busy-IsSound (omega arith)).0

Run_lem_example :
    IsSound table_epoll drained.conn
    × (drained.sent ++ contents drained.conn.output ≡ contents busy.output ++ [])
Run_lem_example = Run_lem table_epoll busy-IsSound (
    drains drained takes_one start (omega arith)
      (handle_write_lem table_epoll takes_one busy-IsSound (omega arith)).1)

abbrev closed_peer : List ℕ → Delivery
closed_peer sizes = delivered []

handle_read_lem_example :
    (o : Outcome Table) × (handle_read table_epoll closed_peer idle ≡ some o)
    × IsValid o.conn.input
    × (contents o.conn.input ≡ [])
    × (o.conn.output ≡ idle.output)
    × (o.conn.poller ≡ idle.poller)
    × (o.conn.state ≡ disconnected)
    × (o.calls ≡ call on_connection ∷ call on_close ∷ [])
    × (o.logged ≡ false)
    × (o.conn.channel ≡ disable_all idle.channel)
    × (o.conn.is_set ≡ idle.is_set)
unfolding blocks
handle_read_lem_example =
    handle_read_lem table_epoll closed_peer (idle-IsSound.valid) callbacks (omega arith)

-- A message of which `write` takes the first byte, from one such connection to another.
abbrev hello : List ℕ
hello = 0x68 ∷ 0x69 ∷ []

abbrev first_sent : Outcome Table
first_sent =
    (send_lem table_epoll takes_one hello idle-IsSound (inl refl) (omega arith) (omega arith)).0

abbrev unused : Link Table
unused = record { sender = idle; receiver = idle; wire = []; taken = []; retrieved = [] }

abbrev used : Link Table
used = record unused {
  sender = first_sent.conn;
  wire = [] ++ first_sent.sent;
  taken = [] ++ accepted table_epoll takes_one idle hello;
}

used-Steps : Steps table_epoll unused used
used-Steps = later begin (
    sends first_sent takes_one hello (inl refl) (omega arith) (omega arith)
      (send_lem table_epoll takes_one hello idle-IsSound (inl refl) (omega arith) (omega arith)).1)

link_lem_example : used.retrieved ++ under_way table_epoll used ≡ used.taken
link_lem_example =
    link_lem table_epoll idle idle used idle-IsSound refl (idle-IsSound.valid) refl callbacks
      used-Steps
