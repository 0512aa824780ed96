-- ===== src/TcpServer/Tests.antt =====
-- A server with two loops, to which a connection comes; and one from its start, with the wakeup
-- descriptors 100 and up, on the socket 5.
use cpp_practise.Base.{
  ℕ, true, false, List, [], ◌∷◌, none, some, ◌==◌, ◌+◌, ◌<◌, ◌^◌, length, refl, ◌≢◌, ◌≡◌, arith,
  Option, ◌∙◌, Bool-cases, inl, inr, if_true, if_false,
}
use cpp_practise.EventLoopThreadPool.{EventLoopThreadPool}
use cpp_practise.EventLoopThreadPool.Round.{IsSound}
use cpp_practise.Buffer.Socket.{Delivery, Fits, blocks}
use cpp_practise.Poller.{Interest, Poller}
use cpp_practise.TcpConnection.{Written}
use cpp_practise.TcpConnection.Send.{Within}
use cpp_practise.Buffer.Valid.{contents}
use cpp_practise.Poller.Kernel.{Table, table_epoll, table_closing}
use cpp_practise.TcpServer.World.{
  Member, World, destroy_all, new_connection, read_ready, send_message, write_ready, Steps, begin,
  later, comes,
}
use cpp_practise.TcpServer.Open
use cpp_practise.TcpServer.Watched.{new_connection_lem, watched_lem}
use cpp_practise.TcpServer.Destroy.{Lists}
use cpp_practise.Poller.Watch.{entry}
use cpp_practise.Acceptor.{Answers}
use cpp_practise.EventLoop.Life
use cpp_practise.Logging.{info}
use cpp_practise.TcpServer.Start
use cpp_practise.TcpServer.Start.{running, running-IsSound, life_lem}

abbrev pool : EventLoopThreadPool ℕ
pool = record { base_loop = 0; thread_num = 2; current_index = 0; loops = 1 ∷ 2 ∷ [] }

pool-IsSound : IsSound pool
pool-IsSound = record { small = omega arith; inside = λ _. omega arith }

abbrev no_poller : Poller Table
no_poller = record { kernel = λ fd. none; channels = λ fd. none; failures = 0 }

-- No loop watches anything for itself.
abbrev own : ℕ → ℕ → Option Interest
own loop fd = none

abbrev quiet_world : World Table
quiet_world = record {
  pool = pool;
  pollers = λ loop. no_poller;
  members = λ fd. none;
  is_set = λ k. true;
}

quiet_world-IsSound : Open.IsSound table_epoll own quiet_world
quiet_world-IsSound = record {
  pool = pool-IsSound;
  connection = refl;
  message = refl;
  open_members = λ fd m e. absurd (cc);
  others = λ fd e loop. refl;
}

abbrev joined : World Table
joined =
    (new_connection_lem table_epoll own table_closing 500 0 7 quiet_world quiet_world-IsSound refl
      (λ _. refl)).0

joined-Steps : Steps table_epoll table_closing own quiet_world joined
joined-Steps = later begin (
    comes 500 0 7 refl (λ _. refl)
      (new_connection_lem table_epoll own table_closing 500 0 7 quiet_world quiet_world-IsSound refl
        (λ _. refl)).1)

watched_lem_example :
    Open.IsSound table_epoll own joined
    × ((self mark fd : ℕ)
        → joined.members fd ≡ none
        → ((loop : ℕ) → own loop fd ≡ none)
        → (w : World Table) × (new_connection table_epoll table_closing self mark joined fd
            ≡ some w))
    × ((readv : List ℕ → Delivery) (fd : ℕ) (m : Member Table)
        → joined.members fd ≡ some m
        → Fits m.conn.input (readv (blocks m.conn.input))
        → (w : World Table) × (read_ready table_epoll table_closing readv joined fd ≡ some w))
    × ((write : List ℕ → Written) (fd : ℕ) (m : Member Table) (message : List ℕ)
        → joined.members fd ≡ some m
        → m.conn.high_water_mark ≡ 0
        → m.conn.output.write_index + length message < 2 ^ 31
        → Within (write message) (length message)
        → (w : World Table) × (send_message table_epoll table_closing write joined fd message
            ≡ some w))
    × ((write : List ℕ → Written) (fd : ℕ) (m : Member Table)
        → joined.members fd ≡ some m
        → Within (write (contents m.conn.output)) (length (contents m.conn.output))
        → (w : World Table) × (write_ready table_epoll table_closing write joined fd ≡ some w))
watched_lem_example =
    watched_lem table_epoll own table_closing quiet_world joined quiet_world-IsSound joined-Steps

abbrev loops : ℕ → Poller Table
loops i = (Life.construct table_epoll info (900 + i) (some (100 + i)) false no_poller).1.poller

loops_lem : (i k : ℕ) → 100 + i ≢ k → entry table_epoll (loops i) k ≡ none
loops_lem i k ne =
    let (_, _, others, _, _, _) =
      Life.construct_lem table_epoll table_closing info (900 + i) (100 + i) no_poller (omega arith)
        refl in
    others k ne

abbrev answers : Answers
answers = record { fd = some 5; reuse = true; reuse_again = true; bound = true }

abbrev own_entries : ℕ → ℕ → Option Interest
own_entries = Start.own table_epoll loops 300 5

own_entries-seven : (loop : ℕ) → own_entries loop 7 ≡ none
own_entries-seven loop = elim (Bool-cases (0 == loop)) [
  | inl base ↦ if_true _ (entry table_epoll (loops loop) 7) base ∙ loops_lem 0 7 (omega arith)
  | inr away ↦ if_false _ (entry table_epoll (loops loop) 7) away ∙ loops_lem loop 7 (omega arith)
]

abbrev open_server : World Table
open_server = running table_epoll table_closing info loops 300 2 5 answers true

open_server-IsSound : Open.IsSound table_epoll own_entries open_server
open_server-IsSound =
    running-IsSound table_epoll table_closing info loops 300 2 5 answers true refl
      (loops_lem 0 5 (omega arith)) (omega arith)

open_server-seven : open_server.members 7 ≡ none
unfolding Start.start
open_server-seven = refl

abbrev busy : World Table
busy =
    (new_connection_lem table_epoll own_entries table_closing 500 0 7 open_server
      open_server-IsSound open_server-seven own_entries-seven).0

busy-Steps : Steps table_epoll table_closing own_entries open_server busy
busy-Steps = later begin (
    comes 500 0 7 open_server-seven own_entries-seven
      (new_connection_lem table_epoll own_entries table_closing 500 0 7 open_server
        open_server-IsSound open_server-seven own_entries-seven).1)

life_lem_example :
    Open.IsSound table_epoll own_entries busy
    × ((fds : List ℕ)
        → Lists fds busy.members
        → (w : World Table) × (destroy_all table_epoll table_closing fds busy ≡ some w)
          × ((k : ℕ) → w.members k ≡ none)
          × ((k loop : ℕ) → entry table_epoll (w.pollers loop) k ≡ own_entries loop k))
life_lem_example =
    life_lem table_epoll table_closing info loops 300 2 5 answers true refl
      (loops_lem 0 5 (omega arith)) (omega arith) busy busy-Steps
