-- ===== src/Acceptor/Tests.antt =====
-- An acceptor on descriptor 3.
use cpp_practise.Base.{ℕ, true, false, some, none, ◌≡◌, ◌≢◌, refl}
use cpp_practise.Logging.{info}
use cpp_practise.Poller.{Poller}
use cpp_practise.Poller.Kernel.{Table, table_epoll, table_closing}
use cpp_practise.Poller.Watch.{entry}
use cpp_practise.Acceptor.{Answers, start_listening, destroy}
use cpp_practise.Acceptor.Listening.{made, start_listening_lem}

abbrev no_poller : Poller Table
no_poller = record { kernel = λ fd. none; channels = λ fd. none; failures = 0 }

abbrev answers : Answers
answers = record { fd = some 3; reuse = true; reuse_again = false; bound = true }

start_listening_lem_example :
    (entry table_epoll
        (start_listening table_epoll info no_poller true
          (made table_epoll info no_poller 40 3 answers)).1
        3
      ≡ some (record { events = record { reads = true; writes = false }; ptr = 40 }))
    × ((k : ℕ)
        → 3 ≢ k
        → entry table_epoll
            (start_listening table_epoll info no_poller true
              (made table_epoll info no_poller 40 3 answers)).1
            k
          ≡ entry table_epoll no_poller k)
    × ((k : ℕ)
        → entry table_epoll
            (destroy table_epoll table_closing
              (start_listening table_epoll info no_poller true
                (made table_epoll info no_poller 40 3 answers)).1
              (start_listening table_epoll info no_poller true
                (made table_epoll info no_poller 40 3 answers)).2).0
            k
          ≡ entry table_epoll no_poller k)
start_listening_lem_example =
    start_listening_lem table_epoll info no_poller 40 3 table_closing answers true refl refl
