-- ===== src/EventLoop/Tests.antt =====
-- Two functors from another thread and one from within, around the loop's first round.
use cpp_practise.Base.{
  ◌+◌, arith, none, some, ◌&&◌, if◌then◌else◌, ℕ, true, false, [], ◌∷◌, ◌≡◌, ◌≢◌, Option, refl,
}
use cpp_practise.EventLoop.{
  EventLoop, make, Run, start, goes, push, wake, enter, poll, handle_read, push_handling,
  do_loop_tasks, handling,
}
use cpp_practise.Channel
use cpp_practise.Channel.{Channel, Revents, no_revents, on_read}
use cpp_practise.Channel.Dispatch.{wanted}
use cpp_practise.Poller.{Poller, Waited, events}
use cpp_practise.Poller.Wait.{delivered}
use cpp_practise.EventLoop.Active.{reported, times_at, handle_round, handle_round_lem}
use cpp_practise.EventLoop.Life.{construct, destroy, construct_lem}
use cpp_practise.Poller.Kernel.{Table, table_epoll, table_closing}
use cpp_practise.Poller.Watch.{entry}
use cpp_practise.Logging.{info}
use cpp_practise.Sockets.{goes_on, aborts}
use cpp_practise.EventLoop.Flags.{IsSound, all}
use cpp_practise.EventLoop.Wakeup.{fifo_lem}

abbrev pushed : EventLoop ℕ
pushed = record make { functors = 1 ∷ []; writers = 1 }

abbrev entered : EventLoop ℕ
entered = record pushed { phase = cpp_practise.EventLoop.polling }

abbrev handled : EventLoop ℕ
handled = record pushed {
  phase = handling;
  is_handling = true;
  readable = false;
  writers = 0;
  functors = 1 ∷ 2 ∷ [];
}

entered-run : Run entered (1 ∷ [])
entered-run = goes (goes start (push 1)) (enter refl)

handled-run : Run handled (1 ∷ 2 ∷ [])
handled-run =
    goes (goes (goes (goes entered-run (wake 0 refl)) (poll refl)) (handle_read refl))
      (push_handling 2 refl)

fifo_lem_example : IsSound entered × (all entered ≡ 1 ∷ [])
fifo_lem_example = fifo_lem entered (1 ∷ []) entered-run

-- The kernel reports that channel 3 can be read, of two channels that the loop has.
abbrev readable : Revents
readable = record no_revents { pollin = true }

abbrev chans : ℕ → Channel
chans p = record (Channel.make p (p + 10)) { is_set = λ k. true }

abbrev waited : Waited
waited = events ((3, readable) ∷ [])

handle_round_lem_example :
    (reported 3 (delivered waited) ≡ none → times_at 3 on_read (handle_round 16 waited chans) ≡ 0)
    × ((r : Revents)
        → reported 3 (delivered waited) ≡ some r
        → times_at 3 on_read (handle_round 16 waited chans)
          ≡ (if wanted on_read r && true then 1 else 0))
handle_round_lem_example =
    handle_round_lem 16 waited chans 3 on_read (omega arith) (omega arith) (refl, tt)

abbrev no_poller : Poller Table
no_poller = record { kernel = λ fd. none; channels = λ fd. none; failures = 0 }

construct_lem_example :
    ((construct table_epoll info 90 (some 4) false no_poller).0 ≡ goes_on)
    × (entry table_epoll (construct table_epoll info 90 (some 4) false no_poller).1.poller 4
        ≡ some (record { events = record { reads = true; writes = false }; ptr = 90 }))
    × ((k : ℕ)
        → 4 ≢ k
        → entry table_epoll (construct table_epoll info 90 (some 4) false no_poller).1.poller k
          ≡ entry table_epoll no_poller k)
    × ((self : ℕ) (eventfd : Option ℕ) (p : Poller Table)
        → (construct table_epoll info self eventfd
            (construct table_epoll info 90 (some 4) false no_poller).1.thread_has_loop
            p).0
          ≡ aborts)
    × ((destroy table_epoll table_closing
          (construct table_epoll info 90 (some 4) false no_poller).1).thread_has_loop
        ≡ false)
    × ((k : ℕ)
        → entry table_epoll
            (destroy table_epoll table_closing
              (construct table_epoll info 90 (some 4) false no_poller).1).poller
            k
          ≡ entry table_epoll no_poller k)
construct_lem_example =
    construct_lem table_epoll table_closing info 90 4 no_poller (omega arith) refl
