-- ===== src/EventLoop/Life.antt =====
-- net/EventLoop.cpp: the constructor and the destructor of a loop, with its wakeup descriptor and the loop of
-- its thread.
use cpp_practise.Base.{
  ℕ, ◌≤◌, Bool, true, false, Option, none, some, ◌≡◌, ◌≢◌, refl, if_true, le→leb,
}
use cpp_practise.Channel
use cpp_practise.Channel.{Channel}
use cpp_practise.Logging.{LogLevel, rank, fatal}
use cpp_practise.Poller.{Epoll, Closing, close, Poller, enable_reading}
use cpp_practise.Poller.Watch.{entry}
use cpp_practise.Poller.Visit.{came, left, left_lem, close_lem}
use cpp_practise.Sockets.{Status, goes_on, aborts, log_fatal}
use cpp_practise.Acceptor.{behind, to_fd, reads_only}

-- `thread_has_loop` tells whether `t_threadLoop` is set.
pub record Life (K : Type 0) : Type 0 where
  pub thread_has_loop : Bool
  pub wakeup_fd : Option ℕ
  pub wakeup_channel : Channel
  pub poller : Poller K

-- `createEventFd`, from what `eventfd` returns.
abbrev pub create_event_fd : LogLevel → Option ℕ → Option ℕ × Status
create_event_fd bar none = (none, log_fatal bar)
create_event_fd bar (some fd) = (some fd, goes_on)

abbrev pub check_thread : LogLevel → Bool → Status
check_thread bar true = log_fatal bar
check_thread bar false = goes_on

module _ {K : Type 0} (epoll : Epoll K) where
  -- The constructor on a new poller, in a thread that has a loop or has none; `self` is the address of the
  -- channel.
  unfoldable pub construct : LogLevel → ℕ → Option ℕ → Bool → Poller K → Status × Life K
  construct bar self eventfd has_loop p =
      let (fd, created) = create_event_fd bar eventfd in
      let (p', channel) =
        enable_reading epoll p (record (Channel.make self (to_fd fd)) { is_set = reads_only }) in
      (
        behind created (check_thread bar has_loop),
        record { thread_has_loop = true; wakeup_fd = fd; wakeup_channel = channel; poller = p' },
      )

  -- The destructor, which closes the wakeup descriptor and leaves no loop in its thread.
  unfoldable pub destroy : Closing epoll → Life K → Life K
  destroy closing l =
      let (p', channel) = left epoll l.poller l.wakeup_channel in
      record l {
        thread_has_loop = false;
        wakeup_channel = channel;
        poller = close closing l.wakeup_fd p';
      }

  -- The first loop of a thread, whose `eventfd` returns a descriptor that the poller does not watch: the
  -- program goes on, the kernel watches the descriptor for reading, with the address of the wakeup
  -- channel, and nothing else that it did not watch before; a second loop in the thread ends the program,
  -- if LOG_FATAL is on. The destructor leaves the thread without a loop, and the kernel as it was.
  pub construct_lem :
      (closing : Closing epoll) (bar : LogLevel) (self fd : ℕ) (p : Poller K)
      → rank bar ≤ rank fatal
      → entry epoll p fd ≡ none
      → ((construct bar self (some fd) false p).0 ≡ goes_on)
        × (entry epoll (construct bar self (some fd) false p).1.poller fd
            ≡ some (record { events = record { reads = true; writes = false }; ptr = self }))
        × ((k : ℕ)
            → fd ≢ k
            → entry epoll (construct bar self (some fd) false p).1.poller k ≡ entry epoll p k)
        × ((self' : ℕ) (eventfd : Option ℕ) (p' : Poller K)
            → (construct bar self' eventfd
                (construct bar self (some fd) false p).1.thread_has_loop
                p').0
              ≡ aborts)
        × ((destroy closing (construct bar self (some fd) false p).1).thread_has_loop ≡ false)
        × ((k : ℕ)
            → entry epoll (destroy closing (construct bar self (some fd) false p).1).poller k
              ≡ entry epoll p k)
  unfolding construct destroy
  construct_lem closing bar self fd p on free =
      let c : Channel = record (Channel.make self fd) { is_set = reads_only } in
      let (there, others, back) = left_lem epoll p c refl free in
      let gone : Poller K = (left epoll (came epoll p c).0 (came epoll p c).1).0 in
      (refl, there, others, second, refl, close_lem epoll closing p gone fd free back)
    where
      fatal_on : log_fatal bar ≡ aborts
      fatal_on = if_true aborts goes_on (le→leb (rank bar) (rank fatal) on)

      second :
          (self' : ℕ) (eventfd : Option ℕ) (p' : Poller K)
          → (construct bar self' eventfd true p').0 ≡ aborts
      second self' none p' = rw fatal_on refl
      second self' (some fd') p' = fatal_on
