-- ===== src/TcpServer/Start.antt =====
-- net/TcpServer.cpp: the constructor and `start`, with the acceptor, the loops of the pool and the pollers.
use cpp_practise.Base.{
  ℕ, zero, suc, ◌+◌, ◌<◌, ◌^◌, Bool, true, false, List, Option, none, some, ◌≡◌, ◌≢◌, refl, sym, ap,
  ◌∙◌, ◌==◌, if◌then◌else◌, length, arith, if_true, if_false, Bool-cases, inl, inr, ==_iff,
}
use cpp_practise.Logging.{LogLevel}
use cpp_practise.Sockets.{Status}
use cpp_practise.Acceptor
use cpp_practise.Acceptor.{Acceptor, Answers, set_read_callback, start_listening}
use cpp_practise.Acceptor.Listening.{start_listening_lem}
use cpp_practise.Poller.{Closing, Interest, Epoll, Poller}
use cpp_practise.Poller.Watch.{entry}
use cpp_practise.TcpConnection.{Callback, is_now, on_connection, on_message}
use cpp_practise.EventLoopThreadPool
use cpp_practise.EventLoopThreadPool.{EventLoopThreadPool, started}
use cpp_practise.EventLoopThreadPool.Round
use cpp_practise.TcpServer.World.{World, Steps, update, destroy_all}
use cpp_practise.TcpServer.Open.{IsSound}
use cpp_practise.TcpServer.Watched.{watched_lem}
use cpp_practise.TcpServer.Destroy.{Lists, destroy_all_lem}

-- The server before `start`. The loop it is given has number 0.
pub record Server : Type 0 where
  pub acceptor : Acceptor
  pub pool : EventLoopThreadPool ℕ
  pub is_set : Callback → Bool

-- The constructor sets the callback of connections; `answers` is what the system calls of the acceptor
-- answer, `self` the address of its channel.
unfoldable pub make : LogLevel → (self num : ℕ) → Answers → Status × Server
make bar self num answers =
    let (done, a) = Acceptor.construct bar self answers in
    (
      done,
      record {
        acceptor = set_read_callback a;
        pool = EventLoopThreadPool.make 0 num;
        is_set = is_now on_connection (λ _. false);
      },
    )

-- `setConnectionCallback`, `setMessageCallback` and `setWriteCompleteCallback`.
abbrev pub set_callback : Callback → Server → Server
set_callback k s = record s { is_set = is_now k s.is_set }

module _ {K : Type 0} (epoll : Epoll K) where
  -- Thread `i` of the pool returns the loop with number `i + 1`. `pollers` are those of the loops, when
  -- their constructors have run; the last argument tells whether `listen` of the socket succeeds.
  unfoldable pub start : LogLevel → (ℕ → Poller K) → Server → Bool → Status × World K
  start bar pollers s listens =
      let (done, p, _) = start_listening epoll bar (pollers 0) listens s.acceptor in
      (
        done,
        record {
          pool = EventLoopThreadPool.start suc s.pool;
          pollers = update pollers 0 p;
          members = λ _. none;
          is_set = s.is_set;
        },
      )

  -- What the loops watch once the server has started: the acceptor's descriptor in the loop 0, and
  -- what they watched before, their wakeup descriptors.
  abbrev pub own : (ℕ → Poller K) → (self fd : ℕ) → ℕ → ℕ → Option Interest
  own pollers self fd loop k =
      if 0 == loop
      then (if fd == k
          then some (record { events = record { reads = true; writes = false }; ptr = self })
          else entry epoll (pollers 0) k)
      else entry epoll (pollers loop) k

length-started : (i num : ℕ) → length (started suc i num) ≡ num
unfolding started
length-started i zero = refl
length-started i (suc num) = ap suc (length-started (i + 1) num)

started_pool_lem :
    (num : ℕ)
    → num < 2 ^ 63
    → Round.IsSound (EventLoopThreadPool.start suc (EventLoopThreadPool.make 0 num))
started_pool_lem num small =
    let e = length-started 0 num in
    record { small = omega (arith, e); inside = λ some_loop. omega (arith, e) }

-- The entries of the loops, from those of the loop that the acceptor is in.
own_lem :
    {K : Type 0} (epoll : Epoll K) (pollers : ℕ → Poller K) (p : Poller K) (self fd loop k : ℕ)
    → entry epoll p fd
      ≡ some (record { events = record { reads = true; writes = false }; ptr = self })
    → ((j : ℕ) → fd ≢ j → entry epoll p j ≡ entry epoll (pollers 0) j)
    → entry epoll (update pollers 0 p loop) k ≡ own epoll pollers self fd loop k
own_lem epoll pollers p self fd loop k there others = elim (Bool-cases (0 == loop)) [
  | inr away ↦
      ap (λ q. entry epoll q k) (if_false p (pollers loop) away)
      ∙ sym (if_false _ (entry epoll (pollers loop) k) away)
  | inl base ↦
      ap (λ q. entry epoll q k) (if_true p (pollers loop) base)
      ∙ elim (Bool-cases (fd == k)) [
        | inl here ↦
            ap (entry epoll p) (sym ((==_iff fd k).0 here))
            ∙ there
            ∙ sym (if_true _ (entry epoll (pollers 0) k) here)
        | inr apart ↦ others k (ground arith) ∙ sym (if_false _ (entry epoll (pollers 0) k) apart)
      ]
      ∙ sym (if_true _ (entry epoll (pollers loop) k) base)
]

module _ {K : Type 0} (epoll : Epoll K) (closing : Closing epoll) (bar : LogLevel)
    (pollers : ℕ → Poller K) (self num fd : ℕ) (answers : Answers) (listens : Bool) where
  abbrev pub running : World K
  running =
      (start epoll bar pollers (set_callback on_message (make bar self num answers).1) listens).1

  pub running-IsSound :
      answers.fd ≡ some fd
      → entry epoll (pollers 0) fd ≡ none
      → num < 2 ^ 63
      → IsSound epoll (own epoll pollers self fd) running
  unfolding make start
  running-IsSound e free small =
      let (there, others, _) =
        start_listening_lem epoll bar (pollers 0) self fd closing answers listens e free in
      record {
        pool = started_pool_lem num small;
        connection = refl;
        message = refl;
        open_members = λ j m none_yet. absurd (cc);
        others = λ k _ loop. own_lem epoll pollers _ self fd loop k there others;
      }

  -- A server on a socket that the loop 0 does not watch yet, whose message callback is set: from its
  -- start, over any arrivals, reads, sends and writes as in `Step`, each connection in the map is watched by its own
  -- loop alone, and the acceptor's socket by the loop 0, for reading; then the body of the destructor, with the
  -- descriptors of the map, each once, does not fault, empties the map, and leaves the loops watching the
  -- acceptor's socket and what they watched before the start.
  pub life_lem :
      answers.fd ≡ some fd
      → entry epoll (pollers 0) fd ≡ none
      → num < 2 ^ 63
      → (w : World K) → Steps epoll closing (own epoll pollers self fd) running w
      → IsSound epoll (own epoll pollers self fd) w
        × ((fds : List ℕ)
            → Lists fds w.members
            → (w' : World K) × (destroy_all epoll closing fds w ≡ some w')
              × ((k : ℕ) → w'.members k ≡ none)
              × ((k loop : ℕ) → entry epoll (w'.pollers loop) k ≡ own epoll pollers self fd loop k))
  life_lem e free small w r =
      let s =
        (watched_lem epoll (own epoll pollers self fd) closing running w
          (running-IsSound e free small) r).0 in
      (s, λ fds l. destroy_all_lem epoll (own epoll pollers self fd) closing fds w s l)
