-- ===== src/Acceptor/Listening.antt =====
-- net/Acceptor.cpp: what the kernel watches for the acceptor, and when the program ends.
use cpp_practise.Base.{
  ℕ, ◌≤◌, Bool, true, false, Option, none, some, ◌≡◌, ◌≢◌, refl, if_true, le→leb, ◌↔◌, ◌⊎◌, inl,
  inr,
}
use cpp_practise.Channel
use cpp_practise.Channel.{Channel}
use cpp_practise.Logging.{LogLevel, rank, fatal}
use cpp_practise.Poller.{Epoll, Closing, Poller}
use cpp_practise.Poller.Watch.{entry}
use cpp_practise.Poller.Visit.{came, left, left_lem, close_lem}
use cpp_practise.Sockets.{
  goes_on, aborts, log_fatal, create_nonblocking_socket, set_reuse_addr, bind,
}
use cpp_practise.Acceptor.{
  Acceptor, Answers, reads_only, behind, construct, set_read_callback, start_listening, destroy,
}

module _ {K : Type 0} (epoll : Epoll K) (bar : LogLevel) (p : Poller K) (self fd : ℕ) where
  -- The acceptor on a descriptor that the kernel gave, with its callback set.
  abbrev pub made : Answers → Acceptor
  made a = set_read_callback (construct bar self a).1

  -- An acceptor on a descriptor that its loop does not watch, at every log level, whatever the options'
  -- calls answer: once it listens, the kernel watches its descriptor for reading, with the address of its channel,
  -- and all others as before; its destructor leaves all as it was before it listened.
  pub start_listening_lem :
      (closing : Closing epoll) (a : Answers) (done : Bool)
      → a.fd ≡ some fd
      → entry epoll p fd ≡ none
      → (entry epoll (start_listening epoll bar p done (made a)).1 fd
          ≡ some (record { events = record { reads = true; writes = false }; ptr = self }))
        × ((k : ℕ)
            → fd ≢ k
            → entry epoll (start_listening epoll bar p done (made a)).1 k ≡ entry epoll p k)
        × ((k : ℕ)
            → entry epoll
                (destroy epoll closing
                  (start_listening epoll bar p done (made a)).1
                  (start_listening epoll bar p done (made a)).2).0
                k
              ≡ entry epoll p k)
  unfolding construct start_listening destroy
  start_listening_lem closing a done e free =
      let c : Channel = record (Channel.make self fd) { is_set = reads_only } in
      let (there, others, back) = left_lem epoll p c refl free in
      let gone : Poller K = (left epoll (came epoll p c).0 (came epoll p c).1).0 in
      rw e (there, others, close_lem epoll closing p gone fd free back)

-- The end of the program, from the outcomes of the calls.
status_lem :
    (bar : LogLevel) (fd : Option ℕ) (reuse again bound : Bool)
    → log_fatal bar ≡ aborts
    → (behind
          (create_nonblocking_socket bar fd).1
          (behind (set_reuse_addr reuse) (behind (set_reuse_addr again) (bind bar bound)))
        ≡ aborts)
      ↔ ((fd ≡ none) ⊎ (bound ≡ false))
status_lem bar none reuse again bound e = ((λ _. inl refl), λ _. rw e refl)
status_lem bar (some fd) true true true e =
    ((λ k. absurd (cc)), (λ k. elim k [ inl gone ↦ absurd (cc) | inr gone ↦ absurd (cc) ]))
status_lem bar (some fd) true true false e = ((λ _. inr refl), λ _. rw e refl)
status_lem bar (some fd) true false true e =
    ((λ k. absurd (cc)), (λ k. elim k [ inl gone ↦ absurd (cc) | inr gone ↦ absurd (cc) ]))
status_lem bar (some fd) true false false e = ((λ _. inr refl), λ _. rw e refl)
status_lem bar (some fd) false true true e =
    ((λ k. absurd (cc)), (λ k. elim k [ inl gone ↦ absurd (cc) | inr gone ↦ absurd (cc) ]))
status_lem bar (some fd) false true false e = ((λ _. inr refl), λ _. rw e refl)
status_lem bar (some fd) false false true e =
    ((λ k. absurd (cc)), (λ k. elim k [ inl gone ↦ absurd (cc) | inr gone ↦ absurd (cc) ]))
status_lem bar (some fd) false false false e = ((λ _. inr refl), λ _. rw e refl)

-- At a log level that leaves LOG_FATAL on, the program ends in the constructor exactly if there is no
-- descriptor or `bind` fails, whatever the options' calls answer.
pub construct_lem :
    (bar : LogLevel) (self : ℕ) (a : Answers)
    → rank bar ≤ rank fatal
    → ((construct bar self a).0 ≡ aborts) ↔ ((a.fd ≡ none) ⊎ (a.bound ≡ false))
unfolding construct
construct_lem bar self a on =
    status_lem bar a.fd a.reuse a.reuse_again a.bound
      (if_true aborts goes_on (le→leb (rank bar) (rank fatal) on))
