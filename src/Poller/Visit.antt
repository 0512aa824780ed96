-- ===== src/Poller/Visit.antt =====
-- net/Epoller.cpp: a channel that comes to a poller and leaves it again.
use cpp_practise.Base.{
  ℕ, none, some, ◌≡◌, ◌≢◌, sym, ap, ap₂, ◌∙◌, ◌==◌, ==_iff, Bool-cases, inl, inr, arith,
}
use cpp_practise.Channel.{Channel, new, reading_on, disable_all}
use cpp_practise.Poller.{Epoll, Closing, close, Poller, enable_reading, remove_channel}
use cpp_practise.Poller.Watch.{entry, remove_channel_lem}
use cpp_practise.Poller.Writing.{enable_reading-IsWatched, Entry-added}

module _ {K : Type 0} (epoll : Epoll K) where
  abbrev pub came : Poller K → Channel → Poller K × Channel
  came p c = enable_reading epoll p c

  -- What `disableAll` and `remove` leave.
  abbrev pub left : Poller K → Channel → Poller K × Channel
  left p c = remove_channel epoll p (disable_all c)

  pub left_lem :
      (p : Poller K) (c : Channel)
      → c.state ≡ new
      → entry epoll p c.fd ≡ none
      → (entry epoll (came p c).0 c.fd
          ≡ some (record { events = (reading_on c).events; ptr = c.self }))
        × ((fd : ℕ) → c.fd ≢ fd → entry epoll (came p c).0 fd ≡ entry epoll p fd)
        × ((fd : ℕ) → entry epoll (left (came p c).0 (came p c).1).0 fd ≡ entry epoll p fd)
  left_lem p c fresh free =
      let (k, events) = enable_reading-IsWatched epoll p c fresh free in
      let c1 = (came p c).1 in
      let (gone, none_there, _, _) =
        remove_channel_lem epoll (came p c).0 (disable_all c1)
          (Entry-added c1.state c1.events c1.self k.after.is_added k.after.watched) in
      (
        ap (entry epoll (came p c).0) (sym k.same_fd)
            ∙ k.after.watched
            ∙ ap₂ (λ ev a. some (record { events = ev; ptr = a })) events k.same_self,
        k.others,
        λ fd. elim (Bool-cases (c.fd == fd)) [
          | inl same ↦
              (let here = (==_iff c.fd fd).0 same in
                ap (entry epoll (left (came p c).0 c1).0) (sym here ∙ sym k.same_fd)
                ∙ none_there
                ∙ sym (ap (entry epoll p) (sym here) ∙ free))
          | inr apart ↦
              gone.others fd (λ e. (let f = k.same_fd in absurd (ground arith)))
              ∙ k.others fd (ground arith)
        ],
      )

  -- The end of a descriptor that was not watched before.
  pub close_lem :
      (closing : Closing epoll) (p p' : Poller K) (fd : ℕ)
      → entry epoll p fd ≡ none
      → ((k : ℕ) → entry epoll p' k ≡ entry epoll p k)
      → (k : ℕ) → entry epoll (close closing (some fd) p') k ≡ entry epoll p k
  close_lem closing p p' fd free same k = elim (Bool-cases (fd == k)) [
    | inl here ↦
        ap (entry epoll (close closing (some fd) p')) (sym ((==_iff fd k).0 here))
        ∙ closing.interest-close p'.kernel fd
        ∙ sym free
        ∙ ap (entry epoll p) ((==_iff fd k).0 here)
    | inr apart ↦ closing.close_others p'.kernel fd k (ground arith) ∙ same k
  ]
