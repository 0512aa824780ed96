-- ===== src/Poller/Writing.antt =====
-- net/Epoller.cpp: a channel that is watched for reading, while its writing is turned on and off.
use cpp_practise.Base.{ℕ, true, Option, none, some, ◌≡◌, ◌≢◌, refl, sym, ap, ap₂, ◌∙◌, arith}
use cpp_practise.Channel.{
  Channel, Events, State, new, added, deleted, reading_on, writing_on, writing_off,
}
use cpp_practise.Poller.{
  Epoll, Poller, Interest, update_channel, enable_reading, enable_writing, disable_writing,
}
use cpp_practise.Poller.Watch.{Entry, entry, updated, update_channel_lem}
use cpp_practise.Poller.Enable.{update_channel-events}

-- A channel that is watched, and its state.
pub Entry-state :
    (st : State) {o : Option Interest} (self : ℕ) {i : Interest}
    → Entry st o self
    → o ≡ some i
    → st ≡ added
Entry-state new self h e = absurd (cc)
Entry-state added self h e = refl
Entry-state deleted self h e = absurd (cc)

pub Entry-added :
    (st : State) {o : Option Interest} (events : Events) (self : ℕ)
    → st ≡ added
    → o ≡ some (record { events = events; ptr = self })
    → Entry st o self
Entry-added added events self e h = (record { events = events; ptr = self }, h, refl)
Entry-added new events self e h = absurd (cc)
Entry-added deleted events self e h = absurd (cc)

module _ {K : Type 0} (epoll : Epoll K) where
  -- The kernel watches the channel for what it says, reading among it, with its address.
  pub record IsWatched (p : Poller K) (c : Channel) : Type 0 where
    pub is_added : c.state ≡ added
    pub reads : c.events.reads ≡ true
    pub watched : entry epoll p c.fd ≡ some (record { events = c.events; ptr = c.self })

  -- A change of the channel that leaves it watched, and the other descriptors as they were.
  pub record Changed (p : Poller K) (c : Channel) (p' : Poller K) (c' : Channel) : Type 0 where
    pub after : IsWatched p' c'
    pub same_fd : c'.fd ≡ c.fd
    pub same_self : c'.self ≡ c.self
    pub others : (fd : ℕ) → c.fd ≢ fd → entry epoll p' fd ≡ entry epoll p fd

  updated_reading :
      (st : State) (c : Channel)
      → st ≡ added
      → c.events.reads ≡ true
      → updated st c ≡ some (record { events = c.events; ptr = c.self })
  updated_reading new c e r = absurd (cc)
  updated_reading deleted c e r = absurd (cc)
  updated_reading added c e r = ground arith

  update-IsWatched :
      (p : Poller K) (c : Channel) (events : Events)
      → Entry c.state (entry epoll p c.fd) c.self
      → updated c.state (record c { events = events })
        ≡ some (record { events = events; ptr = c.self })
      → events.reads ≡ true
      → Changed p c
          (update_channel epoll p (record c { events = events })).0
          (update_channel epoll p (record c { events = events })).1
  update-IsWatched p c events s u r =
      let c1 : Channel = record c { events = events } in
      let (k, e) = update_channel_lem epoll p c1 s in
      let same = update_channel-events epoll p c1 in
      let there = ap (entry epoll (update_channel epoll p c1).0) k.same_fd ∙ e ∙ u in
      record {
        after = record {
          is_added = Entry-state (update_channel epoll p c1).1.state _ k.synced there;
          reads = ap (λ ev. ev.reads) same ∙ r;
          watched =
              there
              ∙ ap₂ (λ ev a. some (record { events = ev; ptr = a })) (sym same) (sym k.same_self);
        };
        same_fd = k.same_fd;
        same_self = k.same_self;
        others = k.others;
      }

  again-IsWatched :
      (p : Poller K) (c : Channel) (events : Events)
      → IsWatched p c
      → events.reads ≡ true
      → Changed p c
          (update_channel epoll p (record c { events = events })).0
          (update_channel epoll p (record c { events = events })).1
  again-IsWatched p c events w r =
      update-IsWatched p c events (Entry-added c.state c.events c.self w.is_added w.watched)
        (updated_reading c.state (record c { events = events }) w.is_added r) r

  pub enable_writing-IsWatched :
      (p : Poller K) (c : Channel)
      → IsWatched p c
      → Changed p c (enable_writing epoll p c).0 (enable_writing epoll p c).1
  unfolding enable_writing
  enable_writing-IsWatched p c w = again-IsWatched p c (writing_on c).events w w.reads

  pub disable_writing-IsWatched :
      (p : Poller K) (c : Channel)
      → IsWatched p c
      → Changed p c (disable_writing epoll p c).0 (disable_writing epoll p c).1
  unfolding disable_writing
  disable_writing-IsWatched p c w = again-IsWatched p c (writing_off c).events w w.reads

  Entry-new : (st : State) (o : Option Interest) (self : ℕ) → st ≡ new → o ≡ none → Entry st o self
  Entry-new new o self e h = h
  Entry-new added o self e h = absurd (cc)
  Entry-new deleted o self e h = absurd (cc)

  updated_new :
      (st : State) (c : Channel)
      → st ≡ new
      → updated st c ≡ some (record { events = c.events; ptr = c.self })
  updated_new new c e = refl
  updated_new added c e = absurd (cc)
  updated_new deleted c e = absurd (cc)

  -- A channel that no poller knew, watched for reading from now on, and for what was enabled before.
  pub enable_reading-IsWatched :
      (p : Poller K) (c : Channel)
      → c.state ≡ new
      → entry epoll p c.fd ≡ none
      → Changed p c (enable_reading epoll p c).0 (enable_reading epoll p c).1
        × ((enable_reading epoll p c).1.events ≡ (reading_on c).events)
  unfolding enable_reading
  enable_reading-IsWatched p c fresh free = (
    update-IsWatched p c (reading_on c).events (Entry-new c.state _ c.self fresh free)
        (updated_new c.state (reading_on c) fresh) refl,
    update_channel-events epoll p (reading_on c),
  )
