-- ===== src/Poller/Enable.antt =====
-- net/Channel.cpp over net/Epoller.cpp: what `enableReading`, `enableWriting` and `disableWriting` leave.
use cpp_practise.Base.{◌≡◌, refl, arith}
use cpp_practise.Channel.{
  Channel, Events, State, new, added, deleted, reading_on, writing_on, writing_off,
}
use cpp_practise.Poller.{
  Epoll, Poller, update_added, update_absent, update_in, update_channel, enable_reading,
  enable_writing, disable_writing,
}
use cpp_practise.Poller.Watch.{entry, IsSynced, Kept, updated, update_channel_lem}

module _ {K : Type 0} (epoll : Epoll K) where
  pub Kept-events :
      {p p' : Poller K} (c : Channel) {c' : Channel} (ev : Events)
      → Kept epoll p (record c { events = ev }) p' c'
      → Kept epoll p c p' c'
  Kept-events c ev k = record {
    synced = k.synced;
    no_failure = k.no_failure;
    same_fd = k.same_fd;
    same_self = k.same_self;
    others = k.others;
  }

  update_in-events :
      (st : State) (p : Poller K) (c : Channel) → (update_in epoll st p c).1.events ≡ c.events
  unfolding update_in update_absent update_added
  update_in-events new p c = refl
  update_in-events deleted p c = refl
  update_in-events added p c = ground arith

  -- `update` leaves what the channel is to be watched for.
  pub update_channel-events :
      (p : Poller K) (c : Channel) → (update_channel epoll p c).1.events ≡ c.events
  unfolding update_channel
  update_channel-events p c = update_in-events c.state p c

  pub enable_writing_lem :
      (p : Poller K) (c : Channel)
      → IsSynced epoll p c
      → Kept epoll p c (enable_writing epoll p c).0 (enable_writing epoll p c).1
        × ((enable_writing epoll p c).1.events ≡ (writing_on c).events)
  unfolding enable_writing
  enable_writing_lem p c s = (
    Kept-events c _ (update_channel_lem epoll p (writing_on c) s).0,
    update_channel-events p (writing_on c),
  )

  pub disable_writing_lem :
      (p : Poller K) (c : Channel)
      → IsSynced epoll p c
      → Kept epoll p c (disable_writing epoll p c).0 (disable_writing epoll p c).1
        × ((disable_writing epoll p c).1.events ≡ (writing_off c).events)
  unfolding disable_writing
  disable_writing_lem p c s = (
    Kept-events c _ (update_channel_lem epoll p (writing_off c) s).0,
    update_channel-events p (writing_off c),
  )

  pub enable_reading_lem :
      (p : Poller K) (c : Channel)
      → IsSynced epoll p c
      → Kept epoll p c (enable_reading epoll p c).0 (enable_reading epoll p c).1
        × (entry epoll (enable_reading epoll p c).0 c.fd ≡ updated c.state (reading_on c))
  unfolding enable_reading
  enable_reading_lem p c s =
      let (k, e) = update_channel_lem epoll p (reading_on c) s in (Kept-events c _ k, e)
