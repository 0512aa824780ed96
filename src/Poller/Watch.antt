-- ===== src/Poller/Watch.antt =====
-- net/Epoller.cpp: a channel's state and the entry that the kernel has for its descriptor.
use cpp_practise.Base.{
  ℕ, Option, none, some, if◌then◌else◌, ◌≡◌, ◌≢◌, refl, arith, Bool-cases, inl, inr,
}
use cpp_practise.Channel.{Channel, State, new, added, deleted, is_none_event}
use cpp_practise.Poller.{
  Interest, Operation, ctl_add, ctl_mod, ctl_del, Epoll, Poller, update_map, control_epoll,
  update_added, update_absent, update_in, update_channel, delete_in, remove_channel,
}

-- The kernel's entry for a channel in a state.
abbrev pub Entry : State → Option Interest → ℕ → Type 0
Entry added o self = (e : Interest) × (o ≡ some e) × (e.ptr ≡ self)
Entry new o self = o ≡ none
Entry deleted o self = o ≡ none

-- What the next `update` of a channel in a state makes of the entry.
abbrev pub updated : State → Channel → Option Interest
updated new c = some (record { events = c.events; ptr = c.self })
updated deleted c = some (record { events = c.events; ptr = c.self })
updated added c =
    if is_none_event c then none else some (record { events = c.events; ptr = c.self })

module _ {K : Type 0} (epoll : Epoll K) where
  abbrev pub entry : Poller K → ℕ → Option Interest
  entry p fd = epoll.interest p.kernel fd

  abbrev pub IsSynced : Poller K → Channel → Type 0
  IsSynced p c = Entry c.state (entry p c.fd) c.self

  -- What an operation on a channel leaves: the states agree, no call failed, and the other
  -- descriptors are watched as before.
  pub record Kept (p : Poller K) (c : Channel) (p' : Poller K) (c' : Channel) : Type 0 where
    pub synced : IsSynced p' c'
    pub no_failure : p'.failures ≡ p.failures
    pub same_fd : c'.fd ≡ c.fd
    pub same_self : c'.self ≡ c.self
    pub others : (fd : ℕ) → c.fd ≢ fd → entry p' fd ≡ entry p fd

  control_others :
      (op : Operation) (p : Poller K) (c : Channel) (fd : ℕ)
      → c.fd ≢ fd
      → entry (control_epoll epoll op p c) fd ≡ entry p fd
  unfolding control_epoll
  control_others op p c fd h = epoll.ctl-others op p.kernel c.fd fd _ h

  control_add :
      (p : Poller K) (c : Channel)
      → entry p c.fd ≡ none
      → ((control_epoll epoll ctl_add p c).failures ≡ p.failures)
        × (entry (control_epoll epoll ctl_add p c) c.fd
            ≡ some (record { events = c.events; ptr = c.self }))
  unfolding control_epoll
  control_add p c h =
      let (ok, e) = epoll.ctl-add p.kernel c.fd (record { events = c.events; ptr = c.self }) h in
      (rw ok, e)

  control_mod :
      (p : Poller K) (c : Channel) (e : Interest)
      → entry p c.fd ≡ some e
      → ((control_epoll epoll ctl_mod p c).failures ≡ p.failures)
        × (entry (control_epoll epoll ctl_mod p c) c.fd
            ≡ some (record { events = c.events; ptr = c.self }))
  unfolding control_epoll
  control_mod p c e h =
      let (ok, e') = epoll.ctl-mod p.kernel c.fd (record { events = c.events; ptr = c.self }) e h in
      (rw ok, e')

  control_del :
      (p : Poller K) (c : Channel) (e : Interest)
      → entry p c.fd ≡ some e
      → ((control_epoll epoll ctl_del p c).failures ≡ p.failures)
        × (entry (control_epoll epoll ctl_del p c) c.fd ≡ none)
  unfolding control_epoll
  control_del p c e h =
      let (ok, e') = epoll.ctl-del p.kernel c.fd (record { events = c.events; ptr = c.self }) e h in
      (rw ok, e')

  update_absent_lem :
      (p : Poller K) (c : Channel)
      → entry p c.fd ≡ none
      → Kept p c (update_absent epoll p c).0 (update_absent epoll p c).1
        × (entry (update_absent epoll p c).0 c.fd ≡ updated new c)
  unfolding update_absent
  update_absent_lem p c h =
      let p' : Poller K = record p { channels = update_map p.channels c.fd (some c.self) } in
      let (count, e) = control_add p' c h in
      (
        record {
          synced = (record { events = c.events; ptr = c.self }, e, refl);
          no_failure = count;
          same_fd = refl;
          same_self = refl;
          others = control_others ctl_add p' c;
        },
        e,
      )

  update_added_lem :
      (p : Poller K) (c : Channel)
      → c.state ≡ added
      → Entry added (entry p c.fd) c.self
      → Kept p c (update_added epoll p c).0 (update_added epoll p c).1
        × (entry (update_added epoll p c).0 c.fd ≡ updated added c)
  unfolding update_added
  update_added_lem p c st (e, h, same) = elim (Bool-cases (is_none_event c)) [
    | inl off ↦
        (let (count, gone) = control_del p c e h in
          rw off (
            record {
              synced = gone;
              no_failure = count;
              same_fd = refl;
              same_self = refl;
              others = control_others ctl_del p c;
            },
            gone,
          ))
    | inr on ↦
        (let (count, there) = control_mod p c e h in
          rw on (
            record {
              synced = rw st (_, there, refl);
              no_failure = count;
              same_fd = refl;
              same_self = refl;
              others = control_others ctl_mod p c;
            },
            there,
          ))
  ]

  update_in_lem :
      (st : State) (p : Poller K) (c : Channel)
      → c.state ≡ st
      → Entry st (entry p c.fd) c.self
      → Kept p c (update_in epoll st p c).0 (update_in epoll st p c).1
        × (entry (update_in epoll st p c).0 c.fd ≡ updated st c)
  unfolding update_in
  update_in_lem new p c e h = update_absent_lem p c h
  update_in_lem deleted p c e h = update_absent_lem p c h
  update_in_lem added p c e h = update_added_lem p c e h

  -- `updateChannel` on a channel whose state tells whether it is watched: this stays so, no call of
  -- `epoll_ctl` fails, the other descriptors are watched as before, and the kernel then watches the
  -- channel for its present events, except that one that was watched and has no events is dropped.
  pub update_channel_lem :
      (p : Poller K) (c : Channel)
      → IsSynced p c
      → Kept p c (update_channel epoll p c).0 (update_channel epoll p c).1
        × (entry (update_channel epoll p c).0 c.fd ≡ updated c.state c)
  unfolding update_channel
  update_channel_lem p c s = update_in_lem c.state p c refl s

  delete_in_lem :
      (st : State) (p : Poller K) (c : Channel)
      → Entry st (entry p c.fd) c.self
      → ((delete_in epoll st p c).failures ≡ p.failures)
        × (entry (delete_in epoll st p c) c.fd ≡ none)
        × ((fd : ℕ) → c.fd ≢ fd → entry (delete_in epoll st p c) fd ≡ entry p fd)
  unfolding delete_in
  delete_in_lem new p c h = (refl, h, λ fd ne. refl)
  delete_in_lem deleted p c h = (refl, h, λ fd ne. refl)
  delete_in_lem added p c (e, h, same) =
      let (count, gone) = control_del p c e h in (count, gone, control_others ctl_del p c)

  delete_in-channels :
      (st : State) (p : Poller K) (c : Channel) → (delete_in epoll st p c).channels ≡ p.channels
  unfolding delete_in control_epoll
  delete_in-channels new p c = refl
  delete_in-channels deleted p c = refl
  delete_in-channels added p c = refl

  update_map_self : (f : ℕ → Option ℕ) (i : ℕ) (v : Option ℕ) → update_map f i v i ≡ v
  update_map_self f i v = ground arith

  -- `removeChannel` on such a channel: the kernel no longer watches it, its state says so, the map has
  -- no entry for it, no call of `epoll_ctl` fails, and the other descriptors are watched as before.
  pub remove_channel_lem :
      (p : Poller K) (c : Channel)
      → IsSynced p c
      → Kept p c (remove_channel epoll p c).0 (remove_channel epoll p c).1
        × (entry (remove_channel epoll p c).0 c.fd ≡ none)
        × ((remove_channel epoll p c).1.state ≡ new)
        × ((remove_channel epoll p c).0.channels c.fd ≡ none)
  unfolding remove_channel
  remove_channel_lem p c s =
      let p' : Poller K = record p { channels = update_map p.channels c.fd none } in
      let (count, gone, others) = delete_in_lem c.state p' c s in
      (
        record {
          synced = gone;
          no_failure = count;
          same_fd = refl;
          same_self = refl;
          others = others;
        },
        gone,
        refl,
        rw (delete_in-channels c.state p' c) (update_map_self p.channels c.fd none),
      )
