-- ===== src/Poller.antt =====
-- net/Epoller.h and net/Epoller.cpp, with the operations of net/Channel.h that reach the poller
-- through net/EventLoop.cpp. The kernel's side of epoll is outside the program: an interface.
pub mod Watch
pub mod Enable
pub mod Writing
pub mod Visit
pub mod Requests
pub mod Wait
pub mod Kernel
mod Tests
use cpp_practise.Base.{
  ℕ, ◌+◌, ◌*◌, Bool, true, false, not, List, [], ◌∷◌, Option, none, some, if◌then◌else◌, ◌==◌, ◌≡◌,
  ◌≢◌, length,
}
use cpp_practise.Channel.{
  Channel, Events, Revents, State, new, added, deleted, is_none_event, reading_on, reading_off,
  writing_on, writing_off, disable_all, set_revents,
}

-- `struct epoll_event` as `controlEpoll` fills it.
pub record Interest : Type 0 where
  pub events : Events
  pub ptr : ℕ

pub data Operation : Type 0 where
  ctl_add ctl_mod ctl_del : Operation

-- The kernel: the interest list of an epoll descriptor, and what the manual says of `epoll_ctl` on a
-- valid descriptor with resources left. A descriptor that is not watched can be added; one that is can
-- be modified and deleted; no other is affected.
pub record Epoll (K : Type 0) : Type 0 where
  pub ctl : Operation → ℕ → Interest → K → Bool × K
  pub interest : K → ℕ → Option Interest
  pub ctl-add :
      (k : K) (fd : ℕ) (e : Interest)
      → interest k fd ≡ none
      → ((ctl ctl_add fd e k).0 ≡ true) × (interest (ctl ctl_add fd e k).1 fd ≡ some e)
  pub ctl-mod :
      (k : K) (fd : ℕ) (e e' : Interest)
      → interest k fd ≡ some e'
      → ((ctl ctl_mod fd e k).0 ≡ true) × (interest (ctl ctl_mod fd e k).1 fd ≡ some e)
  pub ctl-del :
      (k : K) (fd : ℕ) (e e' : Interest)
      → interest k fd ≡ some e'
      → ((ctl ctl_del fd e k).0 ≡ true) × (interest (ctl ctl_del fd e k).1 fd ≡ none)
  pub ctl-others :
      (op : Operation) (k : K) (fd fd' : ℕ) (e : Interest)
      → fd ≢ fd'
      → interest (ctl op fd e k).1 fd' ≡ interest k fd'

-- What the kernel does when a descriptor is closed: `epoll` forgets it (epoll(7)).
pub record Closing {K : Type 0} (epoll : Epoll K) : Type 0 where
  pub close : ℕ → K → K
  pub interest-close : (k : K) (fd : ℕ) → epoll.interest (close fd k) fd ≡ none
  pub close_others :
      (k : K) (fd fd' : ℕ) → fd ≢ fd' → epoll.interest (close fd k) fd' ≡ epoll.interest k fd'

-- `_channels` is a map from descriptors to channels; `failures` counts the failed calls of
-- `epoll_ctl`, which are only logged.
pub record Poller (K : Type 0) : Type 0 where
  pub kernel : K
  pub channels : ℕ → Option ℕ
  pub failures : ℕ

abbrev pub update_map : (ℕ → Option ℕ) → ℕ → Option ℕ → ℕ → Option ℕ
update_map f i v j = if i == j then v else f j

module _ {K : Type 0} (epoll : Epoll K) where
  unfoldable pub control_epoll : Operation → Poller K → Channel → Poller K
  control_epoll op p c =
      let (done, k) = epoll.ctl op c.fd (record { events = c.events; ptr = c.self }) p.kernel in
      record p { kernel = k; failures = if done then p.failures else p.failures + 1 }

  update_added : Poller K → Channel → Poller K × Channel
  unfolding control_epoll
  update_added p c =
      if is_none_event c
      then (control_epoll ctl_del p c, record c { state = deleted })
      else (control_epoll ctl_mod p c, c)

  update_absent : Poller K → Channel → Poller K × Channel
  unfolding control_epoll
  update_absent p c =
      let p' = record p { channels = update_map p.channels c.fd (some c.self) } in
      (control_epoll ctl_add p' c, record c { state = added })

  update_in : State → Poller K → Channel → Poller K × Channel
  unfolding update_added update_absent
  update_in new p c = update_absent p c
  update_in deleted p c = update_absent p c
  update_in added p c = update_added p c

  -- `Epoller::updateChannel`
  pub update_channel : Poller K → Channel → Poller K × Channel
  unfolding update_in
  update_channel p c = update_in c.state p c

  delete_in : State → Poller K → Channel → Poller K
  unfolding control_epoll
  delete_in added p c = control_epoll ctl_del p c
  delete_in new p c = p
  delete_in deleted p c = p

  -- `Epoller::removeChannel`
  pub remove_channel : Poller K → Channel → Poller K × Channel
  unfolding delete_in
  remove_channel p c = (
    delete_in c.state (record p { channels = update_map p.channels c.fd none }) c,
    record c { state = new },
  )

  pub enable_reading : Poller K → Channel → Poller K × Channel
  unfolding update_channel
  enable_reading p c = update_channel p (reading_on c)

  pub disable_reading : Poller K → Channel → Poller K × Channel
  unfolding update_channel
  disable_reading p c = update_channel p (reading_off c)

  pub enable_writing : Poller K → Channel → Poller K × Channel
  unfolding update_channel
  enable_writing p c = update_channel p (writing_on c)

  pub disable_writing : Poller K → Channel → Poller K × Channel
  unfolding update_channel
  disable_writing p c = update_channel p (writing_off c)

-- `::close` of a descriptor, if there is one.
abbrev pub close : {K : Type 0} {epoll : Epoll K} → Closing epoll → Option ℕ → Poller K → Poller K
close closing none p = p
close closing (some fd) p = record p { kernel = closing.close fd p.kernel }

-- What `epoll_wait` returns: an `errno`, or the events of the array, each the pointer that was given to
-- `epoll_ctl` and what happened. A timeout gives no event.
pub data Waited : Type 0 where
  interrupted : Waited
  failed : ℕ → Waited
  events : List (ℕ × Revents) → Waited

-- `Epoller::poll`: the size of `_events` afterwards, the channels with what is set in each, and whether
-- an error is logged.
pub poll : ℕ → Waited → ℕ × List (ℕ × Revents) × Bool
poll size interrupted = (size, [], false)
poll size (failed e) = (size, [], true)
poll size (events []) = (size, [], false)
poll size (events (e ∷ es)) = (if length (e ∷ es) == size then size * 2 else size, e ∷ es, false)
