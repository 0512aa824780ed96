-- ===== src/Channel.antt =====
-- net/Channel.h and net/Channel.cpp: what a descriptor is watched for, and the dispatch of what
-- happened on it. The operations that reach the poller are in Poller.antt.
pub mod Dispatch
use cpp_practise.Base.{ℕ, Bool, true, false, ◌&&◌, ◌||◌, not, List, [], ◌∷◌, ◌++◌, if◌then◌else◌}

-- `_events` is a union of READ and WRITE, so two flags tell it.
pub record Events : Type 0 where
  pub reads : Bool
  pub writes : Bool

-- The bits of `_revents` that the source tests.
pub record Revents : Type 0 where
  pub pollin : Bool
  pub pollpri : Bool
  pub pollout : Bool
  pub pollerr : Bool
  pub pollhup : Bool
  pub pollnval : Bool
  pub pollrdhup : Bool

pub data State : Type 0 where
  new added deleted : State

-- The callbacks, and whether each is set.
pub data Callback : Type 0 where
  on_close on_error on_read on_write : Callback

-- `self` is the channel's address, which the kernel and the poller keep.
pub record Channel : Type 0 where
  pub self : ℕ
  pub fd : ℕ
  pub events : Events
  pub revents : Revents
  pub state : State
  pub is_set : Callback → Bool

abbrev pub no_events : Events
no_events = record { reads = false; writes = false }

abbrev pub no_revents : Revents
no_revents = record {
  pollin = false;
  pollpri = false;
  pollout = false;
  pollerr = false;
  pollhup = false;
  pollnval = false;
  pollrdhup = false;
}

-- `Channel::Channel`: no callback is set.
abbrev pub make : ℕ → ℕ → Channel
make self fd = record {
  self = self;
  fd = fd;
  events = no_events;
  revents = no_revents;
  state = new;
  is_set = λ _. false;
}

abbrev pub is_none_event : Channel → Bool
is_none_event c = not c.events.reads && not c.events.writes

abbrev pub has_write : Channel → Bool
has_write c = c.events.writes

abbrev pub has_read : Channel → Bool
has_read c = c.events.reads

abbrev pub set_revents : Channel → Revents → Channel
set_revents c r = record c { revents = r }

-- The changes of `_events`; all but `disableAll` are followed by `update`.
abbrev pub reading_on : Channel → Channel
reading_on c = record c { events = record { reads = true; writes = c.events.writes } }

abbrev pub reading_off : Channel → Channel
reading_off c = record c { events = record { reads = false; writes = c.events.writes } }

abbrev pub writing_on : Channel → Channel
writing_on c = record c { events = record { reads = c.events.reads; writes = true } }

abbrev pub writing_off : Channel → Channel
writing_off c = record c { events = record { reads = c.events.reads; writes = false } }

abbrev pub disable_all : Channel → Channel
disable_all c = record c { events = no_events }

-- A callback is called if it is set.
abbrev pub call : Channel → Callback → List Callback
call c k = if c.is_set k then k ∷ [] else []

-- `handleEvent`: the callbacks that it calls, in order.
unfoldable pub handle_event : Channel → List Callback
handle_event c =
    (if c.revents.pollhup && not c.revents.pollin then call c on_close else [])
    ++ ((if c.revents.pollerr || c.revents.pollnval then call c on_error else [])
        ++ ((if c.revents.pollin || (c.revents.pollpri || c.revents.pollrdhup)
              then call c on_read
              else [])
            ++ (if c.revents.pollout then call c on_write else [])))
