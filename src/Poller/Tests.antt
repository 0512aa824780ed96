-- ===== src/Poller/Tests.antt =====
-- Channels and the poller on small inputs.
use cpp_practise.Base.{true, false, some, List, [], ◌∷◌, none, ◌≡◌, refl}
use cpp_practise.Channel.{Channel, on_close, on_read, make, no_revents, handle_event}
use cpp_practise.Poller.{Poller, Waited, events}
use cpp_practise.Poller.Kernel.{Table, table_epoll}
use cpp_practise.Poller.Watch.{Kept}
use cpp_practise.Poller.Requests.{
  Request, Wish, wish_all, IsAsked, read_on, write_on, write_off, all_off, gone, serve_all,
  serve_all_lem,
}

abbrev idle : Poller Table
idle = record { kernel = λ fd. none; channels = λ fd. none; failures = 0 }

abbrev socket : Channel
socket = record (make 100 7) { is_set = λ k. true }

abbrev hung_up : Channel
hung_up = record socket { revents = record no_revents { pollhup = true; pollrdhup = true } }

hung_up_calls : handle_event hung_up ≡ on_close ∷ on_read ∷ []
unfolding handle_event
hung_up_calls = refl

abbrev requests : List Request
requests = read_on ∷ write_on ∷ write_off ∷ all_off ∷ write_on ∷ gone ∷ read_on ∷ []

abbrev nothing : Wish
nothing = record { reads = false; writes = false; watched = none }

all_wishes : wish_all requests nothing ≡ record {
  reads = true;
  writes = true;
  watched = some (record { reads = true; writes = true });
}
unfolding wish_all
all_wishes = refl

serve_all_lem_example :
    Kept table_epoll idle socket
      (serve_all table_epoll requests idle socket).0
      (serve_all table_epoll requests idle socket).1
    × IsAsked table_epoll
        (wish_all requests nothing)
        (serve_all table_epoll requests idle socket).0
        (serve_all table_epoll requests idle socket).1
serve_all_lem_example =
    serve_all_lem table_epoll requests idle socket nothing refl
      (record { events = refl; watched = refl })

abbrev two_events : Waited
two_events = events ((100, no_revents) ∷ (101, no_revents) ∷ [])
