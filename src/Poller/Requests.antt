-- ===== src/Poller/Requests.antt =====
-- net/Channel.h and net/Epoller.cpp: the requests of a channel's owner, in any order.
use cpp_practise.Base.{
  ℕ, Bool, true, false, Option, none, some, ◌≡◌, sym, ap, ap₂, not, ◌&&◌, if◌then◌else◌, List, [],
  ◌∷◌, refl, ◌∙◌,
}
use cpp_practise.Channel.{
  Channel, Events, State, new, added, deleted, reading_on, reading_off, writing_on, writing_off,
  disable_all,
}
use cpp_practise.Poller.{
  Interest, Epoll, Poller, update_channel, remove_channel, enable_reading, disable_reading,
  enable_writing, disable_writing,
}
use cpp_practise.Poller.Watch.{
  Entry, entry, updated, IsSynced, Kept, update_channel_lem, remove_channel_lem,
}
use cpp_practise.Poller.Enable.{Kept-events, update_channel-events}

-- The operations that an owner of a channel may call, in any order.
pub data Request : Type 0 where
  read_on read_off write_on write_off all_off gone : Request

-- What an owner wants to be told of, and what it has told the kernel to watch, if anything.
pub record Wish : Type 0 where
  pub reads : Bool
  pub writes : Bool
  pub watched : Option Events

-- An update: a wish for nothing ends a watch that there is; otherwise the wish is watched.
abbrev pub told : Bool → Bool → Option Events → Option Events
told false false (some old) = none
told r w _ = some (record { reads = r; writes = w })

-- Each request switches what its name says. `all_off` reaches the kernel with the next request only.
abbrev pub wish : Request → Wish → Wish
wish read_on v = record { reads = true; writes = v.writes; watched = told true v.writes v.watched }
wish read_off v = record {
  reads = false;
  writes = v.writes;
  watched = told false v.writes v.watched;
}
wish write_on v = record { reads = v.reads; writes = true; watched = told v.reads true v.watched }
wish write_off v = record {
  reads = v.reads;
  writes = false;
  watched = told v.reads false v.watched;
}
wish all_off v = record { reads = false; writes = false; watched = v.watched }
wish gone v = record v { watched = none }

unfoldable pub wish_all : List Request → Wish → Wish
wish_all [] v = v
wish_all (r ∷ rs) v = wish_all rs (wish r v)

-- The kernel's entry for what is watched, with the address of a channel.
abbrev pub as_entry : ℕ → Option Events → Option Interest
as_entry self none = none
as_entry self (some ev) = some (record { events = ev; ptr = self })

told-none : (r w : Bool) → told r w none ≡ some (record { reads = r; writes = w })
told-none true true = refl
told-none true false = refl
told-none false true = refl
told-none false false = refl

told-some :
    (self : ℕ) (r w : Bool) (old : Events)
    → (if not r && not w
        then none
        else some (record { events = record { reads = r; writes = w }; ptr = self }))
      ≡ as_entry self (told r w (some old))
told-some self true true old = refl
told-some self true false old = refl
told-some self false true old = refl
told-some self false false old = refl

-- What the next update does is what the owner's wish says.
updated-told :
    (st : State) (c : Channel) {o : Option Interest} (w : Option Events)
    → Entry st o c.self
    → o ≡ as_entry c.self w
    → updated st c ≡ as_entry c.self (told c.events.reads c.events.writes w)
updated-told new c none h e = ap (as_entry c.self) (sym (told-none c.events.reads c.events.writes))
updated-told new c (some old) h e = absurd (cc)
updated-told deleted c none h e =
    ap (as_entry c.self) (sym (told-none c.events.reads c.events.writes))
updated-told deleted c (some old) h e = absurd (cc)
updated-told added c none (i, there, _) e = absurd (cc)
updated-told added c (some old) h e = told-some c.self c.events.reads c.events.writes old

module _ {K : Type 0} (epoll : Epoll K) where
  pub serve : Request → Poller K → Channel → Poller K × Channel
  unfolding enable_reading disable_reading enable_writing disable_writing
  serve read_on p c = enable_reading epoll p c
  serve read_off p c = disable_reading epoll p c
  serve write_on p c = enable_writing epoll p c
  serve write_off p c = disable_writing epoll p c
  serve all_off p c = (p, disable_all c)
  serve gone p c = remove_channel epoll p c

  pub serve_all : List Request → Poller K → Channel → Poller K × Channel
  serve_all [] p c = (p, c)
  serve_all (r ∷ rs) p c = let (p', c') = serve r p c in serve_all rs p' c'

  Kept-trans :
      {p p' p'' : Poller K} {c c' c'' : Channel}
      → Kept epoll p c p' c'
      → Kept epoll p' c' p'' c''
      → Kept epoll p c p'' c''
  Kept-trans k l = record {
    synced = l.synced;
    no_failure = l.no_failure ∙ k.no_failure;
    same_fd = l.same_fd ∙ k.same_fd;
    same_self = l.same_self ∙ k.same_self;
    others = λ fd ne. l.others fd (rw k.same_fd ne) ∙ k.others fd ne;
  }

  -- The channel and the kernel's entry for it are as an owner's wish says.
  pub record IsAsked (v : Wish) (p : Poller K) (c : Channel) : Type 0 where
    pub events : c.events ≡ record { reads = v.reads; writes = v.writes }
    pub watched : entry epoll p c.fd ≡ as_entry c.self v.watched

  -- A change of the events, with the update behind it.
  update_lem :
      (p : Poller K) (c : Channel) (ev : Events) (reads writes : Bool) (w : Option Events)
      → ev ≡ record { reads = reads; writes = writes }
      → IsSynced epoll p c
      → entry epoll p c.fd ≡ as_entry c.self w
      → Kept epoll p c
          (update_channel epoll p (record c { events = ev })).0
          (update_channel epoll p (record c { events = ev })).1
        × IsAsked
            (record { reads = reads; writes = writes; watched = told reads writes w })
            (update_channel epoll p (record c { events = ev })).0
            (update_channel epoll p (record c { events = ev })).1
  update_lem p c ev reads writes w asked s e =
      let c1 : Channel = record c { events = ev } in
      let (k, there) = update_channel_lem epoll p c1 s in
      (
        Kept-events epoll c ev k,
        record {
          events = update_channel-events epoll p c1 ∙ asked;
          watched =
              ap (entry epoll (update_channel epoll p c1).0) k.same_fd
              ∙ there
              ∙ updated-told c.state c1 w s e
              ∙ ap₂ (λ self (x : Events). as_entry self (told x.reads x.writes w)) (sym k.same_self)
                  asked;
        },
      )

  serve_lem :
      (r : Request) (p : Poller K) (c : Channel) (v : Wish)
      → IsSynced epoll p c
      → IsAsked v p c
      → Kept epoll p c (serve r p c).0 (serve r p c).1
        × IsAsked (wish r v) (serve r p c).0 (serve r p c).1
  unfolding serve remove_channel
  serve_lem read_on p c v s a =
      update_lem p c (reading_on c).events true v.writes v.watched
        (ap (λ x. (reading_on (record c { events = x })).events) a.events) s a.watched
  serve_lem read_off p c v s a =
      update_lem p c (reading_off c).events false v.writes v.watched
        (ap (λ x. (reading_off (record c { events = x })).events) a.events) s a.watched
  serve_lem write_on p c v s a =
      update_lem p c (writing_on c).events v.reads true v.watched
        (ap (λ x. (writing_on (record c { events = x })).events) a.events) s a.watched
  serve_lem write_off p c v s a =
      update_lem p c (writing_off c).events v.reads false v.watched
        (ap (λ x. (writing_off (record c { events = x })).events) a.events) s a.watched
  serve_lem all_off p c v s a = (
    record {
      synced = s;
      no_failure = refl;
      same_fd = refl;
      same_self = refl;
      others = λ fd ne. refl;
    },
    record { events = refl; watched = a.watched },
  )
  serve_lem gone p c v s a =
      let (k, none_there, _, _) = remove_channel_lem epoll p c s in
      (k, record { events = a.events; watched = none_there })

  -- Whatever an owner asks of a channel whose state tells whether it is watched, in whatever order, no
  -- call of `epoll_ctl` fails, the state goes on telling whether the kernel watches the descriptor, and
  -- the other descriptors are watched as before. The channel's events, and those that the kernel watches
  -- its descriptor for with the address of the channel, if they agreed with a wish before, agree with
  -- what the requests make of it one after the other: each switches its own event, a request that leaves
  -- no event ends a watch, and `disableAll` reaches the kernel with the next request only.
  pub serve_all_lem :
      (rs : List Request) (p : Poller K) (c : Channel) (v : Wish)
      → IsSynced epoll p c
      → IsAsked v p c
      → Kept epoll p c (serve_all rs p c).0 (serve_all rs p c).1
        × IsAsked (wish_all rs v) (serve_all rs p c).0 (serve_all rs p c).1
  unfolding serve_all wish_all
  serve_all_lem [] p c v s a = (
    record {
      synced = s;
      no_failure = refl;
      same_fd = refl;
      same_self = refl;
      others = λ fd ne. refl;
    },
    a,
  )
  serve_all_lem (r ∷ rs) p c v s a =
      let (k, a1) = serve_lem r p c v s a in
      let (ks, last) = serve_all_lem rs (serve r p c).0 (serve r p c).1 (wish r v) k.synced a1 in
      (Kept-trans k ks, last)
