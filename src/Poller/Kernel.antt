-- ===== src/Poller/Kernel.antt =====
-- A kernel that does what the manual says: the interest list is a function from descriptors. It shows
-- that the interface of Poller.antt can be met.
use cpp_practise.Base.{
  ap, ◌∙◌, ℕ, Bool, true, false, Option, none, some, if◌then◌else◌, ◌==◌, ◌≡◌, ◌≢◌, arith,
}
use cpp_practise.Poller.{Interest, Operation, ctl_add, ctl_mod, ctl_del, Epoll, Closing}

abbrev pub Table : Type 0
Table = ℕ → Option Interest

abbrev put : Table → ℕ → Option Interest → Table
put k fd e fd' = if fd == fd' then e else k fd'

abbrev answer : Operation → Option Interest → Interest → Bool × Option Interest
answer ctl_add none e = (true, some e)
answer ctl_add (some e') e = (false, some e')
answer ctl_mod none e = (false, none)
answer ctl_mod (some e') e = (true, some e)
answer ctl_del none e = (false, none)
answer ctl_del (some e') e = (true, none)

abbrev table_ctl : Operation → ℕ → Interest → Table → Bool × Table
table_ctl op fd e k = ((answer op (k fd) e).0, put k fd (answer op (k fd) e).1)

put_self : (k : Table) (fd : ℕ) (e : Option Interest) → put k fd e fd ≡ e
put_self k fd e = ground arith

pub put_others : (k : Table) (fd fd' : ℕ) (e : Option Interest) → fd ≢ fd' → put k fd e fd' ≡ k fd'
put_others k fd fd' e h = ground arith

pub table_add :
    (k : Table) (fd : ℕ) (e : Interest)
    → k fd ≡ none
    → ((table_ctl ctl_add fd e k).0 ≡ true) × ((table_ctl ctl_add fd e k).1 fd ≡ some e)
table_add k fd e h =
    (ap (λ o. (answer ctl_add o e).0) h, put_self k fd _ ∙ ap (λ o. (answer ctl_add o e).1) h)

pub table_mod :
    (k : Table) (fd : ℕ) (e e' : Interest)
    → k fd ≡ some e'
    → ((table_ctl ctl_mod fd e k).0 ≡ true) × ((table_ctl ctl_mod fd e k).1 fd ≡ some e)
table_mod k fd e e' h =
    (ap (λ o. (answer ctl_mod o e).0) h, put_self k fd _ ∙ ap (λ o. (answer ctl_mod o e).1) h)

pub table_del :
    (k : Table) (fd : ℕ) (e e' : Interest)
    → k fd ≡ some e'
    → ((table_ctl ctl_del fd e k).0 ≡ true) × ((table_ctl ctl_del fd e k).1 fd ≡ none)
table_del k fd e e' h =
    (ap (λ o. (answer ctl_del o e).0) h, put_self k fd _ ∙ ap (λ o. (answer ctl_del o e).1) h)

abbrev pub table_epoll : Epoll Table
table_epoll = record {
  ctl = table_ctl;
  interest = λ k. k;
  ctl-add = table_add;
  ctl-mod = table_mod;
  ctl-del = table_del;
  ctl-others = λ op k fd fd' e h. put_others k fd fd' (answer op (k fd) e).1 h;
}

-- It forgets a descriptor that is closed.
abbrev close_fd : ℕ → Table → Table
close_fd fd k j = if fd == j then none else k j

pub close_fd_self : (k : Table) (fd : ℕ) → close_fd fd k fd ≡ none
close_fd_self k fd = ground arith

pub close_fd_others : (k : Table) (fd j : ℕ) → fd ≢ j → close_fd fd k j ≡ k j
close_fd_others k fd j ne = ground arith

abbrev pub table_closing : Closing table_epoll
table_closing = record {
  close = close_fd;
  interest-close = close_fd_self;
  close_others = close_fd_others;
}
