-- ===== src/TcpConnection/Send.antt =====
-- `send`: where the bytes of a message go.
use cpp_practise.Base.{
  ℕ, ◌+◌, ◌^◌, ◌≤◌, ◌<◌, true, false, not, ◌&&◌, List, [], ◌∷◌, ◌++◌, some, ◌≡◌, ◌⊎◌, inl, inr,
  refl, sym, arith, length, length-append, length-drop, take, drop, take-append-drop, ◌==◌, ltb,
  if◌then◌else◌, ap, Bool-cases, append-nil, add_size,
}
use cpp_practise.Buffer.Valid.{contents}
use cpp_practise.Buffer.Append.{append_lem}
use cpp_practise.Channel.{has_write}
use cpp_practise.Poller.{Epoll}
use cpp_practise.TcpConnection.{
  Connection, on_high_water_mark, on_write_complete, Call, call, call_high_water_mark, Written,
  wrote, write_failed, Outcome, quiet, pending, watch_writing, high_water_calls, keep_rest,
  after_write, send, writes_at_once,
}
use cpp_practise.TcpConnection.Sound.{IsSound, pending-length, watch_writing-IsSound}

-- `write` takes no more than it is given.
abbrev pub Within : Written → ℕ → Type 0
Within (wrote n) len = n ≤ len
Within (write_failed e) len = Unit

-- The bytes of a message that `send` keeps or sends: all of them, unless bytes are already waiting or
-- `write` fails.
abbrev pub accepted_by : Written → List ℕ → List ℕ
accepted_by (wrote n) message = message
accepted_by (write_failed e) message = []

module _ {K : Type 0} (epoll : Epoll K) where
  abbrev pub accepted : (List ℕ → Written) → Connection K → List ℕ → List ℕ
  accepted write c message =
      if length (contents c.output) == 0 then accepted_by (write message) message else []

  -- The high-water mark is off, or its callback is set.
  abbrev pub MarkReady : Connection K → Type 0
  MarkReady c = (c.high_water_mark ≡ 0) ⊎ (c.is_set on_high_water_mark ≡ true)

  high_water_calls_lem :
      (c : Connection K) (remain : ℕ)
      → MarkReady c
      → (calls : List Call) × (high_water_calls epoll c remain ≡ some calls)
  unfolding high_water_calls
  high_water_calls_lem c remain (inl off) = ([], ground arith)
  high_water_calls_lem c remain (inr set) =
      elim (Bool-cases
        (ltb c.high_water_mark (add_size (pending c) remain) && not (c.high_water_mark == 0))) [
          | inl over ↦ (call_high_water_mark (add_size (pending c) remain) ∷ [], rw (over, set))
          | inr under ↦ ([], rw under)
        ]

  -- `write` is tried exactly if nothing is waiting.
  at_once :
      (c : Connection K)
      → IsSound epoll c
      → has_write c.channel ≡ false
      → writes_at_once epoll c ≡ true
  unfolding writes_at_once
  at_once c s off = ground (arith, s.waiting, pending-length c s.valid)

  not_at_once :
      (c : Connection K)
      → IsSound epoll c
      → has_write c.channel ≡ true
      → writes_at_once epoll c ≡ false
  unfolding writes_at_once
  not_at_once c s on = ground arith

  keep_rest_lem :
      (c : Connection K) (rest : List ℕ)
      → IsSound epoll c
      → MarkReady c
      → has_write c.channel ≡ false
      → c.output.write_index + length rest < 2 ^ 31
      → (r : Connection K × List Call) × (keep_rest epoll c rest ≡ some r)
        × IsSound epoll r.0
        × (contents r.0.output ≡ contents c.output ++ rest)
  unfolding keep_rest
  keep_rest_lem c [] s m off h = ((c, []), refl, s, sym (append-nil (contents c.output)))
  keep_rest_lem c (x ∷ xs) s m off h =
      let (calls, e) = high_water_calls_lem c (length (x ∷ xs)) m in
      let (b, e', v, held, _, _) = append_lem (x ∷ xs) s.valid h in
      let c' : Connection K = record c { output = b } in
      (
        (watch_writing epoll c', calls),
        rw (e, e', off),
        watch_writing-IsSound epoll c' v s.synced
            (omega (arith, ap length held, length-append (contents c.output) (x ∷ xs))),
        held,
      )

  some_waiting :
      (c : Connection K)
      → IsSound epoll c
      → has_write c.channel ≡ true
      → (length (contents c.output) == 0) ≡ false
  some_waiting c s on = ground (arith, s.waiting)

  nothing_waiting :
      (c : Connection K)
      → IsSound epoll c
      → has_write c.channel ≡ false
      → length (contents c.output) ≡ 0
  nothing_waiting c s off = ground (arith, s.waiting)

  empty_of_length : (xs : List ℕ) → length xs ≡ 0 → xs ≡ []
  empty_of_length [] h = refl
  empty_of_length (x ∷ xs) h = absurd (omega arith)

  after_write_lem :
      (c : Connection K) (message : List ℕ) (r : Written)
      → IsSound epoll c
      → MarkReady c
      → has_write c.channel ≡ false
      → c.output.write_index + length message < 2 ^ 31
      → Within r (length message)
      → (o : Outcome K) × (after_write epoll c message r ≡ some o)
        × IsSound epoll o.conn
        × (o.sent ++ contents o.conn.output ≡ accepted_by r message)
  unfolding after_write
  after_write_lem c message (write_failed e) s m off h w =
      (quiet c [], refl, s, empty_of_length (contents c.output) (nothing_waiting c s off))
  after_write_lem c message (wrote n) s m off h w =
      let (r, e, s', held) =
        keep_rest_lem c (drop n message) s m off (omega (arith, length-drop n message)) in
      (
        record {
          conn = r.0;
          calls =
              (if length message == n && c.is_set on_write_complete
                then call on_write_complete ∷ []
                else [])
              ++ r.1;
          sent = take n message;
          logged = false;
        },
        rw e,
        s',
        rw (held, empty_of_length (contents c.output) (nothing_waiting c s off))
            (take-append-drop n message),
      )

  -- `send` on a connection that watches for space exactly while bytes are waiting, for every outcome of
  -- `write`, with a high-water mark that is off or whose callback is set, and indices that stay an
  -- `int`: it does not fault and keeps that invariant. The bytes that `write` took, followed by those
  -- waiting, are the bytes that were waiting followed by the accepted ones: the whole message if
  -- nothing was waiting and `write` took some number of bytes. A message sent while bytes are waiting,
  -- or whose `write` fails with any `errno`, is lost whole.
  pub send_lem :
      {c : Connection K} (write : List ℕ → Written) (message : List ℕ)
      → IsSound epoll c
      → MarkReady c
      → c.output.write_index + length message < 2 ^ 31
      → Within (write message) (length message)
      → (o : Outcome K) × (send epoll write c message ≡ some o)
        × IsSound epoll o.conn
        × (o.sent ++ contents o.conn.output ≡ contents c.output ++ accepted write c message)
  unfolding send
  send_lem {c} write message s m h w = elim (Bool-cases (has_write c.channel)) [
    | inl on ↦ (
      quiet c [],
      rw (not_at_once c s on),
      s,
      rw (some_waiting c s on) (sym (append-nil (contents c.output))),
    )
    | inr off ↦
        (let (o, e, s', held) = after_write_lem c message (write message) s m off h w in
          let nothing = nothing_waiting c s off in
          (o, rw (at_once c s off) e, s', rw (empty_of_length (contents c.output) nothing) held))
  ]
