-- ===== src/TcpConnection/Stream.antt =====
-- The bytes that a connection sends over its life: every accepted message, in order, once.
use mathlib.Core.Option.{some-injective}
use cpp_practise.Base.{
  ℕ, ◌+◌, ◌^◌, ◌<◌, List, [], ◌++◌, append-nil, append_assoc, some, ◌≡◌, sym, ◌∙◌, ap, length,
}
use mathlib.Core.Path.{subst}
use cpp_practise.Buffer.Valid.{contents}
use cpp_practise.Poller.{Epoll}
use cpp_practise.TcpConnection.{Connection, Written, Outcome, send, handle_write}
use cpp_practise.TcpConnection.Sound.{IsSound}
use cpp_practise.TcpConnection.Send.{Within, MarkReady, accepted, send_lem}
use cpp_practise.TcpConnection.Drain.{handle_write_lem}

module _ {K : Type 0} (epoll : Epoll K) where
  -- A connection goes from `c` to `c'` by calls of `send` and `handleWrite` in any order: `sent` are the
  -- bytes that the calls of `write` took, and `taken` the messages that `send` accepted. The premises
  -- are those of the calls: a message that fits, and a `write` that takes no more than it is given.
  pub data Run (c : Connection K) : Connection K → List ℕ → List ℕ → Type 0 where
    start : Run c c [] []
    sends :
        {c' : Connection K} {sent taken : List ℕ} (o : Outcome K) (write : List ℕ → Written)
        (message : List ℕ)
        → Run c c' sent taken
        → MarkReady epoll c'
        → c'.output.write_index + length message < 2 ^ 31
        → Within (write message) (length message)
        → send epoll write c' message ≡ some o
        → Run c o.conn (sent ++ o.sent) (taken ++ accepted epoll write c' message)
    drains :
        {c' : Connection K} {sent taken : List ℕ} (o : Outcome K) (write : List ℕ → Written)
        → Run c c' sent taken
        → Within (write (contents c'.output)) (length (contents c'.output))
        → handle_write epoll write c' ≡ some o
        → Run c o.conn (sent ++ o.sent) taken

  -- One more call: `more` bytes went out, and the message `m` was accepted.
  regroup :
      (s more left held t m base : List ℕ)
      → more ++ left ≡ held ++ m
      → s ++ held ≡ base ++ t
      → (s ++ more) ++ left ≡ base ++ (t ++ m)
  regroup s more left held t m base p q =
      append_assoc s more left
      ∙ ap (λ x. s ++ x) p
      ∙ sym (append_assoc s held m)
      ∙ ap (λ x. x ++ m) q
      ∙ append_assoc base t m

  pub send_keeps :
      {c : Connection K} (o : Outcome K) (write : List ℕ → Written) (message : List ℕ)
      → IsSound epoll c
      → MarkReady epoll c
      → c.output.write_index + length message < 2 ^ 31
      → Within (write message) (length message)
      → send epoll write c message ≡ some o
      → IsSound epoll o.conn
        × (o.sent ++ contents o.conn.output ≡ contents c.output ++ accepted epoll write c message)
  send_keeps {c} o write message s m h w e =
      let (o', e', s', held) = send_lem epoll write message s m h w in
      subst
        (λ (q : Outcome K).
          IsSound epoll q.conn
          × (q.sent ++ contents q.conn.output
              ≡ contents c.output ++ accepted epoll write c message))
        (some-injective o' o (sym e' ∙ e)) (s', held)

  pub handle_write_keeps :
      {c : Connection K} (o : Outcome K) (write : List ℕ → Written)
      → IsSound epoll c
      → Within (write (contents c.output)) (length (contents c.output))
      → handle_write epoll write c ≡ some o
      → IsSound epoll o.conn × (o.sent ++ contents o.conn.output ≡ contents c.output)
  handle_write_keeps {c} o write s w e =
      let (o', e', s', held, _) = handle_write_lem epoll write s w in
      subst
        (λ (q : Outcome K).
          IsSound epoll q.conn × (q.sent ++ contents q.conn.output ≡ contents c.output))
        (some-injective o' o (sym e' ∙ e)) (s', held)

  -- Over any sequence of calls of `send` and `handleWrite` on an open connection, whatever each call of
  -- `write` takes: the bytes sent, followed by those still waiting, are the bytes that waited at the
  -- beginning followed by the accepted messages, in order, with nothing lost, repeated or moved; and
  -- the connection still watches for space exactly while bytes are waiting.
  pub Run_lem :
      {c c' : Connection K} {sent taken : List ℕ}
      → IsSound epoll c
      → Run c c' sent taken
      → IsSound epoll c' × (sent ++ contents c'.output ≡ contents c.output ++ taken)
  Run_lem {c} s start = (s, sym (append-nil (contents c.output)))
  Run_lem {c} s (sends {c' = c'} {sent = sent} {taken = taken} o write message r m h w e) =
      let (s', before) = Run_lem s r in
      let (s'', after) = send_keeps o write message s' m h w e in
      (
        s'',
        regroup sent o.sent (contents o.conn.output) (contents c'.output) taken
            (accepted epoll write c' message) (contents c.output) after before,
      )
  Run_lem {c} s (drains {c' = c'} {sent = sent} {taken = taken} o write r w e) =
      let (s', before) = Run_lem s r in
      let (s'', after) = handle_write_keeps o write s' w e in
      (s'', append_assoc sent o.sent (contents o.conn.output) ∙ ap (λ x. sent ++ x) after ∙ before)
