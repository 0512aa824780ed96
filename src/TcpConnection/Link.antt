-- ===== src/TcpConnection/Link.antt =====
-- Two connections at the ends of a stream of bytes: what one sends is what the user of the other gets.
use mathlib.Core.Option.{some-injective}
use mathlib.Core.Path.{subst}
use cpp_practise.Base.{
  ℕ, ◌+◌, ◌^◌, ◌<◌, List, [], ◌∷◌, ◌++◌, append_assoc, append-nil, some, ◌≡◌, sym, ◌∙◌, ap, length,
  take, drop, take-append-drop,
}
use cpp_practise.Buffer.{retrieve}
use cpp_practise.Buffer.Valid.{IsValid, contents}
use cpp_practise.Buffer.Retrieve.{retrieve_lem}
use cpp_practise.Buffer.Socket.{Delivery, delivered, failed, Fits, blocks, bytes}
use cpp_practise.Poller.{Epoll}
use cpp_practise.TcpConnection.{
  Connection, Written, Outcome, send, handle_write, handle_read, on_connection, on_message,
  on_close,
}
use cpp_practise.TcpConnection.Sound.{IsSound}
use cpp_practise.TcpConnection.Send.{Within, MarkReady, accepted}
use cpp_practise.TcpConnection.Stream.{send_keeps, handle_write_keeps}
use cpp_practise.TcpConnection.Close.{HasCallbacks, handle_read_lem}

-- The two ends, the bytes on their way, the messages that `send` accepted, and the bytes that the receiver's
-- user has retrieved.
pub record Link (K : Type 0) : Type 0 where
  pub sender : Connection K
  pub receiver : Connection K
  pub wire : List ℕ
  pub taken : List ℕ
  pub retrieved : List ℕ

-- A delivery that is no end of the stream, and what it leaves of the bytes on their way.
abbrev pub Delivers : Delivery → List ℕ → List ℕ → Type 0
Delivers (failed e) wire rest = rest ≡ wire
Delivers (delivered []) wire rest = ⊥
Delivers (delivered (x ∷ xs)) wire rest = wire ≡ (x ∷ xs) ++ rest

module _ {K : Type 0} (epoll : Epoll K) where
  -- A step of one end: a message is sent, waiting bytes are written, bytes are read, or the user retrieves some.
  pub data Step (l : Link K) : Link K → Type 0 where
    sends :
        (o : Outcome K) (write : List ℕ → Written) (message : List ℕ)
        → MarkReady epoll l.sender
        → l.sender.output.write_index + length message < 2 ^ 31
        → Within (write message) (length message)
        → send epoll write l.sender message ≡ some o
        → Step l (record l {
          sender = o.conn;
          wire = l.wire ++ o.sent;
          taken = l.taken ++ accepted epoll write l.sender message;
        })
    drains :
        (o : Outcome K) (write : List ℕ → Written)
        → Within (write (contents l.sender.output)) (length (contents l.sender.output))
        → handle_write epoll write l.sender ≡ some o
        → Step l (record l { sender = o.conn; wire = l.wire ++ o.sent })
    reads :
        (o : Outcome K) (readv : List ℕ → Delivery) (rest : List ℕ)
        → Delivers (readv (blocks l.receiver.input)) l.wire rest
        → Fits l.receiver.input (readv (blocks l.receiver.input))
        → handle_read epoll readv l.receiver ≡ some o
        → Step l (record l { receiver = o.conn; wire = rest })
    retrieves :
        (n : ℕ)
        → Step l (record l {
          receiver = record l.receiver { input = retrieve l.receiver.input n };
          retrieved = l.retrieved ++ take n (contents l.receiver.input);
        })

  pub data Steps (l : Link K) : Link K → Type 0 where
    begin : Steps l l
    later : {l' l'' : Link K} → Steps l l' → Step l' l'' → Steps l l''

  -- All bytes between the user at one end and the user at the other.
  abbrev pub under_way : Link K → List ℕ
  under_way l = contents l.receiver.input ++ (l.wire ++ contents l.sender.output)

  record Sound (l : Link K) : Type 0 where
    sender : IsSound epoll l.sender
    input : IsValid l.receiver.input
    callbacks : HasCallbacks K l.receiver
    order : l.retrieved ++ under_way l ≡ l.taken

  -- Bytes leave the sender, and `more` bytes are accepted behind those that wait.
  sent_lem :
      (r i w s left held more taken : List ℕ)
      → s ++ left ≡ held ++ more
      → r ++ (i ++ (w ++ held)) ≡ taken
      → r ++ (i ++ ((w ++ s) ++ left)) ≡ taken ++ more
  sent_lem r i w s left held more taken p q =
      ap (λ x. r ++ (i ++ x))
        (append_assoc w s left ∙ ap (λ x. w ++ x) p ∙ sym (append_assoc w held more))
      ∙ ap (λ x. r ++ x) (sym (append_assoc i (w ++ held) more))
      ∙ sym (append_assoc r (i ++ (w ++ held)) more)
      ∙ ap (λ x. x ++ more) q

  delivered_lem :
      (d : Delivery) (wire rest i o : List ℕ)
      → Delivers d wire rest
      → (i ++ bytes d) ++ (rest ++ o) ≡ i ++ (wire ++ o)
  delivered_lem (failed e) wire rest i o h =
      ap (λ x. x ++ (rest ++ o)) (append-nil i) ∙ ap (λ x. i ++ (x ++ o)) h
  delivered_lem (delivered []) wire rest i o h = absurd h
  delivered_lem (delivered (x ∷ xs)) wire rest i o h =
      append_assoc i (x ∷ xs) (rest ++ o)
      ∙ ap (λ y. i ++ y) (sym (append_assoc (x ∷ xs) rest o) ∙ ap (λ y. y ++ o) (sym h))

  step_lem : (l l' : Link K) → Sound l → Step l l' → Sound l'
  step_lem l _ h (sends o write message m small w e) =
      let (s, held) = send_keeps epoll o write message h.sender m small w e in
      record {
        sender = s;
        input = h.input;
        callbacks = h.callbacks;
        order =
            sent_lem l.retrieved (contents l.receiver.input) l.wire o.sent (contents o.conn.output)
              (contents l.sender.output) (accepted epoll write l.sender message) l.taken held
              h.order;
      }
  step_lem l _ h (drains o write w e) =
      let (s, held) = handle_write_keeps epoll o write h.sender w e in
      record {
        sender = s;
        input = h.input;
        callbacks = h.callbacks;
        order =
            sent_lem l.retrieved (contents l.receiver.input) l.wire o.sent (contents o.conn.output)
              (contents l.sender.output) [] l.taken
              (held ∙ sym (append-nil (contents l.sender.output))) h.order
            ∙ append-nil l.taken;
      }
  step_lem l _ h (reads o readv rest d fits e) =
      let (o', e', v, held, _, _, _, _, _, _, set) =
        handle_read_lem epoll {c = l.receiver} readv h.input h.callbacks fits in
      subst (λ x. Sound (record l { receiver = x.conn; wire = rest }))
        (some-injective o' o (sym e' ∙ e))
        (record {
          sender = h.sender;
          input = v;
          callbacks = record {
            connection = ap (λ f. f on_connection) set ∙ h.callbacks.connection;
            message = ap (λ f. f on_message) set ∙ h.callbacks.message;
            close = ap (λ f. f on_close) set ∙ h.callbacks.close;
          };
          order =
              ap (λ x. l.retrieved ++ (x ++ (rest ++ contents l.sender.output))) held
              ∙ ap (λ x. l.retrieved ++ x)
                  (delivered_lem (readv (blocks l.receiver.input)) l.wire rest
                    (contents l.receiver.input) (contents l.sender.output) d)
              ∙ h.order;
        })
  step_lem l _ h (retrieves n) =
      let (v, held, _, _) = retrieve_lem n h.input in
      let i = contents l.receiver.input in
      let out = l.wire ++ contents l.sender.output in
      record {
        sender = h.sender;
        input = v;
        callbacks = record {
          connection = h.callbacks.connection;
          message = h.callbacks.message;
          close = h.callbacks.close;
        };
        order =
            ap (λ x. (l.retrieved ++ take n i) ++ (x ++ out)) held
            ∙ append_assoc l.retrieved (take n i) (drop n i ++ out)
            ∙ ap (λ x. l.retrieved ++ x)
                (sym (append_assoc (take n i) (drop n i) out)
                  ∙ ap (λ x. x ++ out) (take-append-drop n i))
            ∙ h.order;
      }

  steps_lem : (l l' : Link K) → Sound l → Steps l l' → Sound l'
  steps_lem l _ h begin = h
  steps_lem l _ h (later {l' = l1} {l'' = l2} r p) = step_lem l1 l2 (steps_lem l l1 h r) p

  -- Two connections and the stream between them, from the time when both are sound and nothing is under way,
  -- over any calls of `send`, `handleWrite`, `handleRead` and `retrieve`, whatever each `write` takes and each
  -- `readv` delivers of what is on its way, the end of the stream apart: what the receiver's user has
  -- retrieved, what its buffer holds, what is on its way and what waits at the sender are together the accepted
  -- messages, in order, with no byte lost, repeated or moved.
  pub link_lem :
      (sender receiver : Connection K) (l : Link K)
      → IsSound epoll sender
      → contents sender.output ≡ []
      → IsValid receiver.input
      → contents receiver.input ≡ []
      → HasCallbacks K receiver
      → Steps
          (record { sender = sender; receiver = receiver; wire = []; taken = []; retrieved = [] })
          l
      → l.retrieved ++ under_way l ≡ l.taken
  link_lem sender receiver l s e v e' c r =
      (steps_lem
        (record { sender = sender; receiver = receiver; wire = []; taken = []; retrieved = [] }) l
        (record {
          sender = s;
          input = v;
          callbacks = record { connection = c.connection; message = c.message; close = c.close };
          order = ap (λ x. x ++ contents sender.output) e' ∙ e;
        })
        r).order
