-- ===== src/TcpConnection/Drain.antt =====
-- `handleWrite`: the waiting bytes are sent in order.
use cpp_practise.Base.{
  ℕ, zero, suc, ◌-◌, ◌≤◌, ◌<◌, Bool, true, false, not, ◌&&◌, List, [], ◌∷◌, ◌++◌, some, ◌≡◌, inl,
  inr, refl, sym, arith, length, length-drop, take, take-append-drop, take_of_ge, ◌==◌, ==_iff, ltb,
  if◌then◌else◌, ◌∙◌, ap, Bool-cases, load, to_size,
}
use cpp_practise.Buffer.{retrieve}
use cpp_practise.Buffer.Valid.{contents, sizes, length-contents, load-contents}
use cpp_practise.Buffer.Retrieve.{retrieve_lem}
use cpp_practise.Channel.{has_write}
use cpp_practise.Poller.{Epoll}
use cpp_practise.TcpConnection.{
  Connection, on_write_complete, Call, call, Written, wrote, write_failed, Outcome, quiet, pending,
  after_drain, handle_write,
}
use cpp_practise.TcpConnection.Sound.{IsSound, pending-length, unwatch_writing-IsSound}
use cpp_practise.TcpConnection.Send.{Within}

module _ {K : Type 0} (epoll : Epoll K) where
  -- All of `len` bytes, and some at all, are taken.
  abbrev pub takes_all : Written → ℕ → Bool
  takes_all (wrote n) len = ltb 0 len && (n == len)
  takes_all (write_failed e) len = false

  abbrev pub complete_calls : Connection K → Bool → List Call
  complete_calls c all =
      if all && c.is_set on_write_complete then call on_write_complete ∷ [] else []

  all_taken : (n len : ℕ) → suc n ≤ len → len - suc n ≡ 0 → takes_all (wrote (suc n)) len ≡ true
  all_taken n len h e = ground arith

  not_all_taken :
      (n len : ℕ) → suc n ≤ len → 0 < len - suc n → takes_all (wrote (suc n)) len ≡ false
  not_all_taken n len h e = ground arith

  still_waiting : (n : ℕ) → 0 < n → not (n == 0) ≡ true
  still_waiting n h = ground arith

  after_drain_lem :
      (c : Connection K) (r : Written)
      → IsSound epoll c
      → has_write c.channel ≡ true
      → Within r (length (contents c.output))
      → IsSound epoll (after_drain epoll c (contents c.output) r).conn
        × ((after_drain epoll c (contents c.output) r).sent
              ++ contents (after_drain epoll c (contents c.output) r).conn.output
            ≡ contents c.output)
        × ((after_drain epoll c (contents c.output) r).calls
            ≡ complete_calls c (takes_all r (length (contents c.output))))
  unfolding after_drain
  after_drain_lem c (write_failed e) s on w = (s, refl, refl)
  after_drain_lem c (wrote zero) s on w = (s, refl, ground (arith, s.waiting))
  after_drain_lem c (wrote (suc n)) s on w =
      let (v, held, _, _) = retrieve_lem (suc n) s.valid in
      let c' : Connection K = record c { output = retrieve c.output (suc n) } in
      let left : length (contents c'.output) ≡ length (contents c.output) - suc n =
        omega (arith, ap length held, length-drop (suc n) (contents c.output)) in
      let kept : take (suc n) (contents c.output) ++ contents c'.output ≡ contents c.output =
        ap (λ t. take (suc n) (contents c.output) ++ t) held
        ∙ take-append-drop (suc n) (contents c.output) in
      elim (Bool-cases (pending c' == 0)) [
        | inl drained ↦ rw drained (
          unwatch_writing-IsSound epoll c' v s.synced
              (omega (arith, (==_iff (pending c') 0).0 drained, pending-length c' v)),
          kept,
          ap (complete_calls c) (
              sym (
                all_taken n (length (contents c.output)) w
                  (omega (arith, (==_iff (pending c') 0).0 drained, pending-length c' v, left)))),
        )
        | inr more ↦ rw more (
          record {
            valid = v;
            synced = s.synced;
            waiting =
                on
                ∙ sym (
                    still_waiting (length (contents c'.output))
                      (ground (arith, pending-length c' v)));
          },
          kept,
          ap (complete_calls c) (
              sym (
                not_all_taken n (length (contents c.output)) w
                  (ground (arith, pending-length c' v, left)))),
        )
      ]

  -- `handleWrite` on such a connection, for every outcome of `write`: it does not fault and keeps the
  -- invariant. The bytes that `write` took, followed by those still waiting, are those that were
  -- waiting. The write-complete callback is called, if it is set, exactly when the last waiting byte
  -- was taken, and no other callback is called.
  pub handle_write_lem :
      {c : Connection K} (write : List ℕ → Written)
      → IsSound epoll c
      → Within (write (contents c.output)) (length (contents c.output))
      → (o : Outcome K) × (handle_write epoll write c ≡ some o)
        × IsSound epoll o.conn
        × (o.sent ++ contents o.conn.output ≡ contents c.output)
        × (o.calls ≡ (
            if has_write c.channel
            then complete_calls c
                (takes_all (write (contents c.output)) (length (contents c.output)))
            else []))
  unfolding handle_write
  handle_write_lem {c} write s w = elim (Bool-cases (has_write c.channel)) [
    | inr off ↦ (quiet c [], ground arith, s, refl, ground arith)
    | inl on ↦
        (let (s', held, called) = after_drain_lem c (write (contents c.output)) s on w in
          (
            after_drain epoll c (contents c.output) (write (contents c.output)),
            drains c on (all_loaded c s),
            s',
            held,
            called ∙ sym (if-true _ _ on),
          ))
  ]
    where
      all_loaded :
          (c : Connection K)
          → IsSound epoll c
          → load c.output.storage (to_size c.output.read_index) (pending c)
            ≡ some (contents c.output)
      all_loaded c s = rw (
        (sizes s.valid).read_offset,
        (sizes s.valid).readable_size,
        load-contents (c.output.write_index - c.output.read_index) s.valid (omega arith),
        take_of_ge (c.output.write_index - c.output.read_index) (contents c.output)
            (omega (arith, length-contents s.valid)),
      )

      if-true : {b : Bool} (x y : List Call) → b ≡ true → (if b then x else y) ≡ x
      if-true x y e = ap (λ t. if t then x else y) e

      drains :
          (c : Connection K)
          → has_write c.channel ≡ true
          → load c.output.storage (to_size c.output.read_index) (pending c)
            ≡ some (contents c.output)
          → handle_write epoll write c
            ≡ some (after_drain epoll c (contents c.output) (write (contents c.output)))
      drains c on e = ground arith
