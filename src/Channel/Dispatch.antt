-- ===== src/Channel/Dispatch.antt =====
-- Which callbacks `handleEvent` calls, and in which order.
use cpp_practise.Base.{
  ℕ, suc, ◌<◌, Bool, true, false, ◌&&◌, ◌||◌, not, List, [], ◌∷◌, ◌++◌, if◌then◌else◌, ◌≡◌, refl,
  arith,
}
use cpp_practise.Channel.{
  Channel, Callback, on_close, on_error, on_read, on_write, handle_event, Revents,
}

-- What happened asks for a callback: a hang-up with nothing to read, an error, something to read or
-- a hang-up of the peer, space to write.
abbrev pub wanted : Callback → Revents → Bool
wanted on_close r = r.pollhup && not r.pollin
wanted on_error r = r.pollerr || r.pollnval
wanted on_read r = r.pollin || (r.pollpri || r.pollrdhup)
wanted on_write r = r.pollout

abbrev pub same : Callback → Callback → Bool
same on_close on_close = true
same on_error on_error = true
same on_read on_read = true
same on_write on_write = true
same _ _ = false

abbrev pub times : Callback → List Callback → ℕ
times k [] = 0
times k (j ∷ js) = if same k j then suc (times k js) else times k js

abbrev rank : Callback → ℕ
rank on_close = 0
rank on_error = 1
rank on_read = 2
rank on_write = 3

abbrev pub InOrder : List Callback → Type 0
InOrder [] = Unit
InOrder (j ∷ []) = Unit
InOrder (j ∷ k ∷ ks) = (rank j < rank k) × InOrder (k ∷ ks)

-- The calls, given which are made.
abbrev calls : Bool → Bool → Bool → Bool → List Callback
calls a b c d =
    (if a then on_close ∷ [] else [])
    ++ ((if b then on_error ∷ [] else [])
        ++ ((if c then on_read ∷ [] else []) ++ (if d then on_write ∷ [] else [])))

abbrev made : Channel → Callback → Bool
made c k = wanted k c.revents && c.is_set k

call-made :
    (b s : Bool) (k : Callback)
    → ◌≡◌ {A = List Callback}
        (if b then (if s then k ∷ [] else []) else [])
        (if b && s then k ∷ [] else [])
call-made true s k = refl
call-made false s k = refl

handle_event-calls :
    (c : Channel)
    → handle_event c ≡ calls (made c on_close) (made c on_error) (made c on_read) (made c on_write)
unfolding handle_event
handle_event-calls c = rw (
  call-made (wanted on_close c.revents) (c.is_set on_close) on_close,
  call-made (wanted on_error c.revents) (c.is_set on_error) on_error,
  call-made (wanted on_read c.revents) (c.is_set on_read) on_read,
  call-made (wanted on_write c.revents) (c.is_set on_write) on_write,
)

calls_times :
    (a b c d : Bool) (k : Callback)
    → (f : Callback → Bool) → f on_close ≡ a
    → f on_error ≡ b
    → f on_read ≡ c
    → f on_write ≡ d
    → times k (calls a b c d) ≡ (if f k then 1 else 0)
calls_times a b c d on_close f p q r s = ground arith
calls_times a b c d on_error f p q r s = ground arith
calls_times a b c d on_read f p q r s = ground arith
calls_times a b c d on_write f p q r s = ground arith

calls-InOrder : (a b c d : Bool) → InOrder (calls a b c d)
calls-InOrder true true true true = omega arith
calls-InOrder a b c d = ground arith

-- `handleEvent` calls each callback once if it is set and what happened asks for it, and otherwise not
-- at all; close comes before error, error before read and read before write.
pub handle_event_lem :
    (c : Channel)
    → InOrder (handle_event c)
      × ((k : Callback)
          → times k (handle_event c) ≡ (if wanted k c.revents && c.is_set k then 1 else 0))
handle_event_lem c =
    rw (handle_event-calls c)
      (calls-InOrder _ _ _ _, λ k. calls_times _ _ _ _ k (made c) refl refl refl refl)
