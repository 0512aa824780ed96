-- ===== src/TcpConnection/Frame.antt =====
-- `send` and `handleWrite`: what they leave alone.
use mathlib.Core.Path.{subst}
use mathlib.Core.Option.{some-injective}
use mathlib.Core.Option
use cpp_practise.Base.{
  ℕ, zero, suc, List, [], ◌∷◌, Option, none, some, ◌≡◌, ◌≢◌, refl, sym, ◌∙◌, ◌==◌, Bool-cases, inl,
  inr, if_true, if_false, length, drop, ◌>>=◌, load, to_size,
}
use cpp_practise.Buffer
use cpp_practise.Buffer.{append, retrieve}
use cpp_practise.Buffer.Valid.{IsValid}
use cpp_practise.Channel.{has_write}
use cpp_practise.Poller.{Epoll}
use cpp_practise.Poller.Watch.{entry}
use cpp_practise.Poller.Writing.{IsWatched, enable_writing-IsWatched, disable_writing-IsWatched}
use cpp_practise.TcpConnection.{
  Connection, Call, Written, wrote, write_failed, Outcome, pending, watch_writing, unwatch_writing,
  high_water_calls, keep_rest, after_write, send, writes_at_once, after_drain, handle_write,
}

module _ {K : Type 0} (epoll : Epoll K) where
  -- The connection is watched before and after, and the rest of it is as it was.
  pub record Framed (c c' : Connection K) : Type 0 where
    pub input : IsValid c.input → IsValid c'.input
    pub state : c'.state ≡ c.state
    pub is_set : c'.is_set ≡ c.is_set
    pub same_fd : c'.channel.fd ≡ c.channel.fd
    pub others : (fd : ℕ) → c.channel.fd ≢ fd → entry epoll c'.poller fd ≡ entry epoll c.poller fd
    pub watched : IsWatched epoll c'.poller c'.channel

  quiet_frame :
      (c : Connection K) (b : Buffer.Buffer)
      → IsWatched epoll c.poller c.channel
      → Framed c (record c { output = b })
  quiet_frame c b w = record {
    input = λ v. v;
    state = refl;
    is_set = refl;
    same_fd = refl;
    others = λ fd ne. refl;
    watched = record { is_added = w.is_added; reads = w.reads; watched = w.watched };
  }

  watch_frame :
      (c : Connection K) (b : Buffer.Buffer)
      → IsWatched epoll c.poller c.channel
      → Framed c (watch_writing epoll (record c { output = b }))
  watch_frame c b w =
      let k = enable_writing-IsWatched epoll c.poller c.channel w in
      record {
        input = λ v. v;
        state = refl;
        is_set = refl;
        same_fd = k.same_fd;
        others = k.others;
        watched = k.after;
      }

  unwatch_frame :
      (c : Connection K) (b : Buffer.Buffer)
      → IsWatched epoll c.poller c.channel
      → Framed c (unwatch_writing epoll (record c { output = b }))
  unwatch_frame c b w =
      let k = disable_writing-IsWatched epoll c.poller c.channel w in
      record {
        input = λ v. v;
        state = refl;
        is_set = refl;
        same_fd = k.same_fd;
        others = k.others;
        watched = k.after;
      }

  >>=-some {ℓ κ} :
      {A : Type ℓ} {B : Type κ} (m : Option A) (f : A → Option B) (b : B)
      → (m >>= f) ≡ some b
      → (a : A) × (f a ≡ some b)
  >>=-some none f b e = absurd (cc)
  >>=-some (some a) f b e = (a, e)

  map-some {ℓ κ} :
      {A : Type ℓ} {B : Type κ} (f : A → B) (m : Option A) (b : B)
      → Option.map f m ≡ some b
      → (a : A) × (m ≡ some a) × (f a ≡ b)
  map-some f none b e = absurd (cc)
  map-some f (some a) b e = (a, refl, some-injective _ _ e)

  keep_rest_frame :
      (c : Connection K) (rest : List ℕ) (r : Connection K × List Call)
      → IsWatched epoll c.poller c.channel
      → keep_rest epoll c rest ≡ some r
      → Framed c r.0
  unfolding keep_rest
  keep_rest_frame c [] r w e =
      subst (λ x. Framed c x.0) (some-injective _ _ e) (quiet_frame c c.output w)
  keep_rest_frame c (x ∷ xs) r w e =
      let (calls, e1) = >>=-some (high_water_calls epoll c (length (x ∷ xs))) _ r e in
      let (b, e2) = >>=-some (append c.output (x ∷ xs)) _ r e1 in
      subst (λ x. Framed c x.0) (some-injective _ _ e2)
        (elim (Bool-cases (has_write c.channel)) [
          | inl on ↦
              subst (Framed c) (sym (if_true (record c { output = b }) _ on)) (quiet_frame c b w)
          | inr off ↦
              subst (Framed c) (sym (if_false (record c { output = b }) _ off)) (watch_frame c b w)
        ])

  after_write_frame :
      (c : Connection K) (message : List ℕ) (r : Written) (o : Outcome K)
      → IsWatched epoll c.poller c.channel
      → after_write epoll c message r ≡ some o
      → Framed c o.conn
  unfolding after_write
  after_write_frame c message (write_failed e) o w h =
      subst (λ (x : Outcome K). Framed c x.conn) (some-injective _ _ h) (quiet_frame c c.output w)
  after_write_frame c message (wrote n) o w h =
      let (r, e, f) = map-some _ (keep_rest epoll c (drop n message)) o h in
      subst (λ (x : Outcome K). Framed c x.conn) f (keep_rest_frame c (drop n message) r w e)

  after_drain_frame :
      (c : Connection K) (bytes : List ℕ) (r : Written)
      → IsWatched epoll c.poller c.channel
      → Framed c (after_drain epoll c bytes r).conn
  unfolding after_drain
  after_drain_frame c bytes (write_failed e) w = quiet_frame c c.output w
  after_drain_frame c bytes (wrote zero) w = quiet_frame c c.output w
  after_drain_frame c bytes (wrote (suc n)) w =
      let b = retrieve c.output (suc n) in
      elim (Bool-cases (pending (record c { output = b }) == 0)) [
        | inl drained ↦
            subst (λ (x : Outcome K). Framed c x.conn) (sym (if_true _ _ drained))
              (unwatch_frame c b w)
        | inr more ↦
            subst (λ (x : Outcome K). Framed c x.conn) (sym (if_false _ _ more)) (quiet_frame c b w)
      ]

  pub send_frame :
      (write : List ℕ → Written) (c : Connection K) (message : List ℕ) (o : Outcome K)
      → IsWatched epoll c.poller c.channel
      → send epoll write c message ≡ some o
      → Framed c o.conn
  unfolding send
  send_frame write c message o w e = elim (Bool-cases (writes_at_once epoll c)) [
    | inr off ↦
        subst (λ (x : Outcome K). Framed c x.conn) (some-injective _ _ (sym (if_false _ _ off) ∙ e))
          (quiet_frame c c.output w)
    | inl on ↦ after_write_frame c message (write message) o w (sym (if_true _ _ on) ∙ e)
  ]

  pub handle_write_frame :
      (write : List ℕ → Written) (c : Connection K) (o : Outcome K)
      → IsWatched epoll c.poller c.channel
      → handle_write epoll write c ≡ some o
      → Framed c o.conn
  unfolding handle_write
  handle_write_frame write c o w e = elim (Bool-cases (has_write c.channel)) [
    | inr off ↦
        subst (λ (x : Outcome K). Framed c x.conn) (some-injective _ _ (sym (if_false _ _ off) ∙ e))
          (quiet_frame c c.output w)
    | inl on ↦
        (let (bytes, e1, f) =
            map-some _ (load c.output.storage (to_size c.output.read_index) (pending c)) o
              (sym (if_true _ _ on) ∙ e) in
          subst (λ (x : Outcome K). Framed c x.conn) f (after_drain_frame c bytes (write bytes) w))
  ]
