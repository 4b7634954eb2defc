-- ===== src/Session/Trace/Counter.antt =====
-- The send counter after each call.
use sys_amneziawg.Common.{
  ℕ, Bool, true, false, List, [], ◌∷◌, if◌then◌else◌, Option, none, some, ◌≡◌, refl, subst, inl,
  inr, Bool-cases, ◌==◌, ◌&&◌, arith, Entropy, drop, ℤ, pos, negsuc,
}
use sys_amneziawg.Types.{Config}
use sys_amneziawg.Noise.Crypto.{Crypto}
use sys_amneziawg.Noise.Handshake.{consume_response}
use sys_amneziawg.Noise.Framing.{Unwrapped, response, init, unwrap, wrap}
use sys_amneziawg.Noise.Transport.{Opened, opened, rejected, transport_open}
use sys_amneziawg.Session.Window.{DropReason, replay_ok}
use sys_amneziawg.Session.State.{Session}
use sys_amneziawg.Session.Send.{mark_initiated, send_built}
use sys_amneziawg.Session.Receive.{
  Rx, expire_prev, on_datagram, looks_like_response, promote, deliver, drop_replay, judge,
  on_response, on_transport, conclude, is_rejected, consume_at, on_unwrapped,
}
use sys_amneziawg.Session.Trace.{is_established}

-- What a datagram makes of the send counter.
abbrev pub next_tx : ℕ → Rx → ℕ
next_tx n rx = if is_established rx then 0 else n

deliver_tx :
    (s : Session) (r : DropReason) (now : ℕ) (plain : List ℕ) (ctr : ℕ)
    → (deliver s r now plain ctr).session.tx_counter
      ≡ next_tx s.tx_counter (deliver s r now plain ctr).rx
unfolding deliver
deliver_tx s r now [] ctr = refl
deliver_tx s r now (x ∷ xs) ctr = refl

judge_tx :
    (s : Session) (r : DropReason) (on_prev : Bool) (now : ℕ) (plain : List ℕ) (ctr : ℕ)
    → (let got = judge s r on_prev now plain ctr in
        got.session.tx_counter ≡ next_tx s.tx_counter got.rx)
unfolding judge drop_replay
judge_tx s r true now plain ctr =
    let v = replay_ok s.prev_window r ctr in
    elim (Bool-cases v.fresh) [
      | inl fresh ↦
          rw fresh (deliver_tx (record s { prev_window = v.window }) v.reason now plain ctr)
      | inr stale ↦ rw stale refl
    ]
judge_tx s r false now plain ctr =
    let v = replay_ok s.rx_window r ctr in
    elim (Bool-cases v.fresh) [
      | inl fresh ↦ rw fresh (deliver_tx (record s { rx_window = v.window }) v.reason now plain ctr)
      | inr stale ↦ rw stale refl
    ]

conclude_tx :
    (s : Session) (r : DropReason) (on_prev : Bool) (now : ℕ) (o : Opened)
    → (let got = conclude s r on_prev now o in got.session.tx_counter ≡ next_tx s.tx_counter got.rx)
conclude_tx s r on_prev now (opened plain ctr) = judge_tx s r on_prev now plain ctr
conclude_tx s r on_prev now rejected = refl
conclude_tx s r on_prev now Opened.fault = refl

expire_prev_tx : (s : Session) (now : ℕ) → (expire_prev s now).tx_counter ≡ s.tx_counter
unfolding expire_prev
expire_prev_tx s now = ground arith

module _ (c : Crypto) (cfg : Config) where
  on_transport_tx :
      (s : Session) (r : DropReason) (pkt : List ℕ) (room now : ℕ)
      → (let got = on_transport c cfg s r pkt room now in
          got.session.tx_counter ≡ next_tx s.tx_counter got.rx)
  unfolding on_transport
  on_transport_tx s r pkt room now =
      let (pkt', o) = transport_open c cfg s.cur pkt room in
      elim (Bool-cases (is_rejected o && s.have_prev)) [
        | inl again ↦ rw again (conclude_tx s r true now (transport_open c cfg s.prev pkt' room).1)
        | inr once ↦ rw once (conclude_tx s r false now o)
      ]

  consume_at_tx :
      (s : Session) (r : DropReason) (now : ℕ) (off : ℤ) (pkt : List ℕ)
      → (let got = consume_at c cfg s r now off pkt in
          got.session.tx_counter ≡ next_tx s.tx_counter got.rx)
  unfolding consume_at promote
  consume_at_tx s r now (negsuc n) pkt = refl
  consume_at_tx s r now (pos off) pkt =
      elim (Bool-cases (consume_response c s.pending (drop off pkt)).accepted) [
        | inl good ↦ rw good refl
        | inr bad ↦ rw bad refl
      ]

  on_unwrapped_tx :
      (s : Session) (r : DropReason) (now : ℕ) (o : Option Unwrapped)
      → (let got = on_unwrapped c cfg s r now o in
          got.session.tx_counter ≡ next_tx s.tx_counter got.rx)
  unfolding on_unwrapped
  on_unwrapped_tx s r now none = refl
  on_unwrapped_tx s r now (some u) = elim (Bool-cases (u.msg_len == 92)) [
    | inl size ↦ rw size (consume_at_tx s r now u.msg_off u.pkt)
    | inr other ↦ rw other refl
  ]

  pub on_datagram_tx :
      (s : Session) (r : DropReason) (pkt : List ℕ) (room now : ℕ)
      → (let got = on_datagram c cfg s r pkt room now in
          got.session.tx_counter ≡ next_tx s.tx_counter got.rx)
  unfolding on_datagram on_response
  on_datagram_tx s r pkt room now = elim (Bool-cases (looks_like_response c cfg s pkt)) [
    | inl looks ↦ simp looks (on_unwrapped_tx s r now (unwrap c cfg response pkt))
    | inr other ↦ elim (Bool-cases s.established) [
      | inl up ↦
          simp (other, up)
            (subst
              (λ n.
                (let got = on_transport c cfg (expire_prev s now) r pkt room now in
                  got.session.tx_counter ≡ next_tx n got.rx))
              (expire_prev_tx s now) (on_transport_tx (expire_prev s now) r pkt room now))
      | inr down ↦ simp (other, down) refl
    ]
  ]

  pub send_built_tx :
      (s : Session) (room now : ℕ) (o : Option (List ℕ)) (e : Entropy)
      → (send_built c cfg s room now o e).session.tx_counter ≡ s.tx_counter
  unfolding send_built
  send_built_tx s room now none e = refl
  send_built_tx s room now (some msg) e =
      elim (wrap c cfg init msg room e).0
        as (λ o.
          (mark_initiated c cfg s now o (wrap c cfg init msg room e).1).session.tx_counter
          ≡ s.tx_counter) [ none ↦ refl | some pkt ↦ refl ]
