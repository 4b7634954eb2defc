-- ===== src/Session/Deadlines.antt =====
-- When a session asks for keys again: after a handshake that nobody answers, and after one that
-- was answered.
use sys_amneziawg.Common.{
  ℕ, ◌+◌, ◌*◌, ◌^◌, ◌≤◌, ◌<◌, ◌≡◌, refl, ◌∙◌, Bool, true, false, ◌&&◌, Option, none, some, List, [],
  ◌∷◌, leb, ◌==◌, drop, ℤ, pos, negsuc, Entropy, Bool-cases, inl, inr, if◌then◌else◌,
}
use sys_amneziawg.Types.{Config}
use sys_amneziawg.Noise.Crypto.{Crypto}
use sys_amneziawg.Noise.Handshake.{consume_response}
use sys_amneziawg.Noise.Framing.{Unwrapped, response, unwrap}
use sys_amneziawg.Noise.Transport.{datagram, Opened, opened, rejected, transport_open}
use sys_amneziawg.Session.Window.{DropReason, replay_ok}
use sys_amneziawg.Session.State.{Session, needs_handshake}
use sys_amneziawg.Session.State.Timers.{has_elapsed_iff}
use sys_amneziawg.Session.Send.{mark_initiated, send_built, build_initiation, Sent}
use sys_amneziawg.Session.Receive.{
  Received, Rx, established, retire, promote, expire_prev, drop_replay, deliver, judge, conclude,
  is_rejected, consume_at, on_unwrapped, on_response, on_transport, looks_like_response,
  on_datagram,
}

-- What arms the retry timer.
abbrev Armed : Session → ℕ → Sent → Type 0
Armed s t r =
    (sent : List ℕ)
    → r.out ≡ datagram sent
    → (r.session.handshaking ≡ true)
      × (r.session.handshake_sent_ms ≡ t)
      × (r.session.rekey_timeout_s ≡ s.rekey_timeout_s)

-- What arms the rekey timer.
abbrev Rotated : Session → ℕ → Received → Type 0
Rotated s t r =
    r.rx ≡ established
    → (r.session.handshaking ≡ false)
      × (r.session.established ≡ true)
      × (r.session.established_ms ≡ t)
      × (r.session.rekey_after_s ≡ s.rekey_after_s)

module _ (c : Crypto) (cfg : Config) where
  mark_initiated-Armed :
      (s : Session) (t : ℕ) (wire : Option (List ℕ)) (e : Entropy)
      → Armed s t (mark_initiated c cfg s t wire e)
  mark_initiated-Armed s t none e sent h = cc
  mark_initiated-Armed s t (some pkt) e sent h = (refl, refl, refl)

  send_built-Armed :
      (s : Session) (cap t : ℕ) (msg : Option (List ℕ)) (e : Entropy)
      → Armed s t (send_built c cfg s cap t msg e)
  unfolding send_built
  send_built-Armed s cap t none e sent h = cc
  send_built-Armed s cap t (some msg) e sent h = mark_initiated-Armed s t _ _ sent h

  -- After an initiation was sent at the time t, the session asks for a handshake again exactly from
  -- the rekey timeout, in seconds, after t on, as long as the clock does not wrap; the timeout is an
  -- int that is not negative.
  pub build_initiation-retry :
      (s : Session) (cap t wall n now : ℕ) (e : Entropy) (sent : List ℕ)
      → (build_initiation c cfg s cap t wall e).out ≡ datagram sent
      → s.rekey_timeout_s ≡ pos n
      → n < 2 ^ 31
      → t ≤ now
      → now < 2 ^ 64
      → needs_handshake (build_initiation c cfg s cap t wall e).session now ≡ leb (t + n * 1000) now
  unfolding build_initiation needs_handshake
  build_initiation-retry s cap t wall n now e sent h is_n small le lt =
      let (waits, at, timeout) = send_built-Armed _ cap t _ _ sent h in
      rw (waits, at, timeout ∙ is_n) (has_elapsed_iff now t n le lt small)

-- Either branch of a test, on any two results.
choice-Rotated :
    (s : Session) (t : ℕ) (b : Bool) (x y : Received)
    → Rotated s t x
    → Rotated s t y
    → Rotated s t (if b then x else y)
choice-Rotated s t true x y f g = f
choice-Rotated s t false x y f g = g

deliver-Rotated :
    (s s0 : Session) (r : DropReason) (t : ℕ) (plain : List ℕ) (ctr : ℕ)
    → Rotated s0 t (deliver s r t plain ctr)
unfolding deliver
deliver-Rotated s s0 r t [] ctr h = cc
deliver-Rotated s s0 r t (x ∷ xs) ctr h = cc

drop_replay-Rotated :
    (s s0 : Session) (r : DropReason) (on_prev : Bool) (ctr t : ℕ)
    → Rotated s0 t (drop_replay s r on_prev ctr)
unfolding drop_replay
drop_replay-Rotated s s0 r on_prev ctr t h = cc

judge-Rotated :
    (s s0 : Session) (r : DropReason) (on_prev : Bool) (t : ℕ) (plain : List ℕ) (ctr : ℕ)
    → Rotated s0 t (judge s r on_prev t plain ctr)
unfolding judge
judge-Rotated s s0 r on_prev t plain ctr =
    let v = replay_ok (if on_prev then s.prev_window else s.rx_window) r ctr in
    let s' : Session =
      if on_prev then record s { prev_window = v.window } else record s { rx_window = v.window } in
    choice-Rotated s0 t v.fresh _ _ (deliver-Rotated s' s0 v.reason t plain ctr)
      (drop_replay-Rotated s' s0 v.reason on_prev ctr t)

conclude-Rotated :
    (s s0 : Session) (r : DropReason) (on_prev : Bool) (t : ℕ) (o : Opened)
    → Rotated s0 t (conclude s r on_prev t o)
conclude-Rotated s s0 r on_prev t (opened plain ctr) h = judge-Rotated s s0 r on_prev t plain ctr h
conclude-Rotated s s0 r on_prev t rejected h = cc
conclude-Rotated s s0 r on_prev t Opened.fault h = cc

promote-Rotated :
    (s : Session) (t : ℕ)
    → ((promote s t).handshaking ≡ false)
      × ((promote s t).established ≡ true)
      × ((promote s t).established_ms ≡ t)
      × ((promote s t).rekey_after_s ≡ s.rekey_after_s)
unfolding promote retire
promote-Rotated s t = elim (Bool-cases s.established) [
  | inl had ↦ rw had (refl, refl, refl, refl)
  | inr first ↦ rw first (refl, refl, refl, refl)
]

module _ (c : Crypto) (cfg : Config) where
  consume_at-Rotated :
      (s : Session) (r : DropReason) (t : ℕ) (off : ℤ) (pkt : List ℕ)
      → Rotated s t (consume_at c cfg s r t off pkt)
  unfolding consume_at
  consume_at-Rotated s r t (negsuc n) pkt h = cc
  consume_at-Rotated s r t (pos off) pkt h =
      let got = consume_response c s.pending (drop off pkt) in
      let s' : Session = record s { pending = got.state } in
      choice-Rotated s t got.accepted
        (record { session = promote s' t; reason = r; rx = established })
        (record { session = s'; reason = r; rx = Rx.ignored }) (λ e. promote-Rotated s' t) (λ e. cc)
        h

  on_unwrapped-Rotated :
      (s : Session) (r : DropReason) (t : ℕ) (u : Option Unwrapped)
      → Rotated s t (on_unwrapped c cfg s r t u)
  unfolding on_unwrapped
  on_unwrapped-Rotated s r t none h = cc
  on_unwrapped-Rotated s r t (some u) h =
      choice-Rotated s t (u.msg_len == 92) _ (record { session = s; reason = r; rx = Rx.ignored })
        (consume_at-Rotated s r t u.msg_off u.pkt) (λ e. cc) h

  on_transport-Rotated :
      (s s0 : Session) (r : DropReason) (pkt : List ℕ) (cap t : ℕ)
      → Rotated s0 t (on_transport c cfg s r pkt cap t)
  unfolding on_transport
  on_transport-Rotated s s0 r pkt cap t =
      let (pkt', got) = transport_open c cfg s.cur pkt cap in
      choice-Rotated s0 t (is_rejected got && s.have_prev) _ _
        (conclude-Rotated s s0 r true t (transport_open c cfg s.prev pkt' cap).1)
        (conclude-Rotated s s0 r false t got)

  on_datagram-Rotated :
      (s : Session) (r : DropReason) (pkt : List ℕ) (cap t : ℕ)
      → Rotated s t (on_datagram c cfg s r pkt cap t)
  unfolding on_datagram on_response
  on_datagram-Rotated s r pkt cap t =
      let waiting : Received = record { session = s; reason = r; rx = Rx.ignored } in
      choice-Rotated s t (looks_like_response c cfg s pkt) _ _
        (on_unwrapped-Rotated s r t (unwrap c cfg response pkt))
        (choice-Rotated s t s.established _ waiting
          (on_transport-Rotated (expire_prev s t) s r pkt cap t) (λ e. cc))

  -- After a response was accepted at the time t, the session asks for new keys exactly from the
  -- rekey time, in seconds, after t on, as long as the clock does not wrap; the rekey time is an int
  -- that is not negative.
  pub on_datagram-rekeys :
      (s : Session) (r : DropReason) (pkt : List ℕ) (cap t n now : ℕ)
      → (on_datagram c cfg s r pkt cap t).rx ≡ established
      → s.rekey_after_s ≡ pos n
      → n < 2 ^ 31
      → t ≤ now
      → now < 2 ^ 64
      → needs_handshake (on_datagram c cfg s r pkt cap t).session now ≡ leb (t + n * 1000) now
  unfolding needs_handshake
  on_datagram-rekeys s r pkt cap t n now h is_n small le lt =
      let (quiet, up, at, after) = on_datagram-Rotated s r pkt cap t h in
      rw (quiet, up, at, after ∙ is_n) (has_elapsed_iff now t n le lt small)
