-- ===== src/Tunnel/Strays.antt =====
-- Datagrams that are not the peer's.
use sys_amneziawg.Common.{
  ℕ, ◌+◌, ◌≡◌, ◌<◌, ◌^◌, arith, refl, ap, ◌∙◌, true, false, List, [], ◌∷◌, length, take, ◌==◌, u32,
  All, Bool-cases, inl, inr,
}
use sys_amneziawg.Types.{Config}
use sys_amneziawg.Noise.Crypto.{Crypto}
use sys_amneziawg.Session.Receive.{Rx, payload, ignored, handled, established, fault, on_datagram}
use sys_amneziawg.Tunnel.Loop.{Tunnel, Arrival}
use sys_amneziawg.Tunnel.Turn.{take_rx, receive_one, is_peer, drain_one, drain, wire_size}

-- All but the count of strays.
abbrev pub uncounted : Tunnel → Tunnel
uncounted t = record t { stray_datagrams = 0 }

module _ (c : Crypto) (cfg : Config) (addr port : ℕ) where
  -- A datagram is not empty.
  abbrev pub HasBytes : Arrival → Type 0
  HasBytes a = (length a.content == 0) ≡ false

  take_rx-uncounted :
      (t : Tunnel) (rx : Rx) → uncounted (take_rx c cfg t rx) ≡ take_rx c cfg (uncounted t) rx
  take_rx-uncounted t (payload xs) = refl
  take_rx-uncounted t ignored = refl
  take_rx-uncounted t handled = refl
  take_rx-uncounted t established = refl
  take_rx-uncounted t fault = refl

  receive_one-uncounted :
      (t : Tunnel) (a : Arrival)
      → uncounted (receive_one c cfg t a) ≡ receive_one c cfg (uncounted t) a
  unfolding receive_one
  receive_one-uncounted t a =
      let r = on_datagram c cfg t.session t.reason (take wire_size a.content) 2048 a.at in
      take_rx-uncounted (record t { session = r.session; reason = r.reason }) r.rx

  -- A datagram with a whole address, from the peer's address and port.
  abbrev pub IsFromPeer : Arrival → Type 0
  IsFromPeer a = (a.whole ≡ true) × (a.addr ≡ addr) × (a.port ≡ port)

  -- The datagrams of the peer among others, in their order, and the number of the others.
  pub data Selects : List Arrival → List Arrival → ℕ → Type 0 where
    selects_none : Selects [] [] 0
    peer :
        {a : Arrival} {ds own : List Arrival} {n : ℕ}
        → IsFromPeer a
        → Selects ds own n
        → Selects (a ∷ ds) (a ∷ own) n
    stray :
        {a : Arrival} {ds own : List Arrival} {n : ℕ}
        → ¬ IsFromPeer a
        → Selects ds own n
        → Selects (a ∷ ds) own (n + 1)

  -- What each datagram of the peer does, one after the other.
  abbrev pub receive_all : Tunnel → List Arrival → Tunnel
  receive_all t [] = t
  receive_all t (a ∷ own) = receive_all (receive_one c cfg t a) own

  receive_all-uncounted :
      (t : Tunnel) (own : List Arrival)
      → uncounted (receive_all t own) ≡ receive_all (uncounted t) own
  receive_all-uncounted t [] = refl
  receive_all-uncounted t (a ∷ own) =
      receive_all-uncounted (receive_one c cfg t a) own
      ∙ ap (λ (s : Tunnel). receive_all s own) (receive_one-uncounted t a)

  take_rx-strays : (t : Tunnel) (rx : Rx) → (take_rx c cfg t rx).stray_datagrams ≡ t.stray_datagrams
  take_rx-strays t (payload xs) = refl
  take_rx-strays t ignored = refl
  take_rx-strays t handled = refl
  take_rx-strays t established = refl
  take_rx-strays t fault = refl

  receive_one-strays :
      (t : Tunnel) (a : Arrival) → (receive_one c cfg t a).stray_datagrams ≡ t.stray_datagrams
  unfolding receive_one
  receive_one-strays t a =
      let r = on_datagram c cfg t.session t.reason (take wire_size a.content) 2048 a.at in
      take_rx-strays (record t { session = r.session; reason = r.reason }) r.rx

  is_peer-true : (a : Arrival) → IsFromPeer a → is_peer c cfg addr port a ≡ true
  unfolding is_peer
  is_peer-true a (w, e, f) = ground (arith, w, e, f)

  is_peer-false : (a : Arrival) → ¬ IsFromPeer a → is_peer c cfg addr port a ≡ false
  unfolding is_peer
  is_peer-false a h = elim (Bool-cases (is_peer c cfg addr port a)) [
    | inl it_is ↦ absurd (h (ground (arith, it_is), ground (arith, it_is), ground (arith, it_is)))
    | inr it_is_not ↦ it_is_not
  ]

  -- Where no datagram is empty, draining a batch is receiving the datagrams in it that come with a
  -- whole address from the peer's address and port, one after the other, but for the count of
  -- strays: that word of 32 bits moves on by the number of the others.
  pub drain-Selects :
      (t : Tunnel) (ds own : List Arrival) (n : ℕ)
      → All HasBytes ds
      → Selects ds own n
      → t.stray_datagrams < 2 ^ 32
      → (uncounted (drain c cfg addr port t ds) ≡ receive_all (uncounted t) own)
        × ((drain c cfg addr port t ds).stray_datagrams ≡ u32 (t.stray_datagrams + n))
  unfolding drain drain_one
  drain-Selects t [] _ _ h selects_none lt = (refl, omega (arith, lt))
  drain-Selects t (a ∷ ds) _ n h (peer {own = own} from rest) lt =
      let kept = receive_one-strays t a in
      let t' = receive_one c cfg t a in
      let ih = drain-Selects t' ds own n h.1 rest (omega (arith, kept, lt)) in
      rw (h.0, is_peer-true a from)
        (
          ih.0 ∙ ap (λ (s : Tunnel). receive_all s own) (receive_one-uncounted t a),
          ih.1 ∙ ap (λ (k : ℕ). u32 (k + n)) kept,
        )
  drain-Selects t (a ∷ ds) own _ h (stray {n = n} not_from rest) lt =
      let t' : Tunnel = record t { stray_datagrams = u32 (t.stray_datagrams + 1) } in
      let ih = drain-Selects t' ds own n h.1 rest (omega arith) in
      rw (h.0, is_peer-false a not_from) (ih.0, ih.1 ∙ omega arith)
