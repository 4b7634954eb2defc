-- ===== src/Session/Delivery.antt =====
-- Two sessions of source/awg_session.c against each other: what one sends, the other hands upwards,
-- and does so once.
use sys_amneziawg.Common.{
  ℕ, ◌+◌, ◌-◌, ◌≤◌, ◌<◌, ◌^◌, true, false, List, ◌∷◌, ◌++◌, length, replicate, ◌≡◌, refl, sym, ap,
  ◌∙◌, subst, inl, inr, Bool-cases, ◌&&◌, arith, Entropy, pos, ltb, sub64,
}
use sys_amneziawg.Types.{Config}
use sys_amneziawg.Noise.Crypto.{Crypto, CryptoLaws}
use sys_amneziawg.Noise.Handshake.{Handshake}
use sys_amneziawg.Noise.Framing.{lacks_nonce}
use sys_amneziawg.Noise.Transport.{datagram, opened, padded_len, transport_open}
use sys_amneziawg.Noise.Transport.RoundTrip.{Reaches, open-seal}
use sys_amneziawg.Session.Window.{Window, DropReason, replay_ok}
use sys_amneziawg.Session.Window.Refinement.{Represents, accepts, remember, replay_ok-Refines}
use sys_amneziawg.Session.State.{Session}
use sys_amneziawg.Session.Send.{build_data}
use sys_amneziawg.Session.Receive.{
  Received, ignored, payload, prev_keep_ms, expire_prev, deliver, drop_replay, judge, on_datagram,
  on_transport, looks_like_response,
}

-- A session that has keys and waits for no response.
pub record Settled (s : Session) : Type 0 where
  pub up : s.established ≡ true
  pub quiet : s.handshaking ≡ false

expire_prev_keeps :
    (s : Session) (now : ℕ)
    → ((expire_prev s now).cur ≡ s.cur) × ((expire_prev s now).rx_window ≡ s.rx_window)
unfolding expire_prev
expire_prev_keeps s now =
    elim (Bool-cases (s.have_prev && ltb prev_keep_ms (sub64 now s.prev_since_ms))) [
      | inl old ↦ rw old (refl, refl)
      | inr young ↦ rw young (refl, refl)
    ]

expire_prev-Settled : (s : Session) (now : ℕ) → Settled s → Settled (expire_prev s now)
unfolding expire_prev
expire_prev-Settled s now settled =
    elim (Bool-cases (s.have_prev && ltb prev_keep_ms (sub64 now s.prev_since_ms))) [
      | inl old ↦ rw old (record { up = settled.up; quiet = settled.quiet })
      | inr young ↦ rw young (record { up = settled.up; quiet = settled.quiet })
    ]

-- What a datagram that carried data leaves, if its counter was new.
record Accepted (s : Session) (w : Window) (plain : List ℕ) (got : Received) : Type 0 where
  pub rx : got.rx ≡ payload plain
  pub window : got.session.rx_window ≡ w
  pub key : got.session.cur ≡ s.cur
  pub settled : Settled got.session

judge_new :
    (s : Session) (r : DropReason) (now x : ℕ) (xs : List ℕ) (ctr : ℕ)
    → Settled s
    → (replay_ok s.rx_window r ctr).fresh ≡ true
    → Accepted s (replay_ok s.rx_window r ctr).window (x ∷ xs) (judge s r false now (x ∷ xs) ctr)
unfolding judge deliver
judge_new s r now x xs ctr settled fresh = simp fresh (record {
  rx = refl;
  window = refl;
  key = refl;
  settled = record { up = settled.up; quiet = settled.quiet };
})

judge_old :
    (s : Session) (r : DropReason) (now : ℕ) (plain : List ℕ) (ctr : ℕ)
    → (replay_ok s.rx_window r ctr).fresh ≡ false
    → (judge s r false now plain ctr).rx ≡ ignored
unfolding judge drop_replay
judge_old s r now plain ctr stale = simp stale refl

module _ (c : Crypto) (cfg : Config) where
  -- A datagram that the current keypair opens goes to the window.
  on_datagram-opened :
      (s : Session) (r : DropReason) (pkt : List ℕ) (room now : ℕ) (plain : List ℕ) (ctr : ℕ)
      → Settled s
      → (transport_open c cfg s.cur pkt room).1 ≡ opened plain ctr
      → on_datagram c cfg s r pkt room now ≡ judge (expire_prev s now) r false now plain ctr
  unfolding on_datagram looks_like_response on_transport expire_prev
  on_datagram-opened s r pkt room now plain ctr settled o =
      elim (Bool-cases (s.have_prev && ltb prev_keep_ms (sub64 now s.prev_since_ms))) [
        | inl old ↦ simp (settled.quiet, settled.up, old, o) refl
        | inr young ↦ simp (settled.quiet, settled.up, young, o) refl
      ]

  -- A datagram with a new counter is handed upwards.
  accept_first :
      (s : Session) (r : DropReason) (pkt : List ℕ) (room now x : ℕ) (xs : List ℕ) (ctr : ℕ)
      → Settled s
      → (transport_open c cfg s.cur pkt room).1 ≡ opened (x ∷ xs) ctr
      → (replay_ok s.rx_window r ctr).fresh ≡ true
      → Accepted s
          (replay_ok s.rx_window r ctr).window
          (x ∷ xs)
          (on_datagram c cfg s r pkt room now)
  accept_first s r pkt room now x xs ctr settled o fresh =
      let s' = expire_prev s now in
      let (same_cur, same_window) = expire_prev_keeps s now in
      let got =
        judge_new s' r now x xs ctr (expire_prev-Settled s now settled) (rw same_window fresh) in
      let it = on_datagram-opened s r pkt room now (x ∷ xs) ctr settled o in
      rw it (record {
        rx = got.rx;
        window = got.window ∙ ap (λ (w : Window). (replay_ok w r ctr).window) same_window;
        key = got.key ∙ same_cur;
        settled = got.settled;
      })

  -- The same counter again is not.
  refuse_second :
      (s : Session) (r : DropReason) (pkt : List ℕ) (room now : ℕ) (plain : List ℕ) (ctr : ℕ)
      → Settled s
      → (transport_open c cfg s.cur pkt room).1 ≡ opened plain ctr
      → (replay_ok s.rx_window r ctr).fresh ≡ false
      → (on_datagram c cfg s r pkt room now).rx ≡ ignored
  refuse_second s r pkt room now plain ctr settled o stale =
      rw (on_datagram-opened s r pkt room now plain ctr settled o)
        (judge_old (expire_prev s now) r now plain ctr (rw ((expire_prev_keeps s now).1) stale))

-- An accepted counter is not accepted again.
accepts_once : (past : List ℕ) (ctr : ℕ) → accepts (ctr ∷ past) ctr ≡ false
unfolding accepts
accepts_once past ctr = ground arith

-- A payload, filled up to whole blocks of 16.
abbrev pub padded : List ℕ → List ℕ
padded text = text ++ replicate (padded_len (length text) - length text) 0

module _ (c : Crypto) (laws : CryptoLaws c) (cfg : Config) (a b : Session) (p : ℕ)
    (is_pad : cfg.s4 ≡ pos p) (nonce : lacks_nonce cfg (pos p) ≡ false)
    (pair : Reaches cfg a.cur b.cur) (up : a.established ≡ true) (settled : Settled b)
    (counter_fits : a.tx_counter < 2 ^ 64) where
  -- What a session sends as data is handed upwards at the other end, filled up with zeroes, if the
  -- counter is new there; the same datagram again is ignored. The two share a pair of keys, the
  -- padding is not negative and holds a nonce where there is header protection, and the buffers
  -- are large enough.
  pub data_delivered_once :
      (x : ℕ) (xs : List ℕ) (e : Entropy) (past : List ℕ) (r : DropReason)
      (out_cap in_cap now1 now2 now3 : ℕ)
      → Represents b.rx_window past
      → accepts past a.tx_counter ≡ true
      → p + 32 + padded_len (length (x ∷ xs)) ≤ out_cap
      → padded_len (length (x ∷ xs)) ≤ in_cap
      → (sent : List ℕ) × ((build_data c cfg a (x ∷ xs) out_cap now1 e).out ≡ datagram sent)
        × (let got = on_datagram c cfg b r sent in_cap now2 in
            (got.rx ≡ payload (padded (x ∷ xs)))
            × ((on_datagram c cfg got.session got.reason sent in_cap now3).rx ≡ ignored))
  unfolding build_data
  data_delivered_once x xs e past r out_cap in_cap now1 now2 now3 rep new fits room =
      let ctr = a.tx_counter in
      let (wire, sent, len, opens) =
        open-seal c laws cfg a.cur b.cur ctr (x ∷ xs) e p is_pad nonce out_cap in_cap fits room pair
          counter_fits in
      let ok = replay_ok-Refines b.rx_window past r ctr rep in
      let fresh = ok.answer ∙ new in
      let got = on_datagram c cfg b r wire in_cap now2 in
      let first = accept_first c cfg b r wire in_cap now2 x _ ctr settled opens fresh in
      let rep' : Represents got.session.rx_window (ctr ∷ past) =
        subst (λ w. Represents w (ctr ∷ past)) (sym first.window)
          (subst (λ f. Represents (replay_ok b.rx_window r ctr).window (remember f ctr past)) fresh
            ok.after) in
      (
        wire,
        simp (up, sent) refl,
        (
          first.rx,
          refuse_second c cfg got.session got.reason wire in_cap now3 _ ctr first.settled
              (ap (λ (k : Handshake). (transport_open c cfg k wire in_cap).1) first.key ∙ opens)
              ((replay_ok-Refines got.session.rx_window (ctr ∷ past) got.reason ctr rep').answer
                ∙ accepts_once past ctr),
        ),
      )
