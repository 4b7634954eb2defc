-- ===== src/Session/Trace/Nonces.antt =====
-- No counter is sent twice under one key, whatever is called in whatever order.
use sys_amneziawg.Common.{
  ℕ, ◌+◌, ◌≤◌, ◌<◌, ◌^◌, ◌%◌, Bool, true, false, List, [], ◌∷◌, length, if◌then◌else◌, some, ◌≡◌,
  refl, inl, inr, Bool-cases, arith, Entropy, random_bytes,
}
use sys_amneziawg.Types.{Config}
use sys_amneziawg.Noise.Crypto.{Crypto}
use sys_amneziawg.Noise.Handshake.{handshake_begin, create_initiation}
use sys_amneziawg.Noise.Primitives.{get_u32_le}
use sys_amneziawg.Noise.Transport.{Sealed, transport_seal, datagram, refused}
use sys_amneziawg.Session.Window.{DropReason}
use sys_amneziawg.Session.Window.Refinement.{elem, IsDistinct}
use sys_amneziawg.Session.State.{session_init, Session}
use sys_amneziawg.Session.Send.{
  psk_of, build_initiation, build_data, build_keepalive, count_sent, count_keepalive,
}
use sys_amneziawg.Session.Receive.{on_datagram}
use sys_amneziawg.Session.Trace.{
  Op, Traced, is_established, note_sent, step, run, start, initiate, keepalive, data_packet,
  receive,
}
use sys_amneziawg.Session.Trace.Counter.{on_datagram_tx, send_built_tx}

-- The counters sent under the current key are distinct, and the next one is above them all.
pub record Unused (log : List ℕ) (n : ℕ) : Type 0 where
  pub once : IsDistinct log
  pub below : (x : ℕ) → elem x log ≡ true → x < n

-- The state after a call that sends at most one counter.
abbrev Spent : List ℕ → ℕ → ℕ → Type 0
Spent log n m = Unused log n × (n ≤ m + 1)

extend : (log : List ℕ) (n : ℕ) → Unused log n → Unused (n ∷ log) (n + 1)
extend log n u = record {
  once = (ground (arith, u.below n), u.once);
  below = λ x h. ground (arith, u.below x);
}

module _ (c : Crypto) (cfg : Config) where
  count_sent-Spent :
      (s : Session) (now : ℕ) (o : Sealed) (e : Entropy) (log : List ℕ)
      → s.tx_counter + 1 < 2 ^ 64
      → Unused log s.tx_counter
      → Spent
          (note_sent o s.tx_counter log)
          (count_sent c cfg s now o e).session.tx_counter
          s.tx_counter
  count_sent-Spent s now (datagram pkt) e log h u =
      let same : (s.tx_counter + 1) % 2 ^ 64 ≡ s.tx_counter + 1 = ground arith in
      rw same (extend log s.tx_counter u, omega arith)
  count_sent-Spent s now refused e log h u = (u, omega arith)
  count_sent-Spent s now Sealed.fault e log h u = (u, omega arith)

  count_sent_out :
      (s : Session) (now : ℕ) (o : Sealed) (e : Entropy) → (count_sent c cfg s now o e).out ≡ o
  count_sent_out s now (datagram pkt) e = refl
  count_sent_out s now refused e = refl
  count_sent_out s now Sealed.fault e = refl

  build_data-Spent :
      (s : Session) (text : List ℕ) (room now : ℕ) (e : Entropy) (log : List ℕ)
      → s.tx_counter + 1 < 2 ^ 64
      → Unused log s.tx_counter
      → (let got = build_data c cfg s text room now e in
          Spent (note_sent got.out s.tx_counter log) got.session.tx_counter s.tx_counter)
  unfolding build_data
  build_data-Spent s text room now e log h u = elim (Bool-cases s.established) [
    | inl up ↦
        let (wire, e') = transport_seal c cfg s.cur s.tx_counter text room e in
        simp (up, count_sent_out s now wire e') (count_sent-Spent s now wire e' log h u)
    | inr down ↦ simp down (u, omega arith)
  ]

  count_keepalive-Spent :
      (s : Session) (o : Sealed) (e : Entropy) (log : List ℕ) (m : ℕ)
      → Spent (note_sent o m log) s.tx_counter m
      → (let got = count_keepalive c cfg s o e in
          Spent (note_sent got.out m log) got.session.tx_counter m)
  count_keepalive-Spent s (datagram pkt) e log m u = u
  count_keepalive-Spent s refused e log m u = u
  count_keepalive-Spent s Sealed.fault e log m u = u

  next_tx-Spent :
      (b : Bool) (log : List ℕ) (n : ℕ)
      → Unused log n
      → Spent (if b then [] else log) (if b then 0 else n) n
  next_tx-Spent true log n u = (record { once = tt; below = λ x h. ground (arith, h) }, omega arith)
  next_tx-Spent false log n u = (u, omega arith)

  step-Spent :
      (t : Traced) (op : Op)
      → t.machine.session.tx_counter + 1 < 2 ^ 64
      → Unused t.sent t.machine.session.tx_counter
      → Spent
          (step c cfg t op).sent
          (step c cfg t op).machine.session.tx_counter
          t.machine.session.tx_counter
  unfolding step build_initiation build_keepalive
  step-Spent t (initiate room now wall) h u =
      let m = t.machine in
      let (idx, e) = random_bytes 4 m.entropy in
      let begun =
        handshake_begin c cfg.private_key (some cfg.peer_public_key) (psk_of c cfg)
          (get_u32_le idx) in
      let built = create_initiation c begun wall e in
      rw
        (send_built_tx c cfg (record m.session { pending = built.state }) room now built.msg
          built.entropy)
        (u, omega arith)
  step-Spent t (keepalive room now) h u =
      let m = t.machine in
      let sent = build_data c cfg m.session [] room now m.entropy in
      count_keepalive-Spent sent.session sent.out sent.entropy t.sent m.session.tx_counter
        (build_data-Spent m.session [] room now m.entropy t.sent h u)
  step-Spent t (data_packet text room now) h u =
      build_data-Spent t.machine.session text room now t.machine.entropy t.sent h u
  step-Spent t (receive pkt room now) h u =
      let m = t.machine in
      rw (on_datagram_tx c cfg m.session m.reason pkt room now) (
        next_tx-Spent (is_established (on_datagram c cfg m.session m.reason pkt room now).rx) t.sent
          m.session.tx_counter u)

  run-Unused :
      (t : Traced) (ops : List Op)
      → t.machine.session.tx_counter + length ops < 2 ^ 64
      → Unused t.sent t.machine.session.tx_counter
      → (let t' = run c cfg t ops in Unused t'.sent t'.machine.session.tx_counter)
  unfolding run
  run-Unused t [] h u = u
  run-Unused t (op ∷ ops) h u =
      let (u', le) = step-Spent t op (omega (arith, h)) u in
      run-Unused (step c cfg t op) ops (omega (arith, h, le)) u'

  -- From a new session no sequence of fewer than 2^64 calls, with whatever datagrams, sends the
  -- same counter twice under the current key, and the counter that comes next is above them all.
  pub run_nonces-Unused :
      (r : DropReason) (e : Entropy) (ops : List Op)
      → length ops < 2 ^ 64
      → (let t = run c cfg (start cfg r e) ops in Unused t.sent t.machine.session.tx_counter)
  unfolding start session_init
  run_nonces-Unused r e ops h =
      run-Unused (start cfg r e) ops (omega (arith, h))
        (record { once = tt; below = λ x p. ground (arith, p) })
