-- ===== src/Session/Trace/Replay.antt =====
-- No counter goes through twice under one keypair, whatever is called in whatever order.
use sys_amneziawg.Common.{
  ℕ, true, false, List, [], ◌∷◌, if◌then◌else◌, Option, none, some, inl, inr, Bool-cases, ◌==◌,
  Entropy, random_bytes, ◌&&◌, ℤ, pos, negsuc, drop,
}
use sys_amneziawg.Types.{Config}
use sys_amneziawg.Noise.Crypto.{Crypto}
use sys_amneziawg.Noise.Handshake.{consume_response, handshake_begin, create_initiation}
use sys_amneziawg.Noise.Primitives.{get_u32_le}
use sys_amneziawg.Noise.Framing.{Unwrapped, response, init, unwrap, wrap}
use sys_amneziawg.Noise.Transport.{Sealed, transport_seal, datagram, refused, transport_open}
use sys_amneziawg.Session.Window.{DropReason}
use sys_amneziawg.Session.Window.Refinement.{empty-Represents, IsDistinct}
use sys_amneziawg.Session.State.{session_init, Session}
use sys_amneziawg.Session.Send.{
  psk_of, build_initiation, build_data, build_keepalive, count_sent, count_keepalive,
  mark_initiated, send_built,
}
use sys_amneziawg.Session.Receive.{
  expire_prev, on_datagram, looks_like_response, on_response, on_transport, is_rejected, consume_at,
  on_unwrapped,
}
use sys_amneziawg.Session.Trace.{
  Op, Past, Traced, is_established, rotate, past_expired, opened_by, note_opened, past_after, step,
  run, start, initiate, keepalive, data_packet, receive,
}
use sys_amneziawg.Session.Trace.Windows.{
  Guarded, promote-Guarded, expire_prev-Guarded, conclude-Guarded,
}

module _ (c : Crypto) (cfg : Config) where
  on_transport-Guarded :
      (p : Past) (s : Session) (r : DropReason) (pkt : List ℕ) (room now : ℕ)
      → Guarded p s
      → (let got = on_transport c cfg s r pkt room now in
          Guarded (note_opened (opened_by c cfg s pkt room) got.rx p) got.session)
  unfolding on_transport opened_by
  on_transport-Guarded p s r pkt room now g =
      let (pkt', o) = transport_open c cfg s.cur pkt room in
      elim (Bool-cases (is_rejected o && s.have_prev)) [
        | inl again ↦
            rw again (conclude-Guarded p s r true now (transport_open c cfg s.prev pkt' room).1 g)
        | inr once ↦ rw once (conclude-Guarded p s r false now o g)
      ]

  consume_at-Guarded :
      (p : Past) (s : Session) (r : DropReason) (now : ℕ) (off : ℤ) (pkt : List ℕ)
      → Guarded p s
      → (let got = consume_at c cfg s r now off pkt in
          Guarded (if is_established got.rx then rotate s p else p) got.session)
  unfolding consume_at
  consume_at-Guarded p s r now (negsuc n) pkt g = g
  consume_at-Guarded p s r now (pos off) pkt g =
      let got = consume_response c s.pending (drop off pkt) in
      let s' : Session = record s { pending = got.state } in
      let g' : Guarded p s' = record {
        cur_window = g.cur_window;
        prev_window = g.prev_window;
        cur_once = g.cur_once;
        prev_once = g.prev_once;
      } in
      elim (Bool-cases got.accepted) [
        | inl good ↦ rw good (promote-Guarded p s' now g')
        | inr bad ↦ rw bad g'
      ]

  on_unwrapped-Guarded :
      (p : Past) (s : Session) (r : DropReason) (now : ℕ) (o : Option Unwrapped)
      → Guarded p s
      → (let got = on_unwrapped c cfg s r now o in
          Guarded (if is_established got.rx then rotate s p else p) got.session)
  unfolding on_unwrapped
  on_unwrapped-Guarded p s r now none g = g
  on_unwrapped-Guarded p s r now (some u) g = elim (Bool-cases (u.msg_len == 92)) [
    | inl size ↦ rw size (consume_at-Guarded p s r now u.msg_off u.pkt g)
    | inr other ↦ rw other g
  ]

  on_datagram-Guarded :
      (p : Past) (s : Session) (r : DropReason) (pkt : List ℕ) (room now : ℕ)
      → Guarded p s
      → (let got = on_datagram c cfg s r pkt room now in
          Guarded (past_after c cfg s p pkt room now got.rx) got.session)
  unfolding on_datagram past_after on_response
  on_datagram-Guarded p s r pkt room now g = elim (Bool-cases (looks_like_response c cfg s pkt)) [
    | inl looks ↦ simp looks (on_unwrapped-Guarded p s r now (unwrap c cfg response pkt) g)
    | inr other ↦ elim (Bool-cases s.established) [
      | inl up ↦
          simp (other, up)
            (on_transport-Guarded (past_expired s (expire_prev s now) p) (expire_prev s now) r pkt
              room now (expire_prev-Guarded p s now g))
      | inr down ↦ simp (other, down) g
    ]
  ]

  mark_initiated-Guarded :
      (p : Past) (s : Session) (now : ℕ) (o : Option (List ℕ)) (e : Entropy)
      → Guarded p s
      → Guarded p (mark_initiated c cfg s now o e).session
  mark_initiated-Guarded p s now none e g = g
  mark_initiated-Guarded p s now (some pkt) e g = record {
    cur_window = g.cur_window;
    prev_window = g.prev_window;
    cur_once = g.cur_once;
    prev_once = g.prev_once;
  }

  send_built-Guarded :
      (p : Past) (s : Session) (room now : ℕ) (o : Option (List ℕ)) (e : Entropy)
      → Guarded p s
      → Guarded p (send_built c cfg s room now o e).session
  unfolding send_built
  send_built-Guarded p s room now none e g = g
  send_built-Guarded p s room now (some msg) e g =
      let (wire, e') = wrap c cfg init msg room e in mark_initiated-Guarded p s now wire e' g

  count_sent-Guarded :
      (p : Past) (s : Session) (now : ℕ) (o : Sealed) (e : Entropy)
      → Guarded p s
      → Guarded p (count_sent c cfg s now o e).session
  count_sent-Guarded p s now (datagram pkt) e g = record {
    cur_window = g.cur_window;
    prev_window = g.prev_window;
    cur_once = g.cur_once;
    prev_once = g.prev_once;
  }
  count_sent-Guarded p s now refused e g = g
  count_sent-Guarded p s now Sealed.fault e g = g

  count_keepalive-Guarded :
      (p : Past) (s : Session) (o : Sealed) (e : Entropy)
      → Guarded p s
      → Guarded p (count_keepalive c cfg s o e).session
  count_keepalive-Guarded p s (datagram pkt) e g = record {
    cur_window = g.cur_window;
    prev_window = g.prev_window;
    cur_once = g.cur_once;
    prev_once = g.prev_once;
  }
  count_keepalive-Guarded p s refused e g = g
  count_keepalive-Guarded p s Sealed.fault e g = g

  build_data-Guarded :
      (p : Past) (s : Session) (text : List ℕ) (room now : ℕ) (e : Entropy)
      → Guarded p s
      → Guarded p (build_data c cfg s text room now e).session
  unfolding build_data
  build_data-Guarded p s text room now e g = elim (Bool-cases s.established) [
    | inl up ↦
        let (wire, e') = transport_seal c cfg s.cur s.tx_counter text room e in
        simp up (count_sent-Guarded p s now wire e' g)
    | inr down ↦ simp down g
  ]

  pub step-Guarded :
      (t : Traced) (op : Op)
      → Guarded t.past t.machine.session
      → Guarded (step c cfg t op).past (step c cfg t op).machine.session
  unfolding step build_initiation build_keepalive
  step-Guarded t (initiate room now wall) g =
      let m = t.machine in
      let (idx, e) = random_bytes 4 m.entropy in
      let begun =
        handshake_begin c cfg.private_key (some cfg.peer_public_key) (psk_of c cfg)
          (get_u32_le idx) in
      let built = create_initiation c begun wall e in
      send_built-Guarded t.past (record m.session { pending = built.state }) room now built.msg
        built.entropy
        (record {
          cur_window = g.cur_window;
          prev_window = g.prev_window;
          cur_once = g.cur_once;
          prev_once = g.prev_once;
        })
  step-Guarded t (keepalive room now) g =
      let m = t.machine in
      let sent = build_data c cfg m.session [] room now m.entropy in
      count_keepalive-Guarded t.past sent.session sent.out sent.entropy
        (build_data-Guarded t.past m.session [] room now m.entropy g)
  step-Guarded t (data_packet text room now) g =
      build_data-Guarded t.past t.machine.session text room now t.machine.entropy g
  step-Guarded t (receive pkt room now) g =
      on_datagram-Guarded t.past t.machine.session t.machine.reason pkt room now g

  run-Guarded :
      (t : Traced) (ops : List Op)
      → Guarded t.past t.machine.session
      → Guarded (run c cfg t ops).past (run c cfg t ops).machine.session
  unfolding run
  run-Guarded t [] g = g
  run-Guarded t (op ∷ ops) g = run-Guarded (step c cfg t op) ops (step-Guarded t op g)

  start-Guarded :
      (r : DropReason) (e : Entropy) → Guarded (start cfg r e).past (start cfg r e).machine.session
  unfolding start session_init
  start-Guarded r e = record {
    cur_window = empty-Represents;
    prev_window = empty-Represents;
    cur_once = tt;
    prev_once = tt;
  }

  -- From a new session no sequence of calls, with whatever datagrams, lets the same counter through
  -- twice under the current keypair, nor under the previous one.
  pub run_no_replay :
      (r : DropReason) (e : Entropy) (ops : List Op)
      → (let p = (run c cfg (start cfg r e) ops).past in IsDistinct p.cur × IsDistinct p.prev)
  run_no_replay r e ops =
      let g = run-Guarded (start cfg r e) ops (start-Guarded r e) in (g.cur_once, g.prev_once)
