-- ===== src/Session/Receive.antt =====
-- What a session does with a datagram, source/awg_session.c: awg_session_on_datagram.
use sys_amneziawg.Common.{
  ℕ, ◌+◌, ◌*◌, Bool, true, false, ◌&&◌, Option, none, some, List, [], ◌∷◌, length, drop, ltb, ◌==◌,
  if◌then◌else◌, u32, sub64, ℤ, pos, negsuc, max,
}
use sys_amneziawg.Common.Int.{◌+ℤ◌}
use sys_amneziawg.Types.{Config}
use sys_amneziawg.Noise.Crypto.{Crypto}
use sys_amneziawg.Noise.Handshake.{consume_response, zero_handshake, msg_resp_size}
use sys_amneziawg.Noise.Framing.{Unwrapped, response, unwrap}
use sys_amneziawg.Noise.Transport.{Opened, opened, rejected, transport_open}
use sys_amneziawg.Session.Window.{DropReason, empty_window, replay_ok}
use sys_amneziawg.Session.State.{Session}

abbrev pub prev_keep_ms : ℕ
prev_keep_ms = 180 * 1000

-- awg_rx_result, with the inner packet of AWG_RX_PAYLOAD, and an access outside the buffer.
pub data Rx : Type 0 where
  ignored handled : Rx
  payload : List ℕ → Rx
  established fault : Rx

-- The session, the two static variables of the window, and the answer.
pub record Received : Type 0 where
  pub session : Session
  pub reason : DropReason
  pub rx : Rx

-- The current keypair becomes the previous one, if there was one.
unfoldable pub retire : Session → ℕ → Session
retire s now =
    if s.established
    then record s {
      rekeys = u32 (s.rekeys + 1);
      prev = s.cur;
      have_prev = true;
      prev_window = s.rx_window;
      prev_since_ms = now;
    }
    else s

-- The pending handshake becomes the current keypair.
unfoldable pub promote : Session → ℕ → Session
unfolding retire
promote s now = record (retire s now) {
  cur = s.pending;
  established = true;
  handshaking = false;
  handshake_tries = 0;
  tx_counter = 0;
  rx_counter_max = 0;
  rx_window = empty_window;
  established_ms = now;
  last_rx_ms = now;
  last_tx_ms = now;
  handshakes_done = u32 (s.handshakes_done + 1);
}

-- A previous keypair is erased once it is more than three minutes old.
unfoldable pub expire_prev : Session → ℕ → Session
expire_prev s now =
    if s.have_prev && ltb prev_keep_ms (sub64 now s.prev_since_ms)
    then record s { have_prev = false; prev = zero_handshake; prev_window = empty_window }
    else s

-- What an authenticated datagram that proved to be new does.
unfoldable pub deliver : Session → DropReason → ℕ → List ℕ → ℕ → Received
deliver s r now plain ctr =
    let s' : Session = record s { last_rx_ms = now; rx_counter_max = max s.rx_counter_max ctr } in
    elim plain [
      | [] ↦ record { session = s'; reason = r; rx = handled }
      | x ∷ xs ↦ record {
        session = record s' { packets_rx = u32 (s'.packets_rx + 1) };
        reason = r;
        rx = payload (x ∷ xs);
      }
    ]

-- What a replay leaves behind.
unfoldable pub drop_replay : Session → DropReason → Bool → ℕ → Received
drop_replay s r on_prev ctr = record {
  session = record s {
    replays_dropped = u32 (s.replays_dropped + 1);
    last_replay_ctr = ctr;
    last_replay_behind = r.behind;
    last_replay_old = r.too_old;
    last_replay_prev = on_prev;
  };
  reason = r;
  rx = ignored;
}

-- The window of the keypair that opened the datagram decides.
unfoldable pub judge : Session → DropReason → Bool → ℕ → List ℕ → ℕ → Received
judge s r on_prev now plain ctr =
    let v = replay_ok (if on_prev then s.prev_window else s.rx_window) r ctr in
    let s' : Session =
      if on_prev then record s { prev_window = v.window } else record s { rx_window = v.window } in
    if v.fresh then deliver s' v.reason now plain ctr else drop_replay s' v.reason on_prev ctr

-- `plain < 0`, where nothing faulted.
abbrev pub is_rejected : Opened → Bool
is_rejected (opened plain ctr) = false
is_rejected rejected = true
is_rejected Opened.fault = false

-- What follows the attempts to decrypt.
abbrev pub conclude : Session → DropReason → Bool → ℕ → Opened → Received
conclude s r on_prev now (opened plain ctr) = judge s r on_prev now plain ctr
conclude s r on_prev now rejected = record { session = s; reason = r; rx = ignored }
conclude s r on_prev now Opened.fault = record { session = s; reason = r; rx = Rx.fault }

module _ (c : Crypto) (cfg : Config) where
  -- awg_consume_response on the message at an offset, and what its answer leads to.
  unfoldable pub consume_at : Session → DropReason → ℕ → ℤ → List ℕ → Received
  consume_at s r now (pos off) pkt =
      let got = consume_response c s.pending (drop off pkt) in
      let s' : Session = record s { pending = got.state } in
      if got.accepted
      then record { session = promote s' now; reason = r; rx = established }
      else record { session = s'; reason = r; rx = ignored }
  -- The message would be read in front of the packet.
  consume_at s r now (negsuc _) pkt = record { session = s; reason = r; rx = fault }

  -- `mlen != AWG_MSG_RESP_SIZE`, an awg_unwrap that failed included.
  unfoldable pub on_unwrapped : Session → DropReason → ℕ → Option Unwrapped → Received
  unfolding consume_at
  on_unwrapped s r now none = record { session = s; reason = r; rx = ignored }
  on_unwrapped s r now (some u) =
      if u.msg_len == msg_resp_size
      then consume_at s r now u.msg_off u.pkt
      else record { session = s; reason = r; rx = ignored }

  -- The branch for a datagram with the length of a response.
  unfoldable pub on_response : Session → DropReason → List ℕ → ℕ → Received
  on_response s r pkt now = on_unwrapped s r now (unwrap c cfg response pkt)

  -- The previous keypair gets the packet as the current one left it.
  unfoldable pub on_transport : Session → DropReason → List ℕ → ℕ → ℕ → Received
  on_transport s r pkt cap now =
      let (pkt', got) = transport_open c cfg s.cur pkt cap in
      if is_rejected got && s.have_prev
      then conclude s r true now (transport_open c cfg s.prev pkt' cap).1
      else conclude s r false now got

  -- `s->handshaking && pkt_len == cfg->s2 + AWG_MSG_RESP_SIZE`.
  unfoldable pub looks_like_response : Session → List ℕ → Bool
  looks_like_response s pkt =
      s.handshaking
      && (elim (cfg.s2 +ℤ pos msg_resp_size) [ pos n ↦ length pkt == n | negsuc _ ↦ false ])

  unfoldable pub on_datagram : Session → DropReason → List ℕ → ℕ → ℕ → Received
  on_datagram s r pkt cap now =
      if looks_like_response s pkt
      then on_response s r pkt now
      else if s.established
      then on_transport (expire_prev s now) r pkt cap now
      else record { session = s; reason = r; rx = ignored }
