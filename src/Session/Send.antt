-- ===== src/Session/Send.antt =====
-- What a session sends, source/awg_session.c: awg_session_build_initiation,
-- awg_session_build_data and awg_session_build_keepalive.
use sys_amneziawg.Common.{
  ℕ, ◌+◌, true, Option, none, some, List, [], if◌then◌else◌, u32, u64, sub32, Entropy, random_bytes,
}
use sys_amneziawg.Types.{Config}
use sys_amneziawg.Noise.Crypto.{Crypto}
use sys_amneziawg.Noise.Primitives.{get_u32_le}
use sys_amneziawg.Noise.Handshake.{handshake_begin, create_initiation}
use sys_amneziawg.Noise.Framing.{init, wrap}
use sys_amneziawg.Noise.Transport.{Sealed, datagram, refused, fault, transport_seal}
use sys_amneziawg.Session.State.{Session}

-- The session, what was written or why nothing was, and the entropy that is left.
pub record Sent : Type 0 where
  pub session : Session
  pub out : Sealed
  pub entropy : Entropy

module _ (c : Crypto) (cfg : Config) where
  -- The preshared key, if there is one.
  abbrev pub psk_of : Option (List ℕ)
  psk_of = if cfg.have_preshared_key then some cfg.preshared_key else none

  -- The retry timer is armed, if there is a datagram.
  abbrev pub mark_initiated : Session → ℕ → Option (List ℕ) → Entropy → Sent
  mark_initiated s now none e = record { session = s; out = refused; entropy = e }
  mark_initiated s now (some pkt) e = record {
    session = record s {
      handshaking = true;
      handshake_sent_ms = now;
      handshake_tries = s.handshake_tries + 1;
    };
    out = datagram pkt;
    entropy = e;
  }

  -- The message that was built, if it was, goes into a datagram.
  unfoldable pub send_built : Session → ℕ → ℕ → Option (List ℕ) → Entropy → Sent
  send_built s out_cap now none e = record { session = s; out = refused; entropy = e }
  send_built s out_cap now (some msg) e =
      let (wire, e') = wrap c cfg init msg out_cap e in mark_initiated s now wire e'

  -- The pending handshake is begun anew also where the message cannot be built.
  unfoldable pub build_initiation : Session → ℕ → ℕ → ℕ → Entropy → Sent
  build_initiation s out_cap now wall e =
      let (idx, e') = random_bytes 4 e in
      let begun =
        handshake_begin c cfg.private_key (some cfg.peer_public_key) psk_of (get_u32_le idx) in
      let built = create_initiation c begun wall e' in
      send_built (record s { pending = built.state }) out_cap now built.msg built.entropy

  -- The counters after a datagram, and nothing else, move on.
  abbrev pub count_sent : Session → ℕ → Sealed → Entropy → Sent
  count_sent s now (datagram pkt) e = record {
    session = record s {
      tx_counter = u64 (s.tx_counter + 1);
      packets_tx = u32 (s.packets_tx + 1);
      last_tx_ms = now;
    };
    out = datagram pkt;
    entropy = e;
  }
  count_sent s now refused e = record { session = s; out = refused; entropy = e }
  count_sent s now fault e = record { session = s; out = fault; entropy = e }

  unfoldable pub build_data : Session → List ℕ → ℕ → ℕ → Entropy → Sent
  build_data s payload out_cap now e =
      if s.established
      then (let (wire, e') = transport_seal c cfg s.cur s.tx_counter payload out_cap e in
          count_sent s now wire e')
      else record { session = s; out = refused; entropy = e }

  -- A datagram counts as a keepalive and not as traffic.
  abbrev pub count_keepalive : Session → Sealed → Entropy → Sent
  count_keepalive s (datagram pkt) e = record {
    session = record s {
      keepalives_tx = u32 (s.keepalives_tx + 1);
      packets_tx = sub32 s.packets_tx 1;
    };
    out = datagram pkt;
    entropy = e;
  }
  count_keepalive s refused e = record { session = s; out = refused; entropy = e }
  count_keepalive s fault e = record { session = s; out = fault; entropy = e }

  unfoldable pub build_keepalive : Session → ℕ → ℕ → Entropy → Sent
  build_keepalive s out_cap now e =
      let sent = build_data s [] out_cap now e in count_keepalive sent.session sent.out sent.entropy
