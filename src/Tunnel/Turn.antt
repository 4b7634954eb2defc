-- ===== src/Tunnel/Turn.antt =====
-- The rest of a turn of the main loop, source/main_switch.c: what is sent, the interface, the HTTP
-- probe, the proxy's pass and the datagrams that wait; and runs of turns.
use sys_amneziawg.Common.{
  ℕ, ◌+◌, Bool, true, not, ◌&&◌, ◌||◌, Option, List, [], ◌∷◌, ◌++◌, length, take, leb, ◌==◌,
  if◌then◌else◌, u32, u64, Entropy,
}
use sys_amneziawg.Types.{Config}
use sys_amneziawg.Noise.Crypto.{Crypto}
use sys_amneziawg.Noise.Framing.Junk.{junk_packets}
use sys_amneziawg.Noise.Transport.{Sealed, datagram, refused, fault}
use sys_amneziawg.Session.State.{Session, needs_handshake, needs_keepalive}
use sys_amneziawg.Session.Send.{build_initiation, build_keepalive}
use sys_amneziawg.Session.Receive.{Rx, payload, ignored, handled, established, fault, on_datagram}
use sys_amneziawg.Proxy.Poll.{proxy_start, poll}
use sys_amneziawg.Netif.{netif_start}
use sys_amneziawg.Tunnel.Fetch.{http_idle, http_reset, http_start, is_busy, is_done, is_failed}
use sys_amneziawg.Tunnel.Loop.{
  Tunnel, Errno, Arrival, Turn, has_fd, power_step, rebuild_step, after_send,
}

-- The state with the datagrams that were given to sendto.
pub record Told : Type 0 where
  pub tunnel : Tunnel
  pub wire : List (List ℕ)

abbrev pub told_nothing : Tunnel → Told
told_nothing t = record { tunnel = t; wire = [] }

-- Of g_wire and of g_rx.
abbrev pub wire_size : ℕ
wire_size = 4096

abbrev pub with_session : Tunnel → Session → Entropy → Tunnel
with_session t s e = record t { session = s; entropy = e }

-- The time after which the probe runs again.
abbrev pub fetch_every_ms : ℕ
fetch_every_ms = 300000

abbrev drained_at_once : ℕ
drained_at_once = 64

module _ (c : Crypto) (cfg : Config) where
  -- The junk packets go in front of the handshake.
  abbrev pub told_handshake : Tunnel → ℕ → Option Errno → Sealed → Told
  told_handshake t now err (datagram pkt) =
      let (junk, e) = junk_packets cfg 128 16 t.entropy in
      record { tunnel = after_send (record t { entropy = e }) now err; wire = junk ++ pkt ∷ [] }
  told_handshake t now err refused = told_nothing t
  told_handshake t now err fault = told_nothing t

  abbrev pub told_keepalive : Tunnel → Sealed → Told
  told_keepalive t (datagram pkt) = record { tunnel = t; wire = pkt ∷ [] }
  told_keepalive t refused = told_nothing t
  told_keepalive t fault = told_nothing t

  unfoldable pub send_step : Tunnel → Turn → Told
  send_step t u =
      let hello = build_initiation c cfg t.session wire_size u.now u.wall t.entropy in
      let alive = build_keepalive c cfg t.session wire_size u.now t.entropy in
      if not (has_fd t.fd)
      then told_nothing t
      else if needs_handshake t.session u.now
      then told_handshake (with_session t hello.session hello.entropy) u.now u.send_error hello.out
      else if needs_keepalive t.session u.now
      then told_keepalive (with_session t alive.session alive.entropy) alive.out
      else told_nothing t

  -- The interface comes up once there is a session, and the proxy with it.
  unfoldable pub bring_up : Tunnel → Turn → Tunnel
  bring_up t u =
      let (nif, up) = netif_start t.nif t.fd true u.netif_added in
      if t.session.established && not t.netif_up
      then (if up
          then record t { nif = nif; netif_up = true; proxy = proxy_start t.proxy u.bound }
          else record t { nif = nif })
      else t

  unfoldable pub fetch_step : Tunnel → Turn → Tunnel
  fetch_step t u =
      if (t.netif_up && t.session.established)
        && (not (is_busy t.fetch.http) && leb t.next_fetch u.now)
      then record t {
        fetches = u32 (t.fetches + 1);
        fetch = http_start t.fetch u.now u.made u.dialled;
        next_fetch = u64 (u.now + fetch_every_ms);
      }
      else t

  -- A finished fetch is reported once.
  unfoldable pub report_step : Tunnel → Tunnel
  report_step t =
      if is_done t.fetch.http || is_failed t.fetch.http
      then record t {
        fetches_ok = if is_done t.fetch.http then u32 (t.fetches_ok + 1) else t.fetches_ok;
        fetch = record (http_reset t.fetch) { http = http_idle };
      }
      else t

  -- The wait: the proxy's pass, if the interface is up, and an error of the tunnel's socket.
  unfoldable pub wait_step : Tunnel → Turn → Tunnel
  wait_step t u =
      let passed : Tunnel = if t.netif_up then record t { proxy = poll t.proxy u.pass } else t in
      if not (has_fd t.fd)
      then t
      else if u.died
      then record passed { tunnel_lost = true }
      else passed

  -- What awg_session_on_datagram answers with a payload goes to the interface.
  abbrev pub take_rx : Tunnel → Rx → Tunnel
  take_rx t (payload xs) = record t { inner = xs ∷ t.inner }
  take_rx t ignored = t
  take_rx t handled = t
  take_rx t established = t
  take_rx t fault = t

  abbrev inner_size : ℕ
  inner_size = 2048

  -- A datagram of the peer.
  unfoldable pub receive_one : Tunnel → Arrival → Tunnel
  receive_one t a =
      let r = on_datagram c cfg t.session t.reason (take wire_size a.content) inner_size a.at in
      take_rx (record t { session = r.session; reason = r.reason }) r.rx

  module _ (peer_addr peer_port : ℕ) where
    unfoldable pub is_peer : Arrival → Bool
    is_peer a = a.whole && (a.addr == peer_addr && a.port == peer_port)

    unfoldable pub drain_one : Tunnel → Arrival → Tunnel
    drain_one t a =
        if is_peer a
        then receive_one t a
        else record t { stray_datagrams = u32 (t.stray_datagrams + 1) }

    -- An empty datagram ends the loop, as having none does.
    unfoldable pub drain : Tunnel → List Arrival → Tunnel
    drain t [] = t
    drain t (a ∷ rest) =
        let more = drain (drain_one t a) rest in if length a.content == 0 then t else more

    unfoldable pub drain_step : Tunnel → Turn → Tunnel
    drain_step t u =
        if has_fd t.fd && u.readable then drain t (take drained_at_once u.arrivals) else t

    unfoldable pub turn : Tunnel → Turn → Told
    turn t u =
        let rebuilt = rebuild_step cfg (power_step t u) u in
        let told = send_step rebuilt u in
        let fetched = report_step (fetch_step (bring_up told.tunnel u) u) in
        record told { tunnel = drain_step (wait_step fetched u) u }

    unfoldable pub run_turns : Tunnel → List Turn → Tunnel
    run_turns t [] = t
    run_turns t (u ∷ us) = run_turns (turn t u).tunnel us
