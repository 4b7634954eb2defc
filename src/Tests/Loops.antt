-- ===== src/Tests/Loops.antt =====
-- The proxy, the interface and the main loop over a few events.
use sys_amneziawg.Common.{
  ℕ, ◌+◌, ◌^◌, ◌≡◌, refl, true, false, some, none, List, [], ◌∷◌, length, replicate, leb, ℤ, pos,
  negsuc, arith, All, u32,
}
use sys_amneziawg.Types.{Config}
use sys_amneziawg.Noise.Handshake.{zero_handshake}
use sys_amneziawg.Noise.Framing.{lacks_nonce}
use sys_amneziawg.Noise.Transport.{transport_seal, seal_padded}
use sys_amneziawg.Obfuscation.Parse.{or_nil}
use sys_amneziawg.Session.State.{Session, zero_session, needs_keepalive}
use sys_amneziawg.Session.Send.{build_data}
use sys_amneziawg.Proxy.Connection.{
  Slot, sent, would_block, relay, empty_conn, again, in_progress, pump_down,
}
use sys_amneziawg.Proxy.Connection.Streams.{Delivers, pump_down-keeps_stream}
use sys_amneziawg.Proxy.Connection.Soundness.{Vetted}
use sys_amneziawg.Proxy.Poll as Poll
use sys_amneziawg.Proxy.Poll.{
  Event, Pass, passed, restarted, was_resolved, Answer, SendRoom, zero_stats,
}
use sys_amneziawg.Proxy.Poll.Safety.{proxy_run-Vetted}
use sys_amneziawg.Netif.{Interface, tunnel_output, hand_over}
use sys_amneziawg.Netif.Clock.{tunnel_output_keepalive}
use sys_amneziawg.Tunnel.Fetch as Fetch
use sys_amneziawg.Tunnel.Loop.{Tunnel, Turn, Arrival}
use sys_amneziawg.Tunnel.Turn as Loop
use sys_amneziawg.Tunnel.Rebuild.{Kept, run_turns-Kept, Spaced, attempts, attempts-Spaced}
use sys_amneziawg.Tunnel.Strays.{uncounted, receive_all, peer, stray, selects_none, drain-Selects}
use sys_amneziawg.Tunnel.Status.{
  Baselines, Sample, status_run, rate_line, status_baselines, verdict, unreliable,
}
use sys_amneziawg.Tunnel.Status.Rates.{
  ascends, ascends_none, IsRounded, total_pkts, total_kb, status_run-sums,
}
use sys_amneziawg.Tests.Toy.{toy, shielded, bytes}

abbrev relaying : Slot
relaying = record {
  conn = record empty_conn {
    st = relay;
    cfd = some 3;
    rx = (1 ∷ 2 ∷ []) ∷ (3 ∷ []) ∷ [];
    rx_off = 1;
  };
  stats = zero_stats;
}

pump_down_example :
    Delivers relaying.conn
      (sent 1 ∷ would_block ∷ [])
      (pump_down relaying (sent 1 ∷ would_block ∷ []) 50)
pump_down_example = pump_down-keeps_stream relaying (sent 1 ∷ would_block ∷ []) 50

abbrev pass : Pass
pass = record {
  fired = true;
  client = some 9;
  answers = λ i. record {
    hung_up = false;
    writable = false;
    sends = [];
    readable = true;
    recv = again;
    dns = in_progress;
    pcb = none;
    dialled = true;
  };
  windows = λ i. record { room = 100; writes = true; sends = [] };
  now = 100;
}

abbrev events : List Event
events = restarted true ∷ passed pass ∷ was_resolved 0 true (some 1) true ∷ passed pass ∷ []

proxy_run-Vetted_example : All Vetted (Poll.run_events Poll.initial_proxy events).conns
proxy_run-Vetted_example = proxy_run-Vetted events

-- No header protection and no padding.
abbrev plain : Config
plain = record shielded { have_header_protection = false; s4 = pos 0 }

abbrev up : Session
up = record zero_session {
  cur = record zero_handshake { send_key = replicate 32 1; remote_index = 5 };
  established = true;
  keepalive_s = pos 25;
}

abbrev nif : Interface
nif = record { ready = true; fd = pos 3; attached = true }

abbrev late : ℕ
late = 2 ^ 32 + 5

abbrev sent_packet : List ℕ
sent_packet = or_nil (tunnel_output toy plain nif up 2 (7 ∷ 8 ∷ []) late true bytes).wire

packet_sent :
    (tunnel_output toy plain nif up 2 (7 ∷ 8 ∷ []) late true bytes).wire ≡ some sent_packet
unfolding tunnel_output hand_over build_data transport_seal seal_padded lacks_nonce
packet_sent = refl

tunnel_output_example :
    needs_keepalive (tunnel_output toy plain nif up 2 (7 ∷ 8 ∷ []) late true bytes).session late
    ≡ leb (2 ^ 32) late
tunnel_output_example =
    tunnel_output_keepalive toy plain nif up 2 (7 ∷ 8 ∷ []) late true bytes sent_packet 25
      packet_sent refl (omega arith) (omega arith) (omega arith)

-- A tunnel whose socket has just died.
abbrev lost : Tunnel
lost = record {
  session = up;
  reason = record { behind = 0; too_old = false };
  entropy = bytes;
  fd = pos 3;
  nif = nif;
  netif_up = true;
  proxy = Poll.initial_proxy;
  fetch = Fetch.initial_fetch;
  tunnel_lost = true;
  unreachable_since = 0;
  next_rebuild = 1000;
  next_power = 0;
  next_fetch = 0;
  fetches = 0;
  fetches_ok = 0;
  stray_datagrams = 0;
  rebuilds = 0;
  suspends = 0;
  inner = [];
}

abbrev stranger : Arrival
stranger = record { whole = true; addr = 1; port = 2; content = 5 ∷ []; at = 40 }

abbrev server : Arrival
server = record { whole = true; addr = 10; port = 20; content = 6 ∷ []; at = 41 }

abbrev turn_at : ℕ → ℤ → Turn
turn_at now fd = record {
  now = now;
  wall = 0;
  transition = false;
  new_fd = fd;
  bound = true;
  send_error = none;
  netif_added = true;
  made = true;
  dialled = true;
  pass = pass;
  died = true;
  readable = true;
  arrivals = stranger ∷ server ∷ [];
}

abbrev turns : List Turn
turns = turn_at 2000 (negsuc 0) ∷ turn_at 2100 (pos 4) ∷ turn_at 6000 (pos 4) ∷ []

run_turns-Kept_example : Kept (Loop.run_turns toy plain 10 20 lost turns)
run_turns-Kept_example =
    run_turns-Kept toy plain 10 20 lost turns (record { retried = λ h. refl; wired = λ a h. refl })

attempts_example : Spaced 1000 (attempts toy plain 10 20 lost turns)
attempts_example =
    attempts-Spaced toy plain 10 20 lost turns (omega arith, (omega arith, (omega arith, tt)))

abbrev both : List Arrival
both = stranger ∷ server ∷ []

strays_example :
    (uncounted (Loop.drain toy plain 10 20 lost both)
      ≡ receive_all toy plain 10 20 (uncounted lost) (server ∷ []))
    × ((Loop.drain toy plain 10 20 lost both).stray_datagrams ≡ u32 (lost.stray_datagrams + 1))
strays_example =
    drain-Selects toy plain 10 20 lost both (server ∷ []) 1 (refl, (refl, tt))
      (stray (λ h. omega (arith, h.1)) (peer (refl, refl, refl) selects_none)) (omega arith)

abbrev counted : ℕ → ℕ → Tunnel
counted pkts bytes =
    let stats = record zero_stats { bytes_down = bytes } in
    record lost {
      session = record zero_session { packets_rx = pkts };
      proxy = record lost.proxy { stats = stats };
    }

abbrev readings : List Sample
readings =
    record { now = 1000; t = 1000; tunnel = counted 4 2048 }
    ∷ record { now = 9000; t = 9000; tunnel = counted 7 4096 }
    ∷ record { now = 16000; t = 16001; tunnel = counted 34 40960 }
    ∷ []

abbrev base : Baselines
base = record { last_rx_pkts = 0; last_down_kb = 0; reported = 0; next_status = 0 }

status_run_example :
    (let e = status_run base readings in
      IsRounded base.last_rx_pkts e.0.last_rx_pkts (length e.1) (total_pkts e.1)
      × IsRounded base.last_down_kb e.0.last_down_kb (length e.1) (total_kb e.1))
status_run_example = status_run-sums base readings (
    ascends (omega arith) (omega arith)
      (ascends (omega arith) (omega arith) (ascends (omega arith) (omega arith) ascends_none)))

status_run_packets : (status_run base readings).0.last_rx_pkts ≡ 34
unfolding status_run rate_line status_baselines
status_run_packets = refl

rate_line_restart :
    let b : Baselines = record base { last_rx_pkts = 34; last_down_kb = 40 } in
    let r : Sample = record { now = 40000; t = 40000; tunnel = counted 2 0 } in
    (rate_line b r).pkts_per_s ≡ 0
unfolding rate_line
rate_line_restart = refl

verdict_some : verdict (record lost { fetches = 3; fetches_ok = 2 }) ≡ unreliable
verdict_some = refl
