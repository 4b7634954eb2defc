-- ===== src/Tests/Connections.antt =====
-- The theorems on the proxy's connections, on a client that has just connected.
use sys_amneziawg.Common.{ℕ, refl, arith, ◌≤◌, length, ◌≡◌, true, some, List, [], ◌∷◌, ◌++◌, length}
use sys_amneziawg.Proxy.Connection.{
  Conn, Slot, Stats, sniff, relay, empty_conn, conn_close, sweep, pump_up,
}
use sys_amneziawg.Proxy.Connection.Streams.{pump_up-keeps_stream}
use sys_amneziawg.Proxy.Table.Sweep.{Sweeps, Counts, sweep_idle-Sweeps}
use sys_amneziawg.Proxy.Table.{sweep_idle, Admits, accept_client, accept_client-Admits}

abbrev no_stats : Stats
no_stats = record {
  accepted = 0;
  resolved = 0;
  connected = 0;
  failed = 0;
  denied = 0;
  refused = 0;
  timed_out = 0;
  closed = 0;
  completed = 0;
  bytes_up = 0;
  bytes_down = 0;
}

abbrev sniffing : Slot
sniffing = record {
  conn = record empty_conn { st = sniff; cfd = some 4; last_ms = 100 };
  stats = no_stats;
}

abbrev relaying : Slot
relaying = record {
  conn = record empty_conn { st = relay; pcb = some 1; up = 1 ∷ 2 ∷ 3 ∷ [] };
  stats = no_stats;
}

pump_up_example :
    (let r = pump_up relaying 2 true 300 in
      (r.0 ++ r.1.conn.up ≡ 1 ∷ 2 ∷ 3 ∷ []) × (length r.0 ≤ 2))
pump_up_example = pump_up-keeps_stream relaying 2 true 300

abbrev table : List Conn
table = sniffing.conn ∷ empty_conn ∷ []

accept_example : Admits table no_stats 5 400 (accept_client table no_stats 5 400)
accept_example = accept_client-Admits table no_stats 5 400

sweep_example :
    (k : ℕ) × Sweeps 9000 table (sweep_idle table no_stats 9000).0 k
    × Counts no_stats (sweep_idle table no_stats 9000).1 k
sweep_example = sweep_idle-Sweeps table no_stats 9000 (omega arith) (omega arith)

-- The hello was awaited for 8.9 seconds.
swept : (sweep_idle table no_stats 9000).0 ≡ empty_conn ∷ empty_conn ∷ []
unfolding sweep_idle sweep conn_close
swept = refl
