-- ===== src/Proxy/Connection.antt =====
-- One connection of the proxy, source/awg_proxy.c: its state and what each event does to it. What
-- lwIP and the sockets answer is an argument of the event.
pub mod Soundness
pub mod Streams
pub mod Upkeep
use sys_amneziawg.Common.{
  ℕ, zero, suc, ◌+◌, ◌-◌, Bool, true, false, not, ◌&&◌, ◌||◌, Option, none, some, List, [], ◌∷◌,
  ◌++◌, length, take, drop, min, ltb, leb, if◌then◌else◌, u32, u64, sub32,
}
use sys_amneziawg.Proxy.Sni.{sni_hostname}
use sys_amneziawg.Proxy.Host.{host_normalise, host_denied}

abbrev pub buf_size : ℕ
buf_size = 8192

abbrev pub sniff_limit : ℕ
sniff_limit = 2048

abbrev pub sniff_timeout_ms : ℕ
sniff_timeout_ms = 5000

abbrev pub idle_timeout_ms : ℕ
idle_timeout_ms = 120000

-- cstate.
pub data ConnState : Type 0 where
  free sniff resolving connecting relay : ConnState

-- conn_t: `up` is up[0..up_len), `rx` the texts of the chain at rx_head, and -1 and NULL are none.
pub record Conn : Type 0 where
  pub st : ConnState
  pub cfd : Option ℕ
  pub pcb : Option ℕ
  pub host : List ℕ
  pub last_ms : ℕ
  pub up : List ℕ
  pub rx : List (List ℕ)
  pub rx_off : ℕ
  pub peer_closed : Bool

-- What conn_close and conn_alloc leave in a slot.
abbrev pub empty_conn : Conn
empty_conn = record {
  st = free;
  cfd = none;
  pcb = none;
  host = [];
  last_ms = 0;
  up = [];
  rx = [];
  rx_off = 0;
  peer_closed = false;
}

-- awg_proxy_stats.
pub record Stats : Type 0 where
  pub accepted : ℕ
  pub resolved : ℕ
  pub connected : ℕ
  pub failed : ℕ
  pub denied : ℕ
  pub refused : ℕ
  pub timed_out : ℕ
  pub closed : ℕ
  pub completed : ℕ
  pub bytes_up : ℕ
  pub bytes_down : ℕ

-- A slot of the table with the counters that all slots share.
pub record Slot : Type 0 where
  pub conn : Conn
  pub stats : Stats

abbrev pub is_free : ConnState → Bool
is_free free = true
is_free sniff = false
is_free resolving = false
is_free connecting = false
is_free relay = false

abbrev pub is_sniff : ConnState → Bool
is_sniff sniff = true
is_sniff free = false
is_sniff resolving = false
is_sniff connecting = false
is_sniff relay = false

abbrev pub is_resolving : ConnState → Bool
is_resolving resolving = true
is_resolving free = false
is_resolving sniff = false
is_resolving connecting = false
is_resolving relay = false

abbrev pub is_relay : ConnState → Bool
is_relay relay = true
is_relay free = false
is_relay sniff = false
is_relay resolving = false
is_relay connecting = false

abbrev pub count_failed : Stats → Stats
count_failed n = record n { failed = u32 (n.failed + 1) }

-- With a reason the close is counted.
unfoldable pub conn_close : Slot → Bool → Slot
conn_close s with_reason = if is_free s.conn.st then s else record {
  conn = empty_conn;
  stats = if with_reason then record s.stats { closed = u32 (s.stats.closed + 1) } else s.stats;
}

-- The chain that lwIP hands over, or none where the remote end finished sending.
unfoldable pub on_recv : Slot → Option (List (List ℕ)) → Bool → Slot
on_recv s none ok = record s { conn = record s.conn { peer_closed = true } }
on_recv s (some p) ok = if ok then record s { conn = record s.conn { rx = s.conn.rx ++ p } } else s

unfoldable pub on_err : Slot → Slot
on_err s =
    conn_close (record { conn = record s.conn { pcb = none }; stats = count_failed s.stats }) false

unfoldable pub on_connected : Slot → Bool → Slot
on_connected s ok =
    if ok
    then record {
      conn = record s.conn { st = relay };
      stats = record s.stats { connected = u32 (s.stats.connected + 1) };
    }
    else conn_close (record s { stats = count_failed s.stats }) true

-- From the new pcb on; `dialled` is what tcp_connect answers.
unfoldable pub dial : Slot → Option ℕ → Bool → Slot
dial s none dialled = conn_close (record s { stats = count_failed s.stats }) true
dial s (some pcb) dialled =
    let c : Conn = record s.conn { pcb = some pcb; st = connecting } in
    if dialled
    then record s { conn = c }
    else conn_close (record { conn = c; stats = count_failed s.stats }) true

unfoldable pub on_resolved : Slot → Bool → Option ℕ → Bool → Slot
on_resolved s has_ip pcb dialled =
    if not (is_resolving s.conn.st)
    then s
    else if has_ip
    then dial (record s { stats = record s.stats { resolved = u32 (s.stats.resolved + 1) } }) pcb
        dialled
    else conn_close (record s { stats = count_failed s.stats }) true

-- What lwIP takes of the bytes that tcp_write is given.
abbrev pub tcp_takes : Bool → List ℕ → List ℕ
tcp_takes ok bytes = if ok then bytes else []

-- The bytes that go into the tunnel, and the slot: `room` is tcp_sndbuf, `ok` what tcp_write says.
unfoldable pub pump_up : Slot → ℕ → Bool → ℕ → List ℕ × Slot
pump_up s room ok now =
    let c = s.conn in
    let n = min (length c.up) room in
    elim c.pcb [
      | none ↦ ([], s)
      | some pcb ↦ if leb (length c.up) 0 || leb room 0 then ([], s) else (
        tcp_takes ok (take n c.up),
        if not ok then s else record {
          conn = record c { up = drop n c.up; last_ms = now };
          stats = record s.stats { bytes_up = u64 (s.stats.bytes_up + n) };
        },
      )
    ]

-- What send answers: a number of bytes that is not 0, EAGAIN, or anything else.
pub data SendResult : Type 0 where
  sent : ℕ → SendResult
  would_block broken : SendResult

-- Spent links at the head of a chain are freed.
unfoldable pub skip_spent : List (List ℕ) → ℕ → List (List ℕ) × ℕ
skip_spent [] off = ([], off)
skip_spent (p ∷ ps) off =
    let rest = skip_spent ps 0 in if leb (length p) off then rest else (p ∷ ps, off)

abbrev pub drop_spent : Conn → Conn
drop_spent c = let (rx, off) = skip_spent c.rx c.rx_off in record c { rx = rx; rx_off = off }

-- After send took n bytes.
abbrev pub count_down : Slot → ℕ → ℕ → Slot
count_down s n now = record {
  conn = record s.conn { rx_off = s.conn.rx_off + n; last_ms = now };
  stats = record s.stats { bytes_down = u64 (s.stats.bytes_down + n) };
}

-- What the link at the head still has to give.
abbrev pub unsent : Conn → List ℕ
unsent c = elim c.rx [ [] ↦ [] | p ∷ ps ↦ drop c.rx_off p ]

abbrev pub has_rx : Conn → Bool
has_rx c = elim c.rx [ [] ↦ false | p ∷ ps ↦ true ]

-- The bytes that reach the application, and the slot, for the answers of send in order. Where the
-- answers end, the loop waits for the next call.
unfoldable pub pump_down : Slot → List SendResult → ℕ → List ℕ × Slot
pump_down s [] now = ([], record s { conn = drop_spent s.conn })
pump_down s (sent n ∷ rs) now =
    let s' : Slot = record s { conn = drop_spent s.conn } in
    let rest = pump_down (count_down s' n now) rs now in
    if has_rx s'.conn then (take n (unsent s'.conn) ++ rest.0, rest.1) else ([], s')
pump_down s (would_block ∷ rs) now = ([], record s { conn = drop_spent s.conn })
pump_down s (broken ∷ rs) now =
    let s' : Slot = record s { conn = drop_spent s.conn } in
    ([], if has_rx s'.conn then conn_close s' true else s')

-- What recv answers.
pub data RecvResult : Type 0 where
  got : List ℕ → RecvResult
  finished again lost : RecvResult

-- What dns_gethostbyname answers: an address, ERR_INPROGRESS, or an error.
pub data DnsResult : Type 0 where
  known in_progress refused_query : DnsResult

-- A name that is neither malformed nor denied is looked up; `pcb` and `dialled` are what a
-- connection that is opened at once gets.
unfoldable pub look_up : Slot → DnsResult → Option ℕ → Bool → Slot
look_up s known pcb dialled = on_resolved s true pcb dialled
look_up s in_progress pcb dialled = s
look_up s refused_query pcb dialled = conn_close (record s { stats = count_failed s.stats }) true

abbrev pub count_denied : Stats → Stats
count_denied n = record n { denied = u32 (n.denied + 1) }

-- The name of the ClientHello, as it was read.
unfoldable pub visit : Slot → List ℕ → DnsResult → Option ℕ → Bool → Slot
visit s name dns pcb dialled = elim (host_normalise name) [
  | none ↦
      conn_close (record { conn = record s.conn { host = [] }; stats = count_denied s.stats }) true
  | some host ↦
      let named : Slot = record s { conn = record s.conn { host = host } } in
      if host_denied host
      then conn_close (record named { stats = count_denied s.stats }) true
      else look_up (record named { conn = record named.conn { st = resolving } }) dns pcb dialled
]

unfoldable pub sniff_host : Slot → DnsResult → Option ℕ → Bool → Slot
sniff_host s dns pcb dialled = elim (sni_hostname s.conn.up 128) [
  | none ↦ if leb sniff_limit (length s.conn.up) then conn_close s true else s
  | some name ↦ visit s name dns pcb dialled
]

-- handle_client_readable; the half close of tcp_shutdown is lwIP's.
unfoldable pub client_readable : Slot → RecvResult → ℕ → DnsResult → Option ℕ → Bool → Slot
client_readable s (got bytes) now dns pcb dialled =
    let filled : Slot = record s {
      conn = record s.conn { up = s.conn.up ++ bytes; last_ms = now };
    } in
    if leb buf_size (length s.conn.up)
    then s
    else if is_sniff s.conn.st
    then sniff_host filled dns pcb dialled
    else filled
client_readable s finished now dns pcb dialled = s
client_readable s again now dns pcb dialled = s
client_readable s lost now dns pcb dialled =
    if leb buf_size (length s.conn.up) then s else conn_close s true

-- One turn of sweep_idle.
unfoldable pub sweep : Slot → ℕ → Slot
sweep s now =
    let limit = if is_sniff s.conn.st then sniff_timeout_ms else idle_timeout_ms in
    if is_free s.conn.st || ltb (sub32 now s.conn.last_ms) limit
    then s
    else conn_close
        (record s { stats = record s.stats { timed_out = u32 (s.stats.timed_out + 1) } }) true

-- One turn of the last loop of awg_proxy_poll: the bytes up, the bytes down, and the slot.
unfoldable pub tick : Slot → ℕ → Bool → List SendResult → ℕ → List ℕ × (List ℕ × Slot)
tick s room ok sends now =
    let (ups, s1) = if is_relay s.conn.st then pump_up s room ok now else ([], s) in
    let (downs, s2) = if has_rx s1.conn then pump_down s1 sends now else ([], s1) in
    let done : Slot = record s2 {
      stats = record s2.stats { completed = u32 (s2.stats.completed + 1) };
    } in
    if is_free s.conn.st then ([], ([], s)) else (
      ups,
      (downs, if s2.conn.peer_closed && not (has_rx s2.conn) then conn_close done false else s2),
    )
