-- ===== src/Proxy/Poll.antt =====
-- The whole proxy, source/awg_proxy.c: awg_proxy_start, a pass of awg_proxy_poll over the table, and
-- the callbacks of lwIP between two passes. A pass sees one time; what the descriptors, the sockets
-- and lwIP answer is part of the event.
pub mod Safety
use sys_amneziawg.Common.{
  ℕ, zero, suc, ◌+◌, ◌-◌, Bool, true, false, not, ◌&&◌, ◌||◌, Option, none, some, List, [], ◌∷◌,
  map, length, take, replicate, ltb, if◌then◌else◌,
}
use sys_amneziawg.Proxy.Connection.{
  free, Conn, Stats, Slot, ConnState, empty_conn, is_free, conn_close, on_recv, on_err,
  on_connected, on_resolved, SendResult, pump_down, has_rx, RecvResult, got, finished, again, lost,
  DnsResult, client_readable, tick, buf_size,
}
use sys_amneziawg.Proxy.Connection.Upkeep.{is_connecting}
use sys_amneziawg.Proxy.Table.{max_conn, accept_client, sweep_idle, stop}

-- g_conn, g_stats and whether g_listen is open.
pub record Proxy : Type 0 where
  pub conns : List Conn
  pub stats : Stats
  pub listening : Bool

abbrev pub zero_stats : Stats
zero_stats = record {
  accepted = 0;
  resolved = 0;
  connected = 0;
  failed = 0;
  denied = 0;
  refused = 0;
  timed_out = 0;
  closed = 0;
  completed = 0;
  bytes_up = 0;
  bytes_down = 0;
}

-- The static variables before the first start.
abbrev pub initial_proxy : Proxy
initial_proxy = record {
  conns = replicate max_conn empty_conn;
  stats = zero_stats;
  listening = false;
}

-- awg_proxy_start, where `bound` says whether the listener opened.
unfoldable pub proxy_start : Proxy → Bool → Proxy
proxy_start t bound = record {
  conns = map (λ (c : Conn). record c { st = free; cfd = none }) t.conns;
  stats = zero_stats;
  listening = bound;
}

-- awg_proxy_stop.
unfoldable pub shut : Proxy → Proxy
shut t = record t { conns = stop t.conns; listening = false }

abbrev has_client : Option ℕ → Bool
has_client none = false
has_client (some fd) = true

-- Whether the descriptor of a slot is polled: for input while there is room, for output while
-- there are bytes for the client.
unfoldable pub is_polled : Conn → Bool
is_polled c = not (is_free c.st) && (has_client c.cfd && (ltb (length c.up) buf_size || has_rx c))

-- What a polled descriptor reports, and what the calls on it answer.
pub record Answer : Type 0 where
  pub hung_up : Bool
  pub writable : Bool
  pub sends : List SendResult
  pub readable : Bool
  pub recv : RecvResult
  pub dns : DnsResult
  pub pcb : Option ℕ
  pub dialled : Bool

-- recv gives no more than it is asked for.
unfoldable pub limited : Conn → RecvResult → RecvResult
limited c (got bytes) = got (take (buf_size - length c.up) bytes)
limited c finished = finished
limited c again = again
limited c lost = lost

-- The bytes for the client first, then what the client sent, if the slot is still in use.
unfoldable pub serve : Slot → Answer → ℕ → Slot
serve s a now =
    let s1 = if a.writable then (pump_down s a.sends now).1 else s in
    if is_free s.conn.st
    then s
    else if a.hung_up
    then conn_close s true
    else if not (is_free s1.conn.st) && a.readable
    then client_readable s1 (limited s1.conn a.recv) now a.dns a.pcb a.dialled
    else s1

-- A function on each slot in order, with the counters handed on; slots are numbered from i.
unfoldable pub each : (ℕ → Slot → Slot) → ℕ → List Conn → Stats → List Conn × Stats
each f i [] n = ([], n)
each f i (c ∷ cs) n =
    let s = f i (record { conn = c; stats = n }) in
    let (cs', n') = each f (suc i) cs s.stats in (s.conn ∷ cs', n')

-- The function on the slot numbered i only.
unfoldable pub on_slot : (Slot → Slot) → ℕ → List Conn → Stats → List Conn × Stats
on_slot f i [] n = ([], n)
on_slot f zero (c ∷ cs) n = let s = f (record { conn = c; stats = n }) in (s.conn ∷ cs, s.stats)
on_slot f (suc i) (c ∷ cs) n = let (cs', n') = on_slot f i cs n in (c ∷ cs', n')

-- What the last loop of a pass meets at a slot.
pub record SendRoom : Type 0 where
  pub room : ℕ
  pub writes : Bool
  pub sends : List SendResult

-- One pass: whether poll reports anything, what accept gives, and the answers slot by slot.
pub record Pass : Type 0 where
  pub fired : Bool
  pub client : Option ℕ
  pub answers : ℕ → Answer
  pub windows : ℕ → SendRoom
  pub now : ℕ

abbrev pub flag : List Bool → ℕ → Bool
flag [] i = false
flag (b ∷ bs) zero = b
flag (b ∷ bs) (suc i) = flag bs i

abbrev pub admit : List Conn → Stats → Option ℕ → ℕ → List Conn × Stats
admit cs n none now = (cs, n)
admit cs n (some fd) now = accept_client cs n fd now

-- The descriptors that report something; which ones are polled was settled before the accept.
unfoldable pub serve_all : List Conn → Stats → Pass → List Conn × Stats
serve_all cs n p =
    let polled = map is_polled cs in
    let (cs', n') = admit cs n p.client p.now in
    each (λ i s. if flag polled i then serve s (p.answers i) p.now else s) 0 cs' n'

unfoldable pub tick_all : List Conn → Stats → Pass → List Conn × Stats
tick_all cs n p =
    each (λ i s. (tick s (p.windows i).room (p.windows i).writes (p.windows i).sends p.now).1.1) 0
      cs n

-- awg_proxy_poll. With no listener it only waits.
unfoldable pub poll : Proxy → Pass → Proxy
poll t p =
    let (cs1, n1) = if p.fired then serve_all t.conns t.stats p else (t.conns, t.stats) in
    let (cs2, n2) = sweep_idle cs1 n1 p.now in
    let (cs3, n3) = tick_all cs2 n2 p in
    if t.listening then record t { conns = cs3; stats = n3 } else t

-- What can happen to the proxy: a pass, a callback of lwIP for a slot, a stop with a start.
pub data Event : Type 0 where
  passed : Pass → Event
  data_came : ℕ → Option (List (List ℕ)) → Bool → Event
  pcb_failed : ℕ → Event
  was_connected : ℕ → Bool → Event
  was_resolved : ℕ → Bool → Option ℕ → Bool → Event
  restarted : Bool → Event

-- A slot that was closed has no callback left, and a connection is established only while it is
-- being made.
unfoldable pub callback : Event → Slot → Slot
callback (data_came i p ok) s = if is_free s.conn.st then s else on_recv s p ok
callback (pcb_failed i) s = if is_free s.conn.st then s else on_err s
callback (was_connected i ok) s = if is_connecting s.conn.st then on_connected s ok else s
callback (was_resolved i has_ip pcb dialled) s = on_resolved s has_ip pcb dialled
callback (passed p) s = s
callback (restarted bound) s = s

abbrev pub called_slot : Event → ℕ
called_slot (data_came i p ok) = i
called_slot (pcb_failed i) = i
called_slot (was_connected i ok) = i
called_slot (was_resolved i has_ip pcb dialled) = i
called_slot (passed p) = 0
called_slot (restarted bound) = 0

abbrev pub called : Proxy → Event → Proxy
called t e =
    let (cs, n) = on_slot (callback e) (called_slot e) t.conns t.stats in
    record t { conns = cs; stats = n }

unfoldable pub proxy_step : Proxy → Event → Proxy
proxy_step t (passed p) = poll t p
proxy_step t (restarted bound) = proxy_start (shut t) bound
proxy_step t (data_came i p ok) = called t (data_came i p ok)
proxy_step t (pcb_failed i) = called t (pcb_failed i)
proxy_step t (was_connected i ok) = called t (was_connected i ok)
proxy_step t (was_resolved i has_ip pcb dialled) = called t (was_resolved i has_ip pcb dialled)

unfoldable pub run_events : Proxy → List Event → Proxy
run_events t [] = t
run_events t (e ∷ es) = run_events (proxy_step t e) es
