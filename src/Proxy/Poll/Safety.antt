-- ===== src/Proxy/Poll/Safety.antt =====
-- No run of the proxy carries a connection to a host that it must not visit.
use sys_amneziawg.Common.{
  ℕ, zero, suc, ◌-◌, ◌≤◌, ◌≡◌, refl, Bool, true, false, not, ◌&&◌, Option, none, some, List, [],
  ◌∷◌, map, length, length-take, replicate, All, arith, Bool-cases, inl, inr, if◌then◌else◌,
}
use sys_amneziawg.Proxy.Connection.{
  free, Conn, Stats, Slot, empty_conn, is_free, pump_down, RecvResult, got, finished, again, lost,
  client_readable,
}
use sys_amneziawg.Proxy.Connection.Soundness.{
  Vetted, empty-Vetted, on_recv-Vetted, on_resolved-Vetted, Answers, client_readable-Vetted,
}
use sys_amneziawg.Proxy.Connection.Upkeep.{
  is_connecting, closed-Vetted, pump_down-Vetted, sweep-Vetted, on_err-Vetted, on_connected-Vetted,
  tick-Vetted,
}
use sys_amneziawg.Proxy.Table.{
  accept_client, behind, count_accept, place, new_conn, sweep_idle, stop,
}
use sys_amneziawg.Proxy.Poll.{
  Proxy, initial_proxy, proxy_start, shut, Answer, limited, serve, is_polled, each, on_slot, Pass,
  admit, flag, serve_all, tick_all, poll, Event, passed, data_came, pcb_failed, was_connected,
  was_resolved, restarted, callback, called_slot, called, proxy_step, run_events,
}

limited-Answers : (c : Conn) (r : RecvResult) → length c.up ≤ 8192 → Answers (limited c r) c
unfolding limited
limited-Answers c (got bytes) h = omega (arith, h, length-take (8192 - length c.up) bytes)
limited-Answers c finished h = tt
limited-Answers c again h = tt
limited-Answers c lost h = tt

written-Vetted :
    (s : Slot) (a : Answer) (now : ℕ)
    → is_free s.conn.st ≡ false
    → Vetted s.conn
    → Vetted (if a.writable then (pump_down s a.sends now).1 else s).conn
written-Vetted s a now used v = elim (Bool-cases a.writable) [
  | inl out ↦ rw out (pump_down-Vetted s a.sends now used v)
  | inr quiet ↦ rw quiet v
]

read-Vetted :
    (s : Slot) (a : Answer) (now : ℕ)
    → Vetted s.conn
    → Vetted
        (if not (is_free s.conn.st) && a.readable
          then client_readable s (limited s.conn a.recv) now a.dns a.pcb a.dialled
          else s).conn
read-Vetted s a now v = elim (Bool-cases (not (is_free s.conn.st) && a.readable)) [
  | inr quiet ↦ rw quiet v
  | inl comes ↦ rw comes (
      client_readable-Vetted s (limited s.conn a.recv) now a.dns a.pcb a.dialled
        (limited-Answers s.conn a.recv v.fits) (ground (arith, comes)) v)
]

serve-Vetted : (s : Slot) (a : Answer) (now : ℕ) → Vetted s.conn → Vetted (serve s a now).conn
unfolding serve
serve-Vetted s a now v = elim (Bool-cases (is_free s.conn.st)) [
  | inl gone ↦ rw gone v
  | inr used ↦ elim (Bool-cases a.hung_up) [
    | inl hung ↦ rw (used, hung) (closed-Vetted s true v)
    | inr lives ↦ rw (used, lives) (read-Vetted _ a now (written-Vetted s a now used v))
  ]
]

each-Vetted :
    (f : ℕ → Slot → Slot) (i : ℕ) (cs : List Conn) (n : Stats)
    → ((j : ℕ) (s : Slot) → Vetted s.conn → Vetted (f j s).conn)
    → All Vetted cs
    → All Vetted (each f i cs n).0
unfolding each
each-Vetted f i [] n h v = tt
each-Vetted f i (c ∷ cs) n h v = (
  h i (record { conn = c; stats = n }) v.0,
  each-Vetted f (suc i) cs (f i (record { conn = c; stats = n })).stats h v.1,
)

on_slot-Vetted :
    (f : Slot → Slot) (i : ℕ) (cs : List Conn) (n : Stats)
    → ((s : Slot) → Vetted s.conn → Vetted (f s).conn)
    → All Vetted cs
    → All Vetted (on_slot f i cs n).0
unfolding on_slot
on_slot-Vetted f i [] n h v = tt
on_slot-Vetted f zero (c ∷ cs) n h v = (h (record { conn = c; stats = n }) v.0, v.1)
on_slot-Vetted f (suc i) (c ∷ cs) n h v = (v.0, on_slot-Vetted f i cs n h v.1)

sweep_idle-Vetted :
    (cs : List Conn) (n : Stats) (now : ℕ) → All Vetted cs → All Vetted (sweep_idle cs n now).0
unfolding sweep_idle
sweep_idle-Vetted [] n now v = tt
sweep_idle-Vetted (c ∷ cs) n now v =
    (sweep-Vetted (record { conn = c; stats = n }) now v.0, sweep_idle-Vetted cs _ now v.1)

new-Vetted : (fd now : ℕ) → Vetted (new_conn fd now)
new-Vetted fd now = record { visits = refl; fits = omega arith; empty = λ e. absurd cc }

callback-Vetted : (e : Event) (s : Slot) → Vetted s.conn → Vetted (callback e s).conn
unfolding callback
callback-Vetted (data_came i p ok) s v = elim (Bool-cases (is_free s.conn.st)) [
  | inl gone ↦ rw gone v
  | inr used ↦ rw used (on_recv-Vetted s p ok used v)
]
callback-Vetted (pcb_failed i) s v = elim (Bool-cases (is_free s.conn.st)) [
  | inl gone ↦ rw gone v
  | inr used ↦ rw used (on_err-Vetted s used v)
]
callback-Vetted (was_connected i ok) s v = elim (Bool-cases (is_connecting s.conn.st)) [
  | inl making ↦ rw making (on_connected-Vetted s ok making v)
  | inr other ↦ rw other v
]
callback-Vetted (was_resolved i has_ip pcb dialled) s v = on_resolved-Vetted s has_ip pcb dialled v
callback-Vetted (passed p) s v = v
callback-Vetted (restarted bound) s v = v

IfVetted : Option (List Conn) → Type 0
IfVetted none = Unit
IfVetted (some cs) = All Vetted cs

behind-Vetted : (c : Conn) (r : Option (List Conn)) → Vetted c → IfVetted r → IfVetted (behind c r)
unfolding IfVetted
behind-Vetted c none v h = h
behind-Vetted c (some cs) v h = (v, h)

place-Vetted : (cs : List Conn) (new : Conn) → Vetted new → All Vetted cs → IfVetted (place cs new)
unfolding place IfVetted
place-Vetted [] new fresh v = tt
place-Vetted (c ∷ cs) new fresh v = elim (Bool-cases (is_free c.st)) [
  | inl gone ↦ rw gone (fresh, v.1)
  | inr busy ↦ rw busy (behind-Vetted c (place cs new) v.0 (place-Vetted cs new fresh v.1))
]

counted-Vetted :
    (r : Option (List Conn)) (cs : List Conn) (n : Stats)
    → IfVetted r
    → All Vetted cs
    → All Vetted (count_accept r cs n).0
unfolding IfVetted
counted-Vetted none cs n h v = v
counted-Vetted (some cs') cs n h v = h

admit-Vetted :
    (cs : List Conn) (n : Stats) (client : Option ℕ) (now : ℕ)
    → All Vetted cs
    → All Vetted (admit cs n client now).0
unfolding accept_client
admit-Vetted cs n none now v = v
admit-Vetted cs n (some fd) now v =
    counted-Vetted (place cs (new_conn fd now)) cs n
      (place-Vetted cs (new_conn fd now) (new-Vetted fd now) v) v

if_polled :
    (b : Bool) (s : Slot) (a : Answer) (now : ℕ)
    → Vetted s.conn
    → Vetted (if b then serve s a now else s).conn
if_polled true s a now v = serve-Vetted s a now v
if_polled false s a now v = v

fired-Vetted :
    (b : Bool) (cs : List Conn) (n : Stats) (p : Pass)
    → All Vetted cs
    → All Vetted (if b then serve_all cs n p else (cs, n)).0
unfolding serve_all
fired-Vetted false cs n p v = v
fired-Vetted true cs n p v =
    let ready = admit cs n p.client p.now in
    each-Vetted _ 0 ready.0 ready.1
      (λ i s w. if_polled (flag (map is_polled cs) i) s (p.answers i) p.now w)
      (admit-Vetted cs n p.client p.now v)

listening-Vetted :
    (b : Bool) (t : Proxy) (r : List Conn × Stats)
    → All Vetted t.conns
    → All Vetted r.0
    → All Vetted (if b then record t { conns = r.0; stats = r.1 } else t).conns
listening-Vetted true t r v h = h
listening-Vetted false t r v h = v

poll-Vetted : (t : Proxy) (p : Pass) → All Vetted t.conns → All Vetted (poll t p).conns
unfolding poll tick_all
poll-Vetted t p v =
    let served = if p.fired then serve_all t.conns t.stats p else (t.conns, t.stats) in
    let swept = sweep_idle served.0 served.1 p.now in
    listening-Vetted t.listening t (tick_all swept.0 swept.1 p) v (
      each-Vetted _ 0 swept.0 swept.1
        (λ i s w. tick-Vetted s (p.windows i).room (p.windows i).writes (p.windows i).sends p.now w)
        (sweep_idle-Vetted served.0 served.1 p.now (fired-Vetted p.fired t.conns t.stats p v)))

restart-Vetted :
    (cs : List Conn) → All Vetted (map (λ (c : Conn). record c { st = free; cfd = none }) (stop cs))
unfolding stop
restart-Vetted [] = tt
restart-Vetted (c ∷ cs) = (empty-Vetted, restart-Vetted cs)

called-Vetted : (t : Proxy) (e : Event) → All Vetted t.conns → All Vetted (called t e).conns
called-Vetted t e v =
    on_slot-Vetted (callback e) (called_slot e) t.conns t.stats (callback-Vetted e) v

proxy_step-Vetted : (t : Proxy) (e : Event) → All Vetted t.conns → All Vetted (proxy_step t e).conns
unfolding proxy_step proxy_start shut
proxy_step-Vetted t (passed p) v = poll-Vetted t p v
proxy_step-Vetted t (restarted bound) v = restart-Vetted t.conns
proxy_step-Vetted t (data_came i p ok) v = called-Vetted t (data_came i p ok) v
proxy_step-Vetted t (pcb_failed i) v = called-Vetted t (pcb_failed i) v
proxy_step-Vetted t (was_connected i ok) v = called-Vetted t (was_connected i ok) v
proxy_step-Vetted t (was_resolved i has_ip pcb dialled) v =
    called-Vetted t (was_resolved i has_ip pcb dialled) v

run_events-Vetted :
    (t : Proxy) (es : List Event) → All Vetted t.conns → All Vetted (run_events t es).conns
unfolding run_events
run_events-Vetted t [] v = v
run_events-Vetted t (e ∷ es) v = run_events-Vetted (proxy_step t e) es (proxy_step-Vetted t e v)

initial_proxy-Vetted : All Vetted initial_proxy.conns
initial_proxy-Vetted = replicated 16
  where
    replicated : (n : ℕ) → All Vetted (replicate n empty_conn)
    replicated zero = tt
    replicated (suc n) = (empty-Vetted, replicated n)

-- Whatever passes, callbacks and restarts the proxy goes through from its start, with whatever
-- answers of clients, resolver and stack, each of its slots is empty, or waits for a ClientHello,
-- or serves a host with proper labels that is not denied; and its parked bytes fit the buffer.
pub proxy_run-Vetted : (es : List Event) → All Vetted (run_events initial_proxy es).conns
proxy_run-Vetted es = run_events-Vetted initial_proxy es initial_proxy-Vetted
