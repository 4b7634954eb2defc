-- ===== src/Proxy/Connection/Soundness.antt =====
-- What holds of a slot of the connection table whatever happens to it.
use sys_amneziawg.Common.{
  ℕ, ◌+◌, ◌≤◌, ◌≡◌, refl, ap, Bool, true, false, not, ◌&&◌, ◌||◌, Option, none, some, List, [],
  ◌++◌, length, leb, arith, Bool-cases, Option-cases, inl, inr, length-append, u32,
}
use sys_amneziawg.Proxy.Sni.{sni_hostname}
use sys_amneziawg.Proxy.Host.{host_normalise, host_denied}
use sys_amneziawg.Proxy.Host.Labels.{labels, every_label}
use sys_amneziawg.Proxy.Host.Normal.{host_normalise_iff}
use sys_amneziawg.Proxy.Connection.{
  ConnState, free, sniff, resolving, connecting, relay, Conn, Slot, Stats, empty_conn, is_free,
  is_sniff, is_resolving, conn_close, on_recv, dial, on_resolved, count_failed, count_denied,
  RecvResult, got, finished, again, lost, DnsResult, known, in_progress, refused_query, look_up,
  visit, sniff_host, client_readable, sniff_limit, buf_size,
}

-- A name that may be visited.
abbrev pub is_vetted : List ℕ → Bool
is_vetted host = every_label (labels host) && not (host_denied host)

-- A connection that has left the sniffing state goes to a host with proper labels that is not
-- denied, what is parked fits the buffer, and an empty slot holds nothing.
pub record Vetted (c : Conn) : Type 0 where
  pub visits : (is_free c.st || is_sniff c.st) || is_vetted c.host ≡ true
  pub fits : length c.up ≤ 8192
  pub empty : is_free c.st ≡ true → c ≡ empty_conn

pub empty-Vetted : Vetted empty_conn
empty-Vetted = record { visits = refl; fits = omega arith; empty = λ e. refl }

pub conn_close-Vetted :
    (s : Slot) (b : Bool)
    → ((is_free s.conn.st ≡ true) → Vetted s.conn)
    → Vetted (conn_close s b).conn
unfolding conn_close
conn_close-Vetted s b h = elim (Bool-cases (is_free s.conn.st)) [
  | inl gone ↦ rw gone (h gone)
  | inr live ↦ rw live empty-Vetted
]

pub on_recv-Vetted :
    (s : Slot) (p : Option (List (List ℕ))) (ok : Bool)
    → is_free s.conn.st ≡ false
    → Vetted s.conn
    → Vetted (on_recv s p ok).conn
unfolding on_recv
on_recv-Vetted s none ok live v = record { visits = v.visits; fits = v.fits; empty = λ e. cc }
on_recv-Vetted s (some p) true live v = record { visits = v.visits; fits = v.fits; empty = λ e. cc }
on_recv-Vetted s (some p) false live v = v

-- A connection that may be visited and has left the sniffing state.
carried-Vetted :
    (c : Conn) → is_vetted c.host ≡ true → length c.up ≤ 8192 → is_free c.st ≡ false → Vetted c
carried-Vetted c host fits live = record {
  visits = ground (arith, host);
  fits = fits;
  empty = λ e. absurd (ground (arith, e, live));
}

dial-Vetted :
    (s : Slot) (pcb : Option ℕ) (dialled : Bool)
    → is_vetted s.conn.host ≡ true
    → length s.conn.up ≤ 8192
    → is_free s.conn.st ≡ false
    → Vetted (dial s pcb dialled).conn
unfolding dial
dial-Vetted s none dialled host fits live =
    conn_close-Vetted (record s { stats = count_failed s.stats }) true
      (λ e. absurd (ground (arith, e, live)))
dial-Vetted s (some p) true host fits live =
    carried-Vetted (record s.conn { pcb = some p; st = connecting }) host fits refl
dial-Vetted s (some p) false host fits live =
    conn_close-Vetted
      (record {
        conn = record s.conn { pcb = some p; st = connecting };
        stats = count_failed s.stats;
      })
      true (λ e. absurd (ground (arith, e)))

not_free : (st : ConnState) → is_resolving st ≡ true → is_free st ≡ false
not_free resolving h = refl
not_free free h = cc
not_free sniff h = refl
not_free connecting h = refl
not_free relay h = refl

not_sniff : (st : ConnState) → is_resolving st ≡ true → is_sniff st ≡ false
not_sniff resolving h = refl
not_sniff free h = refl
not_sniff sniff h = cc
not_sniff connecting h = refl
not_sniff relay h = refl

resolving_host :
    (c : Conn)
    → is_resolving c.st ≡ true
    → Vetted c
    → (is_free c.st ≡ false) × (is_vetted c.host ≡ true)
resolving_host c waits v =
    let live : is_free c.st ≡ false = not_free c.st waits in
    let opened : is_sniff c.st ≡ false = not_sniff c.st waits in
    (live, rw (live, opened) at v.visits)

pub on_resolved-Vetted :
    (s : Slot) (has_ip : Bool) (pcb : Option ℕ) (dialled : Bool)
    → Vetted s.conn
    → Vetted (on_resolved s has_ip pcb dialled).conn
unfolding on_resolved
on_resolved-Vetted s has_ip pcb dialled v = elim (Bool-cases (is_resolving s.conn.st)) [
  | inr other ↦ rw other v
  | inl waits ↦
      let (live, host) = resolving_host s.conn waits v in
      elim (Bool-cases has_ip) [
        | inl ip ↦
            rw (waits, ip)
              (dial-Vetted
                (record s { stats = record s.stats { resolved = u32 (s.stats.resolved + 1) } }) pcb
                dialled host v.fits live)
        | inr nowhere ↦
            rw (waits, nowhere)
              (conn_close-Vetted (record s { stats = count_failed s.stats }) true
                (λ e. absurd (ground (arith, e, live))))
      ]
]

look_up-Vetted :
    (s : Slot) (dns : DnsResult) (pcb : Option ℕ) (dialled : Bool)
    → is_free s.conn.st ≡ false
    → Vetted s.conn
    → Vetted (look_up s dns pcb dialled).conn
unfolding look_up
look_up-Vetted s known pcb dialled live v = on_resolved-Vetted s true pcb dialled v
look_up-Vetted s in_progress pcb dialled live v = v
look_up-Vetted s refused_query pcb dialled live v =
    conn_close-Vetted (record s { stats = count_failed s.stats }) true
      (λ e. absurd (ground (arith, e, live)))

closes :
    (s : Slot) (c : Conn) (n : Stats) (b : Bool)
    → c.st ≡ s.conn.st
    → is_free s.conn.st ≡ false
    → Vetted (conn_close (record { conn = c; stats = n }) b).conn
closes s c n b same live =
    conn_close-Vetted (record { conn = c; stats = n }) b
      (λ e. absurd (ground (arith, e, ap is_free same, live)))

visit-Vetted :
    (s : Slot) (name : List ℕ) (dns : DnsResult) (pcb : Option ℕ) (dialled : Bool)
    → length s.conn.up ≤ 8192
    → is_free s.conn.st ≡ false
    → Vetted (visit s name dns pcb dialled).conn
unfolding visit
visit-Vetted s name dns pcb dialled fits live = elim (Option-cases (host_normalise name)) [
  | inl bad ↦
      rw (visit, bad) (closes s (record s.conn { host = [] }) (count_denied s.stats) true refl live)
  | inr (host, e) ↦ elim (Bool-cases (host_denied host)) [
    | inl denied ↦
        rw (visit, e, denied)
          (closes s (record s.conn { host = host }) (count_denied s.stats) true refl live)
    | inr allowed ↦
        let (k, string, proper, short) = (host_normalise_iff name host).0 e in
        let next : Conn = record s.conn { host = host; st = resolving } in
        let vetted : is_vetted host ≡ true = rw (proper, allowed) refl in
        rw (visit, e, allowed)
          (look_up-Vetted (record s { conn = next }) dns pcb dialled refl
            (carried-Vetted next vetted fits refl))
  ]
]

sniff_host-Vetted :
    (s : Slot) (dns : DnsResult) (pcb : Option ℕ) (dialled : Bool)
    → is_free s.conn.st ≡ false
    → Vetted s.conn
    → Vetted (sniff_host s dns pcb dialled).conn
unfolding sniff_host
sniff_host-Vetted s dns pcb dialled live v = elim (Option-cases (sni_hostname s.conn.up 128)) [
  | inr (name, e) ↦ rw (sniff_host, e) (visit-Vetted s name dns pcb dialled v.fits live)
  | inl absent ↦ elim (Bool-cases (leb sniff_limit (length s.conn.up))) [
    | inl full ↦ rw (sniff_host, absent, full) (closes s s.conn s.stats true refl live)
    | inr more ↦ rw (sniff_host, absent, more) v
  ]
]

data_waits-Vetted :
    (s : Slot) (bytes : List ℕ) (now : ℕ) (dns : DnsResult) (pcb : Option ℕ) (dialled : Bool)
    → length s.conn.up + length bytes ≤ 8192
    → is_free s.conn.st ≡ false
    → Vetted s.conn
    → Vetted (client_readable s (got bytes) now dns pcb dialled).conn
unfolding client_readable
data_waits-Vetted s bytes now dns pcb dialled fits live v =
    let c : Conn = record s.conn { up = s.conn.up ++ bytes; last_ms = now } in
    let v' : Vetted c = record {
      visits = v.visits;
      fits = omega (arith, length-append s.conn.up bytes, fits);
      empty = λ e. absurd (ground (arith, e, live));
    } in
    elim (Bool-cases (leb buf_size (length s.conn.up))) [
      | inl full ↦ rw full v
      | inr room ↦ elim (Bool-cases (is_sniff s.conn.st)) [
        | inl sniffs ↦
            rw (room, sniffs) (sniff_host-Vetted (record s { conn = c }) dns pcb dialled live v')
        | inr other ↦ rw (room, other) v'
      ]
    ]

-- What recv may answer: no more bytes than it was asked for.
abbrev pub Answers : RecvResult → Conn → Type 0
Answers (got bytes) c = length c.up + length bytes ≤ 8192
Answers finished c = Unit {0}
Answers again c = Unit {0}
Answers lost c = Unit {0}

-- Whatever a client sends, its connection leaves the sniffing state only for a host that is not
-- denied and whose labels are proper, the parked bytes fit the buffer, and a closed slot is empty;
-- for a slot in use, where recv gives no more than it was asked for.
pub client_readable-Vetted :
    (s : Slot) (r : RecvResult) (now : ℕ) (dns : DnsResult) (pcb : Option ℕ) (dialled : Bool)
    → Answers r s.conn
    → is_free s.conn.st ≡ false
    → Vetted s.conn
    → Vetted (client_readable s r now dns pcb dialled).conn
unfolding client_readable
client_readable-Vetted s (got bytes) now dns pcb dialled fits live v =
    data_waits-Vetted s bytes now dns pcb dialled fits live v
client_readable-Vetted s finished now dns pcb dialled fits live v = v
client_readable-Vetted s again now dns pcb dialled fits live v = v
client_readable-Vetted s lost now dns pcb dialled fits live v =
    elim (Bool-cases (leb buf_size (length s.conn.up))) [
      | inl full ↦ rw full v
      | inr room ↦ rw room (closes s s.conn s.stats true refl live)
    ]
