-- ===== src/Proxy/Table.antt =====
-- The table of sixteen connections, source/awg_proxy.c: conn_alloc, the accept of awg_proxy_poll,
-- sweep_idle, awg_proxy_stop and awg_proxy_live.
pub mod Sweep
use sys_amneziawg.Common.{
  ℕ, ◌+◌, ◌≡◌, refl, ap, false, true, Option, none, some, List, [], ◌∷◌, if◌then◌else◌, u32,
  Bool-cases, inl, inr, All, ◌++◌,
}
use sys_amneziawg.Proxy.Connection.{sniff, Conn, Stats, empty_conn, is_free, sweep}

abbrev pub max_conn : ℕ
max_conn = 16

abbrev pub IsUsed : Conn → Type 0
IsUsed c = is_free c.st ≡ false

-- awg_proxy_live.
abbrev pub live : List Conn → ℕ
live [] = 0
live (c ∷ cs) = (if is_free c.st then 0 else 1) + live cs

-- A table whose first slot is passed over.
abbrev pub behind : Conn → Option (List Conn) → Option (List Conn)
behind c none = none
behind c (some cs) = some (c ∷ cs)

-- conn_alloc with the assignments of the accept: the table with a connection in its first free
-- slot, or none.
unfoldable pub place : List Conn → Conn → Option (List Conn)
place [] new = none
place (c ∷ cs) new =
    let rest = place cs new in if is_free c.st then some (new ∷ cs) else behind c rest

abbrev pub new_conn : ℕ → ℕ → Conn
new_conn cfd now = record empty_conn { st = sniff; cfd = some cfd; last_ms = now }

abbrev pub count_accept : Option (List Conn) → List Conn → Stats → List Conn × Stats
count_accept none conns n = (conns, record n { refused = u32 (n.refused + 1) })
count_accept (some conns') conns n = (conns', record n { accepted = u32 (n.accepted + 1) })

-- A client that accept returned.
unfoldable pub accept_client : List Conn → Stats → ℕ → ℕ → List Conn × Stats
accept_client conns n cfd now = count_accept (place conns (new_conn cfd now)) conns n

unfoldable pub sweep_idle : List Conn → Stats → ℕ → List Conn × Stats
sweep_idle [] n now = ([], n)
sweep_idle (c ∷ cs) n now =
    let s = sweep (record { conn = c; stats = n }) now in
    let (cs', n') = sweep_idle cs s.stats now in (s.conn ∷ cs', n')

-- awg_proxy_stop: no close has a reason, so nothing is counted.
unfoldable pub stop : List Conn → List Conn
stop [] = []
stop (c ∷ cs) = empty_conn ∷ stop cs

-- What becomes of a table and its counters when a client comes: all slots are in use, and only the
-- refusal is counted; or the first slot that is free holds the client, the others are as before,
-- and only the admission is counted.
pub data Admits (cs : List Conn) (n : Stats) (cfd now : ℕ) : List Conn × Stats → Type 0 where
  turned_away : All IsUsed cs → Admits cs n cfd now (cs, record n { refused = u32 (n.refused + 1) })
  taken :
      (front back : List Conn) (old : Conn)
      → cs ≡ front ++ old ∷ back
      → All IsUsed front
      → is_free old.st ≡ true
      → Admits cs n cfd now (
        front ++ record empty_conn { st = sniff; cfd = some cfd; last_ms = now } ∷ back,
        record n { accepted = u32 (n.accepted + 1) },
      )

-- Where the new connection goes.
abbrev Placed : List Conn → Conn → Option (List Conn) → Type 0
Placed cs new none = All IsUsed cs
Placed cs new (some cs') =
    (front : List Conn) × (back : List Conn) × (old : Conn) × (cs ≡ front ++ old ∷ back)
    × (cs' ≡ front ++ new ∷ back)
    × All IsUsed front
    × (is_free old.st ≡ true)

place_further :
    (c new : Conn) (cs : List Conn) (r : Option (List Conn))
    → IsUsed c
    → Placed cs new r
    → Placed (c ∷ cs) new (behind c r)
place_further c new cs none busy h = (busy, h)
place_further c new cs (some cs') busy (front, back, old, e, e', used, gone) =
    (c ∷ front, back, old, ap (◌∷◌ c) e, ap (◌∷◌ c) e', (busy, used), gone)

place-Placed : (cs : List Conn) (new : Conn) → Placed cs new (place cs new)
unfolding place
place-Placed [] new = tt
place-Placed (c ∷ cs) new = elim (Bool-cases (is_free c.st)) [
  | inl gone ↦ rw gone ([], cs, c, refl, refl, tt, gone)
  | inr busy ↦ rw busy (place_further c new cs (place cs new) busy (place-Placed cs new))
]

counted :
    (cs : List Conn) (n : Stats) (cfd now : ℕ) (r : Option (List Conn))
    → Placed cs (new_conn cfd now) r
    → Admits cs n cfd now (count_accept r cs n)
counted cs n cfd now none full = turned_away full
counted cs n cfd now (some cs') (front, back, old, e, e', used, gone) =
    rw e' (taken front back old e used gone)

-- A client is refused only if all slots are in use, and then the table stays as it is; otherwise
-- the first free slot holds it, in the state that waits for the ClientHello, and no other slot
-- changes. Exactly one counter moves on: `refused` or `accepted`.
pub accept_client-Admits :
    (cs : List Conn) (n : Stats) (cfd now : ℕ) → Admits cs n cfd now (accept_client cs n cfd now)
unfolding accept_client
accept_client-Admits cs n cfd now =
    counted cs n cfd now (place cs (new_conn cfd now)) (place-Placed cs (new_conn cfd now))
