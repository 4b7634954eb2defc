-- ===== src/Proxy/Table/Sweep.antt =====
-- The idle sweep over the table of connections.
use sys_amneziawg.Common.{
  ℕ, ◌+◌, ◌^◌, ◌≤◌, ◌<◌, ◌≡◌, ◌⊎◌, ◌∙◌, true, false, ◌||◌, List, [], ◌∷◌, ltb, if◌then◌else◌, u32,
  sub32, arith, Bool-cases, inl, inr,
}
use sys_amneziawg.Proxy.Connection.{Conn, Stats, empty_conn, is_free, is_sniff, conn_close, sweep}
use sys_amneziawg.Proxy.Table.{sweep_idle}

-- How long ago a connection was last used, on the 32-bit clock, and how long that may be.
abbrev pub idle_ms : ℕ → Conn → ℕ
idle_ms now c = sub32 now c.last_ms

abbrev pub patience_ms : Conn → ℕ
patience_ms c = if is_sniff c.st then 5000 else 120000

-- A table, what a sweep makes of it, and the number of connections that it closes.
pub data Sweeps (now : ℕ) : List Conn → List Conn → ℕ → Type 0 where
  sweeps_none : Sweeps now [] [] 0
  kept :
      {c : Conn} {cs cs' : List Conn} {k : ℕ}
      → (is_free c.st ≡ true) ⊎ (idle_ms now c < patience_ms c)
      → Sweeps now cs cs' k
      → Sweeps now (c ∷ cs) (c ∷ cs') k
  closed :
      {c : Conn} {cs cs' : List Conn} {k : ℕ}
      → is_free c.st ≡ false
      → patience_ms c ≤ idle_ms now c
      → Sweeps now cs cs' k
      → Sweeps now (c ∷ cs) (empty_conn ∷ cs') (k + 1)

-- The counters after `k` connections were closed.
abbrev pub Counts : Stats → Stats → ℕ → Type 0
Counts n n' k = (n'.timed_out ≡ u32 (n.timed_out + k)) × (n'.closed ≡ u32 (n.closed + k))

free_or_recent :
    (now : ℕ) (c : Conn)
    → (is_free c.st || ltb (idle_ms now c) (patience_ms c)) ≡ true
    → (is_free c.st ≡ true) ⊎ (idle_ms now c < patience_ms c)
free_or_recent now c h = elim (Bool-cases (is_free c.st)) [
  | inl gone ↦ inl gone
  | inr used ↦ inr (ground (arith, used, h))
]

-- The sweep closes every connection in use that has been idle for five seconds while its hello was
-- awaited, or for two minutes otherwise, leaves every other slot as it is, and counts each one that
-- it closes as timed out and as closed, where the counters are words of 32 bits.
pub sweep_idle-Sweeps :
    (cs : List Conn) (n : Stats) (now : ℕ)
    → n.timed_out < 2 ^ 32
    → n.closed < 2 ^ 32
    → (k : ℕ) × Sweeps now cs (sweep_idle cs n now).0 k × Counts n (sweep_idle cs n now).1 k
unfolding sweep_idle sweep conn_close
sweep_idle-Sweeps [] n now ht hc = (0, sweeps_none, (omega (arith, ht), omega (arith, hc)))
sweep_idle-Sweeps (c ∷ cs) n now ht hc =
    elim (Bool-cases (is_free c.st || ltb (idle_ms now c) (patience_ms c))) [
      | inl stays ↦
          let (k, s, counts) = sweep_idle-Sweeps cs n now ht hc in
          rw stays (k, kept (free_or_recent now c stays) s, counts)
      | inr goes ↦
          let n' : Stats = record n {
            timed_out = u32 (n.timed_out + 1);
            closed = u32 (n.closed + 1);
          } in
          let (k, s, counts) = sweep_idle-Sweeps cs n' now (omega arith) (omega arith) in
          let used : is_free c.st ≡ false = ground (arith, goes) in
          rw (goes, used)
            (
              k + 1,
              closed used (ground (arith, goes)) s,
              (counts.0 ∙ omega arith, counts.1 ∙ omega arith),
            )
    ]
