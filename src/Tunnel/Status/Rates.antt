-- ===== src/Tunnel/Status/Rates.antt =====
-- The rates of the status lines add up.
use sys_amneziawg.Common.{ℕ, ◌+◌, ◌*◌, ◌≤◌, List, length, [], ◌∷◌, leb, arith, Bool-cases, inl, inr}
use sys_amneziawg.Tunnel.Status.{
  Baselines, Sample, Line, down_kb, rate_line, status_baselines, status_run,
}

-- The counters of each reading are those of the one before or more, from a baseline on.
pub data Ascends : ℕ → ℕ → List Sample → Type 0 where
  ascends_none : {p k : ℕ} → Ascends p k []
  ascends :
      {p k : ℕ} {r : Sample} {rs : List Sample}
      → p ≤ r.tunnel.session.packets_rx
      → k ≤ down_kb r
      → Ascends r.tunnel.session.packets_rx (down_kb r) rs
      → Ascends p k (r ∷ rs)

-- The packets and kilobytes of the lines, each at its rate for fifteen seconds.
abbrev pub total_pkts : List Line → ℕ
total_pkts [] = 0
total_pkts (l ∷ ls) = 15 * l.pkts_per_s + total_pkts ls

abbrev pub total_kb : List Line → ℕ
total_kb [] = 0
total_kb (l ∷ ls) = 15 * l.kb_per_s + total_kb ls

-- What a growth from `start` to `end` comes to in `n` lines that each round down.
abbrev pub IsRounded : ℕ → ℕ → ℕ → ℕ → Type 0
IsRounded start end n total = (start + total ≤ end) × (end ≤ start + total + 14 * n)

lower : {p k p' k' : ℕ} {rs : List Sample} → p' ≤ p → k' ≤ k → Ascends p k rs → Ascends p' k' rs
lower hp hk ascends_none = ascends_none
lower hp hk (ascends h1 h2 rest) = ascends (omega (arith, hp, h1)) (omega (arith, hk, h2)) rest

-- Where the counters do not fall, the rates that the status lines print, each over its fifteen
-- seconds, add up to what the counters grew by, less at most 14 a line for the rounding; this
-- holds of the packets and of the kilobytes.
pub status_run-sums :
    (b : Baselines) (rs : List Sample)
    → Ascends b.last_rx_pkts b.last_down_kb rs
    → (let e = status_run b rs in
        IsRounded b.last_rx_pkts e.0.last_rx_pkts (length e.1) (total_pkts e.1)
        × IsRounded b.last_down_kb e.0.last_down_kb (length e.1) (total_kb e.1))
unfolding status_run rate_line status_baselines
status_run-sums b [] ascends_none = ((omega arith, omega arith), (omega arith, omega arith))
status_run-sums b (r ∷ rs) (ascends hp hk rest) = elim (Bool-cases (leb b.next_status r.now)) [
  | inl due ↦
      let ih = status_run-sums (status_baselines r) rs rest in
      rw due (
        (ground (arith, ih.0.0, hp), ground (arith, ih.0.1, hp)),
        (ground (arith, ih.1.0, hk), ground (arith, ih.1.1, hk)),
      )
  | inr early ↦ rw early (status_run-sums b rs (lower hp hk rest))
]
