-- ===== src/Noise/Framing/Junk.antt =====
-- awg_junk_packets of source/awg_noise.c.
use sys_amneziawg.Common.{
  ℕ, zero, suc, ◌%◌, ◌≤◌, ◌<◌, List, [], ◌∷◌, length, ltb, if◌then◌else◌, ℤ, pos, negsuc, Entropy,
  random_bytes,
}
use sys_amneziawg.Common.Int.{◌+ℤ◌, ◌-ℤ◌}
use sys_amneziawg.Types.{Config}
use sys_amneziawg.Noise.Primitives.{get_le}

-- A 32-bit random number, reduced below a positive span.
unfoldable pub random_below : ℤ → Entropy → ℕ × Entropy
random_below (pos zero) e = (0, e)
random_below (pos (suc n)) e = let (raw, e') = random_bytes 4 e in (get_le 4 raw % suc n, e')
random_below (negsuc n) e = (0, e)

-- if (len > cap) len = cap; if (len < 0) len = 0;
unfoldable pub clamp_len : ℤ → ℕ → ℕ
clamp_len (pos n) cap = if ltb cap n then cap else n
clamp_len (negsuc n) cap = 0

-- The loop, for n packets between `jmin` and `jmax`.
unfoldable pub junk_loop : ℕ → ℤ → ℤ → ℕ → Entropy → List (List ℕ) × Entropy
junk_loop zero jmin jmax cap e = ([], e)
junk_loop (suc n) jmin jmax cap e =
    let (r, e1) = random_below (jmax -ℤ jmin) e in
    let (packet, e2) = random_bytes (clamp_len (jmin +ℤ pos r) cap) e1 in
    let rest = junk_loop n jmin jmax cap e2 in (packet ∷ rest.0, rest.1)

-- The count: jc, at most max_packets, none if it is not positive.
unfoldable pub junk_count : ℤ → ℕ → ℕ
junk_count (pos n) max_packets = if ltb max_packets n then max_packets else n
junk_count (negsuc n) max_packets = 0

unfoldable pub junk_packets : Config → ℕ → ℕ → Entropy → List (List ℕ) × Entropy
unfolding junk_loop random_below clamp_len junk_count
junk_packets cfg cap max_packets e =
    junk_loop (junk_count cfg.jc max_packets) cfg.jmin cfg.jmax cap e

abbrev pub SizedWithin : ℕ → ℕ → List ℕ → Type 0
SizedWithin lo hi packet = (lo ≤ length packet) × (length packet < hi)
