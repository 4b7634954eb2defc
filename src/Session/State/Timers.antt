-- ===== src/Session/State/Timers.antt =====
-- The timers that a session draws once, and when they ask for something.
use sys_amneziawg.Common.{
  ℕ, ◌+◌, ◌*◌, ◌%◌, ◌^◌, ◌≤◌, ◌<◌, ◌≡◌, refl, true, false, leb, inl, inr, ℤ, pos, negsuc, u32,
  Entropy, random_bytes, arith, Bool-cases,
}
use sys_amneziawg.Common.Int.{◌+ℤ◌, ◌-ℤ◌, int_leb, pos_part}
use sys_amneziawg.Types.{Config, Range}
use sys_amneziawg.Noise.Primitives.{get_u32_le}
use sys_amneziawg.Session.State.{
  Session, range_pick, session_init, or_default, has_elapsed, needs_handshake, needs_keepalive,
}

-- The value that is added to the lower bound does not leave the range.
offset_within :
    (lo hi : ℤ) (v : ℕ)
    → int_leb lo hi ≡ true
    → v ≤ pos_part (hi -ℤ lo)
    → (int_leb lo (lo +ℤ pos v) ≡ true) × (int_leb (lo +ℤ pos v) hi ≡ true)
offset_within (pos a) (pos b) v h w = (ground arith, ground arith)
offset_within (pos a) (negsuc b) v h w = (ground arith, ground arith)
offset_within (negsuc a) (pos b) v h w = (ground arith, ground arith)
offset_within (negsuc a) (negsuc b) v h w = (ground arith, ground arith)

int_leb_refl : (x : ℤ) → int_leb x x ≡ true
int_leb_refl (pos a) = ground arith
int_leb_refl (negsuc a) = ground arith

-- A value drawn from a range that is not empty and whose width fits 32 bits lies in it.
pub range_pick_within :
    (r : Range) (e : Entropy)
    → int_leb r.min r.max ≡ true
    → pos_part (r.max -ℤ r.min) + 1 < 2 ^ 32
    → (int_leb r.min (range_pick r e).0 ≡ true) × (int_leb (range_pick r e).0 r.max ≡ true)
unfolding range_pick
range_pick_within r e h w = elim (Bool-cases (int_leb r.max r.min)) [
  | inl one ↦ rw one (int_leb_refl r.min, h)
  | inr more ↦
      let v = get_u32_le (random_bytes 4 e).0 in
      rw more
        (offset_within r.min r.max (v % u32 (pos_part (r.max -ℤ r.min) + 1)) h (omega (arith, w)))
]

abbrev pub IsPositive : ℤ → Type 0
IsPositive x = int_leb (pos 1) x ≡ true

or_default-IsPositive : (d : ℕ) (x : ℤ) → 1 ≤ d → IsPositive (or_default d x)
or_default-IsPositive d (pos n) h = ground arith
or_default-IsPositive d (negsuc n) h = ground arith

-- Every timer that a session starts with is positive, and it asks for a handshake at once and for
-- no keepalive.
pub record Ready (s : Session) : Type 0 where
  pub rekey_after : IsPositive s.rekey_after_s
  pub reject_after : IsPositive s.reject_after_s
  pub rekey_timeout : IsPositive s.rekey_timeout_s
  pub keepalive : IsPositive s.keepalive_s
  pub tries : IsPositive s.max_tries
  pub wants_handshake : (now : ℕ) → needs_handshake s now ≡ true
  pub no_keepalive : (now : ℕ) → needs_keepalive s now ≡ false

-- Whatever the configured ranges and the entropy, a session starts with every timer positive; at
-- any time it asks for a handshake and for no keepalive.
pub session_init-Ready : (cfg : Config) (e : Entropy) → Ready (session_init cfg e).0
unfolding session_init needs_handshake needs_keepalive
session_init-Ready cfg e =
    let r1 = range_pick cfg.rekey_after_time e in
    let r2 = range_pick cfg.reject_after_time r1.1 in
    let r3 = range_pick cfg.rekey_timeout r2.1 in
    let r4 = range_pick cfg.persistent_keepalive r3.1 in
    let r5 = range_pick cfg.max_handshake_attempts r4.1 in
    record {
      rekey_after = or_default-IsPositive 120 r1.0 (omega arith);
      reject_after = or_default-IsPositive 180 r2.0 (omega arith);
      rekey_timeout = or_default-IsPositive 5 r3.0 (omega arith);
      keepalive = or_default-IsPositive 25 r4.0 (omega arith);
      tries = or_default-IsPositive 18 r5.0 (omega arith);
      wants_handshake = λ now. refl;
      no_keepalive = λ now. refl;
    }

-- Without a wrap of the clock a timer has run out exactly from its deadline on.
pub has_elapsed_iff :
    (now since n : ℕ)
    → since ≤ now
    → now < 2 ^ 64
    → n < 2 ^ 31
    → has_elapsed now since (pos n) ≡ leb (since + n * 1000) now
unfolding has_elapsed
has_elapsed_iff now since n le lt h = ground arith
