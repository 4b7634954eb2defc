-- ===== src/Session/State.antt =====
-- The session of source/awg_session.h and the operations of source/awg_session.c that only read or
-- reset it, with awg_range_pick of source/awg_obf.c.
pub mod Timers
use sys_amneziawg.Common.{
  ℕ, ◌+◌, ◌-◌, ◌*◌, ◌/◌, ◌%◌, ◌^◌, Bool, true, false, leb, if◌then◌else◌, ℤ, pos, negsuc, u32, u64,
  sub64, Entropy, random_bytes,
}
use sys_amneziawg.Common.Int.{◌+ℤ◌, ◌-ℤ◌, int_leb, pos_part}
use sys_amneziawg.Types.{Config, Range}
use sys_amneziawg.Noise.Primitives.{get_u32_le}
use sys_amneziawg.Noise.Handshake.{Handshake, zero_handshake}
use sys_amneziawg.Session.Window.{Window, empty_window}

-- awg_session. Each pair of window words is one `Window`.
pub record Session : Type 0 where
  pub cur : Handshake
  pub established : Bool
  pub prev : Handshake
  pub have_prev : Bool
  pub pending : Handshake
  pub handshaking : Bool
  pub handshake_sent_ms : ℕ
  pub handshake_tries : ℕ
  pub tx_counter : ℕ
  pub rx_counter_max : ℕ
  pub rx_window : Window
  pub prev_window : Window
  pub prev_since_ms : ℕ
  pub replays_dropped : ℕ
  pub last_replay_ctr : ℕ
  pub last_replay_behind : ℕ
  pub last_replay_old : Bool
  pub last_replay_prev : Bool
  pub established_ms : ℕ
  pub last_tx_ms : ℕ
  pub last_rx_ms : ℕ
  pub rekey_after_s : ℤ
  pub reject_after_s : ℤ
  pub keepalive_s : ℤ
  pub rekey_timeout_s : ℤ
  pub max_tries : ℤ
  pub handshakes_done : ℕ
  pub rekeys : ℕ
  pub packets_tx : ℕ
  pub packets_rx : ℕ
  pub keepalives_tx : ℕ

-- memset(s, 0, sizeof(*s)).
abbrev pub zero_session : Session
zero_session = record {
  cur = zero_handshake;
  established = false;
  prev = zero_handshake;
  have_prev = false;
  pending = zero_handshake;
  handshaking = false;
  handshake_sent_ms = 0;
  handshake_tries = 0;
  tx_counter = 0;
  rx_counter_max = 0;
  rx_window = empty_window;
  prev_window = empty_window;
  prev_since_ms = 0;
  replays_dropped = 0;
  last_replay_ctr = 0;
  last_replay_behind = 0;
  last_replay_old = false;
  last_replay_prev = false;
  established_ms = 0;
  last_tx_ms = 0;
  last_rx_ms = 0;
  rekey_after_s = pos 0;
  reject_after_s = pos 0;
  keepalive_s = pos 0;
  rekey_timeout_s = pos 0;
  max_tries = pos 0;
  handshakes_done = 0;
  rekeys = 0;
  packets_tx = 0;
  packets_rx = 0;
  keepalives_tx = 0;
}

-- awg_range_pick: four bytes of entropy, if the range has more than one value. The code's
-- `max - min + 1` is the difference of two ints; where it leaves an int, its low 32 bits are meant.
unfoldable pub range_pick : Range → Entropy → ℤ × Entropy
range_pick r e =
    let (v, e') = random_bytes 4 e in
    if int_leb r.max r.min
    then (r.min, e)
    else (r.min +ℤ pos (get_u32_le v % u32 (pos_part (r.max -ℤ r.min) + 1)), e')

-- `if (x <= 0) x = d`.
abbrev pub or_default : ℕ → ℤ → ℤ
or_default d x = if int_leb x (pos 0) then pos d else x

unfoldable pub session_init : Config → Entropy → Session × Entropy
session_init cfg e0 =
    let (rekey_after, e1) = range_pick cfg.rekey_after_time e0 in
    let (reject_after, e2) = range_pick cfg.reject_after_time e1 in
    let (rekey_timeout, e3) = range_pick cfg.rekey_timeout e2 in
    let (keepalive, e4) = range_pick cfg.persistent_keepalive e3 in
    let (tries, e5) = range_pick cfg.max_handshake_attempts e4 in
    (
      record zero_session {
        rekey_after_s = or_default 120 rekey_after;
        reject_after_s = or_default 180 reject_after;
        rekey_timeout_s = or_default 5 rekey_timeout;
        keepalive_s = or_default 25 keepalive;
        max_tries = or_default 18 tries;
      },
      e5,
    )

-- The conversion of an int to uint64_t.
abbrev pub to_u64 : ℤ → ℕ
to_u64 (pos n) = n
to_u64 (negsuc n) = 2 ^ 64 - 1 - n

-- (now_ms - since) >= (uint64_t)secs * 1000.
unfoldable pub has_elapsed : ℕ → ℕ → ℤ → Bool
has_elapsed now since secs = leb (u64 (to_u64 secs * 1000)) (sub64 now since)

unfoldable pub needs_handshake : Session → ℕ → Bool
needs_handshake s now =
    if s.handshaking
    then has_elapsed now s.handshake_sent_ms s.rekey_timeout_s
    else if s.established
    then has_elapsed now s.established_ms s.rekey_after_s
    else true

unfoldable pub needs_keepalive : Session → ℕ → Bool
needs_keepalive s now = if s.established then has_elapsed now s.last_tx_ms s.keepalive_s else false

unfoldable pub session_wipe : Session → Session
session_wipe s = zero_session

unfoldable pub session_age_s : Session → ℕ → ℕ
session_age_s s now = if s.established then u32 (sub64 now s.established_ms / 1000) else 0
