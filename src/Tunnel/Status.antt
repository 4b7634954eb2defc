-- ===== src/Tunnel/Status.antt =====
-- The status line that the main loop of source/main_switch.c logs every fifteen seconds, and the
-- verdict at its end.
pub mod Rates
use sys_amneziawg.Common.{
  ℕ, ◌+◌, ◌-◌, ◌/◌, Bool, Option, none, some, List, [], ◌∷◌, ltb, leb, ◌==◌, if◌then◌else◌, u32,
  u64,
}
use sys_amneziawg.Session.State.{Session}
use sys_amneziawg.Tunnel.Loop.{Tunnel}

-- The static variables of the report, with its next time.
pub record Baselines : Type 0 where
  pub last_rx_pkts : ℕ
  pub last_down_kb : ℕ
  pub reported : ℕ
  pub next_status : ℕ

-- What the end of a turn sees: the two readings of the clock and the variables of the loop.
pub record Sample : Type 0 where
  pub now : ℕ
  pub t : ℕ
  pub tunnel : Tunnel

-- The line on a new drop of the replay window.
pub record Drop : Type 0 where
  pub counter : ℕ
  pub behind : ℕ
  pub outside : Bool
  pub retired : Bool

pub record Line : Type 0 where
  pub d_pkts : ℕ
  pub d_kb : ℕ
  pub kb_per_s : ℕ
  pub pkts_per_s : ℕ
  pub drop : Option Drop

abbrev pub growth : ℕ → ℕ → ℕ
growth last now = if leb last now then now - last else 0

unfoldable pub new_drop : ℕ → Session → Option Drop
new_drop reported s =
    if ltb reported s.replays_dropped
    then some (record {
      counter = s.last_replay_ctr;
      behind = s.last_replay_behind;
      outside = s.last_replay_old;
      retired = s.last_replay_prev;
    })
    else none

abbrev pub down_kb : Sample → ℕ
down_kb r = u32 (r.tunnel.proxy.stats.bytes_down / 1024)

unfoldable pub rate_line : Baselines → Sample → Line
rate_line b r =
    let d_pkts = growth b.last_rx_pkts r.tunnel.session.packets_rx in
    let d_kb = growth b.last_down_kb (down_kb r) in
    record {
      d_pkts = d_pkts;
      d_kb = d_kb;
      kb_per_s = d_kb / 15;
      pkts_per_s = d_pkts / 15;
      drop = new_drop b.reported r.tunnel.session;
    }

unfoldable pub status_baselines : Sample → Baselines
status_baselines r = record {
  last_rx_pkts = r.tunnel.session.packets_rx;
  last_down_kb = down_kb r;
  reported = r.tunnel.session.replays_dropped;
  next_status = u64 (r.t + 15000);
}

-- The turns of the loop, each with its report if it is due.
unfoldable pub status_run : Baselines → List Sample → Baselines × List Line
status_run b [] = (b, [])
status_run b (r ∷ rs) =
    let (after, lines) = status_run (status_baselines r) rs in
    let waiting = status_run b rs in
    if leb b.next_status r.now then (after, rate_line b r ∷ lines) else waiting

pub data Verdict : Type 0 where
  no_tcp works unreliable : Verdict

abbrev pub verdict : Tunnel → Verdict
verdict t =
    if t.fetches_ok == 0 then no_tcp else if t.fetches_ok == t.fetches then works else unreliable
