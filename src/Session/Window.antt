-- ===== src/Session/Window.antt =====
pub mod Refinement
-- The anti-replay window of source/awg_session.c, `replay_ok`: the highest counter accepted and a
-- bitmap of the 64 below it.
use sys_amneziawg.Common.{
  ℕ, ◌-◌, ◌*◌, ◌%◌, ◌^◌, bit_and, bit_or, Bool, true, false, ltb, leb, ◌==◌, if◌then◌else◌, u64,
}

abbrev pub replay_window : ℕ
replay_window = 64

-- The two words that a keypair keeps.
pub record Window : Type 0 where
  pub max : ℕ
  pub bits : ℕ

-- `g_replay_behind` and `g_replay_too_old`: why the last datagram was dropped.
pub record DropReason : Type 0 where
  pub behind : ℕ
  pub too_old : Bool

abbrev pub empty_window : Window
empty_window = record { max = 0; bits = 0 }

-- What a call leaves: its answer, the window and the reason.
pub record Verdict : Type 0 where
  pub fresh : Bool
  pub window : Window
  pub reason : DropReason

-- The branch for a counter above the highest. A shift by 64 or more is avoided.
unfoldable pub advance : Window → ℕ → Window
advance w ctr =
    let shift = ctr - w.max in
    record {
      max = ctr;
      bits = bit_or (if leb replay_window shift then 0 else u64 (w.bits * 2 ^ shift)) 1;
    }

unfoldable pub replay_ok : Window → DropReason → ℕ → Verdict
unfolding advance
replay_ok w r ctr =
    if ltb w.max ctr
    then record { fresh = true; window = advance w ctr; reason = r }
    else let behind = w.max - ctr in
      let r' : DropReason = record r { behind = behind } in
      if leb replay_window behind
      then record { fresh = false; window = w; reason = record r' { too_old = true } }
      else let bit = 2 ^ behind in
        if bit_and w.bits bit == 0
        then record { fresh = true; window = record w { bits = bit_or w.bits bit }; reason = r' }
        else record { fresh = false; window = w; reason = record r' { too_old = false } }
