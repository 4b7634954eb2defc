-- ===== src/Tests/Sessions.antt =====
-- The session's theorems on two sessions that share a pair of keys.
use sys_amneziawg.Common.{ℕ, ◌≡◌, refl, true, false, List, [], ◌∷◌, replicate, pos, arith}
use sys_amneziawg.Noise.Handshake.{zero_handshake}
use sys_amneziawg.Noise.Framing.{lacks_nonce}
use sys_amneziawg.Noise.Transport.{datagram}
use sys_amneziawg.Noise.Transport.RoundTrip.{Reaches}
use sys_amneziawg.Session.Window.{DropReason, empty_window, replay_ok}
use sys_amneziawg.Session.Window.Refinement.{
  Refines, IsDistinct, empty-Represents, accepts, replay_ok-Refines,
}
use sys_amneziawg.Session.State.{Session, zero_session, session_init}
use sys_amneziawg.Session.State.Timers.{Ready, session_init-Ready}
use sys_amneziawg.Session.Send.{build_data}
use sys_amneziawg.Session.Receive.{on_datagram, payload, ignored}
use sys_amneziawg.Session.Trace.{Op, initiate, keepalive, data_packet, receive, run, start}
use sys_amneziawg.Session.Trace.Replay.{run_no_replay}
use sys_amneziawg.Session.Trace.Nonces.{Unused, run_nonces-Unused}
use sys_amneziawg.Session.Delivery.{padded, data_delivered_once}
use sys_amneziawg.Tests.Toy.{toy, toy_laws, shielded, bytes}

abbrev no_drop : DropReason
no_drop = record { behind = 0; too_old = false }

replay_ok_example : Refines [] empty_window 5 (replay_ok empty_window no_drop 5)
replay_ok_example = replay_ok-Refines empty_window [] no_drop 5 empty-Represents

seen : (replay_ok (record { max = 5; bits = 1 }) no_drop 5).fresh ≡ false
unfolding replay_ok
seen = refl

session_init_example : Ready (session_init shielded bytes).0
session_init_example = session_init-Ready shielded bytes

abbrev alice : Session
alice = record zero_session {
  cur = record zero_handshake { send_key = replicate 32 1; remote_index = 5 };
  established = true;
  tx_counter = 3;
  rekey_after_s = pos 120;
  rekey_timeout_s = pos 5;
}

abbrev bob : Session
bob = record zero_session {
  cur = record zero_handshake { recv_key = replicate 32 1; local_index = 5 };
  established = true;
}

abbrev calls : List Op
calls =
    initiate 1500 1 2
    ∷ data_packet (1 ∷ 2 ∷ []) 1500 3
    ∷ keepalive 1500 4
    ∷ receive (replicate 106 0) 1500 5
    ∷ []

run_no_replay_example :
    (let p = (run toy shielded (start shielded no_drop bytes) calls).past in
      IsDistinct p.cur × IsDistinct p.prev)
run_no_replay_example = run_no_replay toy shielded no_drop bytes calls

run_nonces_example :
    (let t = run toy shielded (start shielded no_drop bytes) calls in
      Unused t.sent t.machine.session.tx_counter)
run_nonces_example = run_nonces-Unused toy shielded no_drop bytes calls (omega arith)

nonce_room : lacks_nonce shielded (pos 12) ≡ false
unfolding lacks_nonce
nonce_room = refl

new_counter : accepts [] 3 ≡ true
unfolding accepts
new_counter = refl

pair : Reaches shielded alice.cur bob.cur
pair = record { key = refl; index = refl; index_fits = omega arith; type_fits = omega arith }

data_delivered_example :
    (sent : List ℕ) × ((build_data toy shielded alice (9 ∷ 8 ∷ []) 1500 10 bytes).out
      ≡ datagram sent)
    × (let got = on_datagram toy shielded bob no_drop sent 1500 20 in
        (got.rx ≡ payload (padded (9 ∷ 8 ∷ [])))
        × ((on_datagram toy shielded got.session got.reason sent 1500 30).rx ≡ ignored))
data_delivered_example =
    data_delivered_once toy toy_laws shielded alice bob 12 refl nonce_room pair refl
      (record { up = refl; quiet = refl }) (omega arith) 9 (8 ∷ []) bytes [] no_drop 1500 1500 10 20
      30 empty-Represents new_counter (omega arith) (omega arith)
