-- ===== src/Tests/Handshakes.antt =====
-- The handshake's theorems on a run between two peers.
use sys_amneziawg.Common.{ℕ, refl, some, List, replicate, arith}
use sys_amneziawg.Noise.Handshake.{Handshake, zero_handshake}
use sys_amneziawg.Noise.Handshake.Initiation.{InitiationAgreed, initiation_accepted}
use sys_amneziawg.Noise.Handshake.Agreement.{
  HandshakeAgreed, initiator, responder, handshake_agreement,
}
use sys_amneziawg.Tests.Toy.{toy, toy_laws, bytes}

abbrev psk : List ℕ
psk = replicate 32 6

handshake_example :
    HandshakeAgreed toy toy_laws
      (initiator toy toy_laws (replicate 32 7) (replicate 32 8) (some psk) 5)
      (responder toy toy_laws (replicate 32 8) (some psk) 6)
      1000
      bytes
      bytes
handshake_example =
    handshake_agreement toy toy_laws (replicate 32 7) (replicate 32 8) (some psk) 5 6 1000 bytes
      bytes (omega arith) (omega arith)

abbrev caller : Handshake
caller = record zero_handshake {
  s_priv = replicate 32 7;
  s_pub = replicate 32 7;
  peer_pub = replicate 32 8;
  local_index = 5;
}

abbrev callee : Handshake
callee = record zero_handshake { s_priv = replicate 32 8; s_pub = replicate 32 8; local_index = 6 }

initiation_example : InitiationAgreed toy toy_laws caller callee 1000 bytes
initiation_example =
    initiation_accepted toy toy_laws caller callee 1000 bytes
      (record { own_a = refl; own_b = refl; known = refl; index_fits = omega arith })

abbrev waiting : Handshake
waiting = record caller { e_priv = replicate 32 4; e_pub = replicate 32 4 }

abbrev told : Handshake
told = record callee { peer_pub = replicate 32 7; peer_eph = replicate 32 4; remote_index = 5 }
