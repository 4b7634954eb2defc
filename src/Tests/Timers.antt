-- ===== src/Tests/Timers.antt =====
-- The theorems on the session's deadlines, on an initiation and on a response.
use sys_amneziawg.Common.{
  ℕ, ◌+◌, ◌*◌, ◌≡◌, refl, true, false, some, List, [], ◌∷◌, replicate, leb, pos, arith,
}
use sys_amneziawg.Types.{Config}
use sys_amneziawg.Noise.Crypto.{Crypto}
use sys_amneziawg.Noise.Compare.{crypto_equal}
use sys_amneziawg.Noise.Primitives.{put_u32_le, get_u32_le, public_from_private, tai64n, mac1}
use sys_amneziawg.Noise.Handshake.{
  handshake_begin, chain_start, absorb_ephemeral, seal_field, finish_initiation, create_initiation,
  open_empty, open_response, consume_response,
}
use sys_amneziawg.Noise.Framing.{lacks_nonce, padding_for, header_pass, wrap_padded, wrap, unwrap}
use sys_amneziawg.Noise.Transport.{Sealed, datagram, refused, fault}
use sys_amneziawg.Session.Window.{DropReason}
use sys_amneziawg.Session.State.{Session, zero_session, needs_handshake}
use sys_amneziawg.Session.Send.{send_built, build_initiation}
use sys_amneziawg.Session.Receive.{
  established, on_unwrapped, on_response, looks_like_response, on_datagram,
}
use sys_amneziawg.Session.Deadlines.{build_initiation-retry, on_datagram-rekeys}
use sys_amneziawg.Tests.Toy.{toy, shielded, bytes}

-- Primitives that accept any text.
abbrev agreeable : Crypto
agreeable = record toy { blake2s = λ n k xs. replicate n 0; aead_decrypt = λ k n ad xs. some [] }

abbrev plain : Config
plain = record shielded { have_header_protection = false; s1 = pos 0; s2 = pos 0 }

abbrev waiting : Session
waiting = record zero_session {
  handshaking = true;
  handshake_sent_ms = 1000;
  rekey_after_s = pos 120;
  rekey_timeout_s = pos 5;
}

abbrev no_drop : DropReason
no_drop = record { behind = 0; too_old = false }

abbrev content : Sealed → List ℕ
content (datagram xs) = xs
content refused = []
content fault = []

abbrev hello : List ℕ
hello = content (build_initiation agreeable plain waiting 1500 7000 9 bytes).out

hello_sent : (build_initiation agreeable plain waiting 1500 7000 9 bytes).out ≡ datagram hello
unfolding build_initiation send_built create_initiation finish_initiation wrap lacks_nonce
    padding_for wrap_padded put_u32_le seal_field absorb_ephemeral public_from_private chain_start
    handshake_begin tai64n mac1
hello_sent = refl

retry_example :
    needs_handshake (build_initiation agreeable plain waiting 1500 7000 9 bytes).session 12000
    ≡ leb (7000 + 5 * 1000) 12000
retry_example =
    build_initiation-retry agreeable plain waiting 1500 7000 9 5 12000 bytes hello hello_sent refl
      (omega arith) (omega arith) (omega arith)

abbrev answer : List ℕ
answer = 2 ∷ replicate 91 0

answer_accepted : (on_datagram agreeable plain waiting no_drop answer 1500 2000).rx ≡ established
unfolding on_datagram looks_like_response on_response on_unwrapped unwrap lacks_nonce padding_for
    consume_response get_u32_le header_pass crypto_equal mac1 open_response open_empty
answer_accepted = refl

rekeys_example :
    needs_handshake (on_datagram agreeable plain waiting no_drop answer 1500 2000).session 121999
    ≡ leb (2000 + 120 * 1000) 121999
rekeys_example =
    on_datagram-rekeys agreeable plain waiting no_drop answer 1500 2000 120 121999 answer_accepted
      refl (omega arith) (omega arith) (omega arith)
