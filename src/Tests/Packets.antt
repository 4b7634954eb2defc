-- ===== src/Tests/Packets.antt =====
-- The theorems on datagrams: framing, junk packets, data packets, and the comparison.
use sys_amneziawg.Common.{
  ◌↔◌, ℕ, ◌+◌, ◌-◌, ◌≡◌, ◌↔◌, refl, true, false, some, List, [], ◌∷◌, ◌++◌, length, drop, replicate,
  pos, arith,
}
use sys_amneziawg.Noise.Handshake.{Handshake, zero_handshake}
use sys_amneziawg.Noise.Compare.{crypto_equal, crypto_equal_iff}
use sys_amneziawg.Noise.Primitives.{get_u32_le, get_u64_le}
use sys_amneziawg.Noise.Framing.{
  header_pass, header_cipher_init, Unwrapped, response, lacks_nonce, padding_for, wrap, unwrap,
}
use sys_amneziawg.Noise.Framing.RoundTrip.{unwrap-wrap}
use sys_amneziawg.Noise.Transport.{
  datagram, opened, rejected, padded_len, transport_seal, transport_open, open_at, open_padded,
  open_plain,
}
use sys_amneziawg.Noise.Transport.RoundTrip.{open-seal}
use sys_amneziawg.Noise.Transport.Faults.{transport_open_restores}
use sys_amneziawg.Tests.Toy.{toy, toy_laws, shielded, bytes}

abbrev key_bytes : List ℕ
key_bytes = 1 ∷ 255 ∷ []

crypto_equal_example : (crypto_equal key_bytes key_bytes ≡ true) ↔ (key_bytes ≡ key_bytes)
crypto_equal_example =
    crypto_equal_iff key_bytes key_bytes (omega arith, (omega arith, tt))
      (omega arith, (omega arith, tt)) refl

abbrev sender : Handshake
sender = record zero_handshake { send_key = replicate 32 1; remote_index = 5 }

abbrev receiver : Handshake
receiver = record zero_handshake { recv_key = replicate 32 1; local_index = 5 }

response_padding : padding_for shielded response ≡ pos 14
unfolding padding_for
response_padding = refl

response_nonce : lacks_nonce shielded (pos 14) ≡ false
unfolding lacks_nonce
response_nonce = refl

data_nonce : lacks_nonce shielded (pos 12) ≡ false
unfolding lacks_nonce
data_nonce = refl

abbrev msg : List ℕ
msg = replicate 92 3

unwrap-wrap_example :
    (wire : List ℕ) × ((wrap toy shielded response msg 200 bytes).0 ≡ some wire)
    × (length wire ≡ 14 + length msg)
    × (u : Unwrapped) × (unwrap toy shielded response wire ≡ some u)
    × (u.msg_off ≡ pos 14)
    × (u.msg_len ≡ length msg)
    × (drop 14 u.pkt ≡ msg)
unwrap-wrap_example =
    unwrap-wrap toy toy_laws shielded response msg 200 bytes 14 response_padding response_nonce
      (omega arith) (omega arith)

abbrev text : List ℕ
text = 9 ∷ 8 ∷ 7 ∷ []

open-seal_example :
    (sent : List ℕ) × ((transport_seal toy shielded sender 3 text 1500 bytes).0 ≡ datagram sent)
    × (length sent ≡ 12 + 32 + padded_len (length text))
    × ((transport_open toy shielded receiver sent 1500).1
        ≡ opened (text ++ replicate (padded_len (length text) - length text) 0) 3)
open-seal_example =
    open-seal toy toy_laws shielded sender receiver 3 text bytes 12 refl data_nonce 1500 1500
      (omega arith) (omega arith)
      (record { key = refl; index = refl; index_fits = omega arith; type_fits = omega arith })
      (omega arith)

abbrev noise : List ℕ
noise = replicate 60 77

noise_rejected : (transport_open toy shielded receiver noise 1500).1 ≡ rejected
unfolding transport_open open_at open_padded open_plain lacks_nonce header_pass header_cipher_init
    get_u32_le get_u64_le
noise_rejected = refl

restores_example : (transport_open toy shielded receiver noise 1500).0 ≡ noise
restores_example = transport_open_restores toy toy_laws shielded receiver noise 1500 noise_rejected
