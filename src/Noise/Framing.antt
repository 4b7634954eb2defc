-- ===== src/Noise/Framing.antt =====
-- AmneziaWG framing in source/awg_noise.c: the random prefix, header protection and junk packets.
pub mod RoundTrip
pub mod Junk
use sys_amneziawg.Common.{
  ℕ, zero, suc, ◌+◌, ◌-◌, ◌*◌, ◌%◌, Bool, true, false, ◌&&◌, ◌||◌, Option, none, some, List, [],
  ◌∷◌, ◌++◌, length, take, drop, set, ltb, leb, if◌then◌else◌, ℤ, pos, negsuc, u32, Entropy,
  random_bytes,
}
use sys_amneziawg.Common.Int.{◌+ℤ◌, ◌-ℤ◌, int_leb, int_ltb}
use sys_amneziawg.Types.{Config}
use sys_amneziawg.Noise.Crypto.{Crypto}
use sys_amneziawg.Noise.Primitives.{get_u32_le, get_le}

-- awg_kind.
pub data Kind : Type 0 where
  init response cookie transport : Kind

unfoldable pub padding_for : Config → Kind → ℤ
padding_for cfg init = cfg.s1
padding_for cfg response = cfg.s2
padding_for cfg cookie = cfg.s3
padding_for cfg transport = cfg.s4

-- Header protection wants 12 bytes of padding for its nonce.
unfoldable pub lacks_nonce : Config → ℤ → Bool
lacks_nonce cfg pad = cfg.have_header_protection && int_ltb pad (pos 12)

-- What awg_unwrap leaves: the offset, the length that it returns, and the packet.
pub record Unwrapped : Type 0 where
  pub msg_off : ℤ
  pub msg_len : ℕ
  pub pkt : List ℕ

module _ (c : Crypto) where
  -- The state words 12 to 15 are written directly: no counter, and the 12 nonce bytes.
  unfoldable pub header_cipher_init : List ℕ → List ℕ → List ℕ
  header_cipher_init key nonce =
      set
        (set (set (set (c.chacha20_init key 0) 12 0) 13 (get_u32_le (drop 0 nonce))) 14
          (get_u32_le (drop 4 nonce)))
        15 (get_u32_le (drop 8 nonce))

  -- The pass over n bytes at `pad`, under the nonce that the buffer begins with.
  unfoldable pub header_pass : Config → ℕ → ℕ → List ℕ → List ℕ
  header_pass cfg pad n buf =
      if cfg.have_header_protection
      then take pad buf
        ++ (c.chacha20 (header_cipher_init cfg.header_protection_key (take 12 buf))
              (take n (drop pad buf))
            ++ drop n (drop pad buf))
      else buf

  -- awg_wrap where the padding is not negative; an absent datagram is the return value -1.
  unfoldable pub wrap_padded : Config → ℕ → List ℕ → ℕ → Entropy → Option (List ℕ) × Entropy
  wrap_padded cfg pad msg out_cap e =
      if ltb out_cap (pad + length msg)
      then (none, e)
      else let (prefix, e') = random_bytes pad e in
        (some (header_pass cfg pad (length msg) (prefix ++ msg)), e')

  unfoldable pub wrap : Config → Kind → List ℕ → ℕ → Entropy → Option (List ℕ) × Entropy
  wrap cfg kind msg out_cap e =
      if lacks_nonce cfg (padding_for cfg kind) then (none, e) else elim (padding_for cfg kind) [
        | negsuc _ ↦ (none, e)
        | pos pad ↦ wrap_padded cfg pad msg out_cap e
      ]

  unfoldable pub unwrap : Config → Kind → List ℕ → Option Unwrapped
  unwrap cfg kind pkt =
      let pad = padding_for cfg kind in
      if lacks_nonce cfg pad || int_leb (pos (length pkt)) pad
      then none
      else some (elim pad [
        | pos p ↦ record {
          msg_off = pos p;
          msg_len = length pkt - p;
          pkt = header_pass cfg p (length pkt - p) pkt;
        }
        -- With no protection a negative padding passes both tests.
        | negsuc n ↦ record { msg_off = negsuc n; msg_len = length pkt + suc n; pkt = pkt }
      ])
