-- ===== src/Noise/Transport.antt =====
-- Data packets in source/awg_noise.c: awg_transport_seal and awg_transport_open.
pub mod RoundTrip
pub mod Faults
use sys_amneziawg.Common.{
  ℕ, zero, suc, ◌+◌, ◌-◌, ◌*◌, ◌/◌, Bool, true, false, not, ◌&&◌, ◌||◌, Option, none, some, List,
  [], ◌∷◌, ◌++◌, length, take, drop, replicate, ltb, leb, ◌==◌, if◌then◌else◌, ℤ, pos, negsuc,
  Entropy, random_bytes,
}
use sys_amneziawg.Common.Int.{◌+ℤ◌, int_ltb, int_leb, pos_part}
use sys_amneziawg.Types.{Config}
use sys_amneziawg.Noise.Crypto.{Crypto}
use sys_amneziawg.Noise.Primitives.{put_u32_le, get_u32_le, put_u64_le, get_u64_le}
use sys_amneziawg.Noise.Handshake.{Handshake}
use sys_amneziawg.Noise.Framing.{lacks_nonce, header_pass}

abbrev pub transport_hdr : ℕ
transport_hdr = 16

abbrev pub aead_tag : ℕ
aead_tag = 16

abbrev pub nonce_len : ℕ
nonce_len = 12

-- (len + 15) & ~15.
abbrev pub padded_len : ℕ → ℕ
padded_len n = (n + 15) / 16 * 16

-- `n` bytes from `start` on lie in a buffer of `size` bytes.
abbrev pub span_fits : ℤ → ℕ → ℕ → Bool
span_fits start n size = int_leb (pos 0) start && int_leb (start +ℤ pos n) (pos size)

-- A datagram, the return value -1, or an access outside the buffer.
pub data Sealed : Type 0 where
  datagram : List ℕ → Sealed
  refused fault : Sealed

-- A text with its counter, the return value -1, or an access outside the buffer.
pub data Opened : Type 0 where
  opened : List ℕ → ℕ → Opened
  rejected fault : Opened

module _ (c : Crypto) where
  -- The header and the sealed body, for a padding that is not negative.
  unfoldable pub seal_padded : Config → Handshake → ℕ → List ℕ → ℕ → Entropy → List ℕ × Entropy
  seal_padded cfg hs counter payload pad e =
      let (prefix, e') = random_bytes pad e in
      let hdr = put_u32_le cfg.h4 ++ (put_u32_le hs.remote_index ++ put_u64_le counter) in
      let body = payload ++ replicate (padded_len (length payload) - length payload) 0 in
      let sealed = c.aead_encrypt hs.send_key counter [] body in
      (header_pass c cfg pad transport_hdr (prefix ++ (hdr ++ sealed)), e')

  -- awg_transport_seal with `pad` read from the configuration. The header, the body and the tag
  -- are written from out + pad on.
  unfoldable pub seal_at : Config → ℤ → Handshake → ℕ → List ℕ → ℕ → Entropy → Sealed × Entropy
  seal_at cfg pad hs counter payload out_cap e =
      let total = pad +ℤ pos (transport_hdr + padded_len (length payload) + aead_tag) in
      let written = transport_hdr + padded_len (length payload) + aead_tag in
      let (wire, e') = seal_padded cfg hs counter payload (pos_part pad) e in
      if lacks_nonce cfg pad || int_ltb (pos out_cap) total
      then (refused, e)
      else if span_fits pad written out_cap
      then (datagram wire, e')
      else (fault, e)

  unfoldable pub transport_seal : Config → Handshake → ℕ → List ℕ → ℕ → Entropy → Sealed × Entropy
  unfolding seal_at
  transport_seal cfg hs counter payload out_cap e = seal_at cfg cfg.s4 hs counter payload out_cap e

  -- The checks on a header in the clear, and the decryption.
  unfoldable pub open_plain : Config → Handshake → List ℕ → ℕ → ℕ → Opened
  open_plain cfg hs hdr cipher_len out_cap =
      let ctr = get_u64_le (drop 8 hdr) in
      if (get_u32_le hdr == cfg.h4)
        && ((get_u32_le (drop 4 hdr) == hs.local_index)
            && (leb aead_tag cipher_len && leb (cipher_len - aead_tag) out_cap))
      then (elim (c.aead_decrypt hs.recv_key ctr [] (take cipher_len (drop transport_hdr hdr))) [
        | none ↦ rejected
        | some plain ↦ opened plain ctr
      ])
      else rejected

  -- The packet as the call leaves it: a rejection applies the header pass a second time.
  abbrev pub leave : Config → ℕ → List ℕ → Opened → List ℕ × Opened
  leave cfg pad pkt (opened plain ctr) = (pkt, opened plain ctr)
  leave cfg pad pkt rejected = (header_pass c cfg pad transport_hdr pkt, rejected)
  leave cfg pad pkt fault = (pkt, fault)

  unfoldable pub open_padded : Config → Handshake → List ℕ → ℕ → ℕ → List ℕ × Opened
  open_padded cfg hs pkt pad out_cap =
      let clear = header_pass c cfg pad transport_hdr pkt in
      leave cfg pad clear
        (open_plain cfg hs (drop pad clear) (length pkt - pad - transport_hdr) out_cap)

  -- awg_transport_open with `pad` read from the configuration. The nonce is read at pkt, and the
  -- header at pkt + pad; the body ends with the packet.
  unfoldable pub open_at : Config → ℤ → Handshake → List ℕ → ℕ → List ℕ × Opened
  open_at cfg pad hs pkt out_cap =
      let least = pad +ℤ pos (transport_hdr + aead_tag) in
      let nonce = not cfg.have_header_protection || span_fits (pos 0) nonce_len (length pkt) in
      if lacks_nonce cfg pad || int_ltb (pos (length pkt)) least
      then (pkt, rejected)
      else if nonce && span_fits pad transport_hdr (length pkt)
      then open_padded cfg hs pkt (pos_part pad) out_cap
      else (pkt, fault)

  unfoldable pub transport_open : Config → Handshake → List ℕ → ℕ → List ℕ × Opened
  unfolding open_at
  transport_open cfg hs pkt out_cap = open_at cfg cfg.s4 hs pkt out_cap
