-- ===== src/Noise/Transport/RoundTrip.antt =====
-- A data packet sealed at one end and opened at the other.
use sys_amneziawg.Common.{
  ℕ, ◌+◌, ◌-◌, ◌%◌, ◌^◌, ◌≤◌, ◌<◌, ◌≡◌, refl, ap, ◌∙◌, false, List, [], ◌++◌, length, drop,
  replicate, arith, length-append, length-replicate, drop-append_length, take_all, random_bytes,
  length-random_bytes, Entropy, ℤ, pos,
}
use sys_amneziawg.Types.{Config}
use sys_amneziawg.Noise.Crypto.{Crypto, CryptoLaws}
use sys_amneziawg.Noise.Primitives.{put_u32_le, get_u32_le, put_u64_le, get_u64_le}
use sys_amneziawg.Noise.Handshake.{Handshake}
use sys_amneziawg.Noise.Framing.{lacks_nonce, header_pass}
use sys_amneziawg.Noise.Framing.RoundTrip.{header_pass_twice, length-header_pass, nonce_fits}
use sys_amneziawg.Noise.Transport.{
  datagram, opened, padded_len, seal_padded, transport_seal, open_plain, open_padded, seal_at,
  open_at, transport_open,
}

-- The 16 bytes of a header.
abbrev header : ℕ → ℕ → ℕ → List ℕ
header h4 idx counter = put_u32_le h4 ++ (put_u32_le idx ++ put_u64_le counter)

length-header : (h4 idx counter : ℕ) → length (header h4 idx counter) ≡ 16
unfolding put_u32_le put_u64_le
length-header h4 idx counter = refl

-- They are read back, whatever follows.
module _ (h4 idx counter : ℕ) (rest : List ℕ) where
  header_type : h4 < 2 ^ 32 → get_u32_le (header h4 idx counter ++ rest) ≡ h4
  unfolding put_u32_le put_u64_le get_u32_le
  header_type f = omega arith

  header_index : idx < 2 ^ 32 → get_u32_le (drop 4 (header h4 idx counter ++ rest)) ≡ idx
  unfolding put_u32_le put_u64_le get_u32_le
  header_index f = omega arith

  header_counter : counter < 2 ^ 64 → get_u64_le (drop 8 (header h4 idx counter ++ rest)) ≡ counter
  unfolding put_u32_le put_u64_le get_u64_le
  header_counter f = omega arith

  header_rest : drop 16 (header h4 idx counter ++ rest) ≡ rest
  unfolding put_u32_le put_u64_le
  header_rest = refl

-- The ends of one direction: what `a` sends `b` can open.
pub record Reaches (cfg : Config) (a b : Handshake) : Type 0 where
  pub key : b.recv_key ≡ a.send_key
  pub index : b.local_index ≡ a.remote_index
  pub index_fits : a.remote_index < 2 ^ 32
  pub type_fits : cfg.h4 < 2 ^ 32

padded_bounds : (n : ℕ) → (n ≤ padded_len n) × (padded_len n < n + 16) × (padded_len n % 16 ≡ 0)
padded_bounds n = (omega arith, omega arith, omega arith)

module _ (c : Crypto) (laws : CryptoLaws c) (cfg : Config) (a b : Handshake) (counter : ℕ)
    (payload : List ℕ) (e : Entropy) (p : ℕ) where
  abbrev body : List ℕ
  body = payload ++ replicate (padded_len (length payload) - length payload) 0

  abbrev sealed : List ℕ
  sealed = c.aead_encrypt a.send_key counter [] body

  abbrev hdr : List ℕ
  hdr = header cfg.h4 a.remote_index counter

  abbrev clear : List ℕ
  clear = (random_bytes p e).0 ++ (hdr ++ sealed)

  abbrev wire : List ℕ
  wire = (seal_padded c cfg a counter payload p e).0

  length-body : length body ≡ padded_len (length payload)
  length-body = omega (
    arith,
    length-append payload (replicate (padded_len (length payload) - length payload) 0),
    length-replicate {A = ℕ} (padded_len (length payload) - length payload) 0,
    padded_bounds (length payload),
  )

  length-sealed : length sealed ≡ padded_len (length payload) + 16
  length-sealed =
      laws.length_encrypt a.send_key counter [] body ∙ ap (λ (n : ℕ). n + 16) length-body

  length-clear : length clear ≡ p + 32 + padded_len (length payload)
  length-clear = omega (
    arith,
    length-append (random_bytes p e).0 (hdr ++ sealed),
    length-append hdr sealed,
    length-header cfg.h4 a.remote_index counter,
    length-random_bytes p e,
    length-sealed,
  )

  module _ (nonce : lacks_nonce cfg (pos p) ≡ false) where
    length-wire : length wire ≡ p + 32 + padded_len (length payload)
    unfolding seal_padded
    length-wire =
        length-header_pass c laws cfg p 16 (random_bytes p e).0 hdr sealed (length-random_bytes p e)
          (length-header cfg.h4 a.remote_index counter) (nonce_fits c laws cfg p nonce)
        ∙ length-clear

    undone : header_pass c cfg p 16 wire ≡ clear
    unfolding seal_padded
    undone =
        header_pass_twice c laws cfg p 16 (random_bytes p e).0 hdr sealed (length-random_bytes p e)
          (length-header cfg.h4 a.remote_index counter) (nonce_fits c laws cfg p nonce)

  -- The clear header and body, opened at the other end.
  open_plain-eq :
      (in_cap : ℕ)
      → Reaches cfg a b
      → counter < 2 ^ 64
      → padded_len (length payload) ≤ in_cap
      → open_plain c cfg b (hdr ++ sealed) (padded_len (length payload) + 16) in_cap
        ≡ opened body counter
  unfolding open_plain
  open_plain-eq in_cap r fits room = ground (
    arith,
    header_type cfg.h4 a.remote_index counter sealed r.type_fits,
    header_index cfg.h4 a.remote_index counter sealed r.index_fits,
    header_counter cfg.h4 a.remote_index counter sealed fits,
    header_rest cfg.h4 a.remote_index counter sealed,
    take_all (padded_len (length payload) + 16) sealed length-sealed,
    laws.decrypt_encrypt a.send_key counter [] body,
    r.key,
    r.index,
  )

  module _ (is_pad : cfg.s4 ≡ pos p) (nonce : lacks_nonce cfg (pos p) ≡ false) where
    seal-eq :
        (out_cap : ℕ)
        → p + 32 + padded_len (length payload) ≤ out_cap
        → (transport_seal c cfg a counter payload out_cap e).0 ≡ datagram wire
    unfolding transport_seal
    seal-eq out_cap fits =
        ap (λ (s : ℤ). (seal_at c cfg s a counter payload out_cap e).0) is_pad
        ∙ rw nonce (ground arith)

    open_at-eq :
        (in_cap : ℕ)
        → Reaches cfg a b
        → counter < 2 ^ 64
        → padded_len (length payload) ≤ in_cap
        → (open_at c cfg (pos p) b wire in_cap).1 ≡ opened body counter
    unfolding open_at open_padded
    open_at-eq in_cap r fits room =
        let rest : p + 32 + padded_len (length payload) - p - 16
            ≡ padded_len (length payload) + 16 =
          omega arith in
        ground (
          arith,
          nonce,
          length-wire nonce,
          rest,
          undone nonce,
          drop-append_length p (random_bytes p e).0 (hdr ++ sealed) (length-random_bytes p e),
          open_plain-eq in_cap r fits room,
        )

    -- A payload that fits is sealed into padding, header, a body of a multiple of 16 and the tag,
    -- and the peer opens the datagram to the payload, followed by zeroes, with its counter.
    pub open-seal :
        (out_cap in_cap : ℕ)
        → p + 32 + padded_len (length payload) ≤ out_cap
        → padded_len (length payload) ≤ in_cap
        → Reaches cfg a b
        → counter < 2 ^ 64
        → (sent : List ℕ) × ((transport_seal c cfg a counter payload out_cap e).0 ≡ datagram sent)
          × (length sent ≡ p + 32 + padded_len (length payload))
          × ((transport_open c cfg b sent in_cap).1
              ≡ opened
                  (payload ++ replicate (padded_len (length payload) - length payload) 0)
                  counter)
    unfolding transport_open
    open-seal out_cap in_cap fits room r counter_fits = (
      wire,
      seal-eq out_cap fits,
      length-wire nonce,
      ap (λ (s : ℤ). (open_at c cfg s b wire in_cap).1) is_pad
          ∙ open_at-eq in_cap r counter_fits room,
    )
