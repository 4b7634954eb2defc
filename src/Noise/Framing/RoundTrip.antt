-- ===== src/Noise/Framing/RoundTrip.antt =====
-- Framing undone.
use sys_amneziawg.Common.{
  ℕ, zero, suc, ◌+◌, ◌-◌, ◌≤◌, ◌<◌, ◌≡◌, refl, sym, ap, ◌∙◌, true, false, Option, some, List, [],
  ◌∷◌, ◌++◌, length, take, drop, arith, length-append, take-append_length, drop-append_length,
  append-nil, Bool-cases, inl, inr, random_bytes, length-random_bytes, Entropy, pos,
}
use sys_amneziawg.Types.{Config}
use sys_amneziawg.Noise.Crypto.{Crypto, CryptoLaws}
use sys_amneziawg.Noise.Framing.{
  Kind, Unwrapped, padding_for, lacks_nonce, header_cipher_init, header_pass, wrap_padded, wrap,
  unwrap,
}

take-append_le : (n : ℕ) (xs ys : List ℕ) → n ≤ length xs → take n (xs ++ ys) ≡ take n xs
take-append_le zero xs ys h = refl
take-append_le (suc n) [] ys h = absurd (omega arith)
take-append_le (suc n) (x ∷ xs) ys h = ap (◌∷◌ x) (take-append_le n xs ys (omega arith))

module _ (c : Crypto) (laws : CryptoLaws c) where
  -- The three parts of a buffer under a pass: prefix, n bytes, the rest.
  pub header_pass-append :
      (cfg : Config) (pad n : ℕ) (xs ys zs : List ℕ)
      → length xs ≡ pad
      → length ys ≡ n
      → cfg.have_header_protection ≡ true
      → 12 ≤ pad
      → header_pass c cfg pad n (xs ++ (ys ++ zs))
        ≡ xs ++ (c.chacha20 (header_cipher_init c cfg.header_protection_key (take 12 xs)) ys ++ zs)
  unfolding header_pass
  header_pass-append cfg pad n xs ys zs hx hy on wide = rw (
    on,
    drop-append_length pad xs (ys ++ zs) hx,
    take-append_length pad xs (ys ++ zs) hx,
    take-append_length n ys zs hy,
    drop-append_length n ys zs hy,
    take-append_le 12 xs (ys ++ zs) (omega (arith, hx)),
  )

  pub header_pass_off :
      (cfg : Config) (pad n : ℕ) (buf : List ℕ)
      → cfg.have_header_protection ≡ false
      → header_pass c cfg pad n buf ≡ buf
  unfolding header_pass
  header_pass_off cfg pad n buf off = rw off

  -- A second pass undoes the first, if the nonce stands before what it touches.
  pub header_pass_twice :
      (cfg : Config) (pad n : ℕ) (xs ys zs : List ℕ)
      → length xs ≡ pad
      → length ys ≡ n
      → ((cfg.have_header_protection ≡ true) → 12 ≤ pad)
      → header_pass c cfg pad n (header_pass c cfg pad n (xs ++ (ys ++ zs))) ≡ xs ++ (ys ++ zs)
  header_pass_twice cfg pad n xs ys zs hx hy wide = elim (Bool-cases cfg.have_header_protection) [
    | inl on ↦
        let st = header_cipher_init c cfg.header_protection_key (take 12 xs) in
        ap (header_pass c cfg pad n) (header_pass-append cfg pad n xs ys zs hx hy on (wide on))
        ∙ header_pass-append cfg pad n xs (c.chacha20 st ys) zs hx (laws.length_chacha20 st ys ∙ hy)
            on (wide on)
        ∙ ap (λ (t : List ℕ). xs ++ (t ++ zs)) (laws.chacha20_twice st ys)
    | inr off ↦
        header_pass_off cfg pad n (header_pass c cfg pad n (xs ++ (ys ++ zs))) off
        ∙ header_pass_off cfg pad n (xs ++ (ys ++ zs)) off
  ]

  pub length-header_pass :
      (cfg : Config) (pad n : ℕ) (xs ys zs : List ℕ)
      → length xs ≡ pad
      → length ys ≡ n
      → ((cfg.have_header_protection ≡ true) → 12 ≤ pad)
      → length (header_pass c cfg pad n (xs ++ (ys ++ zs))) ≡ length (xs ++ (ys ++ zs))
  length-header_pass cfg pad n xs ys zs hx hy wide = elim (Bool-cases cfg.have_header_protection) [
    | inl on ↦
        let st = header_cipher_init c cfg.header_protection_key (take 12 xs) in
        ap length (header_pass-append cfg pad n xs ys zs hx hy on (wide on))
        ∙ omega (
          arith,
          length-append xs (c.chacha20 st ys ++ zs),
          length-append (c.chacha20 st ys) zs,
          length-append xs (ys ++ zs),
          length-append ys zs,
          laws.length_chacha20 st ys,
        )
    | inr off ↦ ap length (header_pass_off cfg pad n (xs ++ (ys ++ zs)) off)
  ]

  pub nonce_fits :
      (cfg : Config) (p : ℕ)
      → lacks_nonce cfg (pos p) ≡ false
      → (cfg.have_header_protection ≡ true)
      → 12 ≤ p
  unfolding lacks_nonce
  nonce_fits cfg p h on = ground arith

  module _ (cfg : Config) (kind : Kind) (msg : List ℕ) (out_cap : ℕ) (e : Entropy) (p : ℕ)
      (is_pad : padding_for cfg kind ≡ pos p) (nonce : lacks_nonce cfg (pos p) ≡ false) where
    abbrev sent : List ℕ
    sent = header_pass c cfg p (length msg) ((random_bytes p e).0 ++ msg)

    wrap-eq :
        p + length msg ≤ out_cap → wrap c cfg kind msg out_cap e ≡ (some sent, (random_bytes p e).1)
    unfolding wrap wrap_padded
    wrap-eq fits = rw (is_pad, nonce) (ground arith)

    parts : (random_bytes p e).0 ++ msg ≡ (random_bytes p e).0 ++ (msg ++ [])
    parts = ap (◌++◌ (random_bytes p e).0) (sym (append-nil msg))

    length-sent : length sent ≡ p + length msg
    length-sent =
        ap (λ (t : List ℕ). length (header_pass c cfg p (length msg) t)) parts
        ∙ length-header_pass cfg p (length msg) (random_bytes p e).0 msg []
            (length-random_bytes p e) refl (nonce_fits cfg p nonce)
        ∙ ap length (sym parts)
        ∙ omega (arith, length-append (random_bytes p e).0 msg, length-random_bytes p e)

    undone : header_pass c cfg p (length msg) sent ≡ (random_bytes p e).0 ++ msg
    undone =
        ap (λ (t : List ℕ). header_pass c cfg p (length msg) (header_pass c cfg p (length msg) t))
          parts
        ∙ header_pass_twice cfg p (length msg) (random_bytes p e).0 msg [] (length-random_bytes p e)
            refl (nonce_fits cfg p nonce)
        ∙ sym parts

    unwrap-eq :
        0 < length msg
        → unwrap c cfg kind sent
          ≡ some
              (record { msg_off = pos p; msg_len = length msg; pkt = (random_bytes p e).0 ++ msg })
    unfolding unwrap
    unwrap-eq nonempty =
        let cut : p + length msg - p ≡ length msg = omega arith in
        rw (is_pad, nonce, length-sent, cut, undone) (ground arith)

    -- A message that fits is wrapped into padding and message, and unwrapping the datagram gives
    -- the offset, the length and the message back.
    pub unwrap-wrap :
        p + length msg ≤ out_cap
        → 0 < length msg
        → (wire : List ℕ) × ((wrap c cfg kind msg out_cap e).0 ≡ some wire)
          × (length wire ≡ p + length msg)
          × (u : Unwrapped) × (unwrap c cfg kind wire ≡ some u)
          × (u.msg_off ≡ pos p)
          × (u.msg_len ≡ length msg)
          × (drop p u.pkt ≡ msg)
    unwrap-wrap fits nonempty = (
      sent,
      ap (λ (t : Option (List ℕ) × Entropy). t.0) (wrap-eq fits),
      length-sent,
      record { msg_off = pos p; msg_len = length msg; pkt = (random_bytes p e).0 ++ msg },
      unwrap-eq nonempty,
      refl,
      refl,
      drop-append_length p (random_bytes p e).0 msg (length-random_bytes p e),
    )
