-- ===== src/Noise/Transport/Faults.antt =====
-- What a packet that is not opened leaves, and the padding that the data path does not check.
use sys_amneziawg.Common.{
  ℕ, ◌+◌, ◌≤◌, ◌≡◌, true, not, ◌||◌, ◌&&◌, refl, sym, ap, ◌∙◌, false, List, ◌++◌, length, take,
  drop, arith, length-take, length-drop, take-append-drop, Bool-cases, inl, inr, ℤ, pos, negsuc,
}
use sys_amneziawg.Common.Int.{◌+ℤ◌, int_ltb, int_leb}
use sys_amneziawg.Types.{Config}
use sys_amneziawg.Noise.Crypto.{Crypto, CryptoLaws}
use sys_amneziawg.Noise.Handshake.{Handshake}
use sys_amneziawg.Noise.Framing.{lacks_nonce, header_pass}
use sys_amneziawg.Noise.Framing.RoundTrip.{header_pass_twice, nonce_fits}
use sys_amneziawg.Noise.Transport.{
  span_fits, Opened, opened, rejected, leave, open_padded, open_at, transport_open,
}

module _ (c : Crypto) (laws : CryptoLaws c) (cfg : Config) (hs : Handshake) where
  leave_restores :
      (p : ℕ) (pkt clear : List ℕ) (o : Opened)
      → header_pass c cfg p 16 clear ≡ pkt
      → (leave c cfg p clear o).1 ≡ rejected
      → (leave c cfg p clear o).0 ≡ pkt
  leave_restores p pkt clear (opened plain ctr) back h = cc
  leave_restores p pkt clear rejected back h = back
  leave_restores p pkt clear Opened.fault back h = cc

  -- A second header pass gives the packet back, if it holds the header.
  header_back :
      (p : ℕ) (pkt : List ℕ)
      → lacks_nonce cfg (pos p) ≡ false
      → p + 16 ≤ length pkt
      → header_pass c cfg p 16 (header_pass c cfg p 16 pkt) ≡ pkt
  header_back p pkt nonce long =
      let parts : take p pkt ++ (take 16 (drop p pkt) ++ drop 16 (drop p pkt)) ≡ pkt =
        ap (◌++◌ (take p pkt)) (take-append-drop 16 (drop p pkt)) ∙ take-append-drop p pkt in
      ap (λ (t : List ℕ). header_pass c cfg p 16 (header_pass c cfg p 16 t)) (sym parts)
      ∙ header_pass_twice c laws cfg p 16 (take p pkt) (take 16 (drop p pkt)) (drop 16 (drop p pkt))
          (omega (arith, length-take p pkt))
          (omega (arith, length-take 16 (drop p pkt), length-drop p pkt))
          (nonce_fits c laws cfg p nonce)
      ∙ parts

  -- What the length check is for: nonce and header lie in the packet.
  reads_fit :
      (p : ℕ) (pkt : List ℕ)
      → lacks_nonce cfg (pos p) ≡ false
      → int_ltb (pos (length pkt)) (pos p +ℤ pos 32) ≡ false
      → ((not cfg.have_header_protection || span_fits (pos 0) 12 (length pkt))
          && span_fits (pos p) 16 (length pkt))
        ≡ true
  unfolding lacks_nonce
  reads_fit p pkt nonce long = ground (arith, nonce, long)

  open_at_restores :
      (pad : ℤ) (pkt : List ℕ) (out_cap : ℕ)
      → (open_at c cfg pad hs pkt out_cap).1 ≡ rejected
      → (open_at c cfg pad hs pkt out_cap).0 ≡ pkt
  unfolding open_at open_padded
  open_at_restores (pos p) pkt out_cap h = elim (Bool-cases (lacks_nonce cfg (pos p))) [
    | inl lacks ↦ rw lacks refl
    | inr nonce ↦ elim (Bool-cases (int_ltb (pos (length pkt)) (pos p +ℤ pos 32))) [
      | inl short ↦ rw (nonce, short) refl
      | inr long ↦
          let inside = reads_fit p pkt nonce long in
          rw (nonce, long, inside)
            (leave_restores p pkt _ _ (header_back p pkt nonce (ground arith))
              (rw (nonce, long, inside) at h))
    ]
  ]
  open_at_restores (negsuc n) pkt out_cap h = ground arith

  -- A packet that one keypair rejects is left exactly as it came, so that the next keypair can
  -- be tried on it.
  pub transport_open_restores :
      (pkt : List ℕ) (out_cap : ℕ)
      → (transport_open c cfg hs pkt out_cap).1 ≡ rejected
      → (transport_open c cfg hs pkt out_cap).0 ≡ pkt
  unfolding transport_open
  transport_open_restores pkt out_cap h = open_at_restores cfg.s4 pkt out_cap h

  -- An S4 below 0 that nothing refuses: header protection is off, and the length check holds.
  abbrev pub IsUnchecked : ℤ → ℕ → ℕ → Type 0
  IsUnchecked pad n size =
      (int_ltb pad (pos 0) ≡ true)
      × (cfg.have_header_protection ≡ false)
      × (int_leb (pad +ℤ pos n) (pos size) ≡ true)
