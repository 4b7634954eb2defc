-- ===== src/Noise/Handshake/Stages.antt =====
-- The steps that the handshake functions share: each one run on one side and undone on the other.
use sys_amneziawg.Common.{
  ℕ, ◌+◌, ◌^◌, ◌<◌, ◌≡◌, refl, ◌∙◌, true, some, List, ◌++◌, length, replicate, arith, Entropy,
}
use sys_amneziawg.Noise.Crypto.{Crypto, CryptoLaws}
use sys_amneziawg.Noise.Primitives.{tai64n, kdf, mac1, public_from_private, generate_private}
use sys_amneziawg.Noise.Handshake.{
  Handshake, slice, chain_start, absorb_ephemeral, seal_field, open_field, finish_initiation,
  initiation_head, create_initiation, open_stamp, open_static,
}

module _ (c : Crypto) where
  -- The two ends have the same chaining key and hash.
  pub record Paired (a b : Handshake) : Type 0 where
    pub same_ck : b.ck ≡ a.ck
    pub same_h : b.h ≡ a.h

  -- What the ends of a handshake know of each other before it starts.
  pub record IsKeyed (a b : Handshake) : Type 0 where
    pub own_a : a.s_pub ≡ c.x25519_base a.s_priv
    pub own_b : b.s_pub ≡ c.x25519_base b.s_priv
    pub known : a.peer_pub ≡ b.s_pub
    pub index_fits : a.local_index < 2 ^ 32

  -- The second half of an initiation, built over `out`.
  module _ (a : Handshake) (out : List ℕ) (now : ℕ) (e : Entropy) (k : List ℕ) where
    abbrev pub sealed_stamp : List ℕ
    sealed_stamp = (seal_field c a k (tai64n now e).0).1

    abbrev pub after_stamp : Handshake
    after_stamp = (seal_field c a k (tai64n now e).0).0

    pub finish_initiation-eq :
        c.x25519 a.s_priv a.peer_pub ≡ some k
        → finish_initiation c a out now e ≡ record {
          state = after_stamp;
          msg = some (
              (out ++ sealed_stamp)
              ++ (mac1 c after_stamp.peer_pub (out ++ sealed_stamp) ++ replicate 16 0));
          entropy = (tai64n now e).1;
        }
    unfolding finish_initiation
    finish_initiation-eq dh = rw (dh, finish_initiation)

  module _ (a : Handshake) (now : ℕ) (e : Entropy) where
    -- The initiator's ephemeral key, and its state with the key mixed in.
    abbrev pub ephemeral : List ℕ
    ephemeral = (generate_private e).0

    abbrev pub mixed : Handshake
    mixed =
        absorb_ephemeral c
          (record (chain_start c a a.peer_pub) {
            e_priv = ephemeral;
            e_pub = public_from_private c ephemeral;
          })
          (public_from_private c ephemeral)

    pub create_initiation-eq :
        (k : List ℕ)
        → c.x25519 ephemeral a.peer_pub ≡ some k
        → create_initiation c a now e ≡ (
            let (a', sealed) = seal_field c mixed k mixed.s_pub in
            finish_initiation c a' (initiation_head c a' ++ sealed) now (generate_private e).1)
    unfolding create_initiation
    create_initiation-eq k dh = rw (dh, create_initiation)

module _ (c : Crypto) (laws : CryptoLaws c) where
  -- What one end seals the other opens, and they stay paired.
  pub open-seal_field :
      (a b : Handshake) (dh text : List ℕ)
      → Paired c a b
      → let (a', sealed) = seal_field c a dh text in
        open_field c b dh sealed ≡ (record b { ck = a'.ck; h = a'.h }, some text)
  unfolding seal_field open_field
  open-seal_field a b dh text p =
      ground (arith, laws.decrypt_encrypt (kdf c a.ck dh).t2 0 a.h text, p.same_ck, p.same_h)

  pub length-seal_field :
      (a : Handshake) (dh text : List ℕ) (n : ℕ)
      → length text + 16 ≡ n
      → length (seal_field c a dh text).1 ≡ n
  unfolding seal_field
  length-seal_field a dh text n e = laws.length_encrypt (kdf c a.ck dh).t2 0 a.h text ∙ e

  pub length-sealed_stamp :
      (a : Handshake) (out : List ℕ) (now : ℕ) (e : Entropy) (k : List ℕ)
      → length (sealed_stamp c a out now e k) ≡ 28
  unfolding tai64n
  length-sealed_stamp a out now e k = length-seal_field a k (tai64n now e).0 28 refl

  -- The encrypted time stamp, opened.
  pub open_stamp-eq :
      (a b : Handshake) (out : List ℕ) (now : ℕ) (e : Entropy) (k msg : List ℕ)
      → c.x25519 b.s_priv b.peer_pub ≡ some k
      → Paired c a b
      → slice 88 28 msg ≡ sealed_stamp c a out now e k
      → open_stamp c b msg ≡ (
          let a' = after_stamp c a out now e k in
          record { state = record b { ck = a'.ck; h = a'.h }; accepted = true })
  unfolding open_stamp
  open_stamp-eq a b out now e k msg dh p s =
      ground (arith, dh, s, open-seal_field a b k (tai64n now e).0 p)

  -- The encrypted static key, opened: the responder learns who is calling.
  pub open_static-eq :
      (a b : Handshake) (msg k : List ℕ)
      → c.x25519 b.s_priv b.peer_eph ≡ some k
      → Paired c a b
      → slice 40 48 msg ≡ (seal_field c a k a.s_pub).1
      → open_static c b msg ≡ (
          let a' = (seal_field c a k a.s_pub).0 in
          open_stamp c (record b { ck = a'.ck; h = a'.h; peer_pub = a.s_pub }) msg)
  unfolding open_static
  open_static-eq a b msg k dh p s = ground (arith, dh, s, open-seal_field a b k a.s_pub p)
