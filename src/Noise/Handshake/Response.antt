-- ===== src/Noise/Handshake/Response.antt =====
-- The response, from the responder's state back to the initiator's.
use sys_amneziawg.Common.{
  ℕ, ◌^◌, ◌<◌, ◌≡◌, refl, true, some, List, [], ◌++◌, take, drop, replicate, arith, Entropy,
}
use sys_amneziawg.Noise.Crypto.{Crypto, CryptoLaws}
use sys_amneziawg.Noise.Compare.{crypto_equal_self}
use sys_amneziawg.Noise.Primitives.{
  get_u32_le, mix_hash, kdf, mac1, public_from_private, generate_private,
}
use sys_amneziawg.Noise.Handshake.{
  Handshake, slice, absorb_ephemeral, mix_key, mix_psk, response_head, finish_response,
  create_response, open_empty, open_response, consume_response,
}
use sys_amneziawg.Noise.Handshake.Stages.{Paired, ephemeral}

-- The two ends of a finished handshake.
pub record KeysAgreed (a b : Handshake) : Type 0 where
  pub a_established : a.established ≡ true
  pub b_established : b.established ≡ true
  pub a_to_b : a.send_key ≡ b.recv_key
  pub b_to_a : b.send_key ≡ a.recv_key
  pub index_a : b.remote_index ≡ a.local_index
  pub index_b : a.remote_index ≡ b.local_index

module _ (c : Crypto) where
  -- The ends after an accepted initiation: `a` the initiator, `b` the responder.
  pub record IsMet (a b : Handshake) : Type 0 where
    pub paired : Paired c a b
    pub eph_a : b.peer_eph ≡ c.x25519_base a.e_priv
    pub peer_a : b.peer_pub ≡ a.s_pub
    pub own_a : a.s_pub ≡ c.x25519_base a.s_priv
    pub psk : b.psk ≡ a.psk
    pub index : b.remote_index ≡ a.local_index
    pub a_fits : a.local_index < 2 ^ 32
    pub b_fits : b.local_index < 2 ^ 32

  module _ (b : Handshake) (e : Entropy) where
    abbrev pub eph : List ℕ
    eph = public_from_private c (ephemeral c b 0 e)

    abbrev pub b1 : Handshake
    b1 = absorb_ephemeral c (record b { e_priv = ephemeral c b 0 e; e_pub = eph }) eph

  module _ (b : Handshake) (e : Entropy) (k1 k2 : List ℕ) where
    -- Both shared secrets and the preshared key mixed in, and the key for the empty text.
    abbrev pub b2 : Handshake × List ℕ
    b2 = mix_psk c (mix_key c (mix_key c (b1 b e) k1) k2)

    abbrev pub sealed : List ℕ
    sealed = c.aead_encrypt b2.1 0 b2.0.h []

    abbrev pub body : List ℕ
    body = response_head c b2.0 ++ sealed

    abbrev pub message : List ℕ
    message = body ++ (mac1 c b2.0.peer_pub body ++ replicate 16 0)

    -- The responder's run.
    pub created :
        c.x25519 (ephemeral c b 0 e) b.peer_eph ≡ some k1
        → c.x25519 (ephemeral c b 0 e) b.peer_pub ≡ some k2
        → create_response c b e ≡ record {
          state = record b2.0 {
            h = mix_hash c b2.0.h sealed;
            recv_key = (kdf c b2.0.ck []).t1;
            send_key = (kdf c b2.0.ck []).t2;
            established = true;
          };
          msg = some message;
          entropy = (generate_private e).1;
        }
    unfolding create_response finish_response
    created dh1 dh2 = rw (dh1, dh2, create_response)

    pub kept :
        (b2.0.local_index ≡ b.local_index)
        × (b2.0.remote_index ≡ b.remote_index)
        × (b2.0.e_pub ≡ eph b e)
        × (b2.0.peer_pub ≡ b.peer_pub)
    unfolding mix_psk absorb_ephemeral
    kept = (refl, refl, refl, refl)

  -- The initiator's state once it has the index and the ephemeral key of the responder.
  abbrev pub answered : Handshake → ℕ → List ℕ → Handshake
  answered a idx peer_eph =
      absorb_ephemeral c (record a { remote_index = idx; peer_eph = peer_eph }) peer_eph

  -- With type, index and mac1 in order, the rest is opened.
  pub consume_response-eq :
      (a : Handshake) (msg : List ℕ)
      → get_u32_le msg ≡ 2
      → get_u32_le (drop 8 msg) ≡ a.local_index
      → mac1 c a.s_pub (take 60 msg) ≡ slice 60 16 msg
      → consume_response c a msg
        ≡ open_response c (answered a (get_u32_le (drop 4 msg)) (slice 12 32 msg)) msg
  unfolding consume_response
  consume_response-eq a msg is_resp index mac =
      ground (arith, is_resp, index, mac, crypto_equal_self (slice 60 16 msg))

  pub open_response-eq :
      (a : Handshake) (msg k1 k2 : List ℕ)
      → c.x25519 a.e_priv a.peer_eph ≡ some k1
      → c.x25519 a.s_priv a.peer_eph ≡ some k2
      → open_response c a msg ≡ open_empty c (mix_key c (mix_key c a k1) k2) msg
  unfolding open_response
  open_response-eq a msg k1 k2 dh1 dh2 = rw (dh1, dh2, open_response)

  -- Paired ends with one preshared key stay paired, and have one key.
  pub mix_psk-Paired :
      (b a : Handshake)
      → Paired c b a
      → a.psk ≡ b.psk
      → Paired c (mix_psk c b).0 (mix_psk c a).0 × ((mix_psk c a).1 ≡ (mix_psk c b).1)
  unfolding mix_psk
  mix_psk-Paired b a p e = (
    record { same_ck = ground (arith, p.same_ck); same_h = ground (arith, p.same_ck, p.same_h) },
    ground (arith, p.same_ck),
  )

  pub open_empty-eq :
      (laws : CryptoLaws c) (b a : Handshake) (msg : List ℕ)
      → Paired c b a
      → a.psk ≡ b.psk
      → slice 44 16 msg ≡ c.aead_encrypt (mix_psk c b).1 0 (mix_psk c b).0.h []
      → open_empty c a msg ≡ (
          let keys = kdf c (mix_psk c b).0.ck [] in
          record {
            state = record (mix_psk c a).0 {
              h = mix_hash c (mix_psk c b).0.h (slice 44 16 msg);
              send_key = keys.t1;
              recv_key = keys.t2;
              established = true;
            };
            accepted = true;
          })
  unfolding open_empty
  open_empty-eq laws b a msg p e s =
      let (q, k) = mix_psk-Paired b a p e in
      ground (
        arith,
        k,
        q.same_ck,
        q.same_h,
        s,
        laws.decrypt_encrypt (mix_psk c b).1 0 (mix_psk c b).0.h [],
      )
