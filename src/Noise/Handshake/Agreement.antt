-- ===== src/Noise/Handshake/Agreement.antt =====
-- Both roles, run against each other, end with the same keys.
use sys_amneziawg.Common.{
  ℕ, ◌^◌, ◌<◌, ◌≡◌, refl, sym, ap, ap₂, ◌∙◌, true, Option, some, none, List, ◌++◌, length, take,
  drop, [], replicate, Entropy,
}
use sys_amneziawg.Noise.Crypto.{Crypto, CryptoLaws}
use sys_amneziawg.Noise.Primitives.{get_u32_le, mix_hash, kdf, mac1, public_from_private}
use sys_amneziawg.Noise.Handshake.{
  Handshake, Built, Consumed, slice, absorb_ephemeral, mix_key, mix_psk, create_initiation,
  consume_initiation, create_response, open_response, consume_response, handshake_begin,
  response_head,
}
use sys_amneziawg.Noise.Handshake.Messages.{
  response_signed, response-mac, response_type, response_index, response_peer, response-eph,
  response_empty, response-length,
}
use sys_amneziawg.Noise.Handshake.Stages.{Paired, ephemeral}
use sys_amneziawg.Noise.Handshake.Initiation.{initiation_accepted}
use sys_amneziawg.Noise.Handshake.Response.{
  KeysAgreed, IsMet, eph, b1, b2, sealed, message, created, kept, answered, consume_response-eq,
  open_response-eq, open_empty-eq,
}

module _ (c : Crypto) (laws : CryptoLaws c) where
  -- A built response, and what the initiator makes of it.
  pub record ResponseAgreed (a b : Handshake) (e : Entropy) : Type 0 where
    pub msg : List ℕ
    pub built : (create_response c b e).msg ≡ some msg
    pub size : length msg ≡ 92
    pub accepted : (consume_response c a msg).accepted ≡ true
    pub agreed : KeysAgreed (consume_response c a msg).state (create_response c b e).state

  module _ (a b : Handshake) (e : Entropy) (met : IsMet c a b) (k1 k2 : List ℕ)
      (dh1 : c.x25519 (ephemeral c b 0 e) b.peer_eph ≡ some k1)
      (dh2 : c.x25519 (ephemeral c b 0 e) b.peer_pub ≡ some k2)
      (rdh1 : c.x25519 a.e_priv (eph c b e) ≡ some k1)
      (rdh2 : c.x25519 a.s_priv (eph c b e) ≡ some k2) where
    abbrev r2 : Handshake
    r2 = (b2 c b e k1 k2).0

    abbrev msg : List ℕ
    msg = message c b e k1 k2

    abbrev text : List ℕ
    text = sealed c b e k1 k2

    abbrev mac : List ℕ
    mac = mac1 c r2.peer_pub (response_head c r2 ++ text)

    abbrev a1 : Handshake
    a1 = answered c a b.local_index (eph c b e)

    length-eph : length r2.e_pub ≡ 32
    unfolding public_from_private
    length-eph = ap length (kept c b e k1 k2).2 ∙ laws.length_base (ephemeral c b 0 e)

    length-text : length text ≡ 16
    length-text = laws.length_encrypt _ _ _ _

    length-mac : length mac ≡ 16
    unfolding mac1
    length-mac = laws.length_blake2s 16 _ _

    fits : r2.local_index < 2 ^ 32
    fits = rw (kept c b e k1 k2).0 met.b_fits

    peer_fits : r2.remote_index < 2 ^ 32
    peer_fits = rw ((kept c b e k1 k2).1, met.index) met.a_fits

    checks : mac1 c a.s_pub (take 60 msg) ≡ slice 60 16 msg
    checks =
        ap (mac1 c a.s_pub) (
          response_signed r2.local_index r2.remote_index r2.e_pub text mac (replicate 16 0) fits
            peer_fits length-eph length-text length-mac)
        ∙ ap (λ (k : List ℕ). mac1 c k (response_head c r2 ++ text))
            (sym met.peer_a ∙ sym (kept c b e k1 k2).3)
        ∙ sym (
            response-mac r2.local_index r2.remote_index r2.e_pub text mac (replicate 16 0) fits
              peer_fits length-eph length-text length-mac)

    answers : answered c a (get_u32_le (drop 4 msg)) (slice 12 32 msg) ≡ a1
    answers =
        ap₂ (answered c a)
          (response_index r2.local_index r2.remote_index r2.e_pub text mac (replicate 16 0) fits
              peer_fits length-eph length-text length-mac
            ∙ (kept c b e k1 k2).0)
          (response-eph r2.local_index r2.remote_index r2.e_pub text mac (replicate 16 0) fits
              peer_fits length-eph length-text length-mac
            ∙ (kept c b e k1 k2).2)

    mixed-Paired :
        Paired c (mix_key c (mix_key c (b1 c b e) k1) k2) (mix_key c (mix_key c a1 k1) k2)
    unfolding absorb_ephemeral
    mixed-Paired = record {
      same_ck = rw met.paired.same_ck refl;
      same_h = rw met.paired.same_h refl;
    }

    same_psk : (mix_key c (mix_key c a1 k1) k2).psk ≡ (mix_key c (mix_key c (b1 c b e) k1) k2).psk
    unfolding absorb_ephemeral
    same_psk = sym met.psk

    -- The initiator's run.
    consumed : consume_response c a msg ≡ (
        let keys = kdf c r2.ck [] in
        record {
          state = record (mix_psk c (mix_key c (mix_key c a1 k1) k2)).0 {
            h = mix_hash c r2.h (slice 44 16 msg);
            send_key = keys.t1;
            recv_key = keys.t2;
            established = true;
          };
          accepted = true;
        })
    unfolding absorb_ephemeral
    consumed =
        consume_response-eq c a msg
          (response_type r2.local_index r2.remote_index r2.e_pub text mac (replicate 16 0) fits
            peer_fits length-eph length-text length-mac)
          (response_peer r2.local_index r2.remote_index r2.e_pub text mac (replicate 16 0) fits
              peer_fits length-eph length-text length-mac
            ∙ (kept c b e k1 k2).1
            ∙ met.index)
          checks
        ∙ ap (λ (hs : Handshake). open_response c hs msg) answers
        ∙ open_response-eq c a1 msg k1 k2 rdh1 rdh2
        ∙ open_empty-eq c laws (mix_key c (mix_key c (b1 c b e) k1) k2)
            (mix_key c (mix_key c a1 k1) k2) msg mixed-Paired same_psk
            (response_empty r2.local_index r2.remote_index r2.e_pub text mac (replicate 16 0) fits
              peer_fits length-eph length-text length-mac)

    response_agrees : ResponseAgreed a b e
    unfolding mix_psk absorb_ephemeral
    response_agrees =
        let made = created c b e k1 k2 dh1 dh2 in
        record {
          msg = msg;
          built = ap (λ (r : Built). r.msg) made;
          size =
              response-length r2.local_index r2.remote_index r2.e_pub text mac (replicate 16 0) fits
                peer_fits length-eph length-text length-mac refl;
          accepted = ap (λ (r : Consumed). r.accepted) consumed;
          agreed =
              rw (consumed, made)
                (record {
                  a_established = refl;
                  b_established = refl;
                  a_to_b = refl;
                  b_to_a = refl;
                  index_a = met.index;
                  index_b = refl;
                });
        }

  -- Between two ends that an accepted initiation has brought together, the response is built, is
  -- 92 bytes, is accepted, and leaves both with the same pair of keys, crossed.
  pub response_accepted : (a b : Handshake) (e : Entropy) → IsMet c a b → ResponseAgreed a b e
  response_accepted a b e met =
      let (k1, f1) = laws.dh_total (ephemeral c b 0 e) a.e_priv in
      let (k2, f2) = laws.dh_total (ephemeral c b 0 e) a.s_priv in
      response_agrees a b e met k1 k2 (ap (c.x25519 (ephemeral c b 0 e)) met.eph_a ∙ f1)
        (ap (c.x25519 (ephemeral c b 0 e)) (met.peer_a ∙ met.own_a) ∙ f2)
        (unfold public_from_private in sym (laws.dh_comm _ _) ∙ f1)
        (unfold public_from_private in sym (laws.dh_comm _ _) ∙ f2)

  -- Both ends as they begin: the initiator knows the responder's public key, the responder nobody.
  abbrev pub initiator : List ℕ → List ℕ → Option (List ℕ) → ℕ → Handshake
  initiator priv_a priv_b psk idx =
      handshake_begin c priv_a (some (public_from_private c priv_b)) psk idx

  abbrev pub responder : List ℕ → Option (List ℕ) → ℕ → Handshake
  responder priv_b psk idx = handshake_begin c priv_b none psk idx

  -- A whole handshake between `a` and `b`.
  pub record HandshakeAgreed (a b : Handshake) (now : ℕ) (e1 e2 : Entropy) : Type 0 where
    pub msg1 : List ℕ
    pub sent : (create_initiation c a now e1).msg ≡ some msg1
    pub heard : (consume_initiation c b msg1).accepted ≡ true
    pub caller : (consume_initiation c b msg1).state.peer_pub ≡ a.s_pub
    pub reply :
        ResponseAgreed (create_initiation c a now e1).state (consume_initiation c b msg1).state e2

  -- Run against each other from fresh keys, with one preshared key or none on both sides, the two
  -- roles accept each other's messages, the responder learns the initiator's static key, and they
  -- end with the same pair of keys, crossed.
  pub handshake_agreement :
      (priv_a priv_b : List ℕ) (psk : Option (List ℕ)) (idx_a idx_b now : ℕ) (e1 e2 : Entropy)
      → idx_a < 2 ^ 32
      → idx_b < 2 ^ 32
      → HandshakeAgreed (initiator priv_a priv_b psk idx_a) (responder priv_b psk idx_b) now e1 e2
  unfolding handshake_begin public_from_private
  handshake_agreement priv_a priv_b psk idx_a idx_b now e1 e2 fits_a fits_b =
      let a = initiator priv_a priv_b psk idx_a in
      let b = responder priv_b psk idx_b in
      let first =
        initiation_accepted c laws a b now e1
          (record { own_a = refl; own_b = refl; known = refl; index_fits = fits_a }) in
      let state = ap (λ (r : Consumed). r.state) first.consumed in
      record {
        msg1 = first.msg;
        sent = first.built;
        heard = ap (λ (r : Consumed). r.accepted) first.consumed;
        caller = ap (λ (h : Handshake). h.peer_pub) state;
        reply = rw state (
            response_accepted (create_initiation c a now e1).state _ e2 (record {
              paired = record { same_ck = refl; same_h = refl };
              eph_a = first.own_eph;
              peer_a = sym first.kept_pub;
              own_a = first.kept_pub ∙ ap c.x25519_base (sym first.kept_priv);
              psk = sym first.kept_psk;
              index = sym first.kept_index;
              a_fits = rw first.kept_index fits_a;
              b_fits = fits_b;
            }));
      }
