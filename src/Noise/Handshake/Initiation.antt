-- ===== src/Noise/Handshake/Initiation.antt =====
-- The initiation, from the initiator's state to the responder's.
use sys_amneziawg.Common.{
  ℕ, ◌^◌, ◌<◌, ◌≡◌, refl, sym, ap, ap₂, ◌∙◌, true, some, List, ◌++◌, length, take, drop, replicate,
  arith, length-append, Entropy,
}
use sys_amneziawg.Noise.Crypto.{Crypto, CryptoLaws}
use sys_amneziawg.Noise.Compare.{crypto_equal_self}
use sys_amneziawg.Noise.Primitives.{get_u32_le, tai64n, mac1, public_from_private, generate_private}
use sys_amneziawg.Noise.Handshake.{
  Handshake, Built, slice, chain_start, absorb_ephemeral, seal_field, initiation_head,
  create_initiation, open_static, consume_initiation,
}
use sys_amneziawg.Noise.Handshake.Messages.{
  initiation_signed, initiation-mac, initiation_stamp, initiation_static, initiation_type,
  initiation_index, initiation_eph, initiation_head_length,
}
use sys_amneziawg.Noise.Handshake.Stages.{
  Paired, IsKeyed, length-seal_field, length-sealed_stamp, finish_initiation-eq, open_stamp-eq,
  create_initiation-eq, open_static-eq, ephemeral, mixed, sealed_stamp, after_stamp,
}

-- The responder's state once it has the index and the ephemeral key of the caller.
abbrev greeted : Crypto → Handshake → ℕ → List ℕ → Handshake
greeted c b idx eph =
    absorb_ephemeral c (record (chain_start c b b.s_pub) { remote_index = idx; peer_eph = eph }) eph

-- With the type and mac1 in order, the rest is opened.
consume_initiation-eq :
    (c : Crypto) (b : Handshake) (msg : List ℕ)
    → get_u32_le msg ≡ 1
    → mac1 c b.s_pub (take 116 msg) ≡ slice 116 16 msg
    → consume_initiation c b msg
      ≡ open_static c (greeted c b (get_u32_le (drop 4 msg)) (slice 8 32 msg)) msg
unfolding consume_initiation
consume_initiation-eq c b msg is_init mac =
    ground (arith, is_init, mac, crypto_equal_self (slice 116 16 msg))

module _ (c : Crypto) (laws : CryptoLaws c) where
  -- A built initiation, and what the responder makes of it.
  pub record InitiationAgreed (a b : Handshake) (now : ℕ) (e : Entropy) : Type 0 where
    pub msg : List ℕ
    pub built : (create_initiation c a now e).msg ≡ some msg
    pub size : length msg ≡ 148
    pub consumed : consume_initiation c b msg ≡ record {
      state = record b {
        ck = (create_initiation c a now e).state.ck;
        h = (create_initiation c a now e).state.h;
        remote_index = a.local_index;
        peer_eph = (create_initiation c a now e).state.e_pub;
        peer_pub = a.s_pub;
      };
      accepted = true;
    }
    pub own_eph :
        (create_initiation c a now e).state.e_pub
        ≡ c.x25519_base (create_initiation c a now e).state.e_priv
    pub kept_index : (create_initiation c a now e).state.local_index ≡ a.local_index
    pub kept_priv : (create_initiation c a now e).state.s_priv ≡ a.s_priv
    pub kept_pub : (create_initiation c a now e).state.s_pub ≡ a.s_pub
    pub kept_psk : (create_initiation c a now e).state.psk ≡ a.psk

  module _ (a b : Handshake) (now : ℕ) (e : Entropy) (k1 k2 : List ℕ) where
    abbrev a1 : Handshake
    a1 = mixed c a now e

    abbrev a2 : Handshake
    a2 = (seal_field c a1 k1 a1.s_pub).0

    abbrev s1 : List ℕ
    s1 = (seal_field c a1 k1 a1.s_pub).1

    abbrev out : List ℕ
    out = initiation_head c a2 ++ s1

    abbrev s2 : List ℕ
    s2 = sealed_stamp c a2 out now (generate_private e).1 k2

    abbrev a3 : Handshake
    a3 = after_stamp c a2 out now (generate_private e).1 k2

    abbrev message : List ℕ
    message = (out ++ s2) ++ (mac1 c a3.peer_pub (out ++ s2) ++ replicate 16 0)

    kept :
        (a2.s_priv ≡ a.s_priv)
        × (a2.peer_pub ≡ a.peer_pub)
        × (a3.local_index ≡ a.local_index)
        × (a3.e_pub ≡ c.x25519_base (ephemeral c a now e))
        × (a1.s_pub ≡ a.s_pub)
        × (a3.s_pub ≡ a.s_pub)
        × (a3.psk ≡ a.psk)
        × (a3.e_priv ≡ ephemeral c a now e)
        × (a3.peer_pub ≡ a.peer_pub)
        × (a3.s_priv ≡ a.s_priv)
        × (a2.local_index ≡ a.local_index)
        × (a2.e_pub ≡ a3.e_pub)
    unfolding seal_field absorb_ephemeral chain_start public_from_private
    kept = (refl, refl, refl, refl, refl, refl, refl, refl, refl, refl, refl, refl)

    -- The initiator's run.
    created :
        c.x25519 (ephemeral c a now e) a.peer_pub ≡ some k1
        → c.x25519 a.s_priv a.peer_pub ≡ some k2
        → create_initiation c a now e ≡ record {
          state = a3;
          msg = some message;
          entropy = (tai64n now (generate_private e).1).1;
        }
    created dh1 dh2 =
        create_initiation-eq c a now e k1 dh1
        ∙ finish_initiation-eq c a2 out now (generate_private e).1 k2 (rw (kept.0, kept.1) dh2)

    module _ (keyed : IsKeyed c a b)
        (rdh1 : c.x25519 b.s_priv (c.x25519_base (ephemeral c a now e)) ≡ some k1)
        (rdh2 : c.x25519 b.s_priv a.s_pub ≡ some k2) where
      fits : a2.local_index < 2 ^ 32
      fits = rw kept.10 keyed.index_fits

      length-eph : length a2.e_pub ≡ 32
      length-eph = ap length kept.11 ∙ ap length kept.3 ∙ laws.length_base (ephemeral c a now e)

      length-head : length (initiation_head c a2) ≡ 40
      length-head = initiation_head_length a2.local_index a2.e_pub length-eph

      abbrev mac : List ℕ
      mac = mac1 c a3.peer_pub (out ++ s2)

      length-mac : length mac ≡ 16
      unfolding mac1
      length-mac = laws.length_blake2s 16 _ _

      length-s1 : length s1 ≡ 48
      length-s1 =
          length-seal_field c laws a1 k1 a1.s_pub 48
            (omega (arith, ap length (kept.4 ∙ keyed.own_a), laws.length_base a.s_priv))

      abbrev b1 : Handshake
      b1 = greeted c b a.local_index (c.x25519_base (ephemeral c a now e))

      greeted-Paired : Paired c a1 b1
      unfolding absorb_ephemeral chain_start public_from_private
      greeted-Paired = record { same_ck = refl; same_h = rw keyed.known refl }

      length-s2 : length s2 ≡ 28
      length-s2 = length-sealed_stamp c laws a2 out now (generate_private e).1 k2

      signed : take 116 message ≡ out ++ s2
      signed =
          initiation_signed (initiation_head c a2) s1 s2 mac (replicate 16 0) length-head length-s1
            length-s2 length-mac

      checks : mac1 c b.s_pub (take 116 message) ≡ slice 116 16 message
      checks =
          ap (mac1 c b.s_pub) signed
          ∙ ap (λ (k : List ℕ). mac1 c k (out ++ s2)) (sym keyed.known ∙ sym kept.8)
          ∙ sym (
              initiation-mac (initiation_head c a2) s1 s2 mac (replicate 16 0) length-head length-s1
                length-s2 length-mac)

      greets : greeted c b (get_u32_le (drop 4 message)) (slice 8 32 message) ≡ b1
      greets =
          ap₂ (greeted c b)
            (initiation_index a2.local_index a2.e_pub s1 s2 (mac ++ replicate 16 0) fits length-eph
              ∙ kept.10)
            (initiation_eph a2.local_index a2.e_pub s1 s2 (mac ++ replicate 16 0) fits length-eph
              ∙ kept.11
              ∙ kept.3)

      -- The responder's run.
      consumed_message : consume_initiation c b message ≡ record {
        state = record b {
          ck = a3.ck;
          h = a3.h;
          remote_index = a.local_index;
          peer_eph = a3.e_pub;
          peer_pub = a.s_pub;
        };
        accepted = true;
      }
      unfolding absorb_ephemeral chain_start seal_field public_from_private
      consumed_message =
          consume_initiation-eq c b message
            (initiation_type a2.local_index a2.e_pub s1 s2 (mac ++ replicate 16 0) fits length-eph)
            checks
          ∙ ap (λ (hs : Handshake). open_static c hs message) greets
          ∙ open_static-eq c laws a1 b1 message k1 rdh1 greeted-Paired (
              initiation_static (initiation_head c a2) s1 s2 mac (replicate 16 0) length-head
                length-s1 length-s2 length-mac)
          ∙ open_stamp-eq c laws a2 (record b1 { ck = a2.ck; h = a2.h; peer_pub = a1.s_pub }) out
              now (generate_private e).1 k2 message rdh2 (record { same_ck = refl; same_h = refl })
              (initiation_stamp (initiation_head c a2) s1 s2 mac (replicate 16 0) length-head
                length-s1 length-s2 length-mac)

      size : length message ≡ 148
      size = omega (
        arith,
        length-head,
        length-s1,
        length-s2,
        length-mac,
        length-append (out ++ s2) (mac ++ replicate 16 0),
        length-append out s2,
        length-append (initiation_head c a2) s1,
        length-append mac (replicate 16 0),
      )

  -- An initiation is built, is 148 bytes, and is accepted by the responder that holds the key it
  -- was addressed to, which ends with the same chaining key and hash and knows the caller.
  pub initiation_accepted :
      (a b : Handshake) (now : ℕ) (e : Entropy) → IsKeyed c a b → InitiationAgreed a b now e
  initiation_accepted a b now e keyed =
      let (k1, f1) = laws.dh_total (ephemeral c a now e) b.s_priv in
      let (k2, f2) = laws.dh_total a.s_priv b.s_priv in
      let peer : a.peer_pub ≡ c.x25519_base b.s_priv = keyed.known ∙ keyed.own_b in
      let run =
        created a b now e k1 k2 (ap (c.x25519 (ephemeral c a now e)) peer ∙ f1)
          (ap (c.x25519 a.s_priv) peer ∙ f2) in
      record {
        msg = message a b now e k1 k2;
        built = ap (λ (r : Built). r.msg) run;
        size =
            size a b now e k1 k2 keyed (sym (laws.dh_comm _ _) ∙ f1)
              (ap (c.x25519 b.s_priv) keyed.own_a ∙ sym (laws.dh_comm _ _) ∙ f2);
        consumed = rw run (
            consumed_message a b now e k1 k2 keyed (sym (laws.dh_comm _ _) ∙ f1)
              (ap (c.x25519 b.s_priv) keyed.own_a ∙ sym (laws.dh_comm _ _) ∙ f2));
        own_eph =
            rw run ((kept a b now e k1 k2).3 ∙ ap c.x25519_base (sym (kept a b now e k1 k2).7));
        kept_index = rw run (kept a b now e k1 k2).2;
        kept_priv = rw run (kept a b now e k1 k2).9;
        kept_pub = rw run (kept a b now e k1 k2).5;
        kept_psk = rw run (kept a b now e k1 k2).6;
      }
