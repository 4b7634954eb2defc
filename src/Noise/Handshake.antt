-- ===== src/Noise/Handshake.antt =====
-- The Noise_IKpsk2 handshake of source/awg_noise.c: both roles, as functions of the handshake
-- state that return the state as the C function leaves it, also where it fails.
pub mod Messages
pub mod Stages
pub mod Response
pub mod Agreement
pub mod Initiation
use sys_amneziawg.Common.{
  ℕ, ◌+◌, Bool, true, false, Option, none, some, List, [], ◌∷◌, ◌++◌, replicate, take, drop, ◌==◌,
  if◌then◌else◌, Entropy, ◌&&◌,
}
use sys_amneziawg.Noise.Crypto.{Crypto}
use sys_amneziawg.Noise.Compare.{crypto_equal}
use sys_amneziawg.Noise.Primitives.{
  Derived, put_u32_le, get_u32_le, tai64n, hash2, mix_hash, kdf, mac1, public_from_private,
  generate_private, construction, identifier,
}

abbrev pub msg_init_size : ℕ
msg_init_size = 148

abbrev pub msg_resp_size : ℕ
msg_resp_size = 92

-- awg_handshake.
pub record Handshake : Type 0 where
  pub ck : List ℕ
  pub h : List ℕ
  pub s_priv : List ℕ
  pub s_pub : List ℕ
  pub e_priv : List ℕ
  pub e_pub : List ℕ
  pub peer_pub : List ℕ
  pub peer_eph : List ℕ
  pub psk : List ℕ
  pub local_index : ℕ
  pub remote_index : ℕ
  pub send_key : List ℕ
  pub recv_key : List ℕ
  pub established : Bool

abbrev pub zero_key : List ℕ
zero_key = replicate 32 0

-- memset(hs, 0, sizeof(*hs)).
abbrev pub zero_handshake : Handshake
zero_handshake = record {
  ck = zero_key;
  h = zero_key;
  s_priv = zero_key;
  s_pub = zero_key;
  e_priv = zero_key;
  e_pub = zero_key;
  peer_pub = zero_key;
  peer_eph = zero_key;
  psk = zero_key;
  local_index = 0;
  remote_index = 0;
  send_key = zero_key;
  recv_key = zero_key;
  established = false;
}

abbrev pub or_zero_key : Option (List ℕ) → List ℕ
or_zero_key none = zero_key
or_zero_key (some k) = k

-- A message that was built, or the failure -1; the state and the entropy go on in both cases.
pub record Built : Type 0 where
  pub state : Handshake
  pub msg : Option (List ℕ)
  pub entropy : Entropy

-- A message that was consumed: `accepted` is the return value 0.
pub record Consumed : Type 0 where
  pub state : Handshake
  pub accepted : Bool

-- `out[from..to)` of a buffer.
abbrev pub slice : ℕ → ℕ → List ℕ → List ℕ
slice from n p = take n (drop from p)

module _ (c : Crypto) where
  unfoldable pub handshake_begin : List ℕ → Option (List ℕ) → Option (List ℕ) → ℕ → Handshake
  handshake_begin s_priv peer_pub psk local_index = record zero_handshake {
    s_priv = s_priv;
    s_pub = public_from_private c s_priv;
    peer_pub = or_zero_key peer_pub;
    psk = or_zero_key psk;
    local_index = local_index;
  }

  -- Both roles start from the same two constants.
  unfoldable pub chain_start : Handshake → List ℕ → Handshake
  chain_start hs responder_pub =
      let ck = hash2 c construction [] in
      record hs { ck = ck; h = mix_hash c (hash2 c ck identifier) responder_pub }

  -- kdf(ck, NULL, NULL, ck, data) and mix_hash(h, data) on a public ephemeral.
  unfoldable pub absorb_ephemeral : Handshake → List ℕ → Handshake
  absorb_ephemeral hs eph = record hs { ck = (kdf c hs.ck eph).t1; h = mix_hash c hs.h eph }

  -- kdf(ck, NULL, NULL, ck, dh).
  abbrev pub mix_key : Handshake → List ℕ → Handshake
  mix_key hs dh = record hs { ck = (kdf c hs.ck dh).t1 }

  -- kdf(ck, k, NULL, ck, dh), then an encryption under k that is mixed into the hash.
  unfoldable pub seal_field : Handshake → List ℕ → List ℕ → Handshake × List ℕ
  seal_field hs dh text =
      let d = kdf c hs.ck dh in
      let sealed = c.aead_encrypt d.t2 0 hs.h text in
      (record hs { ck = d.t1; h = mix_hash c hs.h sealed }, sealed)

  -- The same on the other side; the chaining key has moved on even if the tag is wrong.
  unfoldable pub open_field : Handshake → List ℕ → List ℕ → Handshake × Option (List ℕ)
  open_field hs dh sealed =
      let d = kdf c hs.ck dh in
      elim (c.aead_decrypt d.t2 0 hs.h sealed) [
        | none ↦ (record hs { ck = d.t1 }, none)
        | some text ↦ (record hs { ck = d.t1; h = mix_hash c hs.h sealed }, some text)
      ]

  -- awg_create_initiation from the second Diffie-Hellman on; `out` is what stands before it.
  unfoldable pub finish_initiation : Handshake → List ℕ → ℕ → Entropy → Built
  finish_initiation hs out now e = elim (c.x25519 hs.s_priv hs.peer_pub) [
    | none ↦ record { state = hs; msg = none; entropy = e }
    | some dh ↦
        let (stamp, e') = tai64n now e in
        let (hs', sealed) = seal_field hs dh stamp in
        let body = out ++ sealed in
        record {
          state = hs';
          msg = some (body ++ (mac1 c hs'.peer_pub body ++ replicate 16 0));
          entropy = e';
        }
  ]

  -- The head of an initiation: type, index and ephemeral.
  abbrev pub initiation_head : Handshake → List ℕ
  initiation_head hs = put_u32_le 1 ++ (put_u32_le hs.local_index ++ hs.e_pub)

  unfoldable pub create_initiation : Handshake → ℕ → Entropy → Built
  create_initiation hs now e =
      let started = chain_start hs hs.peer_pub in
      let (priv, e') = generate_private e in
      let fresh : Handshake = record started {
        e_priv = priv;
        e_pub = public_from_private c priv;
      } in
      let mixed = absorb_ephemeral fresh fresh.e_pub in
      elim (c.x25519 priv hs.peer_pub) [
        | none ↦ record { state = mixed; msg = none; entropy = e' }
        | some dh ↦
            let (hs', sealed) = seal_field mixed dh mixed.s_pub in
            finish_initiation hs' (initiation_head hs' ++ sealed) now e'
      ]

  -- awg_consume_initiation from the encrypted time stamp on.
  unfoldable pub open_stamp : Handshake → List ℕ → Consumed
  open_stamp hs msg = elim (c.x25519 hs.s_priv hs.peer_pub) [
    | none ↦ record { state = hs; accepted = false }
    | some dh ↦
        let (hs', stamp) = open_field hs dh (slice 88 28 msg) in
        elim stamp [
          | none ↦ record { state = hs'; accepted = false }
          | some _ ↦ record { state = hs'; accepted = true }
        ]
  ]

  -- awg_consume_initiation from the encrypted static key on.
  unfoldable pub open_static : Handshake → List ℕ → Consumed
  open_static hs msg = elim (c.x25519 hs.s_priv hs.peer_eph) [
    | none ↦ record { state = hs; accepted = false }
    | some dh ↦
        let (hs', static) = open_field hs dh (slice 40 48 msg) in
        elim static [
          | none ↦ record { state = hs'; accepted = false }
          | some peer ↦ open_stamp (record hs' { peer_pub = peer }) msg
        ]
  ]

  unfoldable pub consume_initiation : Handshake → List ℕ → Consumed
  consume_initiation hs msg =
      let started = chain_start hs hs.s_pub in
      let known : Handshake = record started {
        remote_index = get_u32_le (drop 4 msg);
        peer_eph = slice 8 32 msg;
      } in
      if get_u32_le msg == 1
      then (if crypto_equal (mac1 c hs.s_pub (take 116 msg)) (slice 116 16 msg)
          then open_static (absorb_ephemeral known known.peer_eph) msg
          else record { state = started; accepted = false })
      else record { state = hs; accepted = false }

  -- kdf(ck, t, k, ck, psk), mix_hash(h, t): the state and the key k.
  unfoldable pub mix_psk : Handshake → Handshake × List ℕ
  mix_psk hs =
      let d = kdf c hs.ck hs.psk in (record hs { ck = d.t1; h = mix_hash c hs.h d.t2 }, d.t3)

  -- The head of a response: type, both indices and ephemeral.
  abbrev pub response_head : Handshake → List ℕ
  response_head hs =
      put_u32_le 2 ++ (put_u32_le hs.local_index ++ (put_u32_le hs.remote_index ++ hs.e_pub))

  -- awg_create_response from the preshared key on.
  unfoldable pub finish_response : Handshake → Entropy → Built
  finish_response hs e =
      let (hs', k) = mix_psk hs in
      let sealed = c.aead_encrypt k 0 hs'.h [] in
      let body = response_head hs' ++ sealed in
      let keys = kdf c hs'.ck [] in
      record {
        state = record hs' {
          h = mix_hash c hs'.h sealed;
          recv_key = keys.t1;
          send_key = keys.t2;
          established = true;
        };
        msg = some (body ++ (mac1 c hs'.peer_pub body ++ replicate 16 0));
        entropy = e;
      }

  unfoldable pub create_response : Handshake → Entropy → Built
  create_response hs e =
      let (priv, e') = generate_private e in
      let fresh : Handshake = record hs { e_priv = priv; e_pub = public_from_private c priv } in
      let mixed = absorb_ephemeral fresh fresh.e_pub in
      elim (c.x25519 priv hs.peer_eph) [
        | none ↦ record { state = mixed; msg = none; entropy = e' }
        | some dh ↦ elim (c.x25519 priv hs.peer_pub) [
          | none ↦ record { state = mix_key mixed dh; msg = none; entropy = e' }
          | some dh' ↦ finish_response (mix_key (mix_key mixed dh) dh') e'
        ]
      ]

  -- awg_consume_response from the preshared key on.
  unfoldable pub open_empty : Handshake → List ℕ → Consumed
  open_empty hs msg =
      let (hs', k) = mix_psk hs in
      let sealed = slice 44 16 msg in
      elim (c.aead_decrypt k 0 hs'.h sealed) [
        | none ↦ record { state = hs'; accepted = false }
        | some _ ↦
            let keys = kdf c hs'.ck [] in
            record {
              state = record hs' {
                h = mix_hash c hs'.h sealed;
                send_key = keys.t1;
                recv_key = keys.t2;
                established = true;
              };
              accepted = true;
            }
      ]

  -- awg_consume_response from the two Diffie-Hellman results on.
  unfoldable pub open_response : Handshake → List ℕ → Consumed
  open_response hs msg = elim (c.x25519 hs.e_priv hs.peer_eph) [
    | none ↦ record { state = hs; accepted = false }
    | some dh ↦ elim (c.x25519 hs.s_priv hs.peer_eph) [
      | none ↦ record { state = mix_key hs dh; accepted = false }
      | some dh' ↦ open_empty (mix_key (mix_key hs dh) dh') msg
    ]
  ]

  unfoldable pub consume_response : Handshake → List ℕ → Consumed
  consume_response hs msg =
      let known : Handshake = record hs {
        remote_index = get_u32_le (drop 4 msg);
        peer_eph = slice 12 32 msg;
      } in
      if (get_u32_le msg == 2)
        && ((get_u32_le (drop 8 msg) == hs.local_index)
            && crypto_equal (mac1 c hs.s_pub (take 60 msg)) (slice 60 16 msg))
      then open_response (absorb_ephemeral known known.peer_eph) msg
      else record { state = hs; accepted = false }
