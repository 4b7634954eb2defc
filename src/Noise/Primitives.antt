-- ===== src/Noise/Primitives.antt =====
-- The helpers at the top of source/awg_noise.c: hashes, key derivation, byte order, time stamps.
use sys_amneziawg.Common.{
  ℕ, zero, suc, ◌+◌, ◌-◌, ◌*◌, ◌/◌, ◌%◌, ◌^◌, bit_and, bit_or, bit_xor, List, [], ◌∷◌, ◌++◌, map,
  length, replicate, get_or, set, u8, u64, ltb, if◌then◌else◌, Entropy, random_bytes,
}
use sys_amneziawg.Noise.Crypto.{Crypto}

-- The bytes of a string literal.
abbrev pub construction : List ℕ
construction =
    b'N' ∷ b'o' ∷ b'i' ∷ b's' ∷ b'e' ∷ b'_' ∷ b'I' ∷ b'K' ∷ b'p' ∷ b's' ∷ b'k' ∷ b'2' ∷ b'_' ∷ b'2'
    ∷ b'5' ∷ b'5' ∷ b'1' ∷ b'9' ∷ b'_' ∷ b'C' ∷ b'h' ∷ b'a' ∷ b'C' ∷ b'h' ∷ b'a' ∷ b'P' ∷ b'o'
    ∷ b'l' ∷ b'y' ∷ b'_' ∷ b'B' ∷ b'L' ∷ b'A' ∷ b'K' ∷ b'E' ∷ b'2' ∷ b's' ∷ []

abbrev pub identifier : List ℕ
identifier =
    b'W' ∷ b'i' ∷ b'r' ∷ b'e' ∷ b'G' ∷ b'u' ∷ b'a' ∷ b'r' ∷ b'd' ∷ 32 ∷ b'v' ∷ b'1' ∷ 32 ∷ b'z'
    ∷ b'x' ∷ b'2' ∷ b'c' ∷ b'4' ∷ 32 ∷ b'J' ∷ b'a' ∷ b's' ∷ b'o' ∷ b'n' ∷ b'@' ∷ b'z' ∷ b'x' ∷ b'2'
    ∷ b'c' ∷ b'4' ∷ b'.' ∷ b'c' ∷ b'o' ∷ b'm' ∷ []

abbrev pub label_mac1 : List ℕ
label_mac1 = b'm' ∷ b'a' ∷ b'c' ∷ b'1' ∷ b'-' ∷ b'-' ∷ b'-' ∷ b'-' ∷ []

abbrev pub blake2s_block_size : ℕ
blake2s_block_size = 64

-- memset to 0, then memcpy of a prefix.
abbrev pub zero_padded : ℕ → List ℕ → List ℕ
zero_padded n xs = xs ++ replicate (n - length xs) 0

-- A byte stored from `v`, its k-th from the low end.
abbrev pub byte_of : ℕ → ℕ → ℕ
byte_of v k = v / 2 ^ (8 * k) % 256

unfoldable pub put_u32_le : ℕ → List ℕ
put_u32_le v = byte_of v 0 ∷ byte_of v 1 ∷ byte_of v 2 ∷ byte_of v 3 ∷ []

-- The shifted bytes share no bit, so `|` adds them.
unfoldable pub get_u32_le : List ℕ → ℕ
get_u32_le p = get_or p 0 0 + get_or p 1 0 * 2 ^ 8 + get_or p 2 0 * 2 ^ 16 + get_or p 3 0 * 2 ^ 24

-- for (i = 0; i < n; i++) { p[i] = v; v >>= 8; }
abbrev pub put_le : ℕ → ℕ → List ℕ
put_le zero v = []
put_le (suc n) v = v % 256 ∷ put_le n (v / 2 ^ 8)

unfoldable pub put_u64_le : ℕ → List ℕ
put_u64_le v = put_le 8 v

-- for (i = n - 1; i >= 0; i--) v = (v << 8) | p[i];
abbrev pub get_le : ℕ → List ℕ → ℕ
get_le zero p = 0
get_le (suc n) [] = 0
get_le (suc n) (b ∷ p) = get_le n p * 2 ^ 8 + b

unfoldable pub get_u64_le : List ℕ → ℕ
get_u64_le p = get_le 8 p

-- TAI64N, from the wall clock in seconds.
unfoldable pub tai64n : ℕ → Entropy → List ℕ × Entropy
tai64n now e =
    let secs = u64 (now + 0x400000000000000a) in
    let (raw, e') = random_bytes 4 e in
    let nanos = get_le 4 raw % 1000000000 in
    (
      byte_of secs 7
          ∷ byte_of secs 6
          ∷ byte_of secs 5
          ∷ byte_of secs 4
          ∷ byte_of secs 3
          ∷ byte_of secs 2
          ∷ byte_of secs 1
          ∷ byte_of secs 0
          ∷ byte_of nanos 3
          ∷ byte_of nanos 2
          ∷ byte_of nanos 1
          ∷ byte_of nanos 0
          ∷ [],
      e',
    )

-- What `kdf` writes to its three outputs; a caller that passes NULL ignores the later ones.
pub record Derived : Type 0 where
  pub t1 : List ℕ
  pub t2 : List ℕ
  pub t3 : List ℕ

module _ (c : Crypto) where
  unfoldable pub hash2 : List ℕ → List ℕ → List ℕ
  hash2 a b = c.blake2s 32 [] (a ++ b)

  unfoldable pub mix_hash : List ℕ → List ℕ → List ℕ
  mix_hash h block = hash2 h block

  unfoldable pub hmac_blake2s : List ℕ → List ℕ → List ℕ
  hmac_blake2s key input =
      let k =
        zero_padded blake2s_block_size
          (if ltb blake2s_block_size (length key) then c.blake2s 32 [] key else key) in
      let ipad = map (λ b. u8 (bit_xor b 0x36)) k in
      let opad = map (λ b. u8 (bit_xor b 0x5c)) k in
      let inner = c.blake2s 32 [] (ipad ++ input) in c.blake2s 32 [] (opad ++ inner)

  unfoldable pub kdf : List ℕ → List ℕ → Derived
  kdf ck input =
      let t0 = hmac_blake2s ck input in
      let t1 = hmac_blake2s t0 (1 ∷ []) in
      let t2 = hmac_blake2s t0 (t1 ++ 2 ∷ []) in
      let t3 = hmac_blake2s t0 (t2 ++ 3 ∷ []) in record { t1 = t1; t2 = t2; t3 = t3 }

  -- Keyed on the receiver's static public key.
  unfoldable pub mac1 : List ℕ → List ℕ → List ℕ
  mac1 recv_pub msg = c.blake2s 16 (c.blake2s 32 [] (label_mac1 ++ recv_pub)) msg

  unfoldable pub public_from_private : List ℕ → List ℕ
  public_from_private priv = c.x25519_base priv

-- A fresh clamped private key.
unfoldable pub generate_private : Entropy → List ℕ × Entropy
generate_private e =
    let (raw, e') = random_bytes 32 e in
    let low = set raw 0 (bit_and (get_or raw 0 0) 248) in
    let high = bit_or (bit_and (get_or low 31 0) 127) 64 in (set low 31 high, e')
