-- ===== src/Noise/Crypto.antt =====
-- The primitives of source/crypto, a copy of other projects' code: an interface with the
-- documented behaviour that the protocol code relies on.
use sys_amneziawg.Common.{ℕ, ◌+◌, ◌≡◌, Option, some, List, length}

pub record Crypto : Type 0 where
  -- blake2s outlen key input; init, update and final hash the concatenation of what they are fed.
  pub blake2s : ℕ → List ℕ → List ℕ → List ℕ
  -- x25519 with clamping; absent for the all-zero result that the code refuses.
  pub x25519 : List ℕ → List ℕ → Option (List ℕ)
  pub x25519_base : List ℕ → List ℕ
  -- key, nonce, associated data, text.
  pub aead_encrypt : List ℕ → ℕ → List ℕ → List ℕ → List ℕ
  pub aead_decrypt : List ℕ → ℕ → List ℕ → List ℕ → Option (List ℕ)
  -- The 16-word state, and the XOR of a text with the keystream from a state.
  pub chacha20_init : List ℕ → ℕ → List ℕ
  pub chacha20 : List ℕ → List ℕ → List ℕ

-- RFC 7748, 8439 and 7693, as far as the theorems need them.
pub record CryptoLaws (c : Crypto) : Type 0 where
  pub dh_total : (a b : List ℕ) → (k : List ℕ) × (c.x25519 a (c.x25519_base b) ≡ some k)
  pub dh_comm : (a b : List ℕ) → c.x25519 a (c.x25519_base b) ≡ c.x25519 b (c.x25519_base a)
  pub length_base : (a : List ℕ) → length (c.x25519_base a) ≡ 32
  pub length_blake2s : (n : ℕ) (k xs : List ℕ) → length (c.blake2s n k xs) ≡ n
  pub decrypt_encrypt :
      (k : List ℕ) (n : ℕ) (ad xs : List ℕ)
      → c.aead_decrypt k n ad (c.aead_encrypt k n ad xs) ≡ some xs
  pub length_encrypt :
      (k : List ℕ) (n : ℕ) (ad xs : List ℕ) → length (c.aead_encrypt k n ad xs) ≡ length xs + 16
  pub chacha20_twice : (st xs : List ℕ) → c.chacha20 st (c.chacha20 st xs) ≡ xs
  pub length_chacha20 : (st xs : List ℕ) → length (c.chacha20 st xs) ≡ length xs
