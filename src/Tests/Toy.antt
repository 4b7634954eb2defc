-- ===== src/Tests/Toy.antt =====
-- Primitives that have the laws and can be computed with, and a configuration in their use.
use sys_amneziawg.Common.{
  ℕ, ◌+◌, ◌-◌, ◌*◌, ◌%◌, ◌≡◌, refl, ap, ap₂, true, false, Option, none, some, List, [], ◌∷◌, ◌++◌,
  length, take, drop, replicate, map, get_or, if◌then◌else◌, pos, negsuc, Entropy, arith,
  length-append, length-replicate, length-map, take-append_length, drop-append_length,
}
use sys_amneziawg.Types.{Config, Range}
use sys_amneziawg.Noise.Crypto.{Crypto, CryptoLaws}
use sys_amneziawg.Proxy.Host.{equal_bytes}
use sys_amneziawg.Proxy.Host.Denied.{equal_bytes_refl}

abbrev total : List ℕ → ℕ
total [] = 0
total (x ∷ xs) = x + total xs

-- x XOR 1.
abbrev flip : ℕ → ℕ
flip x = x + 1 - 2 * (x % 2)

flip_twice : (xs : List ℕ) → map flip (map flip xs) ≡ xs
flip_twice [] = refl
flip_twice (x ∷ xs) =
    let e : flip (flip x) ≡ x = omega arith in ap₂ (λ y (ys : List ℕ). y ∷ ys) e (flip_twice xs)

abbrev tag : List ℕ → ℕ → List ℕ → List ℕ
tag k n ad = replicate 16 ((total k + n + total ad) % 256)

abbrev toy_decrypt : List ℕ → ℕ → List ℕ → List ℕ → Option (List ℕ)
toy_decrypt k n ad s =
    let m = length s - 16 in if equal_bytes (drop m s) (tag k n ad) then some (take m s) else none

toy_decrypt_encrypt :
    (k : List ℕ) (n : ℕ) (ad xs : List ℕ) → toy_decrypt k n ad (xs ++ tag k n ad) ≡ some xs
toy_decrypt_encrypt k n ad xs =
    let size : length xs ≡ length (xs ++ tag k n ad) - 16 =
      omega (arith, length-append xs (tag k n ad)) in
    rw
      (
        drop-append_length (length (xs ++ tag k n ad) - 16) xs (tag k n ad) size,
        take-append_length (length (xs ++ tag k n ad) - 16) xs (tag k n ad) size,
        equal_bytes_refl (tag k n ad),
      )
      refl

abbrev pub toy : Crypto
toy = record {
  blake2s = λ n k xs. replicate n ((total k + 3 * total xs) % 256);
  x25519 = λ a p. some (replicate 32 (get_or a 0 0 + get_or p 0 0));
  x25519_base = λ a. replicate 32 (get_or a 0 0);
  aead_encrypt = λ k n ad xs. xs ++ tag k n ad;
  aead_decrypt = toy_decrypt;
  chacha20_init = λ k n. replicate 16 n;
  chacha20 = λ st xs. map flip xs;
}

pub toy_laws : CryptoLaws toy
toy_laws = record {
  dh_total = λ a b. (replicate 32 (get_or a 0 0 + get_or b 0 0), refl);
  dh_comm = λ a b.
      let e : get_or a 0 0 + get_or b 0 0 ≡ get_or b 0 0 + get_or a 0 0 = omega arith in
      ap (λ (x : ℕ). some (replicate 32 x)) e;
  length_base = λ a. refl;
  length_blake2s = λ n k xs. length-replicate n _;
  decrypt_encrypt = toy_decrypt_encrypt;
  length_encrypt = λ k n ad xs. length-append xs (tag k n ad);
  chacha20_twice = λ st xs. flip_twice xs;
  length_chacha20 = λ st xs. length-map flip xs;
}

abbrev range : ℕ → ℕ → Range
range lo hi = record { min = pos lo; max = pos hi }

-- Header protection is on, and every padding holds a nonce.
abbrev pub shielded : Config
shielded = record {
  private_key = replicate 32 7;
  have_private_key = true;
  address = 0;
  address_cidr = pos 32;
  dns = [];
  jc = pos 3;
  jmin = pos 5;
  jmax = pos 9;
  s1 = pos 15;
  s2 = pos 14;
  s3 = pos 13;
  s4 = pos 12;
  h1 = 1;
  h2 = 2;
  h3 = 3;
  h4 = 4;
  header_protection_key = replicate 32 9;
  have_header_protection = true;
  rekey_after_time = range 100 120;
  rekey_timeout = range 5 5;
  reject_after_time = range 180 180;
  keepalive_timeout = range 10 10;
  max_handshake_attempts = range 18 18;
  content_padding_addition = range 0 0;
  i = [];
  peer_public_key = replicate 32 8;
  have_peer_public_key = true;
  preshared_key = replicate 32 6;
  have_preshared_key = true;
  endpoint_host = [];
  endpoint_port = pos 51820;
  persistent_keepalive = range 25 25;
}

-- No header protection, and a padding of -20.
abbrev pub bare : Config
bare = record shielded { have_header_protection = false; s4 = negsuc 19 }

abbrev pub bytes : Entropy
bytes i = (i * 37 + 11) % 256
