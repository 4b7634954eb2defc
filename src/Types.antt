-- ===== src/Types.antt =====
-- The data of source/awg.h: obfuscation tags and chains, ranges, and the configuration.
use sys_amneziawg.Common.{ℕ, ℤ, Bool, List, Option}

-- awg_obf_kind.
pub data ObfKind : Type 0 where
  bytes rand randchars randdigits timestamp payload datastring datasize : ObfKind

-- awg_obf: `len` is the count of r, rc, rd and dz, `literal` the bytes of b.
pub record Obf : Type 0 where
  pub kind : ObfKind
  pub len : ℕ
  pub literal : List ℕ

-- awg_obf_chain; an absent `spec` is a copy that could not be allocated.
pub record ObfChain : Type 0 where
  pub items : List Obf
  pub spec : Option (List ℕ)

-- awg_range.
pub record Range : Type 0 where
  pub min : ℤ
  pub max : ℤ

-- awg_config. Keys are 32 bytes, `dns` holds the `dns_n` servers in use, `i` the five chains.
pub record Config : Type 0 where
  pub private_key : List ℕ
  pub have_private_key : Bool
  pub address : ℕ
  pub address_cidr : ℤ
  pub dns : List ℕ
  pub jc : ℤ
  pub jmin : ℤ
  pub jmax : ℤ
  pub s1 : ℤ
  pub s2 : ℤ
  pub s3 : ℤ
  pub s4 : ℤ
  pub h1 : ℕ
  pub h2 : ℕ
  pub h3 : ℕ
  pub h4 : ℕ
  pub header_protection_key : List ℕ
  pub have_header_protection : Bool
  pub rekey_after_time : Range
  pub rekey_timeout : Range
  pub reject_after_time : Range
  pub keepalive_timeout : Range
  pub max_handshake_attempts : Range
  pub content_padding_addition : Range
  pub i : List (Option ObfChain)
  pub peer_public_key : List ℕ
  pub have_peer_public_key : Bool
  pub preshared_key : List ℕ
  pub have_preshared_key : Bool
  pub endpoint_host : List ℕ
  pub endpoint_port : ℤ
  pub persistent_keepalive : Range
