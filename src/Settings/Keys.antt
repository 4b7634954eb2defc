-- ===== src/Settings/Keys.antt =====
-- One setting, source/awg_config.c: the body of the loop of awg_config_load behind the split into
-- name and value.
use sys_amneziawg.Common.{
  ℕ, suc, ◌-◌, Bool, true, ◌&&◌, Option, none, some, List, [], ◌∷◌, ◌++◌, length, take, set, leb,
  ◌==◌, if◌then◌else◌, u32, ℤ, pos, get_or,
}
use sys_amneziawg.Types.{Config}
use sys_amneziawg.Obfuscation.Base64.{within}
use sys_amneziawg.Obfuscation.Parse.{same, cut_at, parse_items, obf_parse}
use sys_amneziawg.Settings.Names.{
  private_key_name, header_key_name, address_name, dns_name, jc_name, jmin_name, jmax_name, s1_name,
  s2_name, s3_name, s4_name, h1_name, h2_name, h3_name, h4_name, rekey_after_name,
  rekey_timeout_name, reject_after_name, keepalive_timeout_name, max_attempts_name, padding_name,
  public_key_name, preshared_key_name, endpoint_name, persistent_name,
}
use sys_amneziawg.Settings.Text.{cut_last, tokens, strtoul, atoi, whole_number}
use sys_amneziawg.Settings.Values.{parse_ipv4, parse_range, parse_key}

-- What `kerr` says.
pub data Reason : Type 0 where
  not_a_key not_ipv4 bad_template no_port : Reason

-- The configuration after a setting, or `goto bad`.
pub data Outcome : Type 0 where
  kept : Config → Outcome
  bad : Reason → Outcome

unfoldable pub with_key : List ℕ → (List ℕ → Config) → Outcome
with_key v store = elim (parse_key v) [ none ↦ bad not_a_key | some key ↦ kept (store key) ]

-- What stands behind the slash, or the default.
unfoldable pub prefix_len : Option (List ℕ) → ℤ
prefix_len none = pos 32
prefix_len (some back) = atoi back

-- "Address", with the prefix length behind a slash.
unfoldable pub set_address : Config → List ℕ → Outcome
set_address cfg v =
    let (front, slash) = cut_at b'/' v in
    elim (parse_ipv4 front) [
      | none ↦ bad not_ipv4
      | some ip ↦ kept (record cfg { address_cidr = prefix_len slash; address = ip })
    ]

-- "DNS": the tokens that are addresses, while there is room for four.
unfoldable pub add_dns : List ℕ → List (List ℕ) → List ℕ
add_dns dns [] = dns
add_dns dns (t ∷ ts) =
    let passed = add_dns dns ts in
    let added = λ (ip : ℕ). add_dns (dns ++ ip ∷ []) ts in
    if leb 4 (length dns) then dns else elim (parse_ipv4 t) [ none ↦ passed | some ip ↦ added ip ]

-- "I1" to "I5": a template that is refused is an error, an empty one is none.
unfoldable pub template_index : List ℕ → Option ℕ
template_index k =
    if length k == 2 && (get_or k 0 0 == b'I' && within b'1' b'5' (get_or k 1 0))
    then some (get_or k 1 0 - b'1')
    else none

unfoldable pub set_template : Config → ℕ → List ℕ → Outcome
set_template cfg idx v = elim (parse_items whole_number (suc (length v)) v) [
  | none ↦ bad bad_template
  | some items ↦ kept (record cfg { i = set cfg.i idx (obf_parse whole_number v) })
]

-- The settings that are a plain number.
unfoldable pub set_int : Config → List ℕ → List ℕ → Option Config
set_int cfg k v =
    if same k jc_name
    then some (record cfg { jc = atoi v })
    else if same k jmin_name
    then some (record cfg { jmin = atoi v })
    else if same k jmax_name
    then some (record cfg { jmax = atoi v })
    else if same k s1_name
    then some (record cfg { s1 = atoi v })
    else if same k s2_name
    then some (record cfg { s2 = atoi v })
    else if same k s3_name
    then some (record cfg { s3 = atoi v })
    else if same k s4_name
    then some (record cfg { s4 = atoi v })
    else none

unfoldable pub set_header : Config → List ℕ → List ℕ → Option Config
set_header cfg k v =
    if same k h1_name
    then some (record cfg { h1 = u32 (strtoul v) })
    else if same k h2_name
    then some (record cfg { h2 = u32 (strtoul v) })
    else if same k h3_name
    then some (record cfg { h3 = u32 (strtoul v) })
    else if same k h4_name
    then some (record cfg { h4 = u32 (strtoul v) })
    else none

unfoldable pub set_range : Config → List ℕ → List ℕ → Option Config
set_range cfg k v =
    if same k rekey_after_name
    then some (record cfg { rekey_after_time = parse_range v })
    else if same k rekey_timeout_name
    then some (record cfg { rekey_timeout = parse_range v })
    else if same k reject_after_name
    then some (record cfg { reject_after_time = parse_range v })
    else if same k keepalive_timeout_name
    then some (record cfg { keepalive_timeout = parse_range v })
    else if same k max_attempts_name
    then some (record cfg { max_handshake_attempts = parse_range v })
    else if same k padding_name
    then some (record cfg { content_padding_addition = parse_range v })
    else none

abbrev pub or_else : Option Config → Option Config → Option Config
or_else none b = b
or_else (some a) b = some a

unfoldable pub set_number : Config → List ℕ → List ℕ → Option Config
set_number cfg k v = or_else (set_int cfg k v) (or_else (set_header cfg k v) (set_range cfg k v))

-- The names that come last: a number, a template, or one that is not known.
unfoldable pub set_other : Config → List ℕ → List ℕ → Outcome
set_other cfg k v = elim (set_number cfg k v) [
  | some cfg' ↦ kept cfg'
  | none ↦ elim (template_index k) [ some idx ↦ set_template cfg idx v | none ↦ kept cfg ]
]

unfoldable pub interface_setting : Config → List ℕ → List ℕ → Outcome
interface_setting cfg k v =
    if same k private_key_name
    then with_key v (λ key. record cfg { private_key = key; have_private_key = true })
    else if same k header_key_name
    then with_key v
        (λ key. record cfg { header_protection_key = key; have_header_protection = true })
    else if same k address_name
    then set_address cfg v
    else if same k dns_name
    then kept (record cfg { dns = add_dns cfg.dns (tokens v) })
    else set_other cfg k v

abbrev pub endpoint_size : ℕ
endpoint_size = 128

-- "Endpoint", split at the last colon; a host that is too long is cut.
unfoldable pub set_endpoint : Config → List ℕ → Outcome
set_endpoint cfg v = elim (cut_last b':' v) [
  | none ↦ bad no_port
  | some parts ↦ kept (record cfg {
    endpoint_port = atoi parts.1;
    endpoint_host = take (endpoint_size - 1) parts.0;
  })
]

unfoldable pub peer_setting : Config → List ℕ → List ℕ → Outcome
peer_setting cfg k v =
    if same k public_key_name
    then with_key v (λ key. record cfg { peer_public_key = key; have_peer_public_key = true })
    else if same k preshared_key_name
    then with_key v (λ key. record cfg { preshared_key = key; have_preshared_key = true })
    else if same k endpoint_name
    then set_endpoint cfg v
    else if same k persistent_name
    then kept (record cfg { persistent_keepalive = parse_range v })
    else kept cfg

unfoldable pub setting : Bool → Config → List ℕ → List ℕ → Outcome
setting in_peer cfg k v = if in_peer then peer_setting cfg k v else interface_setting cfg k v
