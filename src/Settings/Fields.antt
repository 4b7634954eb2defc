-- ===== src/Settings/Fields.antt =====
-- Every field of a configuration fits its C type, whatever the file holds.
use sys_amneziawg.Common.{
  ℕ, suc, ◌^◌, ◌≤◌, ◌<◌, ◌≡◌, Bool, true, false, Option, none, some, List, [], ◌∷◌, ◌++◌, length,
  length-append, length-take, length-set, All, All-append, leb, if◌then◌else◌, ℤ, pos, negsuc,
  arith, Bool-cases, Option-cases, inl, inr,
}
use sys_amneziawg.Common.Int.{int_leb}
use sys_amneziawg.Types.{Config, Range}
use sys_amneziawg.Obfuscation.Base64.{b64_decode}
use sys_amneziawg.Obfuscation.Parse.{cut_at, same, parse_items, obf_parse}
use sys_amneziawg.Settings.Names.{
  private_key_name, header_key_name, address_name, dns_name, public_key_name, preshared_key_name,
  endpoint_name, persistent_name,
}
use sys_amneziawg.Settings.Text.{strtol, to_int, atoi, tokens, cut_last, whole_number}
use sys_amneziawg.Settings.Values.{
  octets, to_network, parse_ipv4, parse_range, range_from, at_dash, parse_key, whole_key,
}
use sys_amneziawg.Settings.Keys.{
  Outcome, kept, bad, with_key, prefix_len, set_address, add_dns, template_index, set_template,
  set_int, set_header, set_range, set_number, or_else, set_other, interface_setting, set_endpoint,
  peer_setting, setting,
}

abbrev pub FitsInt : ℤ → Type 0
FitsInt (pos n) = n < 2 ^ 31
FitsInt (negsuc n) = n < 2 ^ 31

abbrev pub IsWord : ℕ → Type 0
IsWord n = n < 2 ^ 32

abbrev pub RangeFits : Range → Type 0
RangeFits r = FitsInt r.min × FitsInt r.max

-- The types of the fields: keys of 32 bytes, 32-bit words, ints, at most four servers, five
-- templates, and a host with room for its zero.
pub record Fits (cfg : Config) : Type 0 where
  pub private_key_size : length cfg.private_key ≡ 32
  pub header_key_size : length cfg.header_protection_key ≡ 32
  pub public_key_size : length cfg.peer_public_key ≡ 32
  pub preshared_key_size : length cfg.preshared_key ≡ 32
  pub address_word : IsWord cfg.address
  pub dns_words : All IsWord cfg.dns
  pub dns_count : length cfg.dns ≤ 4
  pub headers : IsWord cfg.h1 × (IsWord cfg.h2 × (IsWord cfg.h3 × IsWord cfg.h4))
  pub junk : FitsInt cfg.jc × (FitsInt cfg.jmin × FitsInt cfg.jmax)
  pub paddings : FitsInt cfg.s1 × (FitsInt cfg.s2 × (FitsInt cfg.s3 × FitsInt cfg.s4))
  pub timers :
      RangeFits cfg.rekey_after_time
      × (RangeFits cfg.rekey_timeout
          × (RangeFits cfg.reject_after_time
              × (RangeFits cfg.keepalive_timeout × RangeFits cfg.max_handshake_attempts)))
  pub added : RangeFits cfg.content_padding_addition × RangeFits cfg.persistent_keepalive
  pub cidr_and_port : FitsInt cfg.address_cidr × FitsInt cfg.endpoint_port
  pub templates : length cfg.i ≡ 5
  pub host_size : length cfg.endpoint_host ≤ 127

to_int-FitsInt : (a : ℤ) → FitsInt (to_int a)
unfolding to_int
to_int-FitsInt (pos n) = ground arith
to_int-FitsInt (negsuc n) = ground arith

atoi-FitsInt : (s : List ℕ) → FitsInt (atoi s)
unfolding atoi
atoi-FitsInt s = to_int-FitsInt (strtol s).0

range_from-Fits : (a : ℤ) (o : Option (List ℕ)) → RangeFits (range_from a o)
unfolding range_from
range_from-Fits a none = (to_int-FitsInt a, to_int-FitsInt a)
range_from-Fits a (some more) = elim (Bool-cases (int_leb a (strtol more).0)) [
  | inl up ↦ rw up (to_int-FitsInt a, to_int-FitsInt (strtol more).0)
  | inr down ↦ rw down (to_int-FitsInt a, to_int-FitsInt a)
]

parse_range-Fits : (s : List ℕ) → RangeFits (parse_range s)
unfolding parse_range
parse_range-Fits s = range_from-Fits (strtol s).0 (at_dash (strtol s).1)

parse_ipv4-IsWord : (s : List ℕ) (ip : ℕ) → parse_ipv4 s ≡ some ip → IsWord ip
unfolding parse_ipv4 to_network
parse_ipv4-IsWord s ip e = elim (Option-cases (octets 0 0 0 0 s)) [
  | inl none_read ↦ let never : none ≡ some ip = rw (parse_ipv4, none_read) at e in absurd cc
  | inr (v, good) ↦
      let there : some (to_network v) ≡ some ip = rw (parse_ipv4, good) at e in
      let same : to_network v ≡ ip = cc in omega (arith, same)
]

-- A setting keeps all types.
abbrev pub OutcomeFits : Outcome → Type 0
OutcomeFits (kept cfg) = Fits cfg
OutcomeFits (bad why) = Unit

parse_key-size : (v key : List ℕ) → parse_key v ≡ some key → length key ≡ 32
unfolding parse_key
parse_key-size v key e = elim (Option-cases (b64_decode v 32)) [
  | inl refused ↦ let never : none ≡ some key = rw (parse_key, refused) at e in absurd cc
  | inr (text, decoded) ↦
      let there : whole_key text ≡ some key = rw (parse_key, decoded) at e in ground (arith, there)
]

prefix-FitsInt : (o : Option (List ℕ)) → FitsInt (prefix_len o)
unfolding prefix_len
prefix-FitsInt none = omega arith
prefix-FitsInt (some back) = atoi-FitsInt back

choose :
    (test : Bool) (a b : Outcome)
    → OutcomeFits a
    → OutcomeFits b
    → OutcomeFits (if test then a else b)
choose true a b ha hb = ha
choose false a b ha hb = hb

with_key-Fits :
    (v : List ℕ) (store : List ℕ → Config)
    → ((key : List ℕ) → length key ≡ 32 → Fits (store key))
    → OutcomeFits (with_key v store)
unfolding with_key
with_key-Fits v store h = elim (Option-cases (parse_key v)) [
  | inl refused ↦ rw (with_key, refused) tt
  | inr (key, there) ↦ rw (with_key, there) (h key (parse_key-size v key there))
]

set_address-Fits : (cfg : Config) (v : List ℕ) → Fits cfg → OutcomeFits (set_address cfg v)
unfolding set_address
set_address-Fits cfg v h = elim (Option-cases (parse_ipv4 (cut_at b'/' v).0)) [
  | inl refused ↦ rw (set_address, refused) tt
  | inr (ip, there) ↦
      let word = parse_ipv4-IsWord (cut_at b'/' v).0 ip there in
      let cidr = prefix-FitsInt (cut_at b'/' v).1 in
      rw (set_address, there) (ground (arith, h, word, cidr))
]

add_dns-words :
    (ts : List (List ℕ)) (dns : List ℕ)
    → All IsWord dns
    → length dns ≤ 4
    → All IsWord (add_dns dns ts) × (length (add_dns dns ts) ≤ 4)
unfolding add_dns
add_dns-words [] dns h le = (h, le)
add_dns-words (t ∷ ts) dns h le = elim (Bool-cases (leb 4 (length dns))) [
  | inl full ↦ rw full (h, le)
  | inr room ↦ elim (Option-cases (parse_ipv4 t)) [
    | inl refused ↦ rw (room, refused) (add_dns-words ts dns h le)
    | inr (ip, there) ↦
        rw (room, there)
          (add_dns-words ts (dns ++ ip ∷ [])
            (All-append IsWord dns (ip ∷ []) h (parse_ipv4-IsWord t ip there, tt))
            (ground (arith, room, length-append dns (ip ∷ []))))
  ]
]

set_template-Fits :
    (cfg : Config) (idx : ℕ) (v : List ℕ) → Fits cfg → OutcomeFits (set_template cfg idx v)
unfolding set_template
set_template-Fits cfg idx v h = elim (Option-cases (parse_items whole_number (suc (length v)) v)) [
  | inl refused ↦ rw (set_template, refused) tt
  | inr (items, there) ↦
      let len = length-set cfg.i idx (obf_parse whole_number v) in
      rw (set_template, there) (ground (arith, h, len))
]

-- What holds of a configuration that may be there.
abbrev IfFits : Option Config → Type 0
IfFits none = Unit
IfFits (some cfg) = Fits cfg

set_int-Fits : (cfg : Config) (k v : List ℕ) → Fits cfg → IfFits (set_int cfg k v)
unfolding set_int
set_int-Fits cfg k v h = ground (arith, atoi-FitsInt v)

set_header-Fits : (cfg : Config) (k v : List ℕ) → Fits cfg → IfFits (set_header cfg k v)
unfolding set_header
set_header-Fits cfg k v h = ground arith

set_range-Fits : (cfg : Config) (k v : List ℕ) → Fits cfg → IfFits (set_range cfg k v)
unfolding set_range
set_range-Fits cfg k v h = ground (arith, parse_range-Fits v)

set_number-Fits : (cfg : Config) (k v : List ℕ) → Fits cfg → IfFits (set_number cfg k v)
unfolding set_number
set_number-Fits cfg k v h =
    either (set_int cfg k v) (or_else (set_header cfg k v) (set_range cfg k v))
      (set_int-Fits cfg k v h)
      (either (set_header cfg k v) (set_range cfg k v) (set_header-Fits cfg k v h)
        (set_range-Fits cfg k v h))
  where
    either : (a b : Option Config) → IfFits a → IfFits b → IfFits (or_else a b)
    either none b ha hb = hb
    either (some a) b ha hb = ha

set_other-Fits : (cfg : Config) (k v : List ℕ) → Fits cfg → OutcomeFits (set_other cfg k v)
unfolding set_other
set_other-Fits cfg k v h = elim (Option-cases (set_number cfg k v)) [
  | inr (cfg', there) ↦ rw (set_other, there) (rw there at (set_number-Fits cfg k v h))
  | inl no_number ↦ elim (Option-cases (template_index k)) [
    | inr (idx, there) ↦ rw (set_other, no_number, there) (set_template-Fits cfg idx v h)
    | inl unknown ↦ rw (set_other, no_number, unknown) h
  ]
]

interface_setting-Fits :
    (cfg : Config) (k v : List ℕ) → Fits cfg → OutcomeFits (interface_setting cfg k v)
unfolding interface_setting
interface_setting-Fits cfg k v h =
    choose (same k private_key_name) _ _ (with_key-Fits v _ (λ key size. ground (arith, h, size))) (
      choose (same k header_key_name) _ _ (with_key-Fits v _ (λ key size. ground (arith, h, size)))
        (choose (same k address_name) _ _ (set_address-Fits cfg v h) (
          choose (same k dns_name) _ _
            (let g = add_dns-words (tokens v) cfg.dns h.dns_words h.dns_count in
              ground (arith, h, g))
            (set_other-Fits cfg k v h))))

set_endpoint-Fits : (cfg : Config) (v : List ℕ) → Fits cfg → OutcomeFits (set_endpoint cfg v)
unfolding set_endpoint
set_endpoint-Fits cfg v h = elim (Option-cases (cut_last b':' v)) [
  | inl no_colon ↦ rw (set_endpoint, no_colon) tt
  | inr (parts, there) ↦
      let short = length-take 127 parts.0 in
      rw (set_endpoint, there) (ground (arith, h, short, atoi-FitsInt parts.1))
]

peer_setting-Fits : (cfg : Config) (k v : List ℕ) → Fits cfg → OutcomeFits (peer_setting cfg k v)
unfolding peer_setting
peer_setting-Fits cfg k v h =
    choose (same k public_key_name) _ _ (with_key-Fits v _ (λ key size. ground (arith, h, size))) (
      choose (same k preshared_key_name) _ _
        (with_key-Fits v _ (λ key size. ground (arith, h, size)))
        (choose (same k endpoint_name) _ _ (set_endpoint-Fits cfg v h)
          (choose (same k persistent_name) _ _ (ground (arith, h, parse_range-Fits v)) h)))

-- A setting, in either section, leaves every field within its type.
pub setting-Fits :
    (in_peer : Bool) (cfg : Config) (k v : List ℕ)
    → Fits cfg
    → OutcomeFits (setting in_peer cfg k v)
unfolding setting
setting-Fits true cfg k v h = peer_setting-Fits cfg k v h
setting-Fits false cfg k v h = interface_setting-Fits cfg k v h
