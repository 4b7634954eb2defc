-- ===== src/Settings/Values.antt =====
-- The values of settings, source/awg_config.c: parse_ipv4, parse_range and parse_key.
use sys_amneziawg.Common.{
  ℕ, suc, ◌+◌, ◌-◌, ◌*◌, ◌/◌, ◌%◌, ◌^◌, ◌||◌, Option, none, some, List, [], ◌∷◌, ◌++◌, length, take,
  ltb, ◌==◌, if◌then◌else◌, u32, ℤ,
}
use sys_amneziawg.Common.Int.{int_leb}
use sys_amneziawg.Types.{Range}
use sys_amneziawg.Noise.Primitives.{byte_of}
use sys_amneziawg.Obfuscation.Base64.{b64_decode}
use sys_amneziawg.Settings.Text.{is_digit, strtol, to_int}

-- The loop over the digits and dots: `v` gathers the octets, which share no bit.
unfoldable pub octets : ℕ → ℕ → ℕ → ℕ → List ℕ → Option ℕ
octets v octet digits parts [] =
    if digits == 0 then none else if suc parts == 4 then some (u32 (v * 2 ^ 8) + octet) else none
octets v octet digits parts (x ∷ xs) =
    let octet' = octet * 10 + (x - b'0') in
    let longer = octets v octet' (suc digits) parts xs in
    let next = octets (u32 (v * 2 ^ 8) + octet) 0 0 (suc parts) xs in
    if is_digit x
    then if ltb 3 (suc digits) || ltb 255 octet' then none else longer
    else if x == b'.'
    then if digits == 0 then none else if suc parts == 4 then none else next
    else none

-- The first octet into the low byte.
unfoldable pub to_network : ℕ → ℕ
to_network v =
    v % 2 ^ 8 * 2 ^ 24
    + v / 2 ^ 8 % 2 ^ 8 * 2 ^ 16
    + v / 2 ^ 16 % 2 ^ 8 * 2 ^ 8
    + v / 2 ^ 24 % 2 ^ 8

unfoldable pub parse_ipv4 : List ℕ → Option ℕ
parse_ipv4 s = elim (octets 0 0 0 0 s) [ none ↦ none | some v ↦ some (to_network v) ]

abbrev pub at_dash : List ℕ → Option (List ℕ)
at_dash [] = none
at_dash (x ∷ xs) = if x == b'-' then some xs else none

-- From the first number on, and what stands behind a dash.
unfoldable pub range_from : ℤ → Option (List ℕ) → Range
range_from a none = record { min = to_int a; max = to_int a }
range_from a (some more) =
    let b = (strtol more).0 in
    record { min = to_int a; max = if int_leb a b then to_int b else to_int a }

unfoldable pub parse_range : List ℕ → Range
parse_range s = range_from (strtol s).0 (at_dash (strtol s).1)

abbrev pub key_len : ℕ
key_len = 32

-- The 32 bytes that the text decodes to; none for another length.
abbrev pub whole_key : List ℕ → Option (List ℕ)
whole_key key = if length key == key_len then some key else none

unfoldable pub parse_key : List ℕ → Option (List ℕ)
parse_key text = elim (b64_decode text key_len) [ none ↦ none | some key ↦ whole_key key ]

-- "%u" of a byte.
unfoldable pub decimal : ℕ → List ℕ
decimal n =
    if ltb n 10
    then (b'0' + n) ∷ []
    else if ltb n 100
    then (b'0' + n / 10) ∷ (b'0' + n % 10) ∷ []
    else (b'0' + n / 100) ∷ (b'0' + n / 10 % 10) ∷ (b'0' + n % 10) ∷ []

-- snprintf of "%u.%u.%u.%u" on the bytes of an address in memory, into `cap` bytes.
unfoldable pub ip_str : ℕ → ℕ → List ℕ
ip_str ip cap = take (cap - 1) (
    decimal (byte_of ip 0)
    ++ (b'.' ∷ decimal (byte_of ip 1)
        ++ (b'.' ∷ decimal (byte_of ip 2) ++ (b'.' ∷ decimal (byte_of ip 3)))))
