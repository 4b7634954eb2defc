-- ===== src/Settings/Names.antt =====
-- The names of the settings in a configuration file, source/awg_config.c: awg_config_load.
use sys_amneziawg.Common.{ℕ, List, [], ◌∷◌}

abbrev pub private_key_name : List ℕ
private_key_name = b'P' ∷ b'r' ∷ b'i' ∷ b'v' ∷ b'a' ∷ b't' ∷ b'e' ∷ b'K' ∷ b'e' ∷ b'y' ∷ []

abbrev pub header_key_name : List ℕ
header_key_name =
    b'H' ∷ b'e' ∷ b'a' ∷ b'd' ∷ b'e' ∷ b'r' ∷ b'P' ∷ b'r' ∷ b'o' ∷ b't' ∷ b'e' ∷ b'c' ∷ b't' ∷ b'i'
    ∷ b'o' ∷ b'n' ∷ b'K' ∷ b'e' ∷ b'y' ∷ []

abbrev pub address_name : List ℕ
address_name = b'A' ∷ b'd' ∷ b'd' ∷ b'r' ∷ b'e' ∷ b's' ∷ b's' ∷ []

abbrev pub dns_name : List ℕ
dns_name = b'D' ∷ b'N' ∷ b'S' ∷ []

abbrev pub jc_name : List ℕ
jc_name = b'J' ∷ b'c' ∷ []

abbrev pub jmin_name : List ℕ
jmin_name = b'J' ∷ b'm' ∷ b'i' ∷ b'n' ∷ []

abbrev pub jmax_name : List ℕ
jmax_name = b'J' ∷ b'm' ∷ b'a' ∷ b'x' ∷ []

abbrev pub s1_name : List ℕ
s1_name = b'S' ∷ b'1' ∷ []

abbrev pub s2_name : List ℕ
s2_name = b'S' ∷ b'2' ∷ []

abbrev pub s3_name : List ℕ
s3_name = b'S' ∷ b'3' ∷ []

abbrev pub s4_name : List ℕ
s4_name = b'S' ∷ b'4' ∷ []

abbrev pub h1_name : List ℕ
h1_name = b'H' ∷ b'1' ∷ []

abbrev pub h2_name : List ℕ
h2_name = b'H' ∷ b'2' ∷ []

abbrev pub h3_name : List ℕ
h3_name = b'H' ∷ b'3' ∷ []

abbrev pub h4_name : List ℕ
h4_name = b'H' ∷ b'4' ∷ []

abbrev pub rekey_after_name : List ℕ
rekey_after_name =
    b'R' ∷ b'e' ∷ b'k' ∷ b'e' ∷ b'y' ∷ b'A' ∷ b'f' ∷ b't' ∷ b'e' ∷ b'r' ∷ b'T' ∷ b'i' ∷ b'm' ∷ b'e'
    ∷ []

abbrev pub rekey_timeout_name : List ℕ
rekey_timeout_name =
    b'R' ∷ b'e' ∷ b'k' ∷ b'e' ∷ b'y' ∷ b'T' ∷ b'i' ∷ b'm' ∷ b'e' ∷ b'o' ∷ b'u' ∷ b't' ∷ []

abbrev pub reject_after_name : List ℕ
reject_after_name =
    b'R' ∷ b'e' ∷ b'j' ∷ b'e' ∷ b'c' ∷ b't' ∷ b'A' ∷ b'f' ∷ b't' ∷ b'e' ∷ b'r' ∷ b'T' ∷ b'i' ∷ b'm'
    ∷ b'e' ∷ []

abbrev pub keepalive_timeout_name : List ℕ
keepalive_timeout_name =
    b'K' ∷ b'e' ∷ b'e' ∷ b'p' ∷ b'a' ∷ b'l' ∷ b'i' ∷ b'v' ∷ b'e' ∷ b'T' ∷ b'i' ∷ b'm' ∷ b'e' ∷ b'o'
    ∷ b'u' ∷ b't' ∷ []

abbrev pub max_attempts_name : List ℕ
max_attempts_name =
    b'M' ∷ b'a' ∷ b'x' ∷ b'H' ∷ b'a' ∷ b'n' ∷ b'd' ∷ b's' ∷ b'h' ∷ b'a' ∷ b'k' ∷ b'e' ∷ b'A' ∷ b't'
    ∷ b't' ∷ b'e' ∷ b'm' ∷ b'p' ∷ b't' ∷ b's' ∷ []

abbrev pub padding_name : List ℕ
padding_name =
    b'C' ∷ b'o' ∷ b'n' ∷ b't' ∷ b'e' ∷ b'n' ∷ b't' ∷ b'P' ∷ b'a' ∷ b'd' ∷ b'd' ∷ b'i' ∷ b'n' ∷ b'g'
    ∷ b'A' ∷ b'd' ∷ b'd' ∷ b'i' ∷ b't' ∷ b'i' ∷ b'o' ∷ b'n' ∷ []

abbrev pub public_key_name : List ℕ
public_key_name = b'P' ∷ b'u' ∷ b'b' ∷ b'l' ∷ b'i' ∷ b'c' ∷ b'K' ∷ b'e' ∷ b'y' ∷ []

abbrev pub preshared_key_name : List ℕ
preshared_key_name =
    b'P' ∷ b'r' ∷ b'e' ∷ b's' ∷ b'h' ∷ b'a' ∷ b'r' ∷ b'e' ∷ b'd' ∷ b'K' ∷ b'e' ∷ b'y' ∷ []

abbrev pub endpoint_name : List ℕ
endpoint_name = b'E' ∷ b'n' ∷ b'd' ∷ b'p' ∷ b'o' ∷ b'i' ∷ b'n' ∷ b't' ∷ []

abbrev pub persistent_name : List ℕ
persistent_name =
    b'P' ∷ b'e' ∷ b'r' ∷ b's' ∷ b'i' ∷ b's' ∷ b't' ∷ b'e' ∷ b'n' ∷ b't' ∷ b'K' ∷ b'e' ∷ b'e' ∷ b'p'
    ∷ b'a' ∷ b'l' ∷ b'i' ∷ b'v' ∷ b'e' ∷ []

abbrev pub peer_mark : List ℕ
peer_mark = b'[' ∷ b'P' ∷ b'e' ∷ b'e' ∷ b'r' ∷ []
