-- ===== src/Tests/Names.antt =====
-- The proxy's theorems on a ClientHello for "a.b" and on names.
use sys_amneziawg.Common.{ℕ, ◌≡◌, ◌↔◌, refl, true, some, List, [], ◌∷◌, ◌++◌, length, replicate}
use sys_amneziawg.Proxy.Sni.{
  byte_at, be16_at, require, server_name, extensions, after_session_id, find_sni, name_of,
  sni_hostname,
}
use sys_amneziawg.Proxy.Sni.Bounds.{IsWithin, find_sni-IsWithin}
use sys_amneziawg.Proxy.Host.{deny_suffix, host_normalise, host_denied}
use sys_amneziawg.Proxy.Host.Normal.{Normalises, host_normalise_iff}
use sys_amneziawg.Proxy.Host.Denied.{IsUnderAny, host_denied_iff}

abbrev a_b : List ℕ
a_b = b'a' ∷ b'.' ∷ b'b' ∷ []

-- An empty session id, one cipher, one compression method, an extension of type 5, the name.
abbrev hello : List ℕ
hello =
    (22 ∷ 3 ∷ 1 ∷ 0 ∷ 0 ∷ 1 ∷ [])
    ++ (replicate 37 0
        ++ (0 ∷ 0 ∷ 2 ∷ 19 ∷ 1 ∷ 1 ∷ 0 ∷ 0 ∷ 17 ∷ 0 ∷ 5 ∷ 0 ∷ 1 ∷ 7 ∷ 0 ∷ 0 ∷ 0 ∷ 8 ∷ 0 ∷ 6 ∷ 0 ∷ 0
            ∷ 3 ∷ a_b))

hello_name : sni_hostname hello 128 ≡ some a_b
unfolding sni_hostname find_sni after_session_id extensions server_name name_of byte_at be16_at
    require
hello_name = refl

find_sni_example : IsWithin (length hello) (find_sni hello)
find_sni_example = find_sni-IsWithin hello

host_normalise_example :
    (host_normalise (a_b ++ (b'.' ∷ 0 ∷ b'x' ∷ [])) ≡ some a_b)
    ↔ Normalises (a_b ++ (b'.' ∷ 0 ∷ b'x' ∷ [])) a_b
host_normalise_example = host_normalise_iff (a_b ++ (b'.' ∷ 0 ∷ b'x' ∷ [])) a_b

host_denied_example : (host_denied a_b ≡ true) ↔ IsUnderAny deny_suffix a_b
host_denied_example = host_denied_iff a_b
