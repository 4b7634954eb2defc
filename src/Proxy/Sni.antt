-- ===== src/Proxy/Sni.antt =====
-- The server name of a TLS ClientHello, source/awg_proxy.c: find_sni and sni_hostname. Every read
-- goes through `byte_at`, which tells a read past the end.
pub mod Bounds
use sys_amneziawg.Common.{
  ℕ, zero, suc, ◌+◌, ◌*◌, bit_or, min, Bool, true, false, ◌||◌, Option, none, some, List, length,
  take, drop, get_elem?, ltb, leb, ◌==◌, not, if◌then◌else◌,
}

-- The return value -1, an offset with a length, a read outside the buffer, and a loop that was
-- given too little fuel.
pub data Scan : Type 0 where
  absent : Scan
  found : ℕ → ℕ → Scan
  overrun stuck : Scan

unfoldable pub byte_at : List ℕ → ℕ → (ℕ → Scan) → Scan
byte_at b i k = elim (get_elem? b i) [ none ↦ overrun | some x ↦ k x ]

-- (b[i] << 8) | b[i + 1].
unfoldable pub be16_at : List ℕ → ℕ → (ℕ → Scan) → Scan
be16_at b i k = byte_at b i (λ hi. byte_at b (i + 1) (λ lo. k (bit_or (hi * 256) lo)))

-- `if (!test) return -1`.
unfoldable pub require : Bool → Scan → Scan
require test k = if test then k else absent

-- The server_name extension at p.
unfoldable pub server_name : List ℕ → ℕ → ℕ → Scan
server_name b end p = require (leb (p + 2) end) (
    require (leb (p + 5) end) (
      byte_at b (p + 2) (λ kind. require (kind == 0) (
        be16_at b (p + 3)
          (λ nlen. if ltb end (p + 5 + nlen) || nlen == 0 then absent else found (p + 5) nlen)))))

-- The walk over the extensions; each step takes four bytes or more.
unfoldable pub extensions : ℕ → List ℕ → ℕ → ℕ → Scan
extensions zero b end p = stuck
extensions (suc fuel) b end p =
    if leb (p + 4) end
    then be16_at b p (λ type. be16_at b (p + 2) (λ elen.
      let rest = extensions fuel b end (p + 4 + elen) in
      if ltb end (p + 4 + elen)
      then absent
      else if type == 0
      then server_name b end (p + 4)
      else rest))
    else absent

-- From the cipher list, at p1, on.
unfoldable pub after_session_id : List ℕ → ℕ → Scan
after_session_id b p1 =
    let len = length b in
    require (leb (p1 + 2) len) (
      be16_at b p1 (λ ciphers.
        let p2 = p1 + 2 + ciphers in
        require (leb (p2 + 1) len) (
          byte_at b p2 (λ comp.
            let p3 = p2 + 1 + comp in
            require (leb (p3 + 2) len) (
              be16_at b p3
                (λ total. extensions (suc len) b (min (p3 + 2 + total) len) (p3 + 2)))))))

unfoldable pub find_sni : List ℕ → Scan
find_sni b = require (leb 45 (length b)) (
    byte_at b 0 (λ record_type. require (record_type == 22) (
      byte_at b 5 (λ message.
        require (message == 1)
          (require (leb 44 (length b)) (byte_at b 43 (λ sid. after_session_id b (44 + sid))))))))

-- The name, if it fits into `cap` bytes with its final zero.
unfoldable pub name_of : List ℕ → ℕ → Scan → Option (List ℕ)
name_of b cap (found off n) = if leb cap n then none else some (take n (drop off b))
name_of b cap absent = none
name_of b cap overrun = none
name_of b cap stuck = none

unfoldable pub sni_hostname : List ℕ → ℕ → Option (List ℕ)
sni_hostname b cap = name_of b cap (find_sni b)
