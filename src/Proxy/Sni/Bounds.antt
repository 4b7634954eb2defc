-- ===== src/Proxy/Sni/Bounds.antt =====
-- The walk over a ClientHello reads inside it, ends, and answers inside it.
use sys_amneziawg.Common.{
  ℕ, zero, suc, ◌+◌, ◌*◌, bit_or, ◌≤◌, ◌<◌, ◌≡◌, refl, Bool, true, false, ◌||◌, some, List, length,
  take, drop, get_elem?-total, ltb, leb, ◌==◌, if◌then◌else◌, arith, Bool-cases, inl, inr, leb→le,
  length-take, length-drop,
}
use sys_amneziawg.Proxy.Sni.{
  Scan, absent, found, overrun, stuck, byte_at, be16_at, require, server_name, extensions,
  after_session_id, find_sni, name_of, sni_hostname,
}

-- An answer that reads and ends well, with a name that is not empty and lies inside.
abbrev pub IsWithin : ℕ → Scan → Type 0
IsWithin len absent = Unit {0}
IsWithin len (found off n) = (off + n ≤ len) × (0 < n)
IsWithin len overrun = ⊥
IsWithin len stuck = ⊥

byte_at-IsWithin :
    (len : ℕ) (b : List ℕ) (i : ℕ) (k : ℕ → Scan)
    → i < length b
    → ((x : ℕ) → IsWithin len (k x))
    → IsWithin len (byte_at b i k)
unfolding byte_at
byte_at-IsWithin len b i k lt h = let (x, e) = get_elem?-total b i lt in rw (IsWithin, e) (h x)

be16_at-IsWithin :
    (len : ℕ) (b : List ℕ) (i : ℕ) (k : ℕ → Scan)
    → i + 1 < length b
    → ((x : ℕ) → IsWithin len (k x))
    → IsWithin len (be16_at b i k)
unfolding be16_at
be16_at-IsWithin len b i k lt h =
    byte_at-IsWithin _ _ _ _ (omega (arith, lt))
      (λ hi. byte_at-IsWithin _ _ _ _ lt (λ lo. h (bit_or (hi * 256) lo)))

require-IsWithin :
    (len : ℕ) (test : Bool) (k : Scan)
    → (test ≡ true → IsWithin len k)
    → IsWithin len (require test k)
unfolding require
require-IsWithin len true k h = h refl
require-IsWithin len false k h = tt

name_inside :
    (len end p nlen : ℕ)
    → end ≤ len
    → IsWithin len (if ltb end (p + 5 + nlen) || nlen == 0 then absent else found (p + 5) nlen)
name_inside len end p nlen le = elim (Bool-cases (ltb end (p + 5 + nlen) || nlen == 0)) [
  | inl bad ↦ rw bad tt
  | inr good ↦ rw good (ground arith, ground arith)
]

server_name-IsWithin :
    (b : List ℕ) (end p : ℕ) → end ≤ length b → IsWithin (length b) (server_name b end p)
unfolding server_name
server_name-IsWithin b end p le = require-IsWithin _ (leb (p + 2) end) _ (λ h2.
    require-IsWithin _ (leb (p + 5) end) _ (λ h5.
      let in5 = leb→le (p + 5) end h5 in
      byte_at-IsWithin _ _ _ _ (omega (arith, in5)) (λ kind. require-IsWithin _ (kind == 0) _ (λ hk.
        be16_at-IsWithin _ _ _ _ (omega (arith, in5))
          (λ nlen. name_inside (length b) end p nlen le)))))

-- Fuel above the distance to the end is enough.
extensions-IsWithin :
    (fuel : ℕ) (b : List ℕ) (end p : ℕ)
    → end ≤ length b
    → p ≤ end
    → end < p + fuel
    → IsWithin (length b) (extensions fuel b end p)
unfolding extensions
extensions-IsWithin zero b end p le before more = absurd (omega (arith, before, more))
extensions-IsWithin (suc fuel) b end p le before more = elim (Bool-cases (leb (p + 4) end)) [
  | inr done ↦ rw done tt
  | inl room ↦
      let in4 = leb→le (p + 4) end room in
      rw room (
        be16_at-IsWithin _ _ _ _ (omega (arith, in4)) (λ type.
          be16_at-IsWithin _ _ _ _ (omega (arith, in4)) (λ elen.
            elim (Bool-cases (ltb end (p + 4 + elen))) [
              | inl past ↦ rw past tt
              | inr inside ↦ elim (Bool-cases (type == 0)) [
                | inl name ↦ rw (inside, name) (server_name-IsWithin b end (p + 4) le)
                | inr other ↦
                    rw (inside, other)
                      (extensions-IsWithin fuel b end (p + 4 + elen) le (ground arith)
                        (omega (arith, more)))
              ]
            ])))
]

after_session : (b : List ℕ) (sid : ℕ) → IsWithin (length b) (after_session_id b (44 + sid))
unfolding after_session_id
after_session b sid = require-IsWithin _ (leb (44 + sid + 2) (length b)) _ (λ h1.
    let in1 = leb→le (44 + sid + 2) (length b) h1 in
    be16_at-IsWithin _ _ _ _ (omega (arith, in1)) (λ ciphers.
      let p2 = 44 + sid + 2 + ciphers in
      require-IsWithin _ (leb (p2 + 1) (length b)) _ (λ h2.
        let in2 = leb→le (p2 + 1) (length b) h2 in
        byte_at-IsWithin _ _ _ _ (omega (arith, in2)) (λ comp.
          let p3 = p2 + 1 + comp in
          require-IsWithin _ (leb (p3 + 2) (length b)) _ (λ h3.
            let in3 = leb→le (p3 + 2) (length b) h3 in
            be16_at-IsWithin _ _ _ _ (omega (arith, in3)) (λ total.
              extensions-IsWithin _ b _ _ (omega arith) (omega (arith, in3)) (omega arith)))))))

-- For every buffer the walk reads inside it, ends within its fuel, and answers -1 or a name that is
-- not empty and lies inside the buffer.
pub find_sni-IsWithin : (b : List ℕ) → IsWithin (length b) (find_sni b)
unfolding find_sni
find_sni-IsWithin b = require-IsWithin _ (leb 45 (length b)) _ (λ h45.
    let in45 = leb→le 45 (length b) h45 in
    byte_at-IsWithin _ _ _ _ (omega (arith, in45)) (λ record_type.
      require-IsWithin _ (record_type == 22) _ (λ h.
        byte_at-IsWithin _ _ _ _ (omega (arith, in45)) (λ message.
          require-IsWithin _ (message == 1) _ (λ h.
            require-IsWithin _ (leb 44 (length b)) _ (λ h.
              byte_at-IsWithin _ _ _ _ (omega (arith, in45)) (λ sid. after_session b sid)))))))

name_of-fits :
    (b : List ℕ) (cap : ℕ) (s : Scan)
    → IsWithin (length b) s
    → (name : List ℕ) → name_of b cap s ≡ some name
    → (0 < length name) × (length name < cap)
unfolding name_of
name_of-fits b cap (found off n) (le, lt) name h = elim (Bool-cases (leb cap n)) [
  | inl large ↦ ground (arith, large, h)
  | inr fits ↦
      let size : length (take n (drop off b)) ≡ n =
        omega (arith, length-take n (drop off b), length-drop off b, le) in
      let same : some (take n (drop off b)) ≡ some name = rw fits at h in
      let eq : take n (drop off b) ≡ name = cc in rw (← eq, size) (lt, ground arith)
]
name_of-fits b cap absent w name h = cc
name_of-fits b cap overrun w name h = cc
name_of-fits b cap stuck w name h = cc

-- A name that is read out of a ClientHello is not empty and leaves room for the final zero.
pub sni_hostname-fits :
    (b : List ℕ) (cap : ℕ) (name : List ℕ)
    → sni_hostname b cap ≡ some name
    → (0 < length name) × (length name < cap)
unfolding sni_hostname
sni_hostname-fits b cap name h = name_of-fits b cap (find_sni b) (find_sni-IsWithin b) name h
