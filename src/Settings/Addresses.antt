-- ===== src/Settings/Addresses.antt =====
-- An address that is printed is parsed back.
use sys_amneziawg.Common.{
  ℕ, zero, suc, ◌+◌, ◌-◌, ◌*◌, ◌/◌, ◌%◌, ◌^◌, ◌≤◌, ◌<◌, ◌≡◌, refl, ap, sym, ◌∙◌, some, List, [],
  ◌∷◌, ◌++◌, length, length-append, take, ltb, if◌then◌else◌, u32, arith, append-nil, Bool-cases,
  inl, inr,
}
use sys_amneziawg.Noise.Primitives.{byte_of}
use sys_amneziawg.Settings.Values.{octets, to_network, parse_ipv4, decimal, ip_str}

-- The number of its digits.
abbrev width : ℕ → ℕ
width n = if ltb n 10 then 1 else if ltb n 100 then 2 else 3

octets_digit :
    (v octet digits parts d o : ℕ) (xs : List ℕ)
    → d < 10
    → digits < 3
    → o ≡ octet * 10 + d
    → o < 256
    → octets v octet digits parts ((b'0' + d) ∷ xs) ≡ octets v o (suc digits) parts xs
unfolding octets
octets_digit v octet digits parts d o xs hd hn e ho =
    let value : octet * 10 + (b'0' + d - b'0') ≡ o = omega (arith, e) in
    rw (octets, value) (ground (arith, hd, hn, ho))

octets-decimal :
    (v n parts : ℕ) (rest : List ℕ)
    → n < 256
    → octets v 0 0 parts (decimal n ++ rest) ≡ octets v n (width n) parts rest
unfolding decimal
octets-decimal v n parts rest h = elim (Bool-cases (ltb n 10)) [
  | inl one ↦
      rw one (octets_digit v 0 0 parts n n rest (ground (arith, one)) (omega arith) (omega arith) h)
  | inr more ↦ elim (Bool-cases (ltb n 100)) [
    | inl two ↦
        rw (more, two)
          (octets_digit v 0 0 parts (n / 10) (n / 10) ((b'0' + n % 10) ∷ rest) (ground (arith, two))
              (omega arith) (omega arith) (omega (arith, h))
            ∙ octets_digit v (n / 10) 1 parts (n % 10) n rest (omega arith) (omega arith)
                (omega arith) h)
    | inr three ↦
        let low = (b'0' + n % 10) ∷ rest in
        rw (more, three)
          (octets_digit v 0 0 parts (n / 100) (n / 100) ((b'0' + n / 10 % 10) ∷ low)
              (omega (arith, h)) (omega arith) (omega arith) (omega (arith, h))
            ∙ octets_digit v (n / 100) 1 parts (n / 10 % 10) (n / 10) low (omega arith)
                (omega arith) (omega arith) (omega (arith, h))
            ∙ octets_digit v (n / 10) 2 parts (n % 10) n rest (omega arith) (omega arith)
                (omega arith) h)
  ]
]

octets_dot :
    (v n parts : ℕ) (rest : List ℕ)
    → parts < 3
    → octets v n (width n) parts (b'.' ∷ rest) ≡ octets (u32 (v * 2 ^ 8) + n) 0 0 (suc parts) rest
unfolding octets
octets_dot v n parts rest h = ground (arith, h)

octets_end : (v n : ℕ) → octets v n (width n) 3 [] ≡ some (u32 (v * 2 ^ 8) + n)
unfolding octets
octets_end v n = ground arith

-- The octets a.b.c.d, read one after the other.
octets-dotted :
    (a b c d : ℕ)
    → a < 256
    → b < 256
    → c < 256
    → d < 256
    → octets 0 0 0 0 (decimal a ++ (b'.' ∷ decimal b ++ (b'.' ∷ decimal c ++ (b'.' ∷ decimal d))))
      ≡ some (((a * 256 + b) * 256 + c) * 256 + d)
octets-dotted a b c d ha hb hc hd =
    let r3 = decimal d in
    let r2 = decimal c ++ (b'.' ∷ r3) in
    let r1 = decimal b ++ (b'.' ∷ r2) in
    let v1 = u32 (0 * 2 ^ 8) + a in
    let v2 = u32 (v1 * 2 ^ 8) + b in
    let v3 = u32 (v2 * 2 ^ 8) + c in
    let whole : u32 (v3 * 2 ^ 8) + d ≡ ((a * 256 + b) * 256 + c) * 256 + d =
      omega (arith, ha, hb, hc, hd) in
    octets-decimal 0 a 0 (b'.' ∷ r1) ha
    ∙ octets_dot 0 a 0 r1 (omega arith)
    ∙ octets-decimal v1 b 1 (b'.' ∷ r2) hb
    ∙ octets_dot v1 b 1 r2 (omega arith)
    ∙ octets-decimal v2 c 2 (b'.' ∷ r3) hc
    ∙ octets_dot v2 c 2 r3 (omega arith)
    ∙ ap (octets v3 0 0 3) (sym (append-nil r3))
    ∙ octets-decimal v3 d 3 [] hd
    ∙ octets_end v3 d
    ∙ ap some whole

length-decimal : (n : ℕ) → length (decimal n) ≤ 3
unfolding decimal
length-decimal n = ground arith

take_short : (n : ℕ) (xs : List ℕ) → length xs ≤ n → take n xs ≡ xs
take_short zero [] h = refl
take_short zero (x ∷ xs) h = absurd (omega (arith, h))
take_short (suc n) [] h = refl
take_short (suc n) (x ∷ xs) h = ap (◌∷◌ x) (take_short n xs (omega (arith, h)))

-- An address that is printed into 16 bytes or more is parsed back to the same word.
pub parse_ipv4-ip_str : (ip cap : ℕ) → ip < 2 ^ 32 → 16 ≤ cap → parse_ipv4 (ip_str ip cap) ≡ some ip
unfolding parse_ipv4 ip_str to_network
parse_ipv4-ip_str ip cap h room =
    let a = byte_of ip 0 in
    let b = byte_of ip 1 in
    let c = byte_of ip 2 in
    let d = byte_of ip 3 in
    let r3 = decimal d in
    let r2 = decimal c ++ (b'.' ∷ r3) in
    let r1 = decimal b ++ (b'.' ∷ r2) in
    let text = decimal a ++ (b'.' ∷ r1) in
    let short : length text ≤ cap - 1 = omega (
      arith,
      room,
      length-append (decimal a) (b'.' ∷ r1),
      length-append (decimal b) (b'.' ∷ r2),
      length-append (decimal c) (b'.' ∷ r3),
      length-decimal a,
      length-decimal b,
      length-decimal c,
      length-decimal d,
    ) in
    let whole = octets-dotted a b c d (omega arith) (omega arith) (omega arith) (omega arith) in
    rw (parse_ipv4, take_short (cap - 1) text short, whole) (ap some (omega (arith, h)))
