-- ===== src/Obfuscation/Base64/Bounds.antt =====
-- How many characters an encoding has, and how many bytes a decoding.
use sys_amneziawg.Common.{
  ℕ, suc, ◌+◌, ◌-◌, ◌*◌, ◌/◌, ◌%◌, ◌^◌, ◌≤◌, ◌<◌, ◌≡◌, refl, ap, ◌∙◌, subst, max, false, Option,
  none, some, List, [], ◌∷◌, ◌++◌, length, ltb, leb, ◌==◌, if◌then◌else◌, arith, Bool-cases,
  Option-cases, inl, inr, length-append,
}
use sys_amneziawg.Obfuscation.Base64.{
  unit, put_units, encode_from, b64_encode_raw, b64_val, is_skipped, prepend, next_acc, decode_from,
  b64_decode,
}

-- Four characters for three bytes, and one more than the bytes for the rest.
abbrev pub encoded_len : ℕ → ℕ
encoded_len n = n / 3 * 4 + (if n % 3 == 0 then 0 else n % 3 + 1)

-- An encoding of n characters.
abbrev Encodes : Option (List ℕ) → ℕ → Type 0
Encodes r n = (ys : List ℕ) × (r ≡ some ys) × (length ys ≡ n)

put_units-Encodes :
    (o cap : ℕ) (units : List ℕ) (rest : Option (List ℕ)) (n : ℕ)
    → o + length units ≤ cap
    → Encodes rest n
    → Encodes (put_units o cap units rest) (length units + n)
unfolding put_units
put_units-Encodes o cap units rest n le (ys, e, size) =
    let fits : ltb cap (o + length units) ≡ false = ground arith in
    (units ++ ys, rw (fits, e) refl, length-append units ys ∙ ap (λ k. length units + k) size)

encode_from-Encodes :
    (o cap : ℕ) (xs : List ℕ)
    → o + encoded_len (length xs) ≤ cap
    → Encodes (encode_from o cap xs) (encoded_len (length xs))
unfolding encode_from
encode_from-Encodes o cap [] le = ([], refl, refl)
encode_from-Encodes o cap (a ∷ []) le = put_units-Encodes o cap _ (some []) 0 le ([], refl, refl)
encode_from-Encodes o cap (a ∷ (b ∷ [])) le =
    put_units-Encodes o cap _ (some []) 0 le ([], refl, refl)
encode_from-Encodes o cap (a ∷ (b ∷ (c ∷ rest))) le =
    let v = a * 2 ^ 16 + b * 2 ^ 8 + c in
    let more : encoded_len (length (a ∷ (b ∷ (c ∷ rest)))) ≡ 4 + encoded_len (length rest) =
      ground arith in
    let step =
      put_units-Encodes o cap (unit v 18 ∷ unit v 12 ∷ unit v 6 ∷ unit v 0 ∷ [])
        (encode_from (o + 4) cap rest) (encoded_len (length rest)) (omega (arith, le, more))
        (encode_from-Encodes (o + 4) cap rest (omega (arith, le, more))) in
    rw more step

-- A buffer of the computed size holds the encoding, which has exactly that length.
pub b64_encode_raw-fits :
    (xs : List ℕ) (cap : ℕ)
    → encoded_len (length xs) ≤ cap
    → (ys : List ℕ) × (b64_encode_raw xs cap ≡ some ys) × (length ys ≡ encoded_len (length xs))
unfolding b64_encode_raw
b64_encode_raw-fits xs cap le = encode_from-Encodes 0 cap xs (omega (arith, le))

-- A decoding that starts at `o` ends within the buffer.
abbrev EndsWithin : ℕ → ℕ → Option (List ℕ) → Type 0
EndsWithin cap o none = Unit {0}
EndsWithin cap o (some ys) = length ys + o ≤ max cap o

prepend-EndsWithin :
    (cap o x : ℕ) (r : Option (List ℕ))
    → o < cap
    → EndsWithin cap (suc o) r
    → EndsWithin cap o (prepend x r)
prepend-EndsWithin cap o x none lt h = tt
prepend-EndsWithin cap o x (some ys) lt h = omega (arith, h, lt)

decode_from-EndsWithin :
    (cap acc bits o : ℕ) (xs : List ℕ) → EndsWithin cap o (decode_from cap acc bits o xs)
unfolding decode_from
decode_from-EndsWithin cap acc bits o [] = omega arith
decode_from-EndsWithin cap acc bits o (x ∷ xs) = elim (Bool-cases (x == 0)) [
  | inl end ↦ rw end (omega arith)
  | inr more ↦ elim (Bool-cases (is_skipped x)) [
    | inl skip ↦ rw (more, skip) (decode_from-EndsWithin cap acc bits o xs)
    | inr char ↦ elim (Option-cases (b64_val x)) [
      | inl bad ↦ rw (more, char, bad) tt
      | inr (n, e) ↦ elim (Bool-cases (leb 8 (bits + 6))) [
        | inr short ↦
            rw (more, char, e, short)
              (decode_from-EndsWithin cap (next_acc acc (b64_val x)) (bits + 6) o xs)
        | inl full ↦ elim (Bool-cases (leb cap o)) [
          | inl over ↦ rw (more, char, e, full, over) tt
          | inr room ↦
              rw (more, char, e, full, room)
                (prepend-EndsWithin cap o _ _ (ground arith)
                  (decode_from-EndsWithin cap (next_acc acc (b64_val x)) (bits + 6 - 8) (suc o) xs))
        ]
      ]
    ]
  ]
]

-- Whatever the text, a decoding writes no more bytes than the buffer has.
pub b64_decode-fits :
    (xs : List ℕ) (cap : ℕ) (ys : List ℕ) → b64_decode xs cap ≡ some ys → length ys ≤ cap
unfolding b64_decode
b64_decode-fits xs cap ys e =
    let h : EndsWithin cap 0 (some ys) =
      subst (EndsWithin cap 0) e (decode_from-EndsWithin cap 0 0 0 xs) in
    omega (arith, h)
