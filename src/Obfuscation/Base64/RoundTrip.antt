-- ===== src/Obfuscation/Base64/RoundTrip.antt =====
-- Decoding undoes encoding.
use sys_amneziawg.Common.{
  ℕ, suc, ◌+◌, ◌-◌, ◌*◌, ◌/◌, ◌%◌, ◌^◌, ◌≤◌, ◌<◌, ◌≡◌, refl, sym, ap, ◌∙◌, true, false, Option,
  none, some, List, [], ◌∷◌, ◌++◌, length, leb, ltb, ◌==◌, u8, arith, Bool-cases, inl, inr, All,
  IsByte,
}
use sys_amneziawg.Obfuscation.Base64.{
  b64_char, unit, joined, put_units, encode_from, b64_encode_raw, b64_val, is_skipped, prepend,
  next_acc, decode_from, b64_decode,
}

b64_val-b64_char : (v : ℕ) → v < 64 → b64_val (b64_char v) ≡ some v
unfolding b64_val b64_char
b64_val-b64_char v h = ground arith

b64_char-kept : (v : ℕ) → v < 64 → (is_skipped (b64_char v) ≡ false) × ((b64_char v == 0) ≡ false)
unfolding is_skipped b64_char
b64_char-kept v h = (ground arith, ground arith)

decode_short :
    (cap acc bits o v : ℕ) (xs : List ℕ)
    → v < 64
    → bits + 6 < 8
    → decode_from cap acc bits o (b64_char v ∷ xs)
      ≡ decode_from cap (next_acc acc (some v)) (bits + 6) o xs
unfolding decode_from
decode_short cap acc bits o v xs h few =
    let (kept, nonzero) = b64_char-kept v h in
    let val = b64_val-b64_char v h in
    let short : leb 8 (bits + 6) ≡ false = ground arith in
    rw (nonzero, kept, val, short) (ap (λ w. decode_from cap (next_acc acc w) (bits + 6) o xs) val)

decode_full :
    (cap acc bits o v : ℕ) (xs : List ℕ)
    → v < 64
    → 8 ≤ bits + 6
    → o < cap
    → decode_from cap acc bits o (b64_char v ∷ xs)
      ≡ prepend
          (u8 (next_acc acc (some v) / 2 ^ (bits + 6 - 8)))
          (decode_from cap (next_acc acc (some v)) (bits + 6 - 8) (suc o) xs)
unfolding decode_from
decode_full cap acc bits o v xs h many room =
    let (kept, nonzero) = b64_char-kept v h in
    let val = b64_val-b64_char v h in
    let full : leb 8 (bits + 6) ≡ true = ground arith in
    let fits : leb cap o ≡ false = ground arith in
    rw (nonzero, kept, val, full, fits)
      (ap
        (λ w.
          prepend (u8 (next_acc acc w / 2 ^ (bits + 6 - 8)))
            (decode_from cap (next_acc acc w) (bits + 6 - 8) (suc o) xs))
        val)

-- The bytes that two neighbouring characters give.
first_byte :
    (acc a v0 v1 : ℕ)
    → v0 * 4 + v1 / 16 ≡ a
    → v1 < 64
    → a < 256
    → u8 (next_acc (next_acc acc (some v0)) (some v1) / 2 ^ 4) ≡ a
unfolding next_acc
first_byte acc a v0 v1 e h lt = omega (arith, e, h, lt)

second_byte :
    (acc b v1 v2 : ℕ)
    → v1 % 16 * 16 + v2 / 4 ≡ b
    → v2 < 64
    → u8 (next_acc (next_acc acc (some v1)) (some v2) / 2 ^ 2) ≡ b
unfolding next_acc
second_byte acc b v1 v2 e h = omega (arith, e, h)

third_byte :
    (acc c v2 v3 : ℕ)
    → v2 % 4 * 64 + v3 ≡ c
    → v3 < 64
    → u8 (next_acc (next_acc acc (some v2)) (some v3) / 2 ^ 0) ≡ c
unfolding next_acc
third_byte acc c v2 v3 e h = omega (arith, e, h)

module _ (cap acc o v0 v1 : ℕ) (h0 : v0 < 64) (h1 : v1 < 64) where
  abbrev acc1 : ℕ
  acc1 = next_acc acc (some v0)

  abbrev acc2 : ℕ
  acc2 = next_acc acc1 (some v1)

  -- Two characters give one byte.
  decode_two :
      (a : ℕ) (ys : List ℕ)
      → v0 * 4 + v1 / 16 ≡ a
      → a < 256
      → o < cap
      → decode_from cap acc 0 o (b64_char v0 ∷ (b64_char v1 ∷ ys))
        ≡ prepend a (decode_from cap acc2 4 (suc o) ys)
  decode_two a ys ea la room =
      decode_short cap acc 0 o v0 (b64_char v1 ∷ ys) h0 (omega arith)
      ∙ decode_full cap acc1 6 o v1 ys h1 (omega arith) room
      ∙ ap (λ x. prepend x (decode_from cap acc2 4 (suc o) ys)) (first_byte acc a v0 v1 ea h1 la)

  module _ (v2 : ℕ) (h2 : v2 < 64) where
    abbrev acc3 : ℕ
    acc3 = next_acc acc2 (some v2)

    -- Three characters give two bytes.
    decode_three :
        (a b : ℕ) (ys : List ℕ)
        → v0 * 4 + v1 / 16 ≡ a
        → v1 % 16 * 16 + v2 / 4 ≡ b
        → a < 256
        → suc o < cap
        → decode_from cap acc 0 o (b64_char v0 ∷ (b64_char v1 ∷ (b64_char v2 ∷ ys)))
          ≡ prepend a (prepend b (decode_from cap acc3 2 (suc (suc o)) ys))
    decode_three a b ys ea eb la room =
        decode_two a (b64_char v2 ∷ ys) ea la (omega (arith, room))
        ∙ ap (prepend a) (
            decode_full cap acc2 4 (suc o) v2 ys h2 (omega arith) room
            ∙ ap (λ x. prepend x (decode_from cap acc3 2 (suc (suc o)) ys))
                (second_byte acc1 b v1 v2 eb h2))

    -- Four characters give three bytes.
    decode_four :
        (v3 a b c : ℕ) (ys : List ℕ)
        → v3 < 64
        → v0 * 4 + v1 / 16 ≡ a
        → v1 % 16 * 16 + v2 / 4 ≡ b
        → v2 % 4 * 64 + v3 ≡ c
        → a < 256
        → suc (suc o) < cap
        → decode_from cap acc 0 o (b64_char v0 ∷ (b64_char v1 ∷ (b64_char v2 ∷ (b64_char v3 ∷ ys))))
          ≡ prepend a (
              prepend b
                (prepend c (decode_from cap (next_acc acc3 (some v3)) 0 (suc (suc (suc o))) ys)))
    decode_four v3 a b c ys h3 ea eb ec la room =
        decode_three a b (b64_char v3 ∷ ys) ea eb la (omega (arith, room))
        ∙ ap (λ r. prepend a (prepend b r))
            (decode_full cap acc3 2 (suc (suc o)) v3 ys h3 (omega arith) room
              ∙ ap
                  (λ x.
                    prepend x (decode_from cap (next_acc acc3 (some v3)) 0 (suc (suc (suc o))) ys))
                  (third_byte acc2 c v2 v3 ec h3))

some_inj : {x y : List ℕ} → some x ≡ some y → x ≡ y
some_inj e = cc

split_rest :
    (units : List ℕ) (rest : Option (List ℕ)) (ys : List ℕ)
    → joined units rest ≡ some ys
    → (zs : List ℕ) × (rest ≡ some zs) × (units ++ zs ≡ ys)
split_rest units none ys e = cc
split_rest units (some zs) ys e = (zs, refl, some_inj e)

put_units_inv :
    (o room : ℕ) (units : List ℕ) (rest : Option (List ℕ)) (ys : List ℕ)
    → put_units o room units rest ≡ some ys
    → (zs : List ℕ) × (rest ≡ some zs) × (units ++ zs ≡ ys)
unfolding put_units
put_units_inv o room units rest ys e = elim (Bool-cases (ltb room (o + length units))) [
  | inl over ↦ absurd (ground (arith, over, e))
  | inr fits ↦ split_rest units rest ys (rw fits at e)
]

-- `acc` after two, three and four characters of v.
abbrev after_two : ℕ → ℕ → ℕ
after_two acc v = next_acc (next_acc acc (some (v / 2 ^ 18 % 64))) (some (v / 2 ^ 12 % 64))

abbrev after_three : ℕ → ℕ → ℕ
after_three acc v = next_acc (after_two acc v) (some (v / 2 ^ 6 % 64))

abbrev after_four : ℕ → ℕ → ℕ
after_four acc v = next_acc (after_three acc v) (some (v / 2 ^ 0 % 64))

digit_lt : (v shift : ℕ) → v / 2 ^ shift % 64 < 64
digit_lt v shift = omega arith

-- From a multiple of eight bits on, an encoding is decoded to what was encoded.
decode-encode :
    (room cap acc p o : ℕ) (xs ys : List ℕ)
    → All IsByte xs
    → o + length xs ≤ cap
    → encode_from p room xs ≡ some ys
    → decode_from cap acc 0 o ys ≡ some xs
unfolding encode_from decode_from
decode-encode room cap acc p o [] ys h le e = ap (decode_from cap acc 0 o) (sym (some_inj e))
decode-encode room cap acc p o (a ∷ []) ys (ha, h) le e =
    let v = a * 2 ^ 16 in
    let (zs, ends, eq) = put_units_inv p room (unit v 18 ∷ unit v 12 ∷ []) (some []) ys e in
    ap (decode_from cap acc 0 o) (sym eq)
    ∙ decode_two cap acc o (v / 2 ^ 18 % 64) (v / 2 ^ 12 % 64) (digit_lt v 18) (digit_lt v 12) a zs
        (omega (arith, ha)) ha (omega (arith, le))
    ∙ ap (λ t. prepend a (decode_from cap (after_two acc v) 4 (suc o) t)) (sym (some_inj ends))
decode-encode room cap acc p o (a ∷ (b ∷ [])) ys (ha, (hb, h)) le e =
    let v = a * 2 ^ 16 + b * 2 ^ 8 in
    let (zs, ends, eq) =
      put_units_inv p room (unit v 18 ∷ unit v 12 ∷ unit v 6 ∷ []) (some []) ys e in
    ap (decode_from cap acc 0 o) (sym eq)
    ∙ decode_three cap acc o (v / 2 ^ 18 % 64) (v / 2 ^ 12 % 64) (digit_lt v 18) (digit_lt v 12)
        (v / 2 ^ 6 % 64) (digit_lt v 6) a b zs (omega (arith, ha, hb)) (omega (arith, ha, hb)) ha
        (omega (arith, le))
    ∙ ap (λ t. prepend a (prepend b (decode_from cap (after_three acc v) 2 (suc (suc o)) t)))
        (sym (some_inj ends))
decode-encode room cap acc p o (a ∷ (b ∷ (c ∷ rest))) ys (ha, (hb, (hc, h))) le e =
    let v = a * 2 ^ 16 + b * 2 ^ 8 + c in
    let (zs, more, eq) =
      put_units_inv p room (unit v 18 ∷ unit v 12 ∷ unit v 6 ∷ unit v 0 ∷ [])
        (encode_from (p + 4) room rest) ys e in
    ap (decode_from cap acc 0 o) (sym eq)
    ∙ decode_four cap acc o (v / 2 ^ 18 % 64) (v / 2 ^ 12 % 64) (digit_lt v 18) (digit_lt v 12)
        (v / 2 ^ 6 % 64) (digit_lt v 6) (v / 2 ^ 0 % 64) a b c zs (digit_lt v 0)
        (omega (arith, ha, hb, hc)) (omega (arith, ha, hb, hc)) (omega (arith, ha, hb, hc)) ha
        (omega (arith, le))
    ∙ ap (λ r. prepend a (prepend b (prepend c r)))
        (decode-encode room cap (after_four acc v) (p + 4) (suc (suc (suc o))) rest zs h
          (omega (arith, le)) more)

-- Bytes that are encoded come back when the text is decoded, if the buffer holds them.
pub b64_decode-encode :
    (xs ys : List ℕ) (room cap : ℕ)
    → All IsByte xs
    → length xs ≤ cap
    → b64_encode_raw xs room ≡ some ys
    → b64_decode ys cap ≡ some xs
unfolding b64_encode_raw b64_decode
b64_decode-encode xs ys room cap h le e = decode-encode room cap 0 0 0 xs ys h (omega (arith, le)) e
