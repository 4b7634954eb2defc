-- ===== src/Obfuscation/Base64.antt =====
-- Base64 without padding, source/awg_obf.c: awg_b64_encode_raw and awg_b64_decode.
pub mod Bounds
pub mod RoundTrip
use sys_amneziawg.Common.{
  ℕ, zero, suc, ◌+◌, ◌-◌, ◌*◌, ◌/◌, ◌%◌, ◌^◌, Bool, true, false, ◌&&◌, ◌||◌, Option, none, some,
  List, [], ◌∷◌, ◌++◌, length, ltb, leb, ◌==◌, if◌then◌else◌, u8, u32,
}

-- B64[v] for v below 64.
unfoldable pub b64_char : ℕ → ℕ
b64_char v =
    if ltb v 26
    then b'A' + v
    else if ltb v 52
    then b'a' + (v - 26)
    else if ltb v 62
    then b'0' + (v - 52)
    else if v == 62
    then b'+'
    else b'/'

-- B64[(v >> shift) & 0x3F].
abbrev pub unit : ℕ → ℕ → ℕ
unit v shift = b64_char (v / 2 ^ shift % 64)

abbrev pub joined : List ℕ → Option (List ℕ) → Option (List ℕ)
joined units none = none
joined units (some cs) = some (units ++ cs)

-- Up to three bytes fill 24 bits from the top; `units` characters come of them, if they fit.
unfoldable pub put_units : ℕ → ℕ → List ℕ → Option (List ℕ) → Option (List ℕ)
put_units o cap units rest = if ltb cap (o + length units) then none else joined units rest

unfoldable pub encode_from : ℕ → ℕ → List ℕ → Option (List ℕ)
encode_from o cap [] = some []
encode_from o cap (a ∷ []) =
    let v = a * 2 ^ 16 in put_units o cap (unit v 18 ∷ unit v 12 ∷ []) (some [])
encode_from o cap (a ∷ (b ∷ [])) =
    let v = a * 2 ^ 16 + b * 2 ^ 8 in
    put_units o cap (unit v 18 ∷ unit v 12 ∷ unit v 6 ∷ []) (some [])
encode_from o cap (a ∷ (b ∷ (c ∷ rest))) =
    let v = a * 2 ^ 16 + b * 2 ^ 8 + c in
    put_units o cap (unit v 18 ∷ unit v 12 ∷ unit v 6 ∷ unit v 0 ∷ [])
      (encode_from (o + 4) cap rest)

unfoldable pub b64_encode_raw : List ℕ → ℕ → Option (List ℕ)
b64_encode_raw xs cap = encode_from 0 cap xs

abbrev pub within : ℕ → ℕ → ℕ → Bool
within lo hi x = leb lo x && leb x hi

unfoldable pub b64_val : ℕ → Option ℕ
b64_val x =
    if within b'A' b'Z' x
    then some (x - b'A')
    else if within b'a' b'z' x
    then some (x - b'a' + 26)
    else if within b'0' b'9' x
    then some (x - b'0' + 52)
    else if x == b'+'
    then some 62
    else if x == b'/'
    then some 63
    else none

-- '=', '\n', '\r' and ' ' are passed over.
unfoldable pub is_skipped : ℕ → Bool
is_skipped x = x == b'=' || (x == 10 || (x == 13 || x == b' '))

-- Prepends a byte to a result.
abbrev pub prepend : ℕ → Option (List ℕ) → Option (List ℕ)
prepend x none = none
prepend x (some xs) = some (x ∷ xs)

-- (acc << 6) | v.
unfoldable pub next_acc : ℕ → Option ℕ → ℕ
next_acc acc none = acc
next_acc acc (some v) = u32 (acc * 64 + v)

-- The loop, with `acc`, `bits` and `o`. A zero ends the string.
unfoldable pub decode_from : ℕ → ℕ → ℕ → ℕ → List ℕ → Option (List ℕ)
decode_from cap acc bits o [] = some []
decode_from cap acc bits o (x ∷ xs) =
    let v = b64_val x in
    let acc' = next_acc acc v in
    let skipped = decode_from cap acc bits o xs in
    let short = decode_from cap acc' (bits + 6) o xs in
    let full = decode_from cap acc' (bits + 6 - 8) (suc o) xs in
    if x == 0 then some [] else if is_skipped x then skipped else elim v [
      | none ↦ none
      | some n ↦
          if leb 8 (bits + 6)
          then (if leb cap o then none else prepend (u8 (acc' / 2 ^ (bits + 6 - 8))) full)
          else short
    ]

unfoldable pub b64_decode : List ℕ → ℕ → Option (List ℕ)
b64_decode xs cap = decode_from cap 0 0 0 xs
