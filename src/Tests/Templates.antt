-- ===== src/Tests/Templates.antt =====
-- The theorems on templates, base64 and the log of power states.
use sys_amneziawg.Common.{ℕ, ◌≡◌, refl, some, none, List, [], ◌∷◌, length, arith}
use sys_amneziawg.Types.{ObfChain, bytes, datastring, rand}
use sys_amneziawg.Obfuscation.Base64.{
  b64_encode_raw, b64_decode, decode_from, next_acc, b64_val, is_skipped,
}
use sys_amneziawg.Obfuscation.Base64.{encode_from, put_units, b64_char}
use sys_amneziawg.Obfuscation.Base64.RoundTrip.{b64_decode-encode}
use sys_amneziawg.Obfuscation.Render.{render, out_len}
use sys_amneziawg.Obfuscation.Render.Lengths.{Fills, render-Fills}
use sys_amneziawg.Obfuscation.Parse.{parse_items}
use sys_amneziawg.Obfuscation.Parse.Fuel.{parse_items-fuel}
use sys_amneziawg.Power.{Covers, look_at, look_at-Covers}
use sys_amneziawg.Tests.Toy as Toy

abbrev text : List ℕ
text = 77 ∷ 97 ∷ 110 ∷ 33 ∷ []

abbrev man : List ℕ
man = 77 ∷ 97 ∷ 110 ∷ []

decoded : b64_decode (b'T' ∷ b'W' ∷ b'F' ∷ b'u' ∷ []) 3 ≡ some man
unfolding b64_decode decode_from next_acc b64_val is_skipped
decoded = refl

abbrev chain : ObfChain
chain = record {
  items =
      record { kind = bytes; len = 0; literal = 1 ∷ 2 ∷ [] }
      ∷ record { kind = rand; len = 3; literal = [] }
      ∷ record { kind = datastring; len = 0; literal = [] }
      ∷ [];
  spec = none;
}

render_example :
    Fills (out_len (some chain) (length text)) (render (some chain) text 1000 Toy.bytes).0
render_example = render-Fills (some chain) text 1000 Toy.bytes

-- "<t>".
abbrev spec : List ℕ
spec = b'<' ∷ b't' ∷ b'>' ∷ []

parse_example :
    parse_items (λ (xs : List ℕ). some 0) 9 spec ≡ parse_items (λ (xs : List ℕ). some 0) 4 spec
parse_example = parse_items-fuel (λ (xs : List ℕ). some 0) 9 spec (omega arith)

look_example : Covers 3 0 40 (look_at (some 3) 0 40).1
look_example = look_at-Covers 3 0 40

man_text : b64_encode_raw man 8 ≡ some (b'T' ∷ b'W' ∷ b'F' ∷ b'u' ∷ [])
unfolding b64_encode_raw encode_from put_units b64_char
man_text = refl

round_trip_example : b64_decode (b'T' ∷ b'W' ∷ b'F' ∷ b'u' ∷ []) 3 ≡ some man
round_trip_example =
    b64_decode-encode man (b'T' ∷ b'W' ∷ b'F' ∷ b'u' ∷ []) 8 3
      (omega arith, (omega arith, (omega arith, tt))) (omega arith) man_text
