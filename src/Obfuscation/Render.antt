-- ===== src/Obfuscation/Render.antt =====
-- Rendering a template, source/awg_obf.c: awg_obf_out_len and awg_obf_render.
pub mod Lengths
use sys_amneziawg.Common.{
  ℕ, zero, suc, ◌+◌, ◌-◌, ◌*◌, ◌/◌, ◌%◌, ◌^◌, Bool, Option, none, some, List, [], ◌∷◌, ◌++◌, length,
  replicate, map, get_or, if◌then◌else◌, ◌==◌, ltb, u8, u32, Entropy, random_bytes,
}
use sys_amneziawg.Types.{
  ObfKind, bytes, rand, randchars, randdigits, timestamp, payload, datastring, datasize, Obf,
  ObfChain,
}
use sys_amneziawg.Obfuscation.Base64.{b64_encode_raw}

unfoldable pub kind_out_len : ObfKind → Obf → ℕ → ℕ
kind_out_len bytes o n = length o.literal
kind_out_len rand o n = o.len
kind_out_len randchars o n = o.len
kind_out_len randdigits o n = o.len
kind_out_len timestamp o n = 4
kind_out_len payload o n = n
kind_out_len datasize o n = o.len
kind_out_len datastring o n = n / 3 * 4 + (if n % 3 == 0 then 0 else n % 3 + 1)

unfoldable pub tag_out_len : Obf → ℕ → ℕ
unfolding kind_out_len
tag_out_len o n = kind_out_len o.kind o n

abbrev pub items_out_len : List Obf → ℕ → ℕ
items_out_len [] n = 0
items_out_len (o ∷ os) n = tag_out_len o n + items_out_len os n

unfoldable pub out_len : Option ObfChain → ℕ → ℕ
out_len none n = 0
out_len (some c) n = items_out_len c.items n

-- alphabet[x], for CHARS52 and DIGITS10.
abbrev pub letter : ℕ → ℕ
letter x = if ltb x 26 then b'a' + x else b'A' + (x - 26)

abbrev pub digit : ℕ → ℕ
digit x = b'0' + x

unfoldable pub fill_random_from : ℕ → (ℕ → ℕ) → ℕ → Entropy → List ℕ × Entropy
fill_random_from n alphabet size e =
    let (xs, e') = random_bytes n e in (map (λ x. alphabet (x % size)) xs, e')

-- The low bytes of v, the highest first.
unfoldable pub put_be : ℕ → ℕ → List ℕ
put_be zero v = []
put_be (suc k) v = put_be k (v / 256) ++ (v % 256 ∷ [])

-- The bytes of a tag; none where awg_b64_encode_raw answers -1, which the code does not look at and
-- which leaves a part of the announced bytes unwritten.
unfoldable pub render_kind : ObfKind → Obf → List ℕ → ℕ → Entropy → Option (List ℕ) × Entropy
unfolding kind_out_len
render_kind bytes o src now e = (some o.literal, e)
render_kind rand o src now e = let (xs, e') = random_bytes o.len e in (some xs, e')
render_kind randchars o src now e =
    let (xs, e') = fill_random_from o.len letter 52 e in (some xs, e')
render_kind randdigits o src now e =
    let (xs, e') = fill_random_from o.len digit 10 e in (some xs, e')
render_kind timestamp o src now e = (some (put_be 4 (u32 now)), e)
render_kind payload o src now e = (some src, e)
render_kind datastring o src now e =
    (b64_encode_raw src (kind_out_len datastring o (length src)), e)
render_kind datasize o src now e = (some (put_be o.len (u32 (length src))), e)

-- A tag is written where the announced lengths of those in front of it end: bytes of another length
-- than announced leave a gap or run into the next tag, which is none.
abbrev pub put_tag : ℕ → Option (List ℕ) → Option (List ℕ) → Option (List ℕ)
put_tag n none rest = none
put_tag n (some xs) none = none
put_tag n (some xs) (some ys) = if length xs == n then some (xs ++ ys) else none

unfoldable pub render_items : List Obf → List ℕ → ℕ → Entropy → Option (List ℕ) × Entropy
render_items [] src now e = (some [], e)
render_items (o ∷ os) src now e =
    let (xs, e') = render_kind o.kind o src now e in
    let (ys, e'') = render_items os src now e' in (put_tag (tag_out_len o (length src)) xs ys, e'')

-- What awg_obf_render writes from `dst` on.
unfoldable pub render : Option ObfChain → List ℕ → ℕ → Entropy → Option (List ℕ) × Entropy
render none src now e = (some [], e)
render (some c) src now e = render_items c.items src now e
