-- ===== src/Obfuscation/Render/Lengths.antt =====
-- A template renders to the length that was announced for it.
use sys_amneziawg.Common.{
  ℕ, zero, suc, ◌+◌, ◌%◌, ◌/◌, ◌≡◌, refl, ap₂, ◌∙◌, true, ◌++◌, ◌==◌, Option, none, some, List, [],
  ◌∷◌, length, u32, Entropy, random_bytes, length-random_bytes, length-map, length-append, arith,
}
use sys_amneziawg.Types.{
  ObfKind, bytes, rand, randchars, randdigits, timestamp, payload, datastring, datasize, Obf,
  ObfChain,
}
use sys_amneziawg.Obfuscation.Base64.Bounds.{encoded_len, b64_encode_raw-fits}
use sys_amneziawg.Obfuscation.Render.{
  kind_out_len, tag_out_len, items_out_len, out_len, letter, digit, fill_random_from, put_be,
  render_kind, render_items, render,
}

length-put_be : (n v : ℕ) → length (put_be n v) ≡ n
unfolding put_be
length-put_be zero v = refl
length-put_be (suc n) v =
    omega (arith, length-append (put_be n (v / 256)) (v % 256 ∷ []), length-put_be n (v / 256))

length-fill_random_from :
    (n : ℕ) (alphabet : ℕ → ℕ) (size : ℕ) (e : Entropy)
    → length (fill_random_from n alphabet size e).0 ≡ n
unfolding fill_random_from
length-fill_random_from n alphabet size e =
    length-map (λ x. alphabet (x % size)) (random_bytes n e).0 ∙ length-random_bytes n e

-- Bytes that were written, `n` of them.
abbrev pub Fills : ℕ → Option (List ℕ) → Type 0
Fills n r = (xs : List ℕ) × (r ≡ some xs) × (length xs ≡ n)

render_kind-Fills :
    (k : ObfKind) (o : Obf) (src : List ℕ) (now : ℕ) (e : Entropy)
    → Fills (kind_out_len k o (length src)) (render_kind k o src now e).0
unfolding render_kind kind_out_len
render_kind-Fills bytes o src now e = (o.literal, refl, refl)
render_kind-Fills rand o src now e = ((random_bytes o.len e).0, refl, length-random_bytes o.len e)
render_kind-Fills randchars o src now e =
    ((fill_random_from o.len letter 52 e).0, refl, length-fill_random_from o.len letter 52 e)
render_kind-Fills randdigits o src now e =
    ((fill_random_from o.len digit 10 e).0, refl, length-fill_random_from o.len digit 10 e)
render_kind-Fills timestamp o src now e = (put_be 4 (u32 now), refl, length-put_be 4 (u32 now))
render_kind-Fills payload o src now e = (src, refl, refl)
render_kind-Fills datastring o src now e =
    b64_encode_raw-fits src (encoded_len (length src)) (omega arith)
render_kind-Fills datasize o src now e =
    (put_be o.len (u32 (length src)), refl, length-put_be o.len (u32 (length src)))

render_items-Fills :
    (os : List Obf) (src : List ℕ) (now : ℕ) (e : Entropy)
    → Fills (items_out_len os (length src)) (render_items os src now e).0
unfolding render_items tag_out_len
render_items-Fills [] src now e = ([], refl, refl)
render_items-Fills (o ∷ os) src now e =
    let e' = (render_kind o.kind o src now e).1 in
    let (xs, is_xs, size) = render_kind-Fills o.kind o src now e in
    let (ys, is_ys, sizes) = render_items-Fills os src now e' in
    let fits : (length xs == kind_out_len o.kind o (length src)) ≡ true = ground (arith, size) in
    (
      xs ++ ys,
      rw (is_xs, is_ys, fits) refl,
      length-append xs ys ∙ ap₂ (λ (a b : ℕ). a + b) size sizes,
    )

-- A template is written without a gap, an overlap or an encoding that fails: every tag fills the
-- bytes that are announced for it, and the whole fills what awg_obf_out_len announces, so that a
-- buffer of that size is filled and not overrun.
pub render-Fills :
    (c : Option ObfChain) (src : List ℕ) (now : ℕ) (e : Entropy)
    → Fills (out_len c (length src)) (render c src now e).0
unfolding render out_len
render-Fills none src now e = ([], refl, refl)
render-Fills (some c) src now e = render_items-Fills c.items src now e
