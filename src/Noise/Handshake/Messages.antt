-- ===== src/Noise/Handshake/Messages.antt =====
-- Where the fields of a message stand once its parts have their lengths.
use sys_amneziawg.Common.{
  ℕ, ◌^◌, ◌<◌, ◌≡◌, refl, ap, ◌∙◌, List, ◌++◌, append_assoc, length, take, drop, arith,
  take-append_length, drop-append_length, length-append,
}
use sys_amneziawg.Noise.Primitives.{put_u32_le, get_u32_le}
use sys_amneziawg.Noise.Handshake.{slice}

-- The middle one of three parts.
pub slice-append :
    (n k : ℕ) (xs ys zs : List ℕ)
    → length xs ≡ n
    → length ys ≡ k
    → slice n k (xs ++ (ys ++ zs)) ≡ ys
slice-append n k xs ys zs hx hy =
    ap (take k) (drop-append_length n xs (ys ++ zs) hx) ∙ take-append_length k ys zs hy

-- A 32-bit word is read back, whatever follows it.
pub get-put_u32_le : (v : ℕ) (rest : List ℕ) → v < 2 ^ 32 → get_u32_le (put_u32_le v ++ rest) ≡ v
unfolding get_u32_le put_u32_le
get-put_u32_le v rest h = omega arith

-- The parts of an initiation: head, sealed static key, sealed stamp, mac and the empty mac2.
module _ (head s1 s2 mac z : List ℕ) (lh : length head ≡ 40) (l1 : length s1 ≡ 48)
    (l2 : length s2 ≡ 28) (lm : length mac ≡ 16) where
  abbrev initiation : List ℕ
  initiation = ((head ++ s1) ++ s2) ++ (mac ++ z)

  prefix_length : length ((head ++ s1) ++ s2) ≡ 116
  prefix_length = omega (arith, length-append (head ++ s1) s2, length-append head s1)

  pub initiation_signed : take 116 initiation ≡ (head ++ s1) ++ s2
  initiation_signed = take-append_length 116 ((head ++ s1) ++ s2) (mac ++ z) prefix_length

  pub initiation-mac : slice 116 16 initiation ≡ mac
  initiation-mac = slice-append 116 16 ((head ++ s1) ++ s2) mac z prefix_length lm

  pub initiation_stamp : slice 88 28 initiation ≡ s2
  initiation_stamp =
      ap (slice 88 28) (append_assoc (head ++ s1) s2 (mac ++ z))
      ∙ slice-append 88 28 (head ++ s1) s2 (mac ++ z) (omega (arith, length-append head s1)) l2

  pub initiation_static : slice 40 48 initiation ≡ s1
  initiation_static =
      ap (slice 40 48)
        (append_assoc (head ++ s1) s2 (mac ++ z) ∙ append_assoc head s1 (s2 ++ (mac ++ z)))
      ∙ slice-append 40 48 head s1 (s2 ++ (mac ++ z)) lh l1

-- The head of an initiation, whatever follows it.
module _ (idx : ℕ) (eph s1 s2 tail : List ℕ) (fits : idx < 2 ^ 32) (le : length eph ≡ 32) where
  abbrev opened : List ℕ
  opened = (((put_u32_le 1 ++ (put_u32_le idx ++ eph)) ++ s1) ++ s2) ++ tail

  pub initiation_type : get_u32_le opened ≡ 1
  unfolding get_u32_le put_u32_le
  initiation_type = refl

  pub initiation_index : get_u32_le (drop 4 opened) ≡ idx
  unfolding get_u32_le put_u32_le
  initiation_index = omega arith

  pub initiation_eph : slice 8 32 opened ≡ eph
  unfolding put_u32_le
  initiation_eph =
      ap (take 32) (append_assoc (eph ++ s1) s2 tail ∙ append_assoc eph s1 (s2 ++ tail))
      ∙ take-append_length 32 eph (s1 ++ (s2 ++ tail)) le

pub initiation_head_length :
    (idx : ℕ) (eph : List ℕ)
    → length eph ≡ 32
    → length (put_u32_le 1 ++ (put_u32_le idx ++ eph)) ≡ 40
unfolding put_u32_le
initiation_head_length idx eph le = omega arith

-- A response: head, sealed nothing, mac and the empty mac2.
module _ (idx peer : ℕ) (eph s mac z : List ℕ) (fits : idx < 2 ^ 32) (peer_fits : peer < 2 ^ 32)
    (le : length eph ≡ 32) (ls : length s ≡ 16) (lm : length mac ≡ 16) where
  abbrev response : List ℕ
  response = ((put_u32_le 2 ++ (put_u32_le idx ++ (put_u32_le peer ++ eph))) ++ s) ++ (mac ++ z)

  response_head_length : length (put_u32_le 2 ++ (put_u32_le idx ++ (put_u32_le peer ++ eph))) ≡ 44
  unfolding put_u32_le
  response_head_length = omega (arith, le)

  response_signed_length :
      length ((put_u32_le 2 ++ (put_u32_le idx ++ (put_u32_le peer ++ eph))) ++ s) ≡ 60
  response_signed_length = omega (
    arith,
    response_head_length,
    ls,
    length-append (put_u32_le 2 ++ (put_u32_le idx ++ (put_u32_le peer ++ eph))) s,
  )

  pub response_type : get_u32_le response ≡ 2
  unfolding get_u32_le put_u32_le
  response_type = refl

  pub response_index : get_u32_le (drop 4 response) ≡ idx
  unfolding get_u32_le put_u32_le
  response_index = omega (arith, fits)

  pub response_peer : get_u32_le (drop 8 response) ≡ peer
  unfolding get_u32_le put_u32_le
  response_peer = omega (arith, peer_fits)

  pub response-eph : slice 12 32 response ≡ eph
  unfolding put_u32_le
  response-eph =
      ap (take 32) (append_assoc eph s (mac ++ z)) ∙ take-append_length 32 eph (s ++ (mac ++ z)) le

  pub response_signed :
      take 60 response ≡ (put_u32_le 2 ++ (put_u32_le idx ++ (put_u32_le peer ++ eph))) ++ s
  response_signed = take-append_length 60 _ (mac ++ z) response_signed_length

  pub response-mac : slice 60 16 response ≡ mac
  response-mac = slice-append 60 16 _ mac z response_signed_length lm

  pub response_empty : slice 44 16 response ≡ s
  response_empty =
      ap (slice 44 16)
        (append_assoc (put_u32_le 2 ++ (put_u32_le idx ++ (put_u32_le peer ++ eph))) s (mac ++ z))
      ∙ slice-append 44 16 _ s (mac ++ z) response_head_length ls

  pub response-length : length z ≡ 16 → length response ≡ 92
  response-length lz = omega (
    arith,
    response_signed_length,
    lm,
    length-append mac z,
    length-append ((put_u32_le 2 ++ (put_u32_le idx ++ (put_u32_le peer ++ eph))) ++ s) (mac ++ z),
  )
