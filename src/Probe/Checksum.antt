-- ===== src/Probe/Checksum.antt =====
-- The checksums that the probe writes are the ones that a receiver checks.
use sys_amneziawg.Common.{
  ℕ, ◌+◌, ◌*◌, ◌^◌, ◌≤◌, ◌<◌, ◌≡◌, List, [], ◌∷◌, ◌++◌, length, arith, u32, All, IsByte, ap, ◌∙◌,
}
use sys_amneziawg.Noise.Primitives.{put_u32_le}
use sys_amneziawg.Probe.{
  sum16, fold_carries, fold, udp_checksum, ip_header, udp_header, patch, pseudo_sum,
}

-- The sum with no wrap.
abbrev pub words_sum : List ℕ → ℕ
words_sum [] = 0
words_sum (a ∷ []) = a * 2 ^ 8
words_sum (a ∷ (b ∷ rest)) = a * 2 ^ 8 + b + words_sum rest

pub sum16-words_sum :
    (xs : List ℕ) (acc : ℕ) → acc + words_sum xs < 2 ^ 32 → sum16 xs acc ≡ acc + words_sum xs
unfolding sum16
sum16-words_sum [] acc h = omega arith
sum16-words_sum (a ∷ []) acc h = omega (arith, h)
sum16-words_sum (a ∷ (b ∷ rest)) acc h =
    let e : u32 (acc + (a * 2 ^ 8 + b)) ≡ acc + (a * 2 ^ 8 + b) = omega (arith, h) in
    rw e (omega (arith, h, sum16-words_sum rest (acc + (a * 2 ^ 8 + b)) (omega (arith, h))))

-- The loop over the carries has run out of them after two turns.
pub fold_carries-lt : (acc : ℕ) → acc < 2 ^ 32 → fold_carries 2 acc < 2 ^ 16
unfolding fold_carries
fold_carries-lt acc h = ground arith

pub fold-complement : (s : ℕ) → 0 < s → s + 65535 < 2 ^ 32 → fold (s + fold s) ≡ 0
unfolding fold fold_carries
fold-complement s pos h = ground arith

udp_checksum-complement : (s : ℕ) → 0 < s → s + 65535 < 2 ^ 32 → fold (s + udp_checksum s) ≡ 0
unfolding udp_checksum fold fold_carries
udp_checksum-complement s pos h = ground arith

fold-lt : (s : ℕ) → fold s < 2 ^ 16
unfolding fold
fold-lt s = omega arith

udp_checksum-lt : (s : ℕ) → udp_checksum s < 2 ^ 16
unfolding udp_checksum
udp_checksum-lt s = ground (arith, fold-lt s)

words_sum-bound : (xs : List ℕ) → All IsByte xs → words_sum xs ≤ 2 ^ 15 * (length xs + 1)
words_sum-bound [] h = omega arith
words_sum-bound (a ∷ []) h = omega (arith, h.0)
words_sum-bound (a ∷ (b ∷ rest)) h = omega (arith, h.0, h.1.0, words_sum-bound rest h.1.1)

header_sum :
    (total txid src dst v : ℕ)
    → v < 2 ^ 16
    → let head = ip_header total txid src dst in
      (words_sum (patch 10 v head) ≡ words_sum head + v)
      × (0 < words_sum head)
      × (words_sum head < 2 ^ 20)
unfolding ip_header put_u32_le
header_sum total txid src dst v h = (omega (arith, h), omega arith, omega arith)

datagram_sum :
    (port udp_len v : ℕ) (dns : List ℕ)
    → v < 2 ^ 16
    → let udp = udp_header port udp_len ++ dns in
      (words_sum (patch 6 v udp) ≡ words_sum udp + v)
      × (0 < words_sum udp)
      × (words_sum udp ≤ 2 ^ 18 + words_sum dns)
unfolding udp_header
datagram_sum port udp_len v dns h = (omega (arith, h), omega arith, omega arith)

pseudo_sum-lt : (src dst udp_len : ℕ) → udp_len < 2 ^ 16 → pseudo_sum src dst udp_len < 2 ^ 19
unfolding pseudo_sum sum16 put_u32_le
pseudo_sum-lt src dst udp_len h = omega (arith, h)

pub header-IsChecked :
    (total txid src dst : ℕ)
    → let head = ip_header total txid src dst in
      fold (sum16 (patch 10 (fold (sum16 head 0)) head) 0) ≡ 0
header-IsChecked total txid src dst =
    let head = ip_header total txid src dst in
    let ck = fold (sum16 head 0) in
    let (whole, positive, small) = header_sum total txid src dst ck (fold-lt (sum16 head 0)) in
    let plain = sum16-words_sum head 0 (omega (arith, small)) in
    let patched =
      sum16-words_sum (patch 10 ck head) 0 (omega (arith, whole, small, fold-lt (sum16 head 0))) in
    let e : sum16 (patch 10 ck head) 0 ≡ sum16 head 0 + ck = omega (arith, whole, plain, patched) in
    ap fold e
    ∙ fold-complement (sum16 head 0) (omega (arith, plain, positive)) (omega (arith, plain, small))

pub datagram-IsChecked :
    (src dst port : ℕ) (dns : List ℕ)
    → All IsByte dns
    → 8 + length dns < 2 ^ 16
    → let udp_len = 8 + length dns in
      let udp = udp_header port udp_len ++ dns in
      let start = pseudo_sum src dst udp_len in
      fold (sum16 (patch 6 (udp_checksum (sum16 udp start)) udp) start) ≡ 0
datagram-IsChecked src dst port dns hb hl =
    let udp_len = 8 + length dns in
    let udp = udp_header port udp_len ++ dns in
    let start = pseudo_sum src dst udp_len in
    let s = sum16 udp start in
    let ck = udp_checksum s in
    let lt = udp_checksum-lt s in
    let (whole, positive, small) = datagram_sum port udp_len ck dns lt in
    let first = pseudo_sum-lt src dst udp_len hl in
    let room = words_sum-bound dns hb in
    let plain = sum16-words_sum udp start (omega (arith, small, first, room, hl)) in
    let patched =
      sum16-words_sum (patch 6 ck udp) start (omega (arith, whole, small, first, room, hl, lt)) in
    let e : sum16 (patch 6 ck udp) start ≡ s + ck = omega (arith, whole, plain, patched) in
    ap fold e
    ∙ udp_checksum-complement s (omega (arith, plain, positive))
        (omega (arith, plain, small, first, room, hl))
