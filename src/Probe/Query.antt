-- ===== src/Probe/Query.antt =====
-- A built query fits its buffer and carries checksums that a receiver accepts.
use sys_amneziawg.Common.{
  ℕ, ◌+◌, ◌-◌, ◌^◌, ◌≤◌, ◌<◌, ◌≡◌, refl, sym, subst, none, some, List, [], ◌∷◌, ◌++◌, length,
  length-append, take, drop, All, All-append, All-split, IsByte, ltb, arith, Bool-cases,
  Option-cases, inl, inr,
}
use sys_amneziawg.Noise.Primitives.{put_u32_le}
use sys_amneziawg.Probe.{
  encode_name, patch, sum16, fold, dns_query, ip_header, pseudo_sum, udp_checksum, udp_header,
  ip_packet, build_dns,
}
use sys_amneziawg.Probe.Names.{dotted, IsSpelled, encode_name-Encodes, bytes-wire}
use sys_amneziawg.Probe.Checksum.{header-IsChecked, datagram-IsChecked}

bytes_of_labels : (ls : List (List ℕ)) → All IsByte (dotted ls) → All (All IsByte) ls
bytes_of_labels [] h = tt
bytes_of_labels (l ∷ []) h = (h, tt)
bytes_of_labels (l ∷ (m ∷ ms)) h =
    let (mine, others) = All-split IsByte l (b'.' ∷ dotted (m ∷ ms)) h in
    (mine, bytes_of_labels (m ∷ ms) others.1)

bytes_of_host :
    (host : List ℕ) (ls : List (List ℕ)) → All IsByte host → IsSpelled host ls → All (All IsByte) ls
bytes_of_host host ls h (inl e) = bytes_of_labels ls (subst (All IsByte) e h)
bytes_of_host host ls h (inr (pos, e)) =
    bytes_of_labels ls (All-split IsByte (dotted ls) (b'.' ∷ []) (subst (All IsByte) e h)).0

encode_name-bytes :
    (cap : ℕ) (host name : List ℕ)
    → All IsByte host
    → encode_name cap host ≡ some name
    → All IsByte name
encode_name-bytes cap host name h e =
    let g = encode_name-Encodes cap host name e in
    subst (All IsByte) (sym g.wired)
      (bytes-wire g.labels g.good (bytes_of_host host g.labels h g.spelled))

dns_query-bytes :
    (txid : ℕ) (name : List ℕ)
    → All IsByte name
    → All IsByte (dns_query txid name) × (length (dns_query txid name) ≡ 16 + length name)
unfolding dns_query
dns_query-bytes txid name h =
    let small : All IsByte (0 ∷ 1 ∷ 0 ∷ 1 ∷ []) = ground arith in
    let tail = All-append IsByte name (0 ∷ 1 ∷ 0 ∷ 1 ∷ []) h small in
    (ground (arith, tail), omega (arith, length-append name (0 ∷ 1 ∷ 0 ∷ 1 ∷ [])))

build_dns_inv :
    (cap src dst port txid : ℕ) (host pkt : List ℕ)
    → build_dns cap src dst port txid host ≡ some pkt
    → (60 ≤ cap)
      × ((name : List ℕ) × (encode_name (cap - 20 - 8 - 12 - 4) host ≡ some name)
          × (pkt ≡ ip_packet src dst port txid (dns_query txid name)))
unfolding build_dns
build_dns_inv cap src dst port txid host pkt e = elim (Bool-cases (ltb cap (20 + 8 + 32))) [
  | inl small ↦ let bad : none ≡ some pkt = rw (build_dns, small) at e in absurd cc
  | inr room ↦ elim (Option-cases (encode_name (cap - 20 - 8 - 12 - 4) host)) [
    | inl refused ↦ let bad : none ≡ some pkt = rw (build_dns, room, refused) at e in absurd cc
    | inr (name, named) ↦
        let same : some (ip_packet src dst port txid (dns_query txid name)) ≡ some pkt =
          rw (build_dns, room, named) at e in
        (ground (arith, room), (name, named, cc))
  ]
]

ip_packet_parts :
    (src dst port txid : ℕ) (dns : List ℕ)
    → let pkt = ip_packet src dst port txid dns in
      let udp_len = 8 + length dns in
      let head = ip_header (20 + udp_len) txid src dst in
      let udp = udp_header port udp_len ++ dns in
      (length pkt ≡ 20 + udp_len)
      × (take 20 pkt ≡ patch 10 (fold (sum16 head 0)) head)
      × (drop 20 pkt ≡ patch 6 (udp_checksum (sum16 udp (pseudo_sum src dst udp_len))) udp)
unfolding ip_packet ip_header udp_header put_u32_le
ip_packet_parts src dst port txid dns = (omega arith, refl, refl)

-- What a receiver sums: the 20 bytes of the header; and the datagram behind them, on top of the
-- addresses, the protocol and the length. Both sums fold to 0.
pub record IsChecked (src dst : ℕ) (pkt : List ℕ) : Type 0 where
  pub header : fold (sum16 (take 20 pkt) 0) ≡ 0
  pub datagram : fold (sum16 (drop 20 pkt) (pseudo_sum src dst (length pkt - 20))) ≡ 0

ip_packet-IsChecked :
    (src dst port txid : ℕ) (dns : List ℕ)
    → All IsByte dns
    → 8 + length dns < 2 ^ 16
    → IsChecked src dst (ip_packet src dst port txid dns)
ip_packet-IsChecked src dst port txid dns h lt =
    let (len, head, udp) = ip_packet_parts src dst port txid dns in
    let size : length (ip_packet src dst port txid dns) - 20 ≡ 8 + length dns =
      omega (arith, len) in
    record {
      header = rw head (header-IsChecked (20 + (8 + length dns)) txid src dst);
      datagram = rw (udp, size) (datagram-IsChecked src dst port dns h lt);
    }

-- A query that is built for a host of bytes, in a buffer of at most 65535, fits the buffer, and a
-- receiver that sums its header, and its datagram with the addresses, the protocol and the length,
-- gets the checksum 0 of an undamaged packet.
pub build_dns-IsChecked :
    (cap src dst port txid : ℕ) (host pkt : List ℕ)
    → All IsByte host
    → cap < 2 ^ 16
    → build_dns cap src dst port txid host ≡ some pkt
    → (length pkt ≤ cap) × IsChecked src dst pkt
build_dns-IsChecked cap src dst port txid host pkt h lt e =
    let (room, (name, named, same)) = build_dns_inv cap src dst port txid host pkt e in
    let g = encode_name-Encodes (cap - 20 - 8 - 12 - 4) host name named in
    let (good, len) =
      dns_query-bytes txid name (encode_name-bytes (cap - 20 - 8 - 12 - 4) host name h named) in
    let whole = (ip_packet_parts src dst port txid (dns_query txid name)).0 in
    let small : length (ip_packet src dst port txid (dns_query txid name)) ≤ cap =
      omega (arith, g.fits, len, whole, room) in
    subst (λ (p : List ℕ). (length p ≤ cap) × IsChecked src dst p) (sym same)
      (
        small,
        ip_packet-IsChecked src dst port txid (dns_query txid name) good
            (omega (arith, small, whole, lt)),
      )
