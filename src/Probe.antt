-- ===== src/Probe.antt =====
-- One DNS exchange built by hand, source/awg_ipprobe.c: the checksums, the names, ipprobe_build_dns
-- and ipprobe_parse_dns. A buffer is the list of its bytes; a C string the bytes before its zero.
-- The two bytes of a word do not overlap, so that `|` is written as a sum.
pub mod Names
pub mod Checksum
pub mod Query
pub mod Reply
pub mod Safety
use sys_amneziawg.Common.{
  ℕ, zero, suc, ◌+◌, ◌-◌, ◌*◌, ◌/◌, ◌%◌, ◌^◌, bit_and, Bool, true, false, ◌&&◌, ◌||◌, not, Option,
  none, some, List, [], ◌∷◌, ◌++◌, length, take, drop, replicate, get_elem?, ltb, leb, ◌==◌,
  if◌then◌else◌, u8, u16, u32,
}
use sys_amneziawg.Noise.Primitives.{put_u32_le, get_u32_le}
use sys_amneziawg.Obfuscation.Parse.{cut_at}

abbrev pub ip_hdr : ℕ
ip_hdr = 20

abbrev pub udp_hdr : ℕ
udp_hdr = 8

abbrev pub put_be16 : ℕ → List ℕ
put_be16 v = u8 (v / 2 ^ 8) ∷ u8 v ∷ []

-- The sum of the big-endian words, with an odd byte as the high half of the last.
unfoldable pub sum16 : List ℕ → ℕ → ℕ
sum16 [] acc = acc
sum16 (a ∷ []) acc = u32 (acc + a * 2 ^ 8)
sum16 (a ∷ (b ∷ rest)) acc = sum16 rest (u32 (acc + (a * 2 ^ 8 + b)))

-- while (acc >> 16), with fuel.
unfoldable pub fold_carries : ℕ → ℕ → ℕ
fold_carries zero acc = acc
fold_carries (suc fuel) acc =
    let rest = fold_carries fuel (u32 (acc % 2 ^ 16 + acc / 2 ^ 16)) in
    if acc / 2 ^ 16 == 0 then acc else rest

unfoldable pub fold : ℕ → ℕ
fold acc = u16 (2 ^ 32 - 1 - fold_carries 2 acc)

abbrev pub put_before : List ℕ → Option (List ℕ) → Option (List ℕ)
put_before front none = none
put_before front (some rest) = some (front ++ rest)

-- if (n + 1 > cap) return -1; o[n++] = 0.
unfoldable pub root : ℕ → ℕ → Option (List ℕ)
root cap n = if ltb cap (n + 1) then none else some (0 ∷ [])

-- One label, and what comes behind it.
unfoldable pub put_label : ℕ → ℕ → List ℕ → Option (List ℕ) → Option (List ℕ)
put_label cap n label rest =
    let len = length label in
    if len == 0 || (ltb 63 len || leb cap (n + len + 1))
    then none
    else put_before (len ∷ label) rest

-- The labels of a name from p on, each behind its length, with n bytes written already.
unfoldable pub encode_labels : ℕ → ℕ → ℕ → List ℕ → Option (List ℕ)
encode_labels zero cap n p = none
encode_labels (suc fuel) cap n [] = root cap n
encode_labels (suc fuel) cap n (x ∷ xs) =
    let (label, dot) = cut_at b'.' (x ∷ xs) in
    let then_n = n + 1 + length label in
    elim dot [
      | none ↦ put_label cap n label (root cap then_n)
      | some p ↦ put_label cap n label (encode_labels fuel cap then_n p)
    ]

unfoldable pub encode_name : ℕ → List ℕ → Option (List ℕ)
encode_name cap host = encode_labels (suc (length host)) cap 0 host

-- The next offset, the return value -1, a read outside the buffer, and a loop short of fuel.
pub data Skip : Type 0 where
  at_offset : ℕ → Skip
  malformed outside stuck : Skip

-- What the length byte l at `off` says; `rest` is the walk from the next label on.
unfoldable pub skip_label : List ℕ → ℕ → ℕ → Skip → Skip
skip_label b off l rest =
    if l == 0
    then at_offset (off + 1)
    else if bit_and l 192 == 192
    then if leb (off + 2) (length b) then at_offset (off + 2) else malformed
    else rest

unfoldable pub skip_from : ℕ → List ℕ → ℕ → Skip
skip_from zero b off = stuck
skip_from (suc fuel) b off =
    if ltb off (length b)
    then elim (get_elem? b off) [
      | none ↦ outside
      | some l ↦ skip_label b off l (skip_from fuel b (off + (1 + l)))
    ]
    else malformed

unfoldable pub skip_name : List ℕ → ℕ → Skip
skip_name b off = skip_from (suc (length b)) b off

-- `fold(sum16(...))` stands at offset i of what it sums.
abbrev pub patch : ℕ → ℕ → List ℕ → List ℕ
patch i v b = take i b ++ (put_be16 v ++ drop (i + 2) b)

-- The question, behind the header of a query.
unfoldable pub dns_query : ℕ → List ℕ → List ℕ
dns_query txid name =
    put_be16 txid ++ (1 ∷ 0 ∷ put_be16 1 ++ (replicate 6 0 ++ (name ++ (put_be16 1 ++ put_be16 1))))

-- The IPv4 header with no checksum yet.
unfoldable pub ip_header : ℕ → ℕ → ℕ → ℕ → List ℕ
ip_header total txid src dst =
    69 ∷ 0 ∷ put_be16 (u16 total)
    ++ (put_be16 txid ++ (put_be16 16384 ++ (64 ∷ 17 ∷ 0 ∷ 0 ∷ put_u32_le src ++ put_u32_le dst)))

-- The sum over the addresses, the protocol and the length.
unfoldable pub pseudo_sum : ℕ → ℕ → ℕ → ℕ
pseudo_sum src dst udp_len =
    let addresses = sum16 (put_u32_le dst) (sum16 (put_u32_le src) 0) in
    u32 (u32 (addresses + 17) + udp_len)

-- 0 means that there is no checksum.
unfoldable pub udp_checksum : ℕ → ℕ
udp_checksum acc = let ck = fold acc in if ck == 0 then 65535 else ck

unfoldable pub udp_header : ℕ → ℕ → List ℕ
udp_header src_port udp_len =
    put_be16 src_port ++ (put_be16 53 ++ (put_be16 (u16 udp_len) ++ (0 ∷ 0 ∷ [])))

-- The packet around a message.
unfoldable pub ip_packet : ℕ → ℕ → ℕ → ℕ → List ℕ → List ℕ
ip_packet src dst src_port txid dns =
    let udp_len = udp_hdr + length dns in
    let head = ip_header (ip_hdr + udp_len) txid src dst in
    let udp = udp_header src_port udp_len ++ dns in
    patch 10 (fold (sum16 head 0)) head
    ++ patch 6 (udp_checksum (sum16 udp (pseudo_sum src dst udp_len))) udp

-- The datagram, none for the return value -1.
unfoldable pub build_dns : ℕ → ℕ → ℕ → ℕ → ℕ → List ℕ → Option (List ℕ)
build_dns cap src dst src_port txid host =
    if ltb cap (ip_hdr + udp_hdr + 32)
    then none
    else elim (encode_name (cap - ip_hdr - udp_hdr - 12 - 4) host) [
      | none ↦ none
      | some name ↦ some (ip_packet src dst src_port txid (dns_query txid name))
    ]

-- The return value 0 with the four bytes of *answer_ip, the negative of another return value, a
-- read outside the packet, and a loop short of fuel.
pub data ReplyVerdict : Type 0 where
  address : List ℕ → ReplyVerdict
  refused : ℕ → ReplyVerdict
  overread unfinished : ReplyVerdict

unfoldable pub packet_byte : List ℕ → ℕ → (ℕ → ReplyVerdict) → ReplyVerdict
packet_byte b i k = elim (get_elem? b i) [ none ↦ overread | some x ↦ k x ]

-- get_be16.
unfoldable pub packet_word : List ℕ → ℕ → (ℕ → ReplyVerdict) → ReplyVerdict
packet_word b i k = packet_byte b i (λ hi. packet_byte b (i + 1) (λ lo. k (u16 (hi * 2 ^ 8 + lo))))

-- memcpy of four bytes.
unfoldable pub four_at : List ℕ → ℕ → (List ℕ → ReplyVerdict) → ReplyVerdict
four_at b i k = if leb (i + 4) (length b) then k (take 4 (drop i b)) else overread

-- The `n` bytes from `i` on as a buffer of their own: a pointer and a length that reach beyond the
-- packet are an overread.
unfoldable pub view_at : List ℕ → ℕ → ℕ → (List ℕ → ReplyVerdict) → ReplyVerdict
view_at b i n k = if leb (i + n) (length b) then k (take n (drop i b)) else overread

-- `if (test) return -code`.
unfoldable pub refuse_if : Bool → ℕ → ReplyVerdict → ReplyVerdict
refuse_if test code k = if test then refused code else k

unfoldable pub after_name : Skip → ℕ → (ℕ → ReplyVerdict) → ReplyVerdict
after_name (at_offset off) code k = k off
after_name malformed code k = refused code
after_name outside code k = overread
after_name stuck code k = unfinished

-- The loop over the records; `left` of them are announced still.
unfoldable pub read_answers : ℕ → List ℕ → ℕ → ReplyVerdict
read_answers zero d start = refused 8
read_answers (suc left) d start = refuse_if (ltb (length d) (start + 10)) 8 (
    after_name (skip_name d start) 8 (λ off. refuse_if (ltb (length d) (off + 10)) 8 (
      packet_word d off (λ type. packet_word d (off + 8) (λ rdlen.
        let rest = read_answers left d (off + 10 + rdlen) in
        refuse_if (ltb (length d) (off + 10 + rdlen)) 8
          (if type == 1 && rdlen == 4 then four_at d (off + 10) address else rest))))))

-- From `d` on.
unfoldable pub parse_message : ℕ → List ℕ → ReplyVerdict
parse_message txid d = refuse_if (ltb (length d) 12) 6 (
    packet_word d 0 (λ id. refuse_if (not (id == txid)) 7 (
      packet_word d 6
        (λ ancount. after_name (skip_name d 12) 6 (λ off. read_answers ancount d (off + 4))))))

-- From `udp` on, at ihl.
unfoldable pub parse_udp : ℕ → ℕ → List ℕ → ℕ → ReplyVerdict
parse_udp port txid pkt ihl = packet_word pkt (ihl + 2) (λ dst. refuse_if (not (dst == port)) 5 (
    packet_word pkt (ihl + 4) (λ udp_len.
      refuse_if (ltb udp_len udp_hdr || ltb (length pkt) (ihl + udp_len)) 6
        (view_at pkt (ihl + udp_hdr) (udp_len - udp_hdr) (parse_message txid)))))

unfoldable pub parse_dns : ℕ → ℕ → ℕ → List ℕ → ReplyVerdict
parse_dns src port txid pkt = refuse_if (ltb (length pkt) (ip_hdr + udp_hdr + 12)) 1 (
    packet_byte pkt 0 (λ first. refuse_if (not (first / 2 ^ 4 == 4)) 2 (
      let ihl = first % 2 ^ 4 * 4 in
      refuse_if (ltb ihl ip_hdr || ltb (length pkt) (ihl + udp_hdr)) 1 (
        packet_byte pkt 9 (λ protocol. refuse_if (not (protocol == 17)) 3 (
          four_at pkt 12
            (λ from. refuse_if (not (get_u32_le from == src)) 4 (parse_udp port txid pkt ihl))))))))
