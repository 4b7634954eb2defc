-- ===== src/Probe/Reply.antt =====
-- A server's reply to a query, as the bytes of the protocol, and what the probe reads in it.
use sys_amneziawg.Common.{
  ℕ, zero, suc, ◌+◌, ◌-◌, ◌*◌, ◌/◌, ◌%◌, ◌^◌, ◌≤◌, ◌<◌, ◌≡◌, ◌≢◌, refl, ap, ◌∙◌, true, false, ◌&&◌,
  ◌||◌, not, some, List, [], ◌∷◌, ◌++◌, append_assoc, length, length-append, drop, take_all,
  take-append_length, append-nil, ap₂, get_elem?, All, ltb, leb, ◌==◌, ==_refl, if◌then◌else◌,
  arith, u16,
}
use sys_amneziawg.Noise.Primitives.{put_u32_le, get_u32_le}
use sys_amneziawg.Noise.Handshake.Messages.{get-put_u32_le}
use sys_amneziawg.Probe.{
  put_be16, encode_name, patch, ip_header, ReplyVerdict, address, packet_byte, packet_word, four_at,
  view_at, refuse_if, after_name, read_answers, parse_message, parse_udp, parse_dns,
}
use sys_amneziawg.Probe.Names.{
  wire, IsLabel, encode_name-Encodes, skip_name-wire, skip_name-pointer,
}

-- A record that is not an address, such as a CNAME.
pub record Other : Type 0 where
  pub type_code : ℕ
  pub content : List ℕ

pub record IsOther (o : Other) : Type 0 where
  pub type_fits : o.type_code < 2 ^ 16
  pub no_address : o.type_code ≢ 1
  pub content_fits : length o.content < 2 ^ 16

-- A record for the name of the question, of class IN.
abbrev pub resource : ℕ → List ℕ → List ℕ → List ℕ
resource type_code content rest =
    192 ∷ 12 ∷ put_be16 type_code
    ++ (0 ∷ 1 ∷ 0 ∷ 0 ∷ 1 ∷ 44 ∷ put_be16 (length content) ++ (content ++ rest))

abbrev pub chain : List Other → List ℕ → List ℕ
chain [] rest = rest
chain (o ∷ os) rest = resource o.type_code o.content (chain os rest)

-- The header, the question, the other records, one address, and whatever follows.
abbrev pub message : ℕ → List ℕ → List Other → List ℕ → List ℕ → List ℕ
message txid name os ip rest =
    put_be16 txid
    ++ (129 ∷ 128 ∷ 0 ∷ 1 ∷ put_be16 (length os + 1)
        ++ (0 ∷ 0 ∷ 0 ∷ 0 ∷ name ++ (0 ∷ 1 ∷ 0 ∷ 1 ∷ chain os (resource 1 ip rest))))

-- The packet from port 53 of `src`, with any two checksums.
abbrev pub reply : ℕ → ℕ → ℕ → ℕ → ℕ → ℕ → List ℕ → List ℕ
reply src dst port id head_ck ck dns =
    patch 10 head_ck (ip_header (28 + length dns) id src dst)
    ++ (put_be16 53 ++ (put_be16 port ++ (put_be16 (8 + length dns) ++ (put_be16 ck ++ dns))))

get_elem?-offset :
    (before rest : List ℕ) (i j : ℕ)
    → j ≡ length before + i
    → get_elem? (before ++ rest) j ≡ get_elem? rest i
get_elem?-offset [] rest i j e = let same : j ≡ i = omega (arith, e) in ap (get_elem? rest) same
get_elem?-offset (b ∷ before) rest i zero e = absurd (omega (arith, e))
get_elem?-offset (b ∷ before) rest i (suc j) e = get_elem?-offset before rest i j (omega (arith, e))

drop_offset :
    (before rest : List ℕ) (i j : ℕ) → j ≡ length before + i → drop j (before ++ rest) ≡ drop i rest
drop_offset [] rest i j e = let same : j ≡ i = omega (arith, e) in ap (λ (n : ℕ). drop n rest) same
drop_offset (b ∷ before) rest i zero e = absurd (omega (arith, e))
drop_offset (b ∷ before) rest i (suc j) e = drop_offset before rest i j (omega (arith, e))

packet_byte-value :
    (b : List ℕ) (i x : ℕ) (k : ℕ → ReplyVerdict) → get_elem? b i ≡ some x → packet_byte b i k ≡ k x
unfolding packet_byte
packet_byte-value b i x k e = rw (packet_byte, e) refl

packet_word-value :
    (b : List ℕ) (i hi lo : ℕ) (k : ℕ → ReplyVerdict)
    → get_elem? b i ≡ some hi
    → get_elem? b (i + 1) ≡ some lo
    → packet_word b i k ≡ k (u16 (hi * 2 ^ 8 + lo))
unfolding packet_word
packet_word-value b i hi lo k eh el =
    packet_byte-value b i hi _ eh
    ∙ packet_byte-value b (i + 1) lo (λ l. k (u16 (hi * 2 ^ 8 + l))) el

-- A stored word is read back, with any bytes in front of it.
packet_word-put :
    (before rest : List ℕ) (v j i : ℕ) (k : ℕ → ReplyVerdict)
    → v < 2 ^ 16
    → j ≡ length before + i
    → get_elem? rest i ≡ some (v / 2 ^ 8 % 2 ^ 8)
    → get_elem? rest (i + 1) ≡ some (v % 2 ^ 8)
    → packet_word (before ++ rest) j k ≡ k v
packet_word-put before rest v j i k h e eh el =
    let back : u16 (v / 2 ^ 8 % 2 ^ 8 * 2 ^ 8 + v % 2 ^ 8) ≡ v = omega (arith, h) in
    packet_word-value (before ++ rest) j _ _ k (get_elem?-offset before rest i j e ∙ eh)
      (get_elem?-offset before rest (i + 1) (j + 1) (omega (arith, e)) ∙ el)
    ∙ ap k back

-- The turn of the loop over one record.
answers_turn :
    (left : ℕ) (before content rest : List ℕ) (type_code : ℕ)
    → type_code < 2 ^ 16
    → length content < 2 ^ 16
    → let d = before ++ resource type_code content rest in
      read_answers (suc left) d (length before) ≡ (
        if type_code == 1 && length content == 4
        then four_at d (length before + 2 + 10) address
        else read_answers left d (length before + 2 + 10 + length content))
unfolding read_answers refuse_if after_name
answers_turn left before content rest type_code ht hc =
    let d = before ++ resource type_code content rest in
    let whole : length d ≡ length before + 12 + (length content + length rest) =
      omega (
        arith,
        length-append before (resource type_code content rest),
        length-append content rest,
      ) in
    let t1 : ltb (length d) (length before + 10) ≡ false = ground (arith, whole) in
    let t2 : ltb (length d) (length before + 2 + 10) ≡ false = ground (arith, whole) in
    let t3 : ltb (length d) (length before + 2 + 10 + length content) ≡ false =
      ground (arith, whole) in
    rw (t1, skip_name-pointer before _ 12, t2)
      (packet_word-put before (resource type_code content rest) type_code (length before + 2) 2 _ ht
          refl refl refl
        ∙ packet_word-put before (resource type_code content rest) (length content)
            (length before + 2 + 8) 10 _ hc (omega arith) refl refl
        ∙ rw t3 refl)

four_at-resource :
    (before ip rest : List ℕ)
    → length ip ≡ 4
    → four_at (before ++ resource 1 ip rest) (length before + 2 + 10) address ≡ address ip
unfolding four_at
four_at-resource before ip rest four =
    let fits : leb (length before + 2 + 10 + 4) (length (before ++ resource 1 ip rest)) ≡ true =
      ground (arith, length-append before (resource 1 ip rest), length-append ip rest, four) in
    let there = drop_offset before (resource 1 ip rest) 12 (length before + 2 + 10) (omega arith) in
    rw (fits, there) (ap address (take-append_length 4 ip rest four))

-- The loop passes over every other record, and finds the address.
read_answers-chain :
    (os : List Other) (before ip rest : List ℕ) (left : ℕ)
    → All IsOther os
    → length ip ≡ 4
    → length os < left
    → read_answers left (before ++ chain os (resource 1 ip rest)) (length before) ≡ address ip
read_answers-chain os before ip rest zero h four lt = absurd (omega (arith, lt))
read_answers-chain [] before ip rest (suc left) h four lt =
    let is_four : (length ip == 4) ≡ true = ground (arith, four) in
    answers_turn left before ip rest 1 (omega arith) (omega (arith, four))
    ∙ rw is_four (four_at-resource before ip rest four)
read_answers-chain (o ∷ os) before ip rest (suc left) h four lt =
    let behind = chain os (resource 1 ip rest) in
    let head : List ℕ = resource o.type_code o.content [] in
    let other : (o.type_code == 1) ≡ false = ground (arith, h.0.no_address) in
    let turn : before ++ resource o.type_code o.content behind ≡ (before ++ head) ++ behind =
      simp (append_assoc, append-nil) in
    let at : length before + 2 + 10 + length o.content ≡ length (before ++ head) =
      omega (arith, length-append before head, length-append o.content []) in
    answers_turn left before o.content behind o.type_code h.0.type_fits h.0.content_fits
    ∙ rw other (
        ap₂ (read_answers left) turn at
        ∙ read_answers-chain os (before ++ head) ip rest left h.1 four (omega (arith, lt)))

-- What is asked of a reply: words that fit, a name that was encoded, four bytes of address.
message-address :
    (txid : ℕ) (ls : List (List ℕ)) (os : List Other) (ip rest : List ℕ)
    → txid < 2 ^ 16
    → All IsLabel ls
    → All IsOther os
    → length os + 1 < 2 ^ 16
    → length ip ≡ 4
    → parse_message txid (message txid (wire ls) os ip rest) ≡ address ip
unfolding parse_message refuse_if after_name
message-address txid ls os ip rest ht hl ho hn four =
    let records = chain os (resource 1 ip rest) in
    let d = message txid (wire ls) os ip rest in
    let front : List ℕ =
      put_be16 txid ++ (129 ∷ 128 ∷ 0 ∷ 1 ∷ put_be16 (length os + 1) ++ (0 ∷ 0 ∷ 0 ∷ 0 ∷ [])) in
    let question = front ++ (wire ls ++ (0 ∷ 1 ∷ 0 ∷ 1 ∷ [])) in
    let room : ltb (length d) 12 ≡ false = ground arith in
    let same : not (txid == txid) ≡ false = ap not (==_refl txid) in
    let skipped = skip_name-wire ls front (0 ∷ 1 ∷ 0 ∷ 1 ∷ records) hl in
    let turn : d ≡ question ++ records = simp append_assoc in
    let at : 12 + length (wire ls) + 4 ≡ length question =
      omega (arith, length-append (wire ls) (0 ∷ 1 ∷ 0 ∷ 1 ∷ [])) in
    rw (parse_message, room)
      (packet_word-put [] d txid 0 0 _ ht refl refl refl
        ∙ rw same (
            packet_word-put [] d (length os + 1) 6 6 _ hn refl refl refl
            ∙ rw skipped (
                ap₂ (read_answers (length os + 1)) turn at
                ∙ read_answers-chain os question ip rest (length os + 1) ho four (omega arith))))

parse_udp-reply :
    (src dst port id head_ck ck txid : ℕ) (dns : List ℕ)
    → port < 2 ^ 16
    → 8 + length dns < 2 ^ 16
    → parse_udp port txid (reply src dst port id head_ck ck dns) 20 ≡ parse_message txid dns
unfolding parse_udp refuse_if view_at ip_header put_u32_le
parse_udp-reply src dst port id head_ck ck txid dns hp hl =
    let pkt = reply src dst port id head_ck ck dns in
    let udp_len = 8 + length dns in
    let same : not (port == port) ≡ false = ap not (==_refl port) in
    let room : (ltb udp_len 8 || ltb (length pkt) (20 + udp_len)) ≡ false = ground arith in
    let size : udp_len - 8 ≡ length dns = omega arith in
    let inside : leb (28 + length dns) (length pkt) ≡ true = ground arith in
    packet_word-put [] pkt port 22 22 _ hp refl refl refl
    ∙ rw same (
        packet_word-put [] pkt udp_len 24 24 _ hl refl refl refl
        ∙ rw (room, size, inside) (ap (parse_message txid) (take_all (length dns) dns refl)))

parse_dns-outer :
    (src dst port id head_ck ck txid : ℕ) (dns : List ℕ)
    → src < 2 ^ 32
    → 12 ≤ length dns
    → let pkt = reply src dst port id head_ck ck dns in
      parse_dns src port txid pkt ≡ parse_udp port txid pkt 20
unfolding parse_dns refuse_if packet_byte four_at ip_header put_u32_le
parse_dns-outer src dst port id head_ck ck txid dns hs hl =
    let pkt = reply src dst port id head_ck ck dns in
    let long : ltb (length pkt) 40 ≡ false = ground (arith, hl) in
    let room : ltb (length pkt) 28 ≡ false = ground arith in
    let from : not (get_u32_le (put_u32_le src ++ []) == src) ≡ false =
      rw (get-put_u32_le src [] hs) (ap not (==_refl src)) in
    let sixteen : leb 16 (length pkt) ≡ true = ground arith in
    rw (parse_dns, long) (rw room (rw (four_at, sixteen) (rw from refl)))

-- A reply to the query for a host, sent from the expected address and to the expected port, with
-- any checksums and identification, gives the address in its first record of type A: the records
-- in front of that one are of other types, and whatever follows is not looked at.
pub parse_dns-reply :
    (src dst port id head_ck ck txid cap : ℕ) (host name ip rest : List ℕ) (os : List Other)
    → src < 2 ^ 32
    → port < 2 ^ 16
    → txid < 2 ^ 16
    → encode_name cap host ≡ some name
    → All IsOther os
    → length os + 1 < 2 ^ 16
    → length ip ≡ 4
    → 8 + length (message txid name os ip rest) < 2 ^ 16
    → parse_dns src port txid (reply src dst port id head_ck ck (message txid name os ip rest))
      ≡ address ip
parse_dns-reply src dst port id head_ck ck txid cap host name ip rest os hs hp ht named ho hn four
      hl =
    let g = encode_name-Encodes cap host name named in
    let build : List ℕ → List ℕ = λ q. message txid q os ip rest in
    parse_dns-outer src dst port id head_ck ck txid (build name) hs (omega arith)
    ∙ parse_udp-reply src dst port id head_ck ck txid (build name) hp hl
    ∙ ap (λ (q : List ℕ). parse_message txid (build q)) g.wired
    ∙ message-address txid g.labels os ip rest ht g.good ho hn four
