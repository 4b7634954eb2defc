-- ===== src/Probe/Safety.antt =====
-- The walk over a DNS reply stays inside the packet and ends.
use sys_amneziawg.Common.{
  ℕ, zero, suc, ◌+◌, ◌*◌, ◌%◌, ◌^◌, ◌≤◌, ◌<◌, ◌≡◌, refl, Bool, true, false, ◌&&◌, List, length,
  take, drop, get_elem?-total, ltb, leb, ◌==◌, if◌then◌else◌, arith, Bool-cases, ltb→lt, leb→le,
  inl, inr, length-take, length-drop, bit_and, u16,
}
use sys_amneziawg.Probe.{
  Skip, at_offset, malformed, outside, stuck, skip_label, skip_from, skip_name, ReplyVerdict,
  address, refused, overread, unfinished, packet_byte, packet_word, four_at, view_at, refuse_if,
  after_name, read_answers, parse_message, parse_udp, parse_dns,
}

-- A walk that reads well and ends, past where it began.
abbrev pub IsAhead : ℕ → ℕ → Skip → Type 0
IsAhead start len (at_offset off) = (start < off) × (off ≤ len)
IsAhead start len malformed = Unit {0}
IsAhead start len outside = ⊥
IsAhead start len stuck = ⊥

IsAhead-weaken : (a b len : ℕ) (s : Skip) → a ≤ b → IsAhead b len s → IsAhead a len s
IsAhead-weaken a b len (at_offset off) le h = (omega (arith, le, h.0), h.1)
IsAhead-weaken a b len malformed le h = tt
IsAhead-weaken a b len outside le h = h
IsAhead-weaken a b len stuck le h = h

skip_label-IsAhead :
    (n : ℕ) (b : List ℕ) (off l : ℕ)
    → off < length b
    → IsAhead (off + (1 + l)) (length b) (skip_from n b (off + (1 + l)))
    → IsAhead off (length b) (skip_label b off l (skip_from n b (off + (1 + l))))
unfolding skip_label
skip_label-IsAhead n b off l lt h = elim (Bool-cases (l == 0)) [
  | inl ends ↦ rw ends (omega arith, omega (arith, lt))
  | inr more ↦ rw more (elim (Bool-cases (bit_and l 192 == 192)) [
    | inl pointer ↦ rw pointer (elim (Bool-cases (leb (off + 2) (length b))) [
      | inl fits ↦ rw fits (omega arith, leb→le (off + 2) (length b) fits)
      | inr short ↦ rw short tt
    ])
    | inr label ↦ rw label (
        IsAhead-weaken off (off + (1 + l)) (length b) (skip_from n b (off + (1 + l))) (omega arith)
          h)
  ])
]

skip_from-IsAhead :
    (n : ℕ) (b : List ℕ) (off : ℕ)
    → length b ≤ off + n
    → IsAhead off (length b) (skip_from (suc n) b off)
unfolding skip_from
skip_from-IsAhead zero b off h =
    let past : ltb off (length b) ≡ false = ground (arith, h) in rw past tt
skip_from-IsAhead (suc n) b off h = elim (Bool-cases (ltb off (length b))) [
  | inl lt ↦
      let inside = ltb→lt off (length b) lt in
      let (l, e) = get_elem?-total b off inside in
      rw (lt, e)
        (skip_label-IsAhead (suc n) b off l inside
          (skip_from-IsAhead n b (off + (1 + l)) (omega (arith, h))))
  | inr ge ↦ rw ge tt
]

-- Skipping a name never reads outside the message and ends, whatever its bytes are, and a place it
-- answers with is behind where it began and inside the message.
pub skip_name-IsAhead : (b : List ℕ) (off : ℕ) → IsAhead off (length b) (skip_name b off)
unfolding skip_name
skip_name-IsAhead b off = skip_from-IsAhead (length b) b off (omega arith)

-- A verdict of a walk that read well and ended: four bytes, or a code of the header's list.
abbrev pub IsSafe : ReplyVerdict → Type 0
IsSafe (address ip) = length ip ≡ 4
IsSafe (refused code) = (1 ≤ code) × (code ≤ 8)
IsSafe overread = ⊥
IsSafe unfinished = ⊥

packet_byte-IsSafe :
    (b : List ℕ) (i : ℕ) (k : ℕ → ReplyVerdict)
    → i < length b
    → ((x : ℕ) → IsSafe (k x))
    → IsSafe (packet_byte b i k)
unfolding packet_byte
packet_byte-IsSafe b i k lt h = let (x, e) = get_elem?-total b i lt in rw (IsSafe, e) (h x)

packet_word-IsSafe :
    (b : List ℕ) (i : ℕ) (k : ℕ → ReplyVerdict)
    → i + 1 < length b
    → ((x : ℕ) → IsSafe (k x))
    → IsSafe (packet_word b i k)
unfolding packet_word
packet_word-IsSafe b i k lt h =
    packet_byte-IsSafe _ _ _ (omega (arith, lt))
      (λ hi. packet_byte-IsSafe _ _ _ lt (λ lo. h (u16 (hi * 2 ^ 8 + lo))))

four_at-IsSafe :
    (b : List ℕ) (i : ℕ) (k : List ℕ → ReplyVerdict)
    → i + 4 ≤ length b
    → ((xs : List ℕ) → length xs ≡ 4 → IsSafe (k xs))
    → IsSafe (four_at b i k)
unfolding four_at
four_at-IsSafe b i k le h =
    let fits : leb (i + 4) (length b) ≡ true = ground (arith, le) in
    rw fits (h (take 4 (drop i b)) (omega (arith, length-take 4 (drop i b), length-drop i b, le)))

view_at-IsSafe :
    (b : List ℕ) (i n : ℕ) (k : List ℕ → ReplyVerdict)
    → i + n ≤ length b
    → ((xs : List ℕ) → IsSafe (k xs))
    → IsSafe (view_at b i n k)
unfolding view_at
view_at-IsSafe b i n k le h =
    let fits : leb (i + n) (length b) ≡ true = ground (arith, le) in rw fits (h (take n (drop i b)))

refuse_if-IsSafe :
    (test : Bool) (code : ℕ) (k : ReplyVerdict)
    → (1 ≤ code) × (code ≤ 8)
    → (test ≡ false → IsSafe k)
    → IsSafe (refuse_if test code k)
unfolding refuse_if
refuse_if-IsSafe true code k c h = c
refuse_if-IsSafe false code k c h = h refl

after_name-IsSafe :
    (start len : ℕ) (s : Skip) (code : ℕ) (k : ℕ → ReplyVerdict)
    → IsAhead start len s
    → (1 ≤ code) × (code ≤ 8)
    → ((off : ℕ) → IsSafe (k off))
    → IsSafe (after_name s code k)
unfolding after_name
after_name-IsSafe start len (at_offset off) code k a c h = h off
after_name-IsSafe start len malformed code k a c h = c
after_name-IsSafe start len outside code k a c h = absurd a
after_name-IsSafe start len stuck code k a c h = absurd a

not_below : (a b : ℕ) → ltb a b ≡ false → b ≤ a
not_below a b h = ground arith

a_record-IsSafe :
    (d : List ℕ) (at type rdlen : ℕ) (rest : ReplyVerdict)
    → at + rdlen ≤ length d
    → IsSafe rest
    → IsSafe (if type == 1 && rdlen == 4 then four_at d at address else rest)
a_record-IsSafe d at type rdlen rest le h = elim (Bool-cases (type == 1 && rdlen == 4)) [
  | inl found ↦
      let four : rdlen ≡ 4 = ground (arith, found) in
      rw found (four_at-IsSafe d at address (omega (arith, four, le)) (λ xs e. e))
  | inr other ↦ rw other h
]

read_answers-IsSafe : (left : ℕ) (d : List ℕ) (start : ℕ) → IsSafe (read_answers left d start)
unfolding read_answers
read_answers-IsSafe zero d start = (omega arith, omega arith)
read_answers-IsSafe (suc left) d start =
    refuse_if-IsSafe _ 8 _ (omega arith, omega arith)
      (λ h.
        after_name-IsSafe start (length d) (skip_name d start) 8 _ (skip_name-IsAhead d start)
          (omega arith, omega arith)
          (λ off.
            refuse_if-IsSafe _ 8 _ (omega arith, omega arith)
              (λ fixed.
                let le = not_below (length d) (off + 10) fixed in
                packet_word-IsSafe _ _ _ (omega (arith, le)) (λ type.
                  packet_word-IsSafe _ _ _ (omega (arith, le)) (λ rdlen.
                    refuse_if-IsSafe _ 8 _ (omega arith, omega arith)
                      (λ data_fits.
                        a_record-IsSafe d (off + 10) type rdlen _
                          (not_below (length d) (off + 10 + rdlen) data_fits)
                          (read_answers-IsSafe left d (off + 10 + rdlen))))))))

parse_message-IsSafe : (txid : ℕ) (d : List ℕ) → IsSafe (parse_message txid d)
unfolding parse_message
parse_message-IsSafe txid d =
    refuse_if-IsSafe _ 6 _ (omega arith, omega arith)
      (λ h.
        let le = not_below (length d) 12 h in
        packet_word-IsSafe _ _ _ (omega (arith, le)) (λ id.
          refuse_if-IsSafe _ 7 _ (omega arith, omega arith)
            (λ same. packet_word-IsSafe _ _ _ (omega (arith, le)) (λ ancount.
              after_name-IsSafe 12 (length d) (skip_name d 12) 6 _ (skip_name-IsAhead d 12)
                (omega arith, omega arith) (λ off. read_answers-IsSafe ancount d (off + 4))))))

parse_udp-IsSafe :
    (port txid : ℕ) (pkt : List ℕ) (ihl : ℕ)
    → ihl + 8 ≤ length pkt
    → IsSafe (parse_udp port txid pkt ihl)
unfolding parse_udp
parse_udp-IsSafe port txid pkt ihl le = packet_word-IsSafe _ _ _ (omega (arith, le)) (λ dst.
    refuse_if-IsSafe _ 5 _ (omega arith, omega arith)
      (λ same. packet_word-IsSafe _ _ _ (omega (arith, le)) (λ udp_len.
        refuse_if-IsSafe _ 6 _ (omega arith, omega arith)
          (λ fits. view_at-IsSafe _ _ _ _ (ground (arith, fits)) (parse_message-IsSafe txid)))))

-- Whatever the packet holds, reading it as a DNS reply ends, reads no byte outside the packet or
-- outside the message that its UDP length announces, and answers with four bytes or with one of
-- the codes from -1 to -8.
pub parse_dns-IsSafe : (src port txid : ℕ) (pkt : List ℕ) → IsSafe (parse_dns src port txid pkt)
unfolding parse_dns
parse_dns-IsSafe src port txid pkt =
    refuse_if-IsSafe _ 1 _ (omega arith, omega arith)
      (λ h.
        let le = not_below (length pkt) 40 h in
        packet_byte-IsSafe _ _ _ (omega (arith, le)) (λ first.
          refuse_if-IsSafe _ 2 _ (omega arith, omega arith)
            (λ four.
              refuse_if-IsSafe _ 1 _ (omega arith, omega arith)
                (λ room. packet_byte-IsSafe _ _ _ (omega (arith, le)) (λ protocol.
                  refuse_if-IsSafe _ 3 _ (omega arith, omega arith)
                    (λ udp. four_at-IsSafe _ _ _ (omega (arith, le)) (λ from len.
                      refuse_if-IsSafe _ 4 _ (omega arith, omega arith)
                        (λ same.
                          parse_udp-IsSafe port txid pkt (first % 2 ^ 4 * 4)
                            (ground (arith, room))))))))))
