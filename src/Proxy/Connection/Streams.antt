-- ===== src/Proxy/Connection/Streams.antt =====
-- The bytes that a connection carries, in both directions.
use sys_amneziawg.Common.{
  ℕ, zero, suc, ◌+◌, ◌≤◌, ◌≡◌, refl, ap, sym, ◌∙◌, Bool, true, ◌||◌, List, [], ◌∷◌, ◌++◌,
  append_assoc, length, take, drop, min, leb, leb→le, arith, ◌⊎◌, Bool-cases, Option-cases, inl,
  inr, take-append-drop, length-take,
}
use sys_amneziawg.Proxy.Connection.{
  Conn, Slot, pump_up, SendResult, sent, would_block, broken, skip_spent, drop_spent, count_down,
  unsent, has_rx, pump_down, conn_close, is_free,
}

-- What lwIP takes is the front of what was parked, and the rest stays parked, in order, also where
-- tcp_write fails: no byte from the application is lost, repeated or reordered. It is no more than
-- the send buffer has room for.
pub pump_up-keeps_stream :
    (s : Slot) (room : ℕ) (ok : Bool) (now : ℕ)
    → (let r = pump_up s room ok now in (r.0 ++ r.1.conn.up ≡ s.conn.up) × (length r.0 ≤ room))
unfolding pump_up
pump_up-keeps_stream s room ok now = elim (Option-cases s.conn.pcb) [
  | inl gone ↦ rw (pump_up, gone) (refl, omega arith)
  | inr (p, held) ↦ elim (Bool-cases (leb (length s.conn.up) 0 || leb room 0)) [
    | inl stop ↦ rw (pump_up, held, stop) (refl, omega arith)
    | inr go ↦ elim (Bool-cases ok) [
      | inl took ↦
          let n = min (length s.conn.up) room in
          rw (pump_up, held, go, took)
            (take-append-drop n s.conn.up, omega (arith, length-take n s.conn.up))
      | inr failed ↦ rw (pump_up, held, go, failed) (refl, omega arith)
    ]
  ]
]

abbrev flat : List (List ℕ) → List ℕ
flat [] = []
flat (p ∷ ps) = p ++ flat ps

-- The bytes that wait for the client, from the offset in the first link on.
abbrev pub pending : List (List ℕ) → ℕ → List ℕ
pending [] off = []
pending (p ∷ ps) off = drop off p ++ flat ps

drop_all : (n : ℕ) (xs : List ℕ) → length xs ≤ n → drop n xs ≡ []
drop_all zero [] h = refl
drop_all zero (x ∷ xs) h = absurd (omega (arith, h))
drop_all (suc n) [] h = refl
drop_all (suc n) (x ∷ xs) h = drop_all n xs (omega (arith, h))

drop-drop : (m n : ℕ) (xs : List ℕ) → drop (m + n) xs ≡ drop n (drop m xs)
drop-drop zero n xs = let e : 0 + n ≡ n = omega arith in ap (λ (k : ℕ). drop k xs) e
drop-drop (suc m) n [] =
    let e : suc m + n ≡ suc (m + n) = omega arith in
    ap (λ (k : ℕ). drop {A = ℕ} k []) e ∙ sym (empty_drop n)
  where
    empty_drop : (n : ℕ) → drop {A = ℕ} n [] ≡ []
    empty_drop zero = refl
    empty_drop (suc n) = refl
drop-drop (suc m) n (x ∷ xs) =
    let e : suc m + n ≡ suc (m + n) = omega arith in
    ap (λ (k : ℕ). drop k (x ∷ xs)) e ∙ drop-drop m n xs

pending-start : (rx : List (List ℕ)) → pending rx 0 ≡ flat rx
pending-start [] = refl
pending-start (p ∷ ps) = refl

skip_spent-pending :
    (rx : List (List ℕ)) (off : ℕ)
    → pending (skip_spent rx off).0 (skip_spent rx off).1 ≡ pending rx off
unfolding skip_spent
skip_spent-pending [] off = refl
skip_spent-pending (p ∷ ps) off = elim (Bool-cases (leb (length p) off)) [
  | inl spent ↦
      let nothing = drop_all off p (leb→le (length p) off spent) in
      rw spent (
        skip_spent-pending ps 0
        ∙ pending-start ps
        ∙ ap (λ (q : List ℕ). q ++ flat ps) (sym nothing))
  | inr fresh ↦ rw fresh refl
]

-- What send takes of the first link, and what is pending then.
send-pending :
    (c : Conn) (n : ℕ) → take n (unsent c) ++ pending c.rx (c.rx_off + n) ≡ pending c.rx c.rx_off
send-pending c n = of_list c.rx c.rx_off n
  where
    of_list :
        (rx : List (List ℕ)) (off n : ℕ)
        → take n (elim rx [ [] ↦ [] | p ∷ ps ↦ drop off p ]) ++ pending rx (off + n)
          ≡ pending rx off
    of_list [] off zero = refl
    of_list [] off (suc n) = refl
    of_list (p ∷ ps) off n =
        ap (λ (q : List ℕ). take n (drop off p) ++ (q ++ flat ps)) (drop-drop off n p)
        ∙ sym (append_assoc (take n (drop off p)) (drop n (drop off p)) (flat ps))
        ∙ ap (λ (q : List ℕ). q ++ flat ps) (take-append-drop n (drop off p))

conn_close-free : (s : Slot) (b : Bool) → is_free (conn_close s b).conn.st ≡ true
unfolding conn_close
conn_close-free s b = elim (Bool-cases (is_free s.conn.st)) [
  | inl gone ↦ rw gone gone
  | inr used ↦ rw used refl
]

-- The first answer of send that takes nothing is an error other than EAGAIN.
pub data Fails : List SendResult → Type 0 where
  fails_now : {rs : List SendResult} → Fails (broken ∷ rs)
  fails_later : {n : ℕ} {rs : List SendResult} → Fails rs → Fails (sent n ∷ rs)

-- The bytes went over in order and the rest is still pending; or send failed, the slot is closed,
-- and what went over is the front of what was pending.
abbrev pub Delivers : Conn → List SendResult → List ℕ × Slot → Type 0
Delivers c rs r =
    (r.0 ++ pending r.1.conn.rx r.1.conn.rx_off ≡ pending c.rx c.rx_off)
    ⊎ (Fails rs
        × (is_free r.1.conn.st ≡ true)
        × (rest : List ℕ) × (r.0 ++ rest ≡ pending c.rx c.rx_off))

-- What send takes for the client is the front of what was pending for it, and the rest stays
-- pending, in order, over any answers of send: no byte from the tunnel is lost, repeated or
-- reordered. Only where send fails with an error other than EAGAIN is the slot closed instead.
pub pump_down-keeps_stream :
    (s : Slot) (rs : List SendResult) (now : ℕ) → Delivers s.conn rs (pump_down s rs now)
unfolding pump_down
pump_down-keeps_stream s [] now = inl (skip_spent-pending s.conn.rx s.conn.rx_off)
pump_down-keeps_stream s (would_block ∷ rs) now = inl (skip_spent-pending s.conn.rx s.conn.rx_off)
pump_down-keeps_stream s (broken ∷ rs) now =
    let s' : Slot = record s { conn = drop_spent s.conn } in
    elim (Bool-cases (has_rx (drop_spent s.conn))) [
      | inl more ↦
          rw more (inr (fails_now, conn_close-free s' true, pending s.conn.rx s.conn.rx_off, refl))
      | inr spent ↦ rw spent (inl (skip_spent-pending s.conn.rx s.conn.rx_off))
    ]
pump_down-keeps_stream s (sent n ∷ rs) now =
    let s' : Slot = record s { conn = drop_spent s.conn } in
    let front = take n (unsent s'.conn) in
    let whole = send-pending s'.conn n ∙ skip_spent-pending s.conn.rx s.conn.rx_off in
    elim (Bool-cases (has_rx (drop_spent s.conn))) [
      | inr spent ↦ rw spent (inl (skip_spent-pending s.conn.rx s.conn.rx_off))
      | inl more ↦ rw more (elim (pump_down-keeps_stream (count_down s' n now) rs now) [
        | inl kept ↦ inl (append_assoc front _ _ ∙ ap (λ (q : List ℕ). front ++ q) kept ∙ whole)
        | inr (failed, gone, rest, e) ↦ inr (
          fails_later failed,
          gone,
          rest,
          append_assoc front _ _ ∙ ap (λ (q : List ℕ). front ++ q) e ∙ whole,
        )
      ])
    ]
