-- ===== src/Proxy/Connection/Upkeep.antt =====
-- What each event other than a read keeps of a slot.
use sys_amneziawg.Common.{
  ℕ, ◌+◌, ◌≤◌, ◌≡◌, refl, ap, Bool, true, false, not, ◌&&◌, ◌||◌, none, List, [], ◌∷◌, length,
  length-drop, min, leb, ltb, arith, Bool-cases, Option-cases, inl, inr, if◌then◌else◌, sub32, u32,
}
use sys_amneziawg.Proxy.Connection.{
  ConnState, free, sniff, resolving, connecting, relay, Conn, Slot, is_free, is_sniff, is_relay,
  conn_close, on_err, on_connected, count_failed, pump_up, SendResult, sent, would_block, broken,
  drop_spent, count_down, has_rx, pump_down, sweep, tick,
}
use sys_amneziawg.Proxy.Connection.Soundness.{Vetted, conn_close-Vetted, is_vetted}

-- A close leaves an empty slot, or an empty slot as it was.
pub closed-Vetted : (s : Slot) (b : Bool) → Vetted s.conn → Vetted (conn_close s b).conn
closed-Vetted s b v = conn_close-Vetted s b (λ e. v)

-- A slot in use whose state and host stay and whose parked bytes do not grow.
pub same-Vetted :
    (c c' : Conn)
    → c'.st ≡ c.st
    → c'.host ≡ c.host
    → length c'.up ≤ length c.up
    → is_free c.st ≡ false
    → Vetted c
    → Vetted c'
same-Vetted c c' same_st same_host less used v = record {
  visits = rw (same_st, same_host) v.visits;
  fits = omega (arith, less, v.fits);
  empty = λ e. absurd (ground (arith, e, ap is_free same_st, used));
}

pub pump_up-Vetted :
    (s : Slot) (room : ℕ) (ok : Bool) (now : ℕ)
    → is_free s.conn.st ≡ false
    → Vetted s.conn
    → Vetted (pump_up s room ok now).1.conn
unfolding pump_up
pump_up-Vetted s room ok now used v = elim (Option-cases s.conn.pcb) [
  | inl gone ↦ rw (pump_up, gone) (same-Vetted s.conn _ refl refl (omega arith) used v)
  | inr (p, held) ↦ elim (Bool-cases (leb (length s.conn.up) 0 || leb room 0)) [
    | inl stop ↦ rw (pump_up, held, stop) (same-Vetted s.conn _ refl refl (omega arith) used v)
    | inr go ↦ elim (Bool-cases ok) [
      | inl took ↦
          let n = min (length s.conn.up) room in
          rw (pump_up, held, go, took)
            (same-Vetted s.conn _ refl refl (omega (arith, length-drop n s.conn.up)) used v)
      | inr failed ↦
          rw (pump_up, held, go, failed) (same-Vetted s.conn _ refl refl (omega arith) used v)
    ]
  ]
]

pub pump_down-Vetted :
    (s : Slot) (rs : List SendResult) (now : ℕ)
    → is_free s.conn.st ≡ false
    → Vetted s.conn
    → Vetted (pump_down s rs now).1.conn
unfolding pump_down
pump_down-Vetted s [] now used v =
    same-Vetted s.conn (drop_spent s.conn) refl refl (omega arith) used v
pump_down-Vetted s (would_block ∷ rs) now used v =
    same-Vetted s.conn (drop_spent s.conn) refl refl (omega arith) used v
pump_down-Vetted s (broken ∷ rs) now used v =
    let v' = same-Vetted s.conn (drop_spent s.conn) refl refl (omega arith) used v in
    let s' : Slot = record s { conn = drop_spent s.conn } in
    elim (Bool-cases (has_rx (drop_spent s.conn))) [
      | inl more ↦ rw more (closed-Vetted s' true v')
      | inr spent ↦ rw spent v'
    ]
pump_down-Vetted s (sent n ∷ rs) now used v =
    let v' = same-Vetted s.conn (drop_spent s.conn) refl refl (omega arith) used v in
    let s' : Slot = record s { conn = drop_spent s.conn } in
    elim (Bool-cases (has_rx (drop_spent s.conn))) [
      | inl more ↦ rw more (
          pump_down-Vetted (count_down s' n now) rs now used
            (same-Vetted s.conn (count_down s' n now).conn refl refl (omega arith) used v))
      | inr spent ↦ rw spent v'
    ]

pub sweep-Vetted : (s : Slot) (now : ℕ) → Vetted s.conn → Vetted (sweep s now).conn
unfolding sweep
sweep-Vetted s now v =
    let limit : ℕ = if is_sniff s.conn.st then 5000 else 120000 in
    elim (Bool-cases (is_free s.conn.st || ltb (sub32 now s.conn.last_ms) limit)) [
      | inl keep ↦ rw keep v
      | inr idle ↦ rw idle (
          closed-Vetted
            (record s { stats = record s.stats { timed_out = u32 (s.stats.timed_out + 1) } }) true
            v)
    ]

pub on_err-Vetted : (s : Slot) → is_free s.conn.st ≡ false → Vetted s.conn → Vetted (on_err s).conn
unfolding on_err
on_err-Vetted s used v =
    closed-Vetted (record { conn = record s.conn { pcb = none }; stats = count_failed s.stats })
      false (same-Vetted s.conn (record s.conn { pcb = none }) refl refl (omega arith) used v)

abbrev pub is_connecting : ConnState → Bool
is_connecting connecting = true
is_connecting free = false
is_connecting sniff = false
is_connecting resolving = false
is_connecting relay = false

connecting_only :
    (st : ConnState) (host : Bool)
    → is_connecting st ≡ true
    → (is_free st || is_sniff st) || host ≡ true
    → host ≡ true
connecting_only connecting host h v = v
connecting_only free host h v = absurd cc
connecting_only sniff host h v = absurd cc
connecting_only resolving host h v = absurd cc
connecting_only relay host h v = absurd cc

pub on_connected-Vetted :
    (s : Slot) (ok : Bool)
    → is_connecting s.conn.st ≡ true
    → Vetted s.conn
    → Vetted (on_connected s ok).conn
unfolding on_connected
on_connected-Vetted s true h v = record {
  visits = connecting_only s.conn.st (is_vetted s.conn.host) h v.visits;
  fits = v.fits;
  empty = λ e. cc;
}
on_connected-Vetted s false h v = closed-Vetted (record s { stats = count_failed s.stats }) true v

tick_done-Vetted :
    (s : Slot) (b : Bool)
    → Vetted s.conn
    → Vetted
        (if b
          then conn_close
              (record s { stats = record s.stats { completed = u32 (s.stats.completed + 1) } })
              false
          else s).conn
tick_done-Vetted s true v =
    closed-Vetted (record s { stats = record s.stats { completed = u32 (s.stats.completed + 1) } })
      false v
tick_done-Vetted s false v = v

-- A slot that is empty is passed over by the pumps.
pump_free :
    (s : Slot) (rs : List SendResult) (now : ℕ)
    → Vetted s.conn
    → Vetted (if has_rx s.conn then pump_down s rs now else ([], s)).1.conn
pump_free s rs now v = elim (Bool-cases (has_rx s.conn)) [
  | inr spent ↦ rw spent v
  | inl more ↦ elim (Bool-cases (is_free s.conn.st)) [
    | inl gone ↦ let nothing : has_rx s.conn ≡ false = ap has_rx (v.empty gone) in absurd cc
    | inr used ↦ rw more (pump_down-Vetted s rs now used v)
  ]
]

pump_relay :
    (s : Slot) (room : ℕ) (ok : Bool) (now : ℕ)
    → is_free s.conn.st ≡ false
    → Vetted s.conn
    → Vetted (if is_relay s.conn.st then pump_up s room ok now else ([], s)).1.conn
pump_relay s room ok now used v = elim (Bool-cases (is_relay s.conn.st)) [
  | inl relays ↦ rw relays (pump_up-Vetted s room ok now used v)
  | inr other ↦ rw other v
]

pub tick-Vetted :
    (s : Slot) (room : ℕ) (ok : Bool) (sends : List SendResult) (now : ℕ)
    → Vetted s.conn
    → Vetted (tick s room ok sends now).1.1.conn
unfolding tick
tick-Vetted s room ok sends now v =
    let s1 = (if is_relay s.conn.st then pump_up s room ok now else ([], s)).1 in
    let s2 = (if has_rx s1.conn then pump_down s1 sends now else ([], s1)).1 in
    elim (Bool-cases (is_free s.conn.st)) [
      | inl gone ↦ rw gone v
      | inr used ↦ rw used (
          tick_done-Vetted s2 (s2.conn.peer_closed && not (has_rx s2.conn))
            (pump_free s1 sends now (pump_relay s room ok now used v)))
    ]
