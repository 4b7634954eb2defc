-- ===== src/Session/Trace.antt =====
-- Sequences of session operations, with what a peer could observe of them: the counters sent under
-- the current key, and the counters of the datagrams that each keypair let through.
pub mod Windows
pub mod Replay
pub mod Counter
pub mod Nonces
use sys_amneziawg.Common.{
  ℕ, Bool, true, false, List, [], ◌∷◌, ◌&&◌, if◌then◌else◌, Entropy, Option, none, some,
}
use sys_amneziawg.Types.{Config}
use sys_amneziawg.Noise.Crypto.{Crypto}
use sys_amneziawg.Noise.Transport.{
  Sealed, datagram, refused, Opened, opened, rejected, transport_open,
}
use sys_amneziawg.Session.Window.{DropReason}
use sys_amneziawg.Session.Window.Refinement.{remember}
use sys_amneziawg.Session.State.{Session, session_init}
use sys_amneziawg.Session.Send.{build_initiation, build_data, build_keepalive}
use sys_amneziawg.Session.Receive.{
  Rx, ignored, handled, payload, established, expire_prev, is_rejected, on_datagram,
  looks_like_response,
}

-- The calls that change a session, with their arguments.
pub data Op : Type 0 where
  initiate : ℕ → ℕ → ℕ → Op
  keepalive : ℕ → ℕ → Op
  data_packet : List ℕ → ℕ → ℕ → Op
  receive : List ℕ → ℕ → ℕ → Op

-- A session with the static variables and the entropy that it draws on.
pub record Machine : Type 0 where
  pub session : Session
  pub reason : DropReason
  pub entropy : Entropy

-- The counters that went through under each keypair, newest first.
pub record Past : Type 0 where
  pub cur : List ℕ
  pub prev : List ℕ

-- A machine, the counters it sent under its current keypair, and the counters it let through.
pub record Traced : Type 0 where
  pub machine : Machine
  pub sent : List ℕ
  pub past : Past

abbrev pub delivers : Rx → Bool
delivers handled = true
delivers (payload p) = true
delivers ignored = false
delivers established = false
delivers Rx.fault = false

abbrev pub is_established : Rx → Bool
is_established established = true
is_established ignored = false
is_established handled = false
is_established (payload p) = false
is_established Rx.fault = false

abbrev pub note : Past → Bool → Bool → ℕ → Past
note p true fresh ctr = record p { prev = remember fresh ctr p.prev }
note p false fresh ctr = record p { cur = remember fresh ctr p.cur }

abbrev pub note_sent : Sealed → ℕ → List ℕ → List ℕ
note_sent (datagram pkt) ctr log = ctr ∷ log
note_sent refused ctr log = log
note_sent Sealed.fault ctr log = log

-- The keypairs move: the current one becomes the previous one.
abbrev pub rotate : Session → Past → Past
rotate s p = record { cur = []; prev = if s.established then p.cur else p.prev }

abbrev pub past_expired : Session → Session → Past → Past
past_expired s s' p = record p {
  prev = if s'.have_prev then p.prev else if s.have_prev then [] else p.prev;
}

abbrev pub opened_as : Bool → Opened → Option (Bool × ℕ)
opened_as on_prev (opened plain ctr) = some (on_prev, ctr)
opened_as on_prev rejected = none
opened_as on_prev Opened.fault = none

abbrev pub note_opened : Option (Bool × ℕ) → Rx → Past → Past
note_opened none rx p = p
note_opened (some (on_prev, ctr)) rx p = note p on_prev (delivers rx) ctr

-- A new session, before anything was sent or received.
unfoldable pub start : Config → DropReason → Entropy → Traced
start cfg r e =
    let (s, e') = session_init cfg e in
    record {
      machine = record { session = s; reason = r; entropy = e' };
      sent = [];
      past = record { cur = []; prev = [] };
    }

module _ (c : Crypto) (cfg : Config) where
  -- Which keypair opens a datagram, true for the previous one, and the counter in it.
  unfoldable pub opened_by : Session → List ℕ → ℕ → Option (Bool × ℕ)
  opened_by s pkt cap =
      let (pkt', got) = transport_open c cfg s.cur pkt cap in
      if is_rejected got && s.have_prev
      then opened_as true (transport_open c cfg s.prev pkt' cap).1
      else opened_as false got

  -- The counters let through after a datagram with the answer `rx`.
  unfoldable pub past_after : Session → Past → List ℕ → ℕ → ℕ → Rx → Past
  past_after s p pkt cap now rx =
      if looks_like_response c cfg s pkt
      then (if is_established rx then rotate s p else p)
      else if s.established
      then (let s' = expire_prev s now in
          note_opened (opened_by s' pkt cap) rx (past_expired s s' p))
      else p

  unfoldable pub step : Traced → Op → Traced
  step t (initiate cap now wall) =
      let m = t.machine in
      let got = build_initiation c cfg m.session cap now wall m.entropy in
      record t { machine = record m { session = got.session; entropy = got.entropy } }
  step t (keepalive cap now) =
      let m = t.machine in
      let got = build_keepalive c cfg m.session cap now m.entropy in
      record t {
        machine = record m { session = got.session; entropy = got.entropy };
        sent = note_sent got.out m.session.tx_counter t.sent;
      }
  step t (data_packet text cap now) =
      let m = t.machine in
      let got = build_data c cfg m.session text cap now m.entropy in
      record t {
        machine = record m { session = got.session; entropy = got.entropy };
        sent = note_sent got.out m.session.tx_counter t.sent;
      }
  step t (receive pkt cap now) =
      let m = t.machine in
      let got = on_datagram c cfg m.session m.reason pkt cap now in
      record {
        machine = record m { session = got.session; reason = got.reason };
        sent = if is_established got.rx then [] else t.sent;
        past = past_after m.session t.past pkt cap now got.rx;
      }

  unfoldable pub run : Traced → List Op → Traced
  run t [] = t
  run t (op ∷ ops) = run (step t op) ops
