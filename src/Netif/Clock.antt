-- ===== src/Netif/Clock.antt =====
-- The interface stamps the session with lwIP's 32-bit clock, and the timers compare that with the
-- console's 64-bit one.
use sys_amneziawg.Common.{
  ℕ, ◌^◌, ◌≤◌, ◌<◌, ◌≡◌, refl, ap, sym, subst, ◌∙◌, Bool, true, false, not, ◌&&◌, none, some, List,
  length, leb, ltb, ◌==◌, if◌then◌else◌, u32, pos, arith, Entropy,
}
use sys_amneziawg.Types.{Config}
use sys_amneziawg.Noise.Crypto.{Crypto}
use sys_amneziawg.Noise.Transport.{Sealed, datagram, refused, fault, transport_seal}
use sys_amneziawg.Session.State.{Session, has_elapsed, needs_keepalive}
use sys_amneziawg.Session.Send.{Sent, count_sent, build_data}
use sys_amneziawg.Netif.{
  Interface, sys_now, Output, hand_over, stopped, tunnel_mtu, tunnel_output, err_if, err_mem,
  err_buf,
}

-- What a packet that goes out leaves in the session.
record Stamped (s : Session) (stamp : ℕ) (s' : Session) : Type 0 where
  stamped : s'.last_tx_ms ≡ stamp
  still : s'.established ≡ true
  period : s'.keepalive_s ≡ s.keepalive_s

absent {ℓ} : {A : Type ℓ} {a : A} → none ≡ some a → ⊥
absent h = cc

counted :
    (s : Session) (stamp : ℕ) (out : Sealed) (e : Entropy) (delivered : Bool) (c : Crypto)
    (cfg : Config) (pkt : List ℕ)
    → s.established ≡ true
    → (hand_over (count_sent c cfg s stamp out e) delivered).wire ≡ some pkt
    → Stamped s stamp (hand_over (count_sent c cfg s stamp out e) delivered).session
unfolding hand_over
counted s stamp (datagram d) e delivered c cfg pkt h w = record {
  stamped = refl;
  still = h;
  period = refl;
}
counted s stamp refused e delivered c cfg pkt h w = absurd cc
counted s stamp fault e delivered c cfg pkt h w = absurd cc

picked {ℓ} : {A : Type ℓ} (b : Bool) (x y : A) → b ≡ true → (if b then x else y) ≡ x
picked true x y h = refl
picked false x y h = absurd cc

built :
    (c : Crypto) (cfg : Config) (s : Session) (copied : List ℕ) (stamp : ℕ) (delivered : Bool)
    (e : Entropy) (pkt : List ℕ)
    → s.established ≡ true
    → (hand_over (build_data c cfg s copied 2048 stamp e) delivered).wire ≡ some pkt
    → Stamped s stamp (hand_over (build_data c cfg s copied 2048 stamp e) delivered).session
unfolding build_data
built c cfg s copied stamp delivered e pkt est =
    let (wire, e') = transport_seal c cfg s.cur s.tx_counter copied 2048 e in
    let sent = count_sent c cfg s stamp wire e' in
    subst
      (λ (r : Sent).
        (hand_over r delivered).wire ≡ some pkt → Stamped s stamp (hand_over r delivered).session)
      (sym (picked s.established sent _ est)) (counted s stamp wire e' delivered c cfg pkt est)

-- An answer that is given before anything is sealed carries no datagram.
tests :
    (b1 b2 b3 : Bool) (x y z r : Output) (s : Session) (stamp : ℕ) (pkt : List ℕ)
    → x.wire ≡ none
    → y.wire ≡ none
    → z.wire ≡ none
    → (b1 ≡ false → r.wire ≡ some pkt → Stamped s stamp r.session)
    → (if b1 then x else if b2 then y else if b3 then z else r).wire ≡ some pkt
    → Stamped s stamp (if b1 then x else if b2 then y else if b3 then z else r).session
tests true b2 b3 x y z r s stamp pkt hx hy hz h w = absurd (absent (sym hx ∙ w))
tests false true b3 x y z r s stamp pkt hx hy hz h w = absurd (absent (sym hy ∙ w))
tests false false true x y z r s stamp pkt hx hy hz h w = absurd (absent (sym hz ∙ w))
tests false false false x y z r s stamp pkt hx hy hz h w = h refl w

tunnel_output-Stamped :
    (c : Crypto) (cfg : Config) (nif : Interface) (s : Session) (total : ℕ) (copied : List ℕ)
    (clock_ms : ℕ) (delivered : Bool) (e : Entropy) (pkt : List ℕ)
    → (tunnel_output c cfg nif s total copied clock_ms delivered e).wire ≡ some pkt
    → Stamped s (u32 clock_ms) (tunnel_output c cfg nif s total copied clock_ms delivered e).session
unfolding tunnel_output sys_now
tunnel_output-Stamped c cfg nif s total copied clock_ms delivered e pkt =
    tests (not (nif.attached && s.established)) (ltb tunnel_mtu total)
      (not (length copied == total)) (stopped s err_if e) (stopped s err_mem e)
      (stopped s err_buf e) (hand_over (build_data c cfg s copied 2048 (u32 clock_ms) e) delivered)
      s (u32 clock_ms) pkt refl refl refl
      (λ up. built c cfg s copied (u32 clock_ms) delivered e pkt (ground (arith, up)))

keepalive_of :
    (s s' : Session) (stamp now : ℕ)
    → Stamped s stamp s'
    → needs_keepalive s' now ≡ has_elapsed now stamp s.keepalive_s
unfolding needs_keepalive
keepalive_of s s' stamp now g = rw (g.still, g.stamped, g.period) refl

-- After a packet that the interface sends, a keepalive is not due as long as the console has been
-- up for less than 2^32 milliseconds; from then on, for the next 2^31 milliseconds, it is due at
-- once although a packet has just gone out, for a keepalive period of 1 to 2^21 seconds.
pub tunnel_output_keepalive :
    (c : Crypto) (cfg : Config) (nif : Interface) (s : Session) (total : ℕ) (copied : List ℕ)
    (now : ℕ) (delivered : Bool) (e : Entropy) (pkt : List ℕ) (n : ℕ)
    → (tunnel_output c cfg nif s total copied now delivered e).wire ≡ some pkt
    → s.keepalive_s ≡ pos n
    → 1 ≤ n
    → n ≤ 2 ^ 21
    → now < 2 ^ 33
    → needs_keepalive (tunnel_output c cfg nif s total copied now delivered e).session now
      ≡ leb (2 ^ 32) now
unfolding has_elapsed
tunnel_output_keepalive c cfg nif s total copied now delivered e pkt n w k lo hi lt =
    let g = tunnel_output-Stamped c cfg nif s total copied now delivered e pkt w in
    keepalive_of s _ (u32 now) now g ∙ ap (has_elapsed now (u32 now)) k ∙ ground (arith, lo, hi, lt)
