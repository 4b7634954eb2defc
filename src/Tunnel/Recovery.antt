-- ===== src/Tunnel/Recovery.antt =====
-- What a turn of the main loop keeps behind its rebuild.
use sys_amneziawg.Common.{
  ℕ, ◌≡◌, refl, ap, ◌∙◌, true, not, ◌&&◌, ◌||◌, Option, none, some, List, [], ◌∷◌, length, take,
  leb, ltb, sub64, ◌==◌, Entropy, ◌⊎◌, Bool-cases, inl, inr,
}
use sys_amneziawg.Types.{Config}
use sys_amneziawg.Noise.Crypto.{Crypto}
use sys_amneziawg.Noise.Framing.Junk.{junk_packets}
use sys_amneziawg.Noise.Transport.{Sealed, datagram, refused, fault}
use sys_amneziawg.Session.Window.{DropReason}
use sys_amneziawg.Session.State.{Session, needs_handshake, needs_keepalive}
use sys_amneziawg.Session.Send.{build_initiation, build_keepalive}
use sys_amneziawg.Session.Receive.{Rx, payload, ignored, handled, established, fault, on_datagram}
use sys_amneziawg.Netif.{Interface, netif_start}
use sys_amneziawg.Tunnel.Fetch.{is_busy, is_done, is_failed}
use sys_amneziawg.Tunnel.Loop.{
  Tunnel, Errno, Arrival, Turn, has_fd, power_step, rebuild_step, after_send, sock_is_dead,
  no_network,
}
use sys_amneziawg.Tunnel.Turn.{
  wire_size, with_session, told_handshake, told_keepalive, send_step, bring_up, fetch_step,
  report_step, wait_step, take_rx, receive_one, is_peer, drain_one, drain, drain_step, turn,
}

-- What the steps behind the rebuild keep: the descriptor, the time of the next rebuild, and a loss;
-- the interface keeps its descriptor or takes the current one.
pub record Later (t t' : Tunnel) : Type 0 where
  pub next_rebuild : t'.next_rebuild ≡ t.next_rebuild
  pub fd : t'.fd ≡ t.fd
  pub lost : t.tunnel_lost ≡ true → t'.tunnel_lost ≡ true
  pub wired : (t'.nif ≡ t.nif) ⊎ (t'.nif.fd ≡ t.fd)

Later-refl : (t : Tunnel) → Later t t
Later-refl t = record { next_rebuild = refl; fd = refl; lost = λ h. h; wired = inl refl }

Later-trans : {a b d : Tunnel} → Later a b → Later b d → Later a d
Later-trans f g = record {
  next_rebuild = g.next_rebuild ∙ f.next_rebuild;
  fd = g.fd ∙ f.fd;
  lost = λ h. g.lost (f.lost h);
  wired = elim g.wired [
    | inr now ↦ inr (now ∙ f.fd)
    | inl same ↦ elim f.wired [
      | inl kept ↦ inl (same ∙ kept)
      | inr now ↦ inr (ap (λ (n : Interface). n.fd) same ∙ now)
    ]
  ];
}

with_session-Later : (t : Tunnel) (s : Session) (e : Entropy) → Later t (with_session t s e)
with_session-Later t s e = record {
  next_rebuild = refl;
  fd = refl;
  lost = λ h. h;
  wired = inl refl;
}

received-Later :
    (t : Tunnel) (s : Session) (r : DropReason) → Later t (record t { session = s; reason = r })
received-Later t s r = record { next_rebuild = refl; fd = refl; lost = λ h. h; wired = inl refl }

after_send-Later : (t : Tunnel) (now : ℕ) (err : Option Errno) → Later t (after_send t now err)
unfolding after_send
after_send-Later t now none = record {
  next_rebuild = refl;
  fd = refl;
  lost = λ h. h;
  wired = inl refl;
}
after_send-Later t now (some e) = elim (Bool-cases (sock_is_dead e)) [
  | inl dead ↦
      rw dead (record { next_rebuild = refl; fd = refl; lost = λ h. refl; wired = inl refl })
  | inr alive ↦ elim (Bool-cases (no_network e)) [
    | inr other ↦ rw (alive, other) (Later-refl t)
    | inl away ↦ elim (Bool-cases (t.unreachable_since == 0)) [
      | inl first ↦
          rw (alive, away, first)
            (record { next_rebuild = refl; fd = refl; lost = λ h. h; wired = inl refl })
      | inr since ↦
          elim (Bool-cases (ltb 30000 (sub64 now t.unreachable_since) && not t.tunnel_lost)) [
            | inl long ↦
                rw (alive, away, since, long)
                  (record { next_rebuild = refl; fd = refl; lost = λ h. refl; wired = inl refl })
            | inr short ↦ rw (alive, away, since, short) (Later-refl t)
          ]
    ]
  ]
]

module _ (c : Crypto) (cfg : Config) where
  told_handshake-Later :
      (t : Tunnel) (now : ℕ) (err : Option Errno) (out : Sealed)
      → Later t (told_handshake c cfg t now err out).tunnel
  told_handshake-Later t now err (datagram pkt) =
      let e = (junk_packets cfg 128 16 t.entropy).1 in
      Later-trans (with_session-Later t t.session e)
        (after_send-Later (record t { entropy = e }) now err)
  told_handshake-Later t now err refused = Later-refl t
  told_handshake-Later t now err fault = Later-refl t

  told_keepalive-Later : (t : Tunnel) (out : Sealed) → Later t (told_keepalive c cfg t out).tunnel
  told_keepalive-Later t (datagram pkt) = Later-refl t
  told_keepalive-Later t refused = Later-refl t
  told_keepalive-Later t fault = Later-refl t

  send_step-Later : (t : Tunnel) (u : Turn) → Later t (send_step c cfg t u).tunnel
  unfolding send_step
  send_step-Later t u =
      let hello = build_initiation c cfg t.session wire_size u.now u.wall t.entropy in
      let alive = build_keepalive c cfg t.session wire_size u.now t.entropy in
      elim (Bool-cases (not (has_fd t.fd))) [
        | inl gone ↦ rw gone (Later-refl t)
        | inr there ↦ elim (Bool-cases (needs_handshake t.session u.now)) [
          | inl due ↦
              rw (there, due)
                (Later-trans (with_session-Later t hello.session hello.entropy) (
                  told_handshake-Later (with_session t hello.session hello.entropy) u.now
                    u.send_error hello.out))
          | inr fresh ↦ elim (Bool-cases (needs_keepalive t.session u.now)) [
            | inl due ↦
                rw (there, fresh, due)
                  (Later-trans (with_session-Later t alive.session alive.entropy)
                    (told_keepalive-Later (with_session t alive.session alive.entropy) alive.out))
            | inr idle ↦ rw (there, fresh, idle) (Later-refl t)
          ]
        ]
      ]

  bring_up-Later : (t : Tunnel) (u : Turn) → Later t (bring_up c cfg t u)
  unfolding bring_up netif_start
  bring_up-Later t u = elim (Bool-cases (t.session.established && not t.netif_up)) [
    | inr no_need ↦ rw no_need (Later-refl t)
    | inl due ↦ elim (Bool-cases u.netif_added) [
      | inl up ↦
          rw (due, up) (record { next_rebuild = refl; fd = refl; lost = λ h. h; wired = inr refl })
      | inr down ↦
          rw (due, down)
            (record { next_rebuild = refl; fd = refl; lost = λ h. h; wired = inr refl })
    ]
  ]

  fetch_step-Later : (t : Tunnel) (u : Turn) → Later t (fetch_step c cfg t u)
  unfolding fetch_step
  fetch_step-Later t u =
      elim (Bool-cases (
        (t.netif_up && t.session.established)
        && (not (is_busy t.fetch.http) && leb t.next_fetch u.now))) [
          | inl due ↦
              rw due (record { next_rebuild = refl; fd = refl; lost = λ h. h; wired = inl refl })
          | inr idle ↦ rw idle (Later-refl t)
        ]

  report_step-Later : (t : Tunnel) → Later t (report_step c cfg t)
  unfolding report_step
  report_step-Later t = elim (Bool-cases (is_done t.fetch.http || is_failed t.fetch.http)) [
    | inl over ↦
        rw over (record { next_rebuild = refl; fd = refl; lost = λ h. h; wired = inl refl })
    | inr runs ↦ rw runs (Later-refl t)
  ]

  wait_step-Later : (t : Tunnel) (u : Turn) → Later t (wait_step c cfg t u)
  unfolding wait_step
  wait_step-Later t u = elim (Bool-cases (not (has_fd t.fd))) [
    | inl gone ↦ rw gone (Later-refl t)
    | inr there ↦ elim (Bool-cases u.died) [
      | inl died ↦ elim (Bool-cases t.netif_up) [
        | inl up ↦
            rw (there, died, up)
              (record { next_rebuild = refl; fd = refl; lost = λ h. refl; wired = inl refl })
        | inr down ↦
            rw (there, died, down)
              (record { next_rebuild = refl; fd = refl; lost = λ h. refl; wired = inl refl })
      ]
      | inr lives ↦ elim (Bool-cases t.netif_up) [
        | inl up ↦
            rw (there, lives, up)
              (record { next_rebuild = refl; fd = refl; lost = λ h. h; wired = inl refl })
        | inr down ↦
            rw (there, lives, down)
              (record { next_rebuild = refl; fd = refl; lost = λ h. h; wired = inl refl })
      ]
    ]
  ]

  take_rx-Later : (t : Tunnel) (rx : Rx) → Later t (take_rx c cfg t rx)
  take_rx-Later t (payload xs) = record {
    next_rebuild = refl;
    fd = refl;
    lost = λ h. h;
    wired = inl refl;
  }
  take_rx-Later t ignored = Later-refl t
  take_rx-Later t handled = Later-refl t
  take_rx-Later t established = Later-refl t
  take_rx-Later t fault = Later-refl t

  module _ (addr port : ℕ) where
    drain_one-Later : (t : Tunnel) (a : Arrival) → Later t (drain_one c cfg addr port t a)
    unfolding drain_one receive_one
    drain_one-Later t a =
        let r = on_datagram c cfg t.session t.reason (take wire_size a.content) 2048 a.at in
        elim (Bool-cases (is_peer c cfg addr port a)) [
          | inl peer ↦ rw peer (
              Later-trans (received-Later t r.session r.reason)
                (take_rx-Later (record t { session = r.session; reason = r.reason }) r.rx))
          | inr stray ↦
              rw stray (record { next_rebuild = refl; fd = refl; lost = λ h. h; wired = inl refl })
        ]

    drain-Later : (t : Tunnel) (ds : List Arrival) → Later t (drain c cfg addr port t ds)
    unfolding drain
    drain-Later t [] = Later-refl t
    drain-Later t (a ∷ rest) = elim (Bool-cases (length a.content == 0)) [
      | inl empty ↦ rw empty (Later-refl t)
      | inr full ↦
          rw full
            (Later-trans (drain_one-Later t a) (drain-Later (drain_one c cfg addr port t a) rest))
    ]

    drain_step-Later : (t : Tunnel) (u : Turn) → Later t (drain_step c cfg addr port t u)
    unfolding drain_step
    drain_step-Later t u = elim (Bool-cases (has_fd t.fd && u.readable)) [
      | inl comes ↦ rw comes (drain-Later t (take 64 u.arrivals))
      | inr quiet_socket ↦ rw quiet_socket (Later-refl t)
    ]

    -- Everything behind the rebuild.
    pub turn-Later :
        (t : Tunnel) (u : Turn)
        → Later (rebuild_step cfg (power_step t u) u) (turn c cfg addr port t u).tunnel
    unfolding turn
    turn-Later t u =
        let t0 = rebuild_step cfg (power_step t u) u in
        let t1 = (send_step c cfg t0 u).tunnel in
        let t2 = bring_up c cfg t1 u in
        let t3 = fetch_step c cfg t2 u in
        let t4 = report_step c cfg t3 in
        Later-trans (send_step-Later t0 u) (
          Later-trans (bring_up-Later t1 u) (
            Later-trans (fetch_step-Later t2 u) (
              Later-trans (report_step-Later t3)
                (Later-trans (wait_step-Later t4 u) (drain_step-Later (wait_step c cfg t4 u) u)))))
