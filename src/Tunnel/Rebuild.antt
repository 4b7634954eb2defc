-- ===== src/Tunnel/Rebuild.antt =====
-- A lost tunnel is rebuilt, and not too often.
use sys_amneziawg.Common.{
  ℕ, ◌+◌, ◌^◌, ◌≤◌, ◌<◌, ◌≡◌, refl, ap, sym, subst, ◌∙◌, Bool, true, false, not, ◌&&◌, List, [],
  ◌∷◌, leb, leb→le, if◌then◌else◌, u64, arith, All, Bool-cases, inl, inr,
}
use sys_amneziawg.Types.{Config}
use sys_amneziawg.Noise.Crypto.{Crypto}
use sys_amneziawg.Netif.{Interface, netif_set_fd}
use sys_amneziawg.Tunnel.Loop.{
  Tunnel, Turn, has_fd, drop_tunnel, power_step, with_socket, rebuild_step,
}
use sys_amneziawg.Tunnel.Turn.{turn, run_turns}
use sys_amneziawg.Tunnel.Recovery.{Later, turn-Later}

-- With no socket the tunnel is lost, so that a rebuild is due; an interface that was started writes
-- to the socket in use, if there is one.
pub record Kept (t : Tunnel) : Type 0 where
  pub retried : has_fd t.fd ≡ false → t.tunnel_lost ≡ true
  pub wired : t.nif.attached ≡ true → has_fd t.fd ≡ true → t.nif.fd ≡ t.fd

drop_tunnel-Kept : (t : Tunnel) → Kept t → Kept (drop_tunnel t)
unfolding drop_tunnel netif_set_fd
drop_tunnel-Kept t k = elim (Bool-cases (t.session.established && not t.tunnel_lost)) [
  | inl drops ↦ rw drops (record { retried = λ h. refl; wired = λ a h. absurd cc })
  | inr stays ↦ rw stays (record { retried = k.retried; wired = k.wired })
]

power_step-Kept : (t : Tunnel) (u : Turn) → Kept t → Kept (power_step t u)
unfolding power_step
power_step-Kept t u k =
    let looked : Tunnel = record t { next_power = u64 (u.now + 1000) } in
    let k' : Kept looked = record { retried = k.retried; wired = k.wired } in
    elim (Bool-cases (leb t.next_power u.now)) [
      | inr early ↦ rw early k
      | inl due ↦ elim (Bool-cases u.transition) [
        | inl sleep ↦ rw (due, sleep) (drop_tunnel-Kept looked k')
        | inr awake ↦ rw (due, awake) k'
      ]
    ]

with_socket-Kept :
    (cfg : Config) (t : Tunnel) (u : Turn) → t.tunnel_lost ≡ true → Kept (with_socket cfg t u)
unfolding with_socket netif_set_fd
with_socket-Kept cfg t u lost = elim (Bool-cases (has_fd u.new_fd)) [
  | inl made ↦ rw made (record { retried = λ h. absurd cc; wired = λ a h. refl })
  | inr failed ↦ rw failed (record { retried = λ h. lost; wired = λ a h. absurd cc })
]

rebuild_step-Kept : (cfg : Config) (t : Tunnel) (u : Turn) → Kept t → Kept (rebuild_step cfg t u)
unfolding rebuild_step
rebuild_step-Kept cfg t u k = elim (Bool-cases (t.tunnel_lost && leb t.next_rebuild u.now)) [
  | inl due ↦ rw due (with_socket-Kept cfg _ u (ground (arith, due)))
  | inr idle ↦ rw idle k
]

Later-Kept : (t t' : Tunnel) → Later t t' → Kept t → Kept t'
Later-Kept t t' f k = record {
  retried = λ h. f.lost (k.retried (ap has_fd (sym f.fd) ∙ h));
  wired = λ a h. elim f.wired [
    | inr now ↦ now ∙ sym f.fd
    | inl same ↦
        ap (λ (n : Interface). n.fd) same
        ∙ k.wired (ap (λ (n : Interface). n.attached) (sym same) ∙ a) (ap has_fd (sym f.fd) ∙ h)
        ∙ sym f.fd
  ];
}

-- Each time is not before `from`, nor within 3000 milliseconds of the one before it.
abbrev pub Spaced : ℕ → List ℕ → Type 0
Spaced from [] = Unit
Spaced from (x ∷ xs) = (from ≤ x) × Spaced (x + 3000) xs

-- The clock is not about to wrap.
abbrev pub IsEarly : Turn → Type 0
IsEarly u = u.now + 3000 < 2 ^ 64

module _ (c : Crypto) (cfg : Config) (addr port : ℕ) where
  turn-Kept : (t : Tunnel) (u : Turn) → Kept t → Kept (turn c cfg addr port t u).tunnel
  turn-Kept t u k =
      Later-Kept (rebuild_step cfg (power_step t u) u) (turn c cfg addr port t u).tunnel
        (turn-Later c cfg addr port t u)
        (rebuild_step-Kept cfg (power_step t u) u (power_step-Kept t u k))

  -- Over any turns of the main loop, from a state where both hold: whenever the module has no
  -- socket its tunnel is marked as lost, so that a rebuild is due, and whenever it has one an
  -- interface that was started writes to that one.
  pub run_turns-Kept :
      (t : Tunnel) (us : List Turn) → Kept t → Kept (run_turns c cfg addr port t us)
  unfolding run_turns
  run_turns-Kept t [] k = k
  run_turns-Kept t (u ∷ us) k =
      run_turns-Kept (turn c cfg addr port t u).tunnel us (turn-Kept t u k)

  -- Whether a turn tries to rebuild, and the times of the tries in a run.
  abbrev pub tries : Tunnel → Turn → Bool
  tries t u = let p = power_step t u in p.tunnel_lost && leb p.next_rebuild u.now

  abbrev pub attempts : Tunnel → List Turn → List ℕ
  attempts t [] = []
  attempts t (u ∷ us) =
      let later = attempts (turn c cfg addr port t u).tunnel us in
      if tries t u then u.now ∷ later else later

  power_step-next : (t : Tunnel) (u : Turn) → (power_step t u).next_rebuild ≡ t.next_rebuild
  unfolding power_step drop_tunnel
  power_step-next t u = elim (Bool-cases (leb t.next_power u.now)) [
    | inr early ↦ rw early refl
    | inl due ↦ elim (Bool-cases u.transition) [
      | inr awake ↦ rw (due, awake) refl
      | inl sleep ↦ elim (Bool-cases (t.session.established && not t.tunnel_lost)) [
        | inl drops ↦ rw (due, sleep, drops) refl
        | inr stays ↦ rw (due, sleep, stays) refl
      ]
    ]
  ]

  rebuild-next :
      (t : Tunnel) (u : Turn)
      → IsEarly u
      → (rebuild_step cfg t u).next_rebuild
        ≡ (if t.tunnel_lost && leb t.next_rebuild u.now then u.now + 3000 else t.next_rebuild)
  unfolding rebuild_step with_socket
  rebuild-next t u h = elim (Bool-cases (t.tunnel_lost && leb t.next_rebuild u.now)) [
    | inr idle ↦ rw idle refl
    | inl due ↦ elim (Bool-cases (has_fd u.new_fd)) [
      | inl made ↦ rw (due, made) (omega (arith, h))
      | inr failed ↦ rw (due, failed) (omega (arith, h))
    ]
  ]

  turn-next :
      (t : Tunnel) (u : Turn)
      → IsEarly u
      → (turn c cfg addr port t u).tunnel.next_rebuild
        ≡ (if tries t u then u.now + 3000 else t.next_rebuild)
  turn-next t u h =
      (turn-Later c cfg addr port t u).next_rebuild
      ∙ rebuild-next (power_step t u) u h
      ∙ ap (λ (n : ℕ). if tries t u then u.now + 3000 else n) (power_step-next t u)

  -- Two tries to rebuild the tunnel are at least 3000 milliseconds apart, whatever fails and however
  -- often the tunnel is lost, over any turns of the main loop before the clock wraps.
  pub attempts-Spaced :
      (t : Tunnel) (us : List Turn) → All IsEarly us → Spaced t.next_rebuild (attempts t us)
  attempts-Spaced t [] h = tt
  attempts-Spaced t (u ∷ us) h =
      let t' = (turn c cfg addr port t u).tunnel in
      let later = attempts-Spaced t' us h.1 in
      let next = turn-next t u h.0 in
      elim (Bool-cases (tries t u)) [
        | inr idle ↦
            let same : t'.next_rebuild ≡ t.next_rebuild =
              next ∙ ap (λ (b : Bool). if b then u.now + 3000 else t.next_rebuild) idle in
            rw idle (subst (λ (n : ℕ). Spaced n (attempts t' us)) same later)
        | inl due ↦
            let moved : t'.next_rebuild ≡ u.now + 3000 =
              next ∙ ap (λ (b : Bool). if b then u.now + 3000 else t.next_rebuild) due in
            let ready : t.next_rebuild ≤ u.now =
              subst (λ (n : ℕ). n ≤ u.now) (power_step-next t u)
                (ground (arith, leb→le (power_step t u).next_rebuild u.now, due)) in
            rw due (ready, subst (λ (n : ℕ). Spaced n (attempts t' us)) moved later)
      ]
