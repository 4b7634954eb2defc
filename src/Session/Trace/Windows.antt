-- ===== src/Session/Trace/Windows.antt =====
-- How the parts of a datagram's handling keep both windows true to what went through.
use sys_amneziawg.Common.{
  ℕ, Bool, true, false, List, [], ◌∷◌, if◌then◌else◌, ◌≡◌, refl, inl, inr, Bool-cases, ltb, sub64,
}
use sys_amneziawg.Noise.Transport.{Opened, opened, rejected}
use sys_amneziawg.Session.Window.{DropReason, replay_ok}
use sys_amneziawg.Session.Window.Refinement.{
  Represents, empty-Represents, IsDistinct, replay_ok-Refines, remember-IsDistinct,
}
use sys_amneziawg.Session.State.{Session}
use sys_amneziawg.Session.Receive.{
  expire_prev, promote, retire, deliver, drop_replay, judge, conclude, prev_keep_ms,
}
use sys_amneziawg.Session.Trace.{Past, delivers, note, rotate, past_expired, opened_as, note_opened}

-- Both windows stand for what went through, and nothing did so twice.
pub record Guarded (p : Past) (s : Session) : Type 0 where
  pub cur_window : Represents s.rx_window p.cur
  pub prev_window : Represents s.prev_window p.prev
  pub cur_once : IsDistinct p.cur
  pub prev_once : IsDistinct p.prev

deliver-delivers :
    (s : Session) (r : DropReason) (now : ℕ) (plain : List ℕ) (ctr : ℕ)
    → delivers (deliver s r now plain ctr).rx ≡ true
unfolding deliver
deliver-delivers s r now [] ctr = refl
deliver-delivers s r now (x ∷ xs) ctr = refl

deliver_windows :
    (s : Session) (r : DropReason) (now : ℕ) (plain : List ℕ) (ctr : ℕ)
    → ((deliver s r now plain ctr).session.rx_window ≡ s.rx_window)
      × ((deliver s r now plain ctr).session.prev_window ≡ s.prev_window)
unfolding deliver
deliver_windows s r now [] ctr = (refl, refl)
deliver_windows s r now (x ∷ xs) ctr = (refl, refl)

deliver-Guarded :
    (p : Past) (s : Session) (r : DropReason) (now : ℕ) (plain : List ℕ) (ctr : ℕ)
    → Guarded p s
    → Guarded p (deliver s r now plain ctr).session
unfolding deliver
deliver-Guarded p s r now [] ctr g = record {
  cur_window = g.cur_window;
  prev_window = g.prev_window;
  cur_once = g.cur_once;
  prev_once = g.prev_once;
}
deliver-Guarded p s r now (x ∷ xs) ctr g = record {
  cur_window = g.cur_window;
  prev_window = g.prev_window;
  cur_once = g.cur_once;
  prev_once = g.prev_once;
}

drop_replay-Guarded :
    (p : Past) (s : Session) (r : DropReason) (on_prev : Bool) (ctr : ℕ)
    → Guarded p s
    → Guarded p (drop_replay s r on_prev ctr).session
unfolding drop_replay
drop_replay-Guarded p s r on_prev ctr g = record {
  cur_window = g.cur_window;
  prev_window = g.prev_window;
  cur_once = g.cur_once;
  prev_once = g.prev_once;
}

-- The end of `judge`, once the window has answered.
settle-Guarded :
    (p : Past) (s : Session) (r : DropReason) (on_prev fresh : Bool) (now : ℕ) (plain : List ℕ)
    (ctr : ℕ)
    → Guarded (note p on_prev fresh ctr) s
    → (let got = if fresh then deliver s r now plain ctr else drop_replay s r on_prev ctr in
        Guarded (note p on_prev (delivers got.rx) ctr) got.session)
unfolding drop_replay
settle-Guarded p s r on_prev true now plain ctr g =
    rw (deliver-delivers s r now plain ctr)
      (deliver-Guarded (note p on_prev true ctr) s r now plain ctr g)
settle-Guarded p s r on_prev false now plain ctr g =
    drop_replay-Guarded (note p on_prev false ctr) s r on_prev ctr g

judge-Guarded :
    (p : Past) (s : Session) (r : DropReason) (on_prev : Bool) (now : ℕ) (plain : List ℕ) (ctr : ℕ)
    → Guarded p s
    → (let got = judge s r on_prev now plain ctr in
        Guarded (note p on_prev (delivers got.rx) ctr) got.session)
unfolding judge
judge-Guarded p s r true now plain ctr g =
    let v = replay_ok s.prev_window r ctr in
    let ok = replay_ok-Refines s.prev_window p.prev r ctr g.prev_window in
    settle-Guarded p (record s { prev_window = v.window }) v.reason true v.fresh now plain ctr
      (record {
        cur_window = g.cur_window;
        prev_window = ok.after;
        cur_once = g.cur_once;
        prev_once = remember-IsDistinct p.prev ctr v.fresh ok.answer g.prev_once;
      })
judge-Guarded p s r false now plain ctr g =
    let v = replay_ok s.rx_window r ctr in
    let ok = replay_ok-Refines s.rx_window p.cur r ctr g.cur_window in
    settle-Guarded p (record s { rx_window = v.window }) v.reason false v.fresh now plain ctr
      (record {
        cur_window = ok.after;
        prev_window = g.prev_window;
        cur_once = remember-IsDistinct p.cur ctr v.fresh ok.answer g.cur_once;
        prev_once = g.prev_once;
      })

pub promote-Guarded :
    (p : Past) (s : Session) (now : ℕ) → Guarded p s → Guarded (rotate s p) (promote s now)
unfolding promote retire
promote-Guarded p s now g = elim (Bool-cases s.established) [
  | inl up ↦ rw up (record {
    cur_window = empty-Represents;
    prev_window = g.cur_window;
    cur_once = tt;
    prev_once = g.cur_once;
  })
  | inr down ↦ rw down (record {
    cur_window = empty-Represents;
    prev_window = g.prev_window;
    cur_once = tt;
    prev_once = g.prev_once;
  })
]

pub expire_prev-Guarded :
    (p : Past) (s : Session) (now : ℕ)
    → Guarded p s
    → Guarded (past_expired s (expire_prev s now) p) (expire_prev s now)
unfolding expire_prev
expire_prev-Guarded p s now g = elim (Bool-cases s.have_prev) [
  | inl has ↦ elim (Bool-cases (ltb prev_keep_ms (sub64 now s.prev_since_ms))) [
    | inl old ↦
        rw (has, old)
          (record {
            cur_window = g.cur_window;
            prev_window = empty-Represents;
            cur_once = g.cur_once;
            prev_once = tt;
          })
    | inr young ↦
        rw (has, young)
          (record {
            cur_window = g.cur_window;
            prev_window = g.prev_window;
            cur_once = g.cur_once;
            prev_once = g.prev_once;
          })
  ]
  | inr bare ↦ rw bare (record {
    cur_window = g.cur_window;
    prev_window = g.prev_window;
    cur_once = g.cur_once;
    prev_once = g.prev_once;
  })
]

pub conclude-Guarded :
    (p : Past) (s : Session) (r : DropReason) (on_prev : Bool) (now : ℕ) (o : Opened)
    → Guarded p s
    → (let got = conclude s r on_prev now o in
        Guarded (note_opened (opened_as on_prev o) got.rx p) got.session)
conclude-Guarded p s r on_prev now (opened plain ctr) g =
    judge-Guarded p s r on_prev now plain ctr g
conclude-Guarded p s r on_prev now rejected g = g
conclude-Guarded p s r on_prev now Opened.fault g = g
