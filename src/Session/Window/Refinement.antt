-- ===== src/Session/Window/Refinement.antt =====
-- The bitmap against the list of all counters accepted so far.
use sys_amneziawg.Common.{
  ℕ, zero, suc, ◌+◌, ◌-◌, ◌*◌, ◌^◌, ◌≤◌, ◌<◌, bit_and, bit_or, max, ◌≡◌, refl, sym, Bool, true,
  false, not, ◌&&◌, ◌||◌, List, [], ◌∷◌, ltb, leb, ◌==◌, if◌then◌else◌, u64, Bool-cases, inl, inr,
  arith, ltb→lt,
}
use native.Mathlib.Nat.{one-le-pow}
use sys_amneziawg.Common.Bits.{bit_at, bit_and-pow, bit_at-bit_or-pow, bit_at-shl, bit_at-mod-pow}
use sys_amneziawg.Session.Window.{
  Window, DropReason, Verdict, empty_window, replay_window, advance, replay_ok,
}

abbrev pub elem : ℕ → List ℕ → Bool
elem c [] = false
elem c (x ∷ xs) = c == x || elem c xs

-- The highest of a list, 0 if there is none.
abbrev pub highest : List ℕ → ℕ
highest [] = 0
highest (x ∷ xs) = max x (highest xs)

-- The specification: with every accepted counter remembered, one is accepted if it is new and not
-- 64 or more behind the highest.
unfoldable pub accepts : List ℕ → ℕ → Bool
accepts past c = not (elem c past) && ltb (highest past) (c + replay_window)

-- The window stands for a history: the highest agrees, and so does each bit.
pub record Represents (w : Window) (past : List ℕ) : Type 0 where
  pub top : w.max ≡ highest past
  pub bit :
      (k : ℕ)
      → k < replay_window
      → k ≤ w.max
      → bit_at w.bits k ≡ (if elem (w.max - k) past then 1 else 0)

elem-highest : (c : ℕ) (past : List ℕ) → elem c past ≡ true → c ≤ highest past
elem-highest c [] h = cc
elem-highest c (x ∷ past) h = ground (arith, elem-highest c past)

elem_above : (c : ℕ) (past : List ℕ) → highest past < c → elem c past ≡ false
elem_above c past h = ground (arith, elem-highest c past)

bit_at-zero : (k : ℕ) → bit_at 0 k ≡ 0
bit_at-zero zero = refl
bit_at-zero (suc k) = bit_at-zero k

pub empty-Represents : Represents empty_window []
empty-Represents = record { top = refl; bit = λ k h p. bit_at-zero k }

-- The bits after a new highest counter.
bit_at-advance :
    (w : Window) (ctr k : ℕ)
    → k < replay_window
    → bit_at (advance w ctr).bits k ≡ (
        if k == 0
        then 1
        else if leb replay_window (ctr - w.max) || ltb k (ctr - w.max)
        then 0
        else bit_at w.bits (k - (ctr - w.max)))
unfolding advance
bit_at-advance w ctr k h = ground (
  arith,
  bit_at-bit_or-pow 0 0 k,
  bit_at-bit_or-pow (u64 (w.bits * 2 ^ (ctr - w.max))) 0 k,
  bit_at-mod-pow 64 (w.bits * 2 ^ (ctr - w.max)) k,
  bit_at-shl w.bits (ctr - w.max) k,
  bit_at-zero k,
)

advance-Represents :
    {w : Window} {past : List ℕ} (ctr : ℕ)
    → w.max < ctr
    → Represents w past
    → Represents (advance w ctr) (ctr ∷ past)
unfolding advance
advance-Represents {w} {past} ctr above r = record {
  top = omega (arith, r.top);
  bit = λ k h p. ground (
    arith,
    bit_at-advance w ctr k h,
    r.bit (k - (ctr - w.max)),
    elem_above (ctr - k) past,
    r.top,
  );
}

bit_test : (b : Bool) (m : ℕ) → 0 < m → ((if b then 1 else 0) * m == 0) ≡ not b
bit_test true m h = ground arith
bit_test false m h = ground arith

-- A set bit is a counter that was accepted.
bit_seen :
    {w : Window} {past : List ℕ} (ctr : ℕ)
    → ctr ≤ w.max
    → w.max - ctr < replay_window
    → Represents w past
    → (bit_and w.bits (2 ^ (w.max - ctr)) == 0) ≡ not (elem ctr past)
bit_seen {w} {past} ctr le near r =
    let back : w.max - (w.max - ctr) ≡ ctr = omega arith in
    let seen : bit_at w.bits (w.max - ctr) ≡ (if elem ctr past then 1 else 0) =
      rw back at (r.bit (w.max - ctr) near (omega arith)) in
    let mask : 0 < 2 ^ (w.max - ctr) = one-le-pow (w.max - ctr) 2 (omega arith) in
    rw (bit_and-pow w.bits (w.max - ctr), seen) (bit_test (elem ctr past) (2 ^ (w.max - ctr)) mask)

-- What the history becomes after an answer.
abbrev pub remember : Bool → ℕ → List ℕ → List ℕ
remember true c past = c ∷ past
remember false c past = past

mark-Represents :
    {w : Window} {past : List ℕ} (ctr : ℕ)
    → ctr ≤ w.max
    → Represents w past
    → Represents (record w { bits = bit_or w.bits (2 ^ (w.max - ctr)) }) (ctr ∷ past)
mark-Represents {w} {past} ctr le r = record {
  top = omega (arith, r.top);
  bit = λ k h p. ground (arith, bit_at-bit_or-pow w.bits (w.max - ctr) k, r.bit k h p);
}

-- What a call promises, relative to a history that the window stands for.
pub record Refines (past : List ℕ) (w : Window) (ctr : ℕ) (v : Verdict) : Type 0 where
  pub answer : v.fresh ≡ accepts past ctr
  pub after : Represents v.window (remember v.fresh ctr past)

-- `replay_ok` answers as the specification that remembers every accepted counter, and leaves a
-- window that stands for the history with the counter added if, and only if, it was accepted.
pub replay_ok-Refines :
    (w : Window) (past : List ℕ) (reason : DropReason) (ctr : ℕ)
    → Represents w past
    → Refines past w ctr (replay_ok w reason ctr)
unfolding replay_ok accepts
replay_ok-Refines w past reason ctr r = elim (Bool-cases (ltb w.max ctr)) [
  | inl above ↦ record {
    answer = ground (arith, elem_above ctr past, r.top);
    after = rw above (advance-Represents ctr (ltb→lt _ _ above) r);
  }
  | inr below ↦ elim (Bool-cases (leb replay_window (w.max - ctr))) [
    | inl old ↦ record { answer = ground (arith, r.top); after = rw (below, old) r }
    | inr near ↦
        let le : ctr ≤ w.max = ground arith in
        let bit = bit_seen ctr le (ground arith) r in
        elim (Bool-cases (elem ctr past)) [
          | inl seen ↦ record {
            answer = rw (below, near, bit, seen) refl;
            after = rw (below, near, bit, seen) r;
          }
          | inr new ↦ record {
            answer = rw (below, near, bit, new) (ground (arith, r.top));
            after = rw (below, near, bit, new) (mark-Represents ctr le r);
          }
        ]
  ]
]

-- A refused counter leaves the window as it was.
pub replay_ok_refused :
    (w : Window) (reason : DropReason) (ctr : ℕ)
    → (replay_ok w reason ctr).fresh ≡ false
    → (replay_ok w reason ctr).window ≡ w
unfolding replay_ok
replay_ok_refused w reason ctr h = ground arith

-- The counters that a run of datagrams hands upwards, newest first.
accepted_run : Window → DropReason → List ℕ → List ℕ → List ℕ
accepted_run w reason past [] = past
accepted_run w reason past (c ∷ cs) =
    let v = replay_ok w reason c in accepted_run v.window v.reason (remember v.fresh c past) cs

abbrev pub IsDistinct : List ℕ → Type 0
IsDistinct [] = Unit {0}
IsDistinct (x ∷ xs) = (elem x xs ≡ false) × IsDistinct xs

accepts_new : (past : List ℕ) (c : ℕ) → accepts past c ≡ true → elem c past ≡ false
unfolding accepts
accepts_new past c h = ground arith

pub remember-IsDistinct :
    (past : List ℕ) (c : ℕ) (b : Bool)
    → b ≡ accepts past c
    → IsDistinct past
    → IsDistinct (remember b c past)
remember-IsDistinct past c true e d = (accepts_new past c (sym e), d)
remember-IsDistinct past c false e d = d

-- From a window that stands for a history without repetition, no run of datagrams gets one
-- counter accepted twice.
accepted_run-IsDistinct :
    (w : Window) (reason : DropReason) (past cs : List ℕ)
    → Represents w past
    → IsDistinct past
    → IsDistinct (accepted_run w reason past cs)
unfolding accepted_run
accepted_run-IsDistinct w reason past [] r d = d
accepted_run-IsDistinct w reason past (c ∷ cs) r d =
    let v = replay_ok w reason c in
    let step = replay_ok-Refines w past reason c r in
    accepted_run-IsDistinct v.window v.reason (remember v.fresh c past) cs step.after
      (remember-IsDistinct past c v.fresh step.answer d)
