-- ===== src/Proxy/Host/Normal.antt =====
-- `host_normalise` against its specification: the dots at the end, and the labels before them.
use sys_amneziawg.Common.{
  ℕ, zero, suc, ◌+◌, ◌≤◌, ◌<◌, ◌≡◌, ◌↔◌, refl, sym, ap, ◌∙◌, true, false, ◌||◌, some, List, [], ◌∷◌,
  ◌++◌, length, take, drop, get_or, replicate, ltb, ◌==◌, leb, leb→le, append-nil, arith,
  Bool-cases, inl, inr, length-append, length-replicate, take-append_length, take-append-drop,
  length-take,
}
use sys_amneziawg.Proxy.Host.{c_string, dot, strip_dots, host_ok, host_normalise}
use sys_amneziawg.Proxy.Host.Labels.{labels, every_label, host_ok-labels, host_ok_last}

drop_cons : (h : List ℕ) (i : ℕ) → i < length h → drop i h ≡ get_or h i 0 ∷ drop (suc i) h
drop_cons [] i lt = absurd (omega (arith, lt))
drop_cons (x ∷ h) zero lt = refl
drop_cons (x ∷ h) (suc i) lt = drop_cons h i (omega (arith, lt))

drop-length : (h : List ℕ) → drop (length h) h ≡ []
drop-length [] = refl
drop-length (x ∷ h) = drop-length h

replicate_snoc : (n a : ℕ) (t : List ℕ) → replicate n a ++ (a ∷ t) ≡ replicate (suc n) a ++ t
replicate_snoc zero a t = refl
replicate_snoc (suc n) a t = ap (◌∷◌ a) (replicate_snoc n a t)

-- What is stripped is dots.
strip_tail :
    (h : List ℕ) (n : ℕ)
    → n ≤ length h
    → (k : ℕ) × (drop (strip_dots h n) h ≡ replicate k dot ++ drop n h)
unfolding strip_dots
strip_tail h zero le = (0, refl)
strip_tail h (suc n) le = elim (Bool-cases (get_or h n 0 == dot)) [
  | inl at_dot ↦
      let (k, e) = strip_tail h n (omega (arith, le)) in
      let head : get_or h n 0 ≡ dot = ground arith in
      let cut : drop n h ≡ dot ∷ drop (suc n) h = rw head at (drop_cons h n (omega (arith, le))) in
      (
        suc k,
        rw at_dot (e ∙ ap (◌++◌ (replicate k dot)) cut ∙ replicate_snoc k dot (drop (suc n) h)),
      )
  | inr other ↦ (0, rw other refl)
]

get_or-append : (xs ys : List ℕ) (i : ℕ) → i < length xs → get_or (xs ++ ys) i 0 ≡ get_or xs i 0
get_or-append [] ys i lt = absurd (omega (arith, lt))
get_or-append (x ∷ xs) ys zero lt = refl
get_or-append (x ∷ xs) ys (suc i) lt = get_or-append xs ys i (omega (arith, lt))

get_or-replicate : (k i : ℕ) → i < k → get_or (replicate k dot) i 0 ≡ dot
get_or-replicate zero i lt = absurd (omega (arith, lt))
get_or-replicate (suc k) zero lt = refl
get_or-replicate (suc k) (suc i) lt = get_or-replicate k i (omega (arith, lt))

get_or-dots :
    (xs : List ℕ) (k n : ℕ)
    → length xs ≤ n
    → n < length xs + k
    → get_or (xs ++ replicate k dot) n 0 ≡ dot
get_or-dots [] k n le lt = get_or-replicate k n (omega (arith, lt))
get_or-dots (x ∷ xs) k zero le lt = absurd (omega (arith, le))
get_or-dots (x ∷ xs) k (suc n) le lt = get_or-dots xs k n (omega (arith, le)) (omega (arith, lt))

-- The loop passes over the dots behind a name.
strip_over :
    (name : List ℕ) (k n : ℕ)
    → length name ≤ n
    → n ≤ length name + k
    → strip_dots (name ++ replicate k dot) n ≡ strip_dots (name ++ replicate k dot) (length name)
unfolding strip_dots
strip_over name k zero le lt =
    let e : 0 ≡ length name = omega (arith, le) in ap (strip_dots (name ++ replicate k dot)) e
strip_over name k (suc n) le lt = elim (Bool-cases (leb (length name) n)) [
  | inl more ↦
      let at_dot = get_or-dots name k n (leb→le (length name) n more) (omega (arith, lt)) in
      let down = strip_over name k n (leb→le (length name) n more) (omega (arith, lt)) in
      rw at_dot down
  | inr last ↦
      let e : suc n ≡ length name = ground arith in ap (strip_dots (name ++ replicate k dot)) e
]

-- The loop stops at a name that does not end with a dot.
strip_stop :
    (x : ℕ) (xs t : List ℕ)
    → (get_or (x ∷ xs) (length xs) 0 == dot) ≡ false
    → strip_dots ((x ∷ xs) ++ t) (length (x ∷ xs)) ≡ length (x ∷ xs)
unfolding strip_dots
strip_stop x xs t h =
    let same = get_or-append (x ∷ xs) t (length xs) (omega arith) in rw (same, h) refl

strip_all :
    (name : List ℕ) (k : ℕ)
    → host_ok true name ≡ true
    → strip_dots (name ++ replicate k dot) (length (name ++ replicate k dot)) ≡ length name
unfolding host_ok
strip_all [] k ok = cc
strip_all (x ∷ xs) k ok =
    let size : length ((x ∷ xs) ++ replicate k dot) ≡ length (x ∷ xs) + k =
      omega (arith, length-append (x ∷ xs) (replicate k dot), length-replicate k dot) in
    ap (strip_dots ((x ∷ xs) ++ replicate k dot)) size
    ∙ strip_over (x ∷ xs) k (length (x ∷ xs) + k) (omega arith) (omega arith)
    ∙ strip_stop x xs (replicate k dot) (host_ok_last true x xs ok)

-- What is accepted: a string that is a name and any number of dots, where the name has at most 253
-- characters and its labels are proper.
abbrev pub Normalises : List ℕ → List ℕ → Type 0
Normalises h name =
    (k : ℕ) × (c_string h ≡ name ++ replicate k dot)
    × (every_label (labels name) ≡ true)
    × (length name ≤ 253)

le_size : (n : ℕ) → (n == 0 || ltb 253 n) ≡ false → n ≤ 253
le_size n h = ground arith

proper_size :
    (name : List ℕ)
    → host_ok true name ≡ true
    → length name ≤ 253
    → (length name == 0 || ltb 253 (length name)) ≡ false
unfolding host_ok
proper_size [] ok size = cc
proper_size (x ∷ xs) ok size = ground arith

accepts_only : (h name : List ℕ) → host_normalise h ≡ some name → Normalises h name
unfolding host_normalise
accepts_only h name e =
    let s = c_string h in
    let n = strip_dots s (length s) in
    elim (Bool-cases (n == 0 || ltb 253 n)) [
      | inl bad ↦ absurd (ground (arith, bad, e))
      | inr size ↦ elim (Bool-cases (host_ok true (take n s))) [
        | inr bad ↦ absurd (ground (arith, size, bad, e))
        | inl ok ↦
            let (k, tail) = strip_tail s (length s) (omega arith) in
            let same : some (take n s) ≡ some name = rw (size, ok) at e in
            let eq : take n s ≡ name = cc in
            (
              k,
              sym (take-append-drop n s)
                  ∙ ap (◌++◌ (take n s)) (
                      tail
                      ∙ ap (◌++◌ (replicate k dot)) (drop-length s)
                      ∙ append-nil (replicate k dot))
                  ∙ ap (λ t. t ++ replicate k dot) eq,
              rw (← eq) (sym (host_ok-labels (take n s)) ∙ ok),
              rw (← eq) (omega (arith, length-take n s, le_size n size)),
            )
      ]
    ]

accepts_all : (h name : List ℕ) → Normalises h name → host_normalise h ≡ some name
unfolding host_normalise
accepts_all h name (k, string, ok, size) =
    let ok' : host_ok true name ≡ true = host_ok-labels name ∙ ok in
    let stop = strip_all name k ok' in
    let cut = take-append_length (length name) name (replicate k dot) refl in
    rw (string, stop, proper_size name ok' size, cut, ok') refl

-- A hostname is accepted, and normalised to `name`, exactly if what stands before its first zero is
-- `name` and any number of dots, where `name` has at most 253 characters and each of its labels is
-- not empty and made of letters, digits, '-' and '_'.
pub host_normalise_iff : (h name : List ℕ) → (host_normalise h ≡ some name) ↔ Normalises h name
host_normalise_iff h name = (accepts_only h name, accepts_all h name)
