-- ===== src/Probe/Names.antt =====
-- An encoded name is the wire form of the host's labels, fits its buffer, and is skipped whole.
use sys_amneziawg.Common.{
  ℕ, zero, suc, ◌+◌, ◌≤◌, ◌<◌, ◌≡◌, refl, ap, ap₂, sym, subst, ◌∙◌, true, false, ◌||◌, bit_and,
  Option, none, some, List, [], ◌∷◌, ◌++◌, append_assoc, length, length-append, All, All-append,
  IsByte, get_elem?, ltb, leb, ◌==◌, arith, Bool-cases, Option-cases, inl, inr, ◌⊎◌,
}
use sys_amneziawg.Common.Bits.{bit_and-le}
use sys_amneziawg.Obfuscation.Parse.{cut_at}
use sys_amneziawg.Probe.{
  put_before, root, put_label, encode_labels, encode_name, at_offset, skip_label, skip_from,
  skip_name,
}

-- Each label behind its length, and the root's empty label.
abbrev pub wire : List (List ℕ) → List ℕ
wire [] = 0 ∷ []
wire (l ∷ ls) = length l ∷ (l ++ wire ls)

-- The labels with a dot between each two.
abbrev pub dotted : List (List ℕ) → List ℕ
dotted [] = []
dotted (l ∷ []) = l
dotted (l ∷ (m ∷ ms)) = l ++ (b'.' ∷ dotted (m ∷ ms))

abbrev pub IsLabel : List ℕ → Type 0
IsLabel l = (0 < length l) × (length l ≤ 63)

-- A last dot may follow the labels.
abbrev pub IsSpelled : List ℕ → List (List ℕ) → Type 0
IsSpelled host ls = (host ≡ dotted ls) ⊎ ((0 < length ls) × (host ≡ dotted ls ++ b'.' ∷ []))

pub record Encodes (cap n : ℕ) (host out : List ℕ) : Type 0 where
  pub labels : List (List ℕ)
  pub good : All IsLabel labels
  pub wired : out ≡ wire labels
  pub spelled : IsSpelled host labels
  pub fits : n + length out ≤ cap

cut_at-none : (x : ℕ) (p : List ℕ) → (cut_at x p).1 ≡ none → p ≡ (cut_at x p).0
unfolding cut_at
cut_at-none x [] e = refl
cut_at-none x (y ∷ ys) e = elim (Bool-cases (y == x)) [
  | inl here ↦ let bad : some ys ≡ none = rw here at e in absurd cc
  | inr later ↦ rw later (ap (◌∷◌ y) (cut_at-none x ys (rw later at e)))
]

cut_at-some : (x : ℕ) (p r : List ℕ) → (cut_at x p).1 ≡ some r → p ≡ (cut_at x p).0 ++ (x ∷ r)
unfolding cut_at
cut_at-some x [] r e = absurd cc
cut_at-some x (y ∷ ys) r e = elim (Bool-cases (y == x)) [
  | inl here ↦
      let same : some ys ≡ some r = rw here at e in
      let eq : ys ≡ r = cc in let head : y ≡ x = ground (arith, here) in rw here cc
  | inr later ↦ rw later (ap (◌∷◌ y) (cut_at-some x ys r (rw later at e)))
]

IsSpelled-cons :
    (l p : List ℕ) (ls : List (List ℕ)) → IsSpelled p ls → IsSpelled (l ++ (b'.' ∷ p)) (l ∷ ls)
IsSpelled-cons l p [] (inl e) = inr (omega arith, ap (λ (q : List ℕ). l ++ (b'.' ∷ q)) e)
IsSpelled-cons l p [] (inr (pos, e)) = absurd (omega (arith, pos))
IsSpelled-cons l p (m ∷ ms) (inl e) = inl (ap (λ (q : List ℕ). l ++ (b'.' ∷ q)) e)
IsSpelled-cons l p (m ∷ ms) (inr (pos, e)) =
    inr (omega arith, ap (λ (q : List ℕ). l ++ (b'.' ∷ q)) e ∙ sym (append_assoc l _ _))

root_inv : (cap n : ℕ) (out : List ℕ) → root cap n ≡ some out → (out ≡ 0 ∷ []) × (n + 1 ≤ cap)
unfolding root
root_inv cap n out e = elim (Bool-cases (ltb cap (n + 1))) [
  | inl full ↦ let bad : none ≡ some out = rw full at e in absurd cc
  | inr room ↦ let same : some (0 ∷ []) ≡ some out = rw room at e in (cc, ground (arith, room))
]

-- What a written label says.
put_label-inv :
    (cap n : ℕ) (l : List ℕ) (rest : Option (List ℕ)) (out : List ℕ)
    → put_label cap n l rest ≡ some out
    → IsLabel l × ((tail : List ℕ) × (rest ≡ some tail) × (out ≡ length l ∷ (l ++ tail)))
unfolding put_label
put_label-inv cap n l rest out e =
    elim (Bool-cases (length l == 0 || (ltb 63 (length l) || leb cap (n + length l + 1)))) [
      | inl bad ↦ let never : none ≡ some out = rw bad at e in absurd cc
      | inr good ↦
          let put : put_before (length l ∷ l) rest ≡ some out = rw good at e in
          elim (Option-cases rest) [
            | inl missing ↦ let never : none ≡ some out = rw missing at put in absurd cc
            | inr (tail, there) ↦
                let same : some (length l ∷ (l ++ tail)) ≡ some out = rw there at put in
                ((ground (arith, good), ground (arith, good)), (tail, there, cc))
          ]
    ]

-- The last label, with no dot behind it.
Encodes-last :
    (cap n : ℕ) (l tail out : List ℕ)
    → IsLabel l
    → out ≡ length l ∷ (l ++ tail)
    → (tail ≡ 0 ∷ []) × (n + 1 + length l + 1 ≤ cap)
    → Encodes cap n l out
Encodes-last cap n l tail out good eq (end, room) = record {
  labels = l ∷ [];
  good = (good, tt);
  wired = eq ∙ ap (λ (w : List ℕ). length l ∷ (l ++ w)) end;
  spelled = inl refl;
  fits = omega (arith, room, ap length eq, length-append l tail, ap length end);
}

-- A label with a dot behind it.
Encodes-cons :
    (cap n : ℕ) (l p tail out : List ℕ)
    → IsLabel l
    → out ≡ length l ∷ (l ++ tail)
    → Encodes cap (n + 1 + length l) p tail
    → Encodes cap n (l ++ (b'.' ∷ p)) out
Encodes-cons cap n l p tail out good eq g = record {
  labels = l ∷ g.labels;
  good = (good, g.good);
  wired = eq ∙ ap (λ (w : List ℕ). length l ∷ (l ++ w)) g.wired;
  spelled = IsSpelled-cons l p g.labels g.spelled;
  fits = omega (arith, g.fits, ap length eq, length-append l tail);
}

encode_labels-Encodes :
    (fuel cap n : ℕ) (p out : List ℕ) → encode_labels fuel cap n p ≡ some out → Encodes cap n p out
unfolding encode_labels
encode_labels-Encodes zero cap n p out e = absurd cc
encode_labels-Encodes (suc fuel) cap n [] out e =
    let (end, room) = root_inv cap n out e in
    record {
      labels = [];
      good = tt;
      wired = end;
      spelled = inl refl;
      fits = omega (arith, room, ap length end);
    }
encode_labels-Encodes (suc fuel) cap n (x ∷ xs) out e =
    let l = (cut_at b'.' (x ∷ xs)).0 in
    elim (Option-cases (cut_at b'.' (x ∷ xs)).1) [
      | inl ends ↦
          let (good, (tail, there, eq)) =
            put_label-inv cap n l _ out (rw (encode_labels, ends) at e) in
          subst (λ (h : List ℕ). Encodes cap n h out) (sym (cut_at-none b'.' (x ∷ xs) ends))
            (Encodes-last cap n l tail out good eq (root_inv cap (n + 1 + length l) tail there))
      | inr (p, goes) ↦
          let (good, (tail, there, eq)) =
            put_label-inv cap n l _ out (rw (encode_labels, goes) at e) in
          subst (λ (h : List ℕ). Encodes cap n h out) (sym (cut_at-some b'.' (x ∷ xs) p goes))
            (Encodes-cons cap n l p tail out good eq
              (encode_labels-Encodes fuel cap (n + 1 + length l) p tail there))
    ]

-- A name that is encoded is the wire form of labels of 1 to 63 bytes, which with a dot between each
-- two, and perhaps one behind the last, spell the host; and it fits into the buffer.
pub encode_name-Encodes :
    (cap : ℕ) (host out : List ℕ) → encode_name cap host ≡ some out → Encodes cap 0 host out
unfolding encode_name
encode_name-Encodes cap host out e = encode_labels-Encodes (suc (length host)) cap 0 host out e

pub get_elem?-append :
    (before : List ℕ) (x : ℕ) (rest : List ℕ)
    → get_elem? (before ++ (x ∷ rest)) (length before) ≡ some x
get_elem?-append [] x rest = refl
get_elem?-append (b ∷ before) x rest = get_elem?-append before x rest

short_label : (l : ℕ) → l ≤ 63 → (bit_and l 192 == 192) ≡ false
short_label l h = ground (arith, h, bit_and-le l 192)

inside_append :
    (before rest : List ℕ) (x : ℕ) → ltb (length before) (length (before ++ (x ∷ rest))) ≡ true
inside_append before rest x = ground (arith, length-append before (x ∷ rest))

skip_from_label :
    (fuel l : ℕ) (before rest : List ℕ)
    → 0 < l
    → l ≤ 63
    → skip_from (suc fuel) (before ++ (l ∷ rest)) (length before)
      ≡ skip_from fuel (before ++ (l ∷ rest)) (length before + (1 + l))
unfolding skip_from skip_label
skip_from_label fuel l before rest pos le =
    let nonzero : (l == 0) ≡ false = ground (arith, pos) in
    rw (inside_append before rest l, get_elem?-append before l rest, nonzero, short_label l le) refl

skip_from-wire :
    (fuel : ℕ) (ls : List (List ℕ)) (before rest : List ℕ)
    → All IsLabel ls
    → length ls < fuel
    → skip_from fuel (before ++ (wire ls ++ rest)) (length before)
      ≡ at_offset (length before + length (wire ls))
unfolding skip_from skip_label
skip_from-wire zero ls before rest h lt = absurd (omega (arith, lt))
skip_from-wire (suc fuel) [] before rest h lt =
    rw (inside_append before rest 0, get_elem?-append before 0 rest) refl
skip_from-wire (suc fuel) (l ∷ ls) before rest h lt =
    let front = before ++ (length l ∷ l) in
    let turn : before ++ (wire (l ∷ ls) ++ rest) ≡ front ++ (wire ls ++ rest) = simp append_assoc in
    let at : length before + (1 + length l) ≡ length front =
      omega (arith, length-append before (length l ∷ l)) in
    let go = skip_from-wire fuel ls front rest h.1 (omega (arith, lt)) in
    let end : length front + length (wire ls) ≡ length before + length (wire (l ∷ ls)) =
      omega (arith, length-append before (length l ∷ l), length-append l (wire ls)) in
    skip_from_label fuel (length l) before ((l ++ wire ls) ++ rest) h.0.0 h.0.1
    ∙ ap₂ (skip_from fuel) turn at
    ∙ go
    ∙ ap at_offset end

wire_longer : (ls : List (List ℕ)) → length ls < length (wire ls)
wire_longer [] = omega arith
wire_longer (l ∷ ls) = omega (arith, wire_longer ls, length-append l (wire ls))

-- A name in wire form is skipped up to its end, wherever it stands in a message.
pub skip_name-wire :
    (ls : List (List ℕ)) (before rest : List ℕ)
    → All IsLabel ls
    → skip_name (before ++ (wire ls ++ rest)) (length before)
      ≡ at_offset (length before + length (wire ls))
unfolding skip_name
skip_name-wire ls before rest h = skip_from-wire _ ls before rest h (
    omega
      (arith, wire_longer ls, length-append before (wire ls ++ rest), length-append (wire ls) rest))

-- A compression pointer takes two bytes.
pub skip_name-pointer :
    (before rest : List ℕ) (low : ℕ)
    → skip_name (before ++ (192 ∷ low ∷ rest)) (length before) ≡ at_offset (length before + 2)
unfolding skip_name skip_from skip_label
skip_name-pointer before rest low =
    let fits : leb (length before + 2) (length (before ++ (192 ∷ low ∷ rest))) ≡ true =
      ground (arith, length-append before (192 ∷ low ∷ rest)) in
    rw (inside_append before (low ∷ rest) 192, get_elem?-append before 192 (low ∷ rest), fits) refl

pub bytes-wire : (ls : List (List ℕ)) → All IsLabel ls → All (All IsByte) ls → All IsByte (wire ls)
bytes-wire [] h hb = (omega arith, tt)
bytes-wire (l ∷ ls) h hb =
    (omega (arith, h.0.1), All-append IsByte l (wire ls) hb.0 (bytes-wire ls h.1 hb.1))
