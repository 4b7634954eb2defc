-- ===== src/Proxy/Host/Labels.antt =====
-- What `host_normalise` accepts: the names whose labels between the dots are proper.
use sys_amneziawg.Common.{
  ℕ, ◌≡◌, refl, sym, ap, ◌∙◌, Bool, true, false, not, ◌&&◌, ◌||◌, List, [], ◌∷◌, length, get_or,
  ◌==◌, if◌then◌else◌, arith, Bool-cases, inl, inr,
}
use sys_amneziawg.Proxy.Host.{dot, is_host_char, host_ok}

abbrev pub cons_head : ℕ → List (List ℕ) → List (List ℕ)
cons_head x [] = (x ∷ []) ∷ []
cons_head x (l ∷ ls) = (x ∷ l) ∷ ls

-- The labels of a name: what stands between its dots.
abbrev pub labels : List ℕ → List (List ℕ)
labels [] = [] ∷ []
labels (x ∷ xs) = if x == dot then [] ∷ labels xs else cons_head x (labels xs)

abbrev pub every_char : List ℕ → Bool
every_char [] = true
every_char (x ∷ xs) = is_host_char x && every_char xs

abbrev pub is_empty : List ℕ → Bool
is_empty [] = true
is_empty (x ∷ xs) = false

-- A label: not empty, and of host characters only.
abbrev pub is_label : List ℕ → Bool
is_label l = not (is_empty l) && every_char l

abbrev pub every_label : List (List ℕ) → Bool
every_label [] = true
every_label (l ∷ ls) = is_label l && every_label ls

-- The same where the first label goes on from one that was begun.
abbrev rest_of_labels : Bool → List (List ℕ) → Bool
rest_of_labels label_empty [] = not label_empty
rest_of_labels label_empty (l ∷ ls) =
    (not label_empty || not (is_empty l)) && (every_char l && every_label ls)

labels_cons : (h : List ℕ) → (l : List ℕ) × (ls : List (List ℕ)) × (labels h ≡ l ∷ ls)
labels_cons [] = ([], [], refl)
labels_cons (x ∷ xs) =
    let (l, ls, e) = labels_cons xs in
    elim (Bool-cases (x == dot)) [
      | inl at_dot ↦ ([], labels xs, rw at_dot refl)
      | inr other ↦ (x ∷ l, ls, rw (other, e) refl)
    ]

host_ok_eq : (b : Bool) (h : List ℕ) → host_ok b h ≡ rest_of_labels b (labels h)
unfolding host_ok
host_ok_eq true [] = refl
host_ok_eq false [] = refl
host_ok_eq b (x ∷ xs) =
    let (l, ls, e) = labels_cons xs in
    let fresh : host_ok true xs ≡ rest_of_labels true (l ∷ ls) =
      host_ok_eq true xs ∙ ap (rest_of_labels true) e in
    let going : host_ok false xs ≡ rest_of_labels false (l ∷ ls) =
      host_ok_eq false xs ∙ ap (rest_of_labels false) e in
    elim (Bool-cases (x == dot)) [
      | inl at_dot ↦ rw (at_dot, fresh, e) (ground arith)
      | inr other ↦ rw (other, going, e) (ground arith)
    ]

rest_of_labels_start :
    (l : List ℕ) (ls : List (List ℕ)) → rest_of_labels true (l ∷ ls) ≡ every_label (l ∷ ls)
rest_of_labels_start [] ls = refl
rest_of_labels_start (x ∷ l) ls = refl

-- From a dot or the start on, the loop accepts exactly the names with proper labels.
pub host_ok-labels : (h : List ℕ) → host_ok true h ≡ every_label (labels h)
host_ok-labels h =
    let (l, ls, e) = labels_cons h in
    host_ok_eq true h
    ∙ ap (rest_of_labels true) e
    ∙ rest_of_labels_start l ls
    ∙ sym (ap every_label e)

-- An accepted name does not end with a dot.
pub host_ok_last :
    (b : Bool) (x : ℕ) (xs : List ℕ)
    → host_ok b (x ∷ xs) ≡ true
    → (get_or (x ∷ xs) (length xs) 0 == dot) ≡ false
unfolding host_ok
host_ok_last b x [] h = ground arith
host_ok_last b x (y ∷ ys) h = elim (Bool-cases (x == dot)) [
  | inl at_dot ↦ host_ok_last true y ys (ground (arith, h, at_dot))
  | inr other ↦ host_ok_last false y ys (ground (arith, h, other))
]
