-- ===== src/Proxy/Host/Denied.antt =====
-- What `host_denied` refuses: the three domains and every name under them, in any case.
use sys_amneziawg.Common.{
  ℕ, zero, suc, ◌-◌, ◌≤◌, ◌<◌, ◌≡◌, ◌↔◌, ◌⊎◌, refl, sym, ap, ◌∙◌, true, false, ◌||◌, List, [], ◌∷◌,
  ◌++◌, length, take, drop, map, get_or, ltb, ◌==◌, arith, Bool-cases, inl, inr, length-append,
  length-map, drop-append_length, take-append-drop, length-take,
}
use sys_amneziawg.Proxy.Host.{
  dot, to_lower, equal_bytes, equal_no_case, has_suffix, deny_suffix, any_suffix, host_denied,
}

pub equal_bytes_refl : (xs : List ℕ) → equal_bytes xs xs ≡ true
equal_bytes_refl [] = refl
equal_bytes_refl (x ∷ xs) = ground (arith, equal_bytes_refl xs)

equal_bytes_eq : (xs ys : List ℕ) → equal_bytes xs ys ≡ true → xs ≡ ys
equal_bytes_eq [] [] h = refl
equal_bytes_eq [] (y ∷ ys) h = cc
equal_bytes_eq (x ∷ xs) [] h = cc
equal_bytes_eq (x ∷ xs) (y ∷ ys) h =
    let head : x ≡ y = ground (arith, h) in
    let tail : equal_bytes xs ys ≡ true = ground (arith, h) in
    let rest = equal_bytes_eq xs ys tail in cc

-- `host` is `suffix`, or ends with a dot and `suffix`, where case does not count.
abbrev pub IsUnder : List ℕ → List ℕ → Type 0
IsUnder host suffix =
    (pre : List ℕ) × (end : List ℕ) × (host ≡ pre ++ end)
    × (map to_lower end ≡ map to_lower suffix)
    × ((pre ≡ []) ⊎ ((p : List ℕ) × (pre ≡ p ++ (dot ∷ []))))

get_or-last : (p t : List ℕ) (x : ℕ) → get_or ((p ++ (x ∷ [])) ++ t) (length p) 0 ≡ x
get_or-last [] t x = refl
get_or-last (y ∷ p) t x = get_or-last p t x

split_last :
    (xs : List ℕ) (n : ℕ) → length xs ≡ suc n → (p : List ℕ) × (xs ≡ p ++ (get_or xs n 0 ∷ []))
split_last [] n e = absurd (omega (arith, e))
split_last (x ∷ []) zero e = ([], refl)
split_last (x ∷ (y ∷ ys)) zero e = absurd (omega (arith, e))
split_last (x ∷ xs) (suc n) e =
    let (p, eq) = split_last xs n (omega (arith, e)) in (x ∷ p, ap (◌∷◌ x) eq)

same_length : (xs ys : List ℕ) → map to_lower xs ≡ map to_lower ys → length xs ≡ length ys
same_length xs ys e = sym (length-map to_lower xs) ∙ ap length e ∙ length-map to_lower ys

-- The test of the label's edge, once the cut is known.
edge :
    (pre end : List ℕ)
    → ((pre ≡ []) ⊎ ((p : List ℕ) × (pre ≡ p ++ (dot ∷ []))))
    → (length (pre ++ end) == length end
        || get_or (pre ++ end) (length (pre ++ end) - length end - 1) 0 == dot)
      ≡ true
edge pre end (inl none) =
    let size : length (pre ++ end) ≡ length end = ap (λ p. length (p ++ end)) none in
    ground (arith, size)
edge pre end (inr (p, e)) =
    let at : length (pre ++ end) - length end - 1 ≡ length p =
      omega (arith, length-append pre end, ap length e, length-append p (dot ∷ [])) in
    let is_dot : get_or (pre ++ end) (length p) 0 ≡ dot =
      ap (λ q. get_or (q ++ end) (length p) 0) e ∙ get_or-last p end dot in
    rw (at, is_dot) (ground arith)

has_suffix-under : (host suffix : List ℕ) → IsUnder host suffix → has_suffix host suffix ≡ true
unfolding has_suffix
has_suffix-under host suffix (pre, end, split, same, at_label) =
    let size = same_length end suffix same in
    let total = length-append pre end in
    let cut : drop (length (pre ++ end) - length end) (pre ++ end) ≡ end =
      drop-append_length (length (pre ++ end) - length end) pre end (omega (arith, total)) in
    let long : ltb (length (pre ++ end)) (length end) ≡ false = ground (arith, total) in
    rw (split, ← size, long, cut, same, equal_bytes_refl (map to_lower suffix))
      (edge pre end at_label)

get_or-take : (m n : ℕ) (xs : List ℕ) → n < m → get_or (take m xs) n 0 ≡ get_or xs n 0
get_or-take zero n xs lt = absurd (omega (arith, lt))
get_or-take (suc m) n [] lt = refl
get_or-take (suc m) zero (x ∷ xs) lt = refl
get_or-take (suc m) (suc n) (x ∷ xs) lt = get_or-take m n xs (omega (arith, lt))

-- A cut at an edge leaves nothing in front, or something that ends with a dot.
label_edge :
    (host : List ℕ) (sl n : ℕ)
    → n ≡ length host - sl
    → sl ≤ length host
    → (length host == sl || get_or host (length host - sl - 1) 0 == dot) ≡ true
    → (take n host ≡ []) ⊎ ((p : List ℕ) × (take n host ≡ p ++ (dot ∷ [])))
label_edge host sl zero e le h = inl refl
label_edge host sl (suc n) e le h =
    let size : length (take (suc n) host) ≡ suc n = omega (arith, length-take (suc n) host, e) in
    let (p, eq) = split_last (take (suc n) host) n size in
    let place : length host - sl - 1 ≡ n = omega (arith, e) in
    let is_dot : get_or host n 0 ≡ dot = ground (arith, h, place, e) in
    inr (p, eq ∙ ap (λ x. p ++ (x ∷ [])) (get_or-take (suc n) n host (omega arith) ∙ is_dot))

has_suffix-only : (host suffix : List ℕ) → has_suffix host suffix ≡ true → IsUnder host suffix
unfolding has_suffix
has_suffix-only host suffix h =
    let n = length host - length suffix in
    elim (Bool-cases (ltb (length host) (length suffix))) [
      | inl short ↦ absurd (ground (arith, short, h))
      | inr long ↦ elim (Bool-cases (equal_no_case (drop n host) suffix)) [
        | inr other ↦ absurd (ground (arith, long, other, h))
        | inl same ↦ (
          take n host,
          drop n host,
          sym (take-append-drop n host),
          equal_bytes_eq _ _ same,
          label_edge host (length suffix) n refl (ground (arith, long)) (rw (long, same) at h),
        )
      ]
    ]

-- Under one of several domains.
abbrev pub IsUnderAny : List (List ℕ) → List ℕ → Type 0
IsUnderAny [] host = ⊥
IsUnderAny (d ∷ ds) host = IsUnder host d ⊎ IsUnderAny ds host

any_suffix-only :
    (ds : List (List ℕ)) (host : List ℕ) → any_suffix ds host ≡ true → IsUnderAny ds host
any_suffix-only [] host h = absurd (ground (arith, h))
any_suffix-only (d ∷ ds) host h = elim (Bool-cases (has_suffix host d)) [
  | inl here ↦ inl (has_suffix-only host d here)
  | inr later ↦ inr (any_suffix-only ds host (ground (arith, later, h)))
]

any_suffix-all :
    (ds : List (List ℕ)) (host : List ℕ) → IsUnderAny ds host → any_suffix ds host ≡ true
any_suffix-all [] host under = elim under [ ]
any_suffix-all (d ∷ ds) host (inl here) = rw (has_suffix-under host d here) refl
any_suffix-all (d ∷ ds) host (inr later) = ground (arith, any_suffix-all ds host later)

-- A host is denied exactly if it is one of the three domains or ends with a dot and one of them,
-- where case does not count: a longer name that merely ends with the same letters is not.
pub host_denied_iff : (host : List ℕ) → (host_denied host ≡ true) ↔ IsUnderAny deny_suffix host
unfolding host_denied
host_denied_iff host = (any_suffix-only deny_suffix host, any_suffix-all deny_suffix host)
