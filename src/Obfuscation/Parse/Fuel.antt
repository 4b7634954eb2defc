-- ===== src/Obfuscation/Parse/Fuel.antt =====
-- The loop over the tags ends within its fuel.
use sys_amneziawg.Common.{
  ℕ, zero, suc, ◌<◌, ◌≡◌, refl, ap, Option, some, List, [], ◌∷◌, length, ◌==◌, arith, Bool-cases,
  Option-cases, inl, inr,
}
use sys_amneziawg.Obfuscation.Parse.{cut_at, or_nil, parse_tag, parse_items}

cut_at-shorter : (x : ℕ) (p r : List ℕ) → (cut_at x p).1 ≡ some r → length r < length p
unfolding cut_at
cut_at-shorter x [] r e = cc
cut_at-shorter x (y ∷ ys) r e = elim (Bool-cases (y == x)) [
  | inl here ↦
      let same : some ys ≡ some r = rw here at e in
      let eq : ys ≡ r = cc in omega (arith, ap length eq)
  | inr later ↦ let less = cut_at-shorter x ys r (rw later at e) in omega (arith, less)
]

module _ (to_long : List ℕ → Option ℕ) where
  fuel_enough :
      (n m : ℕ) (p : List ℕ)
      → length p < n
      → length p < m
      → parse_items to_long n p ≡ parse_items to_long m p
  unfolding parse_items
  fuel_enough zero m p hn hm = absurd (omega (arith, hn))
  fuel_enough (suc n) zero p hn hm = absurd (omega (arith, hm))
  fuel_enough (suc n) (suc m) p hn hm = elim (Option-cases (cut_at b'<' p).1) [
    | inl ends ↦ rw (parse_items, ends) refl
    | inr (body, lt) ↦
        let start = or_nil (cut_at b'<' p).1 in
        let less = cut_at-shorter b'<' p body lt in
        let at_body : length start ≡ length body = ap (λ o. length (or_nil o)) lt in
        elim (Option-cases (cut_at b'>' start).1) [
          | inl unclosed ↦ rw (parse_items, lt, unclosed) refl
          | inr (next, gt) ↦
              let left = or_nil (cut_at b'>' start).1 in
              let less' = cut_at-shorter b'>' start next gt in
              let at_next : length left ≡ length next = ap (λ o. length (or_nil o)) gt in
              let same =
                fuel_enough n m left (omega (arith, less, less', at_body, at_next, hn))
                  (omega (arith, less, less', at_body, at_next, hm)) in
              elim (Option-cases (parse_tag to_long (cut_at b'>' start).0)) [
                | inl bad ↦ rw (parse_items, lt, gt, bad) refl
                | inr (o, good) ↦ rw (parse_items, lt, gt, good, same) refl
              ]
        ]
  ]

  -- Any fuel above the length of a template gives the loop over its tags the same result, so that
  -- it is never cut short.
  pub parse_items-fuel :
      (fuel : ℕ) (spec : List ℕ)
      → length spec < fuel
      → parse_items to_long fuel spec ≡ parse_items to_long (suc (length spec)) spec
  parse_items-fuel fuel spec h = fuel_enough fuel (suc (length spec)) spec h (omega arith)
