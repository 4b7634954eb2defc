-- ===== src/Settings/Lines.antt =====
-- Blanks around a name and a value do not matter, and a value may hold '='.
use sys_amneziawg.Common.{
  ℕ, ◌≡◌, refl, ap, sym, ◌∙◌, Bool, true, false, ◌&&◌, some, List, [], ◌∷◌, ◌++◌, append_assoc,
  append-nil, length, ◌≤◌, ◌==◌, if◌then◌else◌, arith, All, All-append, All-map, Bool-cases, inl,
  inr,
}
use sys_amneziawg.Types.{Config}
use sys_amneziawg.Obfuscation.Parse.{cut_at, is_nil}
use sys_amneziawg.Proxy.Host.{c_string}
use sys_amneziawg.Settings.Text.{trim, trim_start, trim_end, is_blank, is_end_blank}
use sys_amneziawg.Settings.Keys.{setting}
use sys_amneziawg.Settings.Load.{proceed, read_setting, read_named, read_line}

-- A space or a tab; at the end of a line also its newline.
abbrev pub IsBlank : ℕ → Type 0
IsBlank x = is_blank x ≡ true

abbrev pub IsEndBlank : ℕ → Type 0
IsEndBlank x = is_end_blank x ≡ true

abbrev pub NotEquals : ℕ → Type 0
NotEquals x = (x == b'=') ≡ false

-- No blank at either end.
abbrev pub IsTrimmed : List ℕ → Type 0
IsTrimmed w = (trim_start w ≡ w) × (trim_end w ≡ w)

trim_start-blanks : (pre s : List ℕ) → All IsBlank pre → trim_start (pre ++ s) ≡ trim_start s
unfolding trim_start
trim_start-blanks [] s h = refl
trim_start-blanks (x ∷ pre) s h = rw h.0 (trim_start-blanks pre s h.1)

trim_end-blanks : (s post : List ℕ) → All IsEndBlank post → trim_end (s ++ post) ≡ trim_end s
unfolding trim_end
trim_end-blanks [] [] h = refl
trim_end-blanks [] (x ∷ post) h = rw (trim_end-blanks [] post h.1, h.0) refl
trim_end-blanks (x ∷ s) post h = rw (trim_end-blanks s post h) refl

-- Nothing in front of what stays at the end is cut.
trim_end-append :
    (front s : List ℕ) (y : ℕ) (ys : List ℕ)
    → trim_end s ≡ y ∷ ys
    → trim_end (front ++ s) ≡ front ++ (y ∷ ys)
unfolding trim_end
trim_end-append [] s y ys e = e
trim_end-append (x ∷ front) s y ys e = rw (trim_end-append front s y ys e) (full front)
  where
    full :
        (front : List ℕ)
        → (if is_nil (front ++ (y ∷ ys)) && is_end_blank x then [] else x ∷ (front ++ (y ∷ ys)))
          ≡ x ∷ (front ++ (y ∷ ys))
    full [] = refl
    full (z ∷ zs) = refl

trim_end-kept : (x : ℕ) (s : List ℕ) → is_end_blank x ≡ false → trim_end (x ∷ s) ≡ x ∷ trim_end s
unfolding trim_end
trim_end-kept x s e = elim (Bool-cases (is_nil (trim_end s))) [
  | inl bare ↦ rw (bare, e) refl
  | inr more ↦ rw more refl
]

trim_end-again : (s : List ℕ) → trim_end (trim_end s) ≡ trim_end s
unfolding trim_end
trim_end-again [] = refl
trim_end-again (x ∷ s) = elim (Bool-cases (is_nil (trim_end s) && is_end_blank x)) [
  | inl cut ↦ rw cut refl
  | inr stays ↦ rw stays (rw (trim_end-again s) (rw stays refl))
]

blank-IsEndBlank : (x : ℕ) → IsBlank x → IsEndBlank x
blank-IsEndBlank x h = ground (arith, h)

blank-NotEquals : (x : ℕ) → IsBlank x → NotEquals x
blank-NotEquals x h = ground (arith, h)

-- A value with blanks on both sides.
trim_padded : (b v : List ℕ) → All IsBlank b → IsTrimmed v → trim_start (trim_end (b ++ v)) ≡ v
unfolding trim_start trim_end
trim_padded b [] hb (hs, he) =
    ap trim_start
      (ap trim_end (append-nil b) ∙ trim_end-blanks [] b (All-map blank-IsEndBlank b hb))
trim_padded b (x ∷ v) hb (hs, he) =
    ap trim_start (trim_end-append b (x ∷ v) x v he) ∙ trim_start-blanks b (x ∷ v) hb ∙ hs

cut_at-equals :
    (front rest : List ℕ)
    → All NotEquals front
    → cut_at b'=' (front ++ (b'=' ∷ rest)) ≡ (front, some rest)
unfolding cut_at
cut_at-equals [] rest h = refl
cut_at-equals (x ∷ front) rest h = rw (cut_at-equals front rest h.1, h.0) refl

trim_start-le : (s : List ℕ) → length (trim_start s) ≤ length s
unfolding trim_start
trim_start-le [] = omega arith
trim_start-le (x ∷ s) = elim (Bool-cases (is_blank x)) [
  | inl blank ↦ rw blank (omega (arith, trim_start-le s))
  | inr kept ↦ rw kept (omega arith)
]

first_kept : (x : ℕ) (s : List ℕ) → trim_start (x ∷ s) ≡ x ∷ s → is_blank x ≡ false
unfolding trim_start
first_kept x s e = elim (Bool-cases (is_blank x)) [
  | inl blank ↦
      let shorter : trim_start s ≡ x ∷ s = rw blank at e in
      absurd (omega (arith, ap length shorter, trim_start-le s))
  | inr kept ↦ kept
]

trim_start-kept : (x : ℕ) (s : List ℕ) → is_blank x ≡ false → trim_start (x ∷ s) ≡ x ∷ s
unfolding trim_start
trim_start-kept x s e = rw e refl

-- What the loop makes of a line before its comment: blanks, a name, blanks, '=', and the rest.
line-shape :
    (pre k a rest : List ℕ) (x : ℕ)
    → All IsBlank pre
    → trim_start (x ∷ k) ≡ x ∷ k
    → trim (pre ++ ((x ∷ k) ++ (a ++ (b'=' ∷ rest)))) ≡ (x ∷ k) ++ (a ++ (b'=' ∷ trim_end rest))
unfolding trim
line-shape pre k a rest x hp hk =
    let tail = trim_end-kept b'=' rest refl in
    let body = (x ∷ k) ++ a in
    let shut = λ (r : List ℕ). append_assoc (x ∷ k) a (b'=' ∷ r) in
    let ends : trim_end (body ++ (b'=' ∷ rest)) ≡ body ++ (b'=' ∷ trim_end rest) =
      trim_end-append body (b'=' ∷ rest) b'=' (trim_end rest) tail in
    let open_ends : trim_end ((x ∷ k) ++ (a ++ (b'=' ∷ rest)))
        ≡ x ∷ (k ++ (a ++ (b'=' ∷ trim_end rest))) =
      ap trim_end (sym (shut rest)) ∙ ends ∙ shut (trim_end rest) in
    ap trim_start (trim_end-append pre _ x (k ++ (a ++ (b'=' ∷ trim_end rest))) open_ends)
    ∙ trim_start-blanks pre _ hp
    ∙ trim_start-kept x _ (first_kept x k hk)

name_trimmed : (a w : List ℕ) → All IsBlank a → IsTrimmed w → trim (w ++ a) ≡ w
unfolding trim
name_trimmed a w ha hw =
    ap trim_start (trim_end-blanks w a (All-map blank-IsEndBlank a ha) ∙ hw.1) ∙ hw.0

value_trimmed :
    (b value c : List ℕ)
    → All IsBlank b
    → All IsEndBlank c
    → IsTrimmed value
    → trim (trim_end (b ++ (value ++ c))) ≡ value
unfolding trim
value_trimmed b value c hb hc hv =
    let whole : trim_end (b ++ (value ++ c)) ≡ trim_end (b ++ value) =
      ap trim_end (sym (append_assoc b value c)) ∙ trim_end-blanks (b ++ value) c hc in
    ap trim_start (trim_end-again (b ++ (value ++ c)) ∙ whole) ∙ trim_padded b value hb hv

-- A line that sets `name` to `value`, with any blanks around both and before a comment, is read as
-- that setting: the value is all that follows the first '=', so that it may hold others.
pub read_line-setting :
    (in_peer : Bool) (n : ℕ) (cfg : Config) (raw pre name a b value c : List ℕ) (x : ℕ)
    → (cut_at b'#' (c_string raw)).0 ≡ pre ++ ((x ∷ name) ++ (a ++ (b'=' ∷ (b ++ (value ++ c)))))
    → All IsBlank pre
    → All IsBlank a
    → All IsBlank b
    → All IsEndBlank c
    → IsTrimmed (x ∷ name)
    → All NotEquals (x ∷ name)
    → (x == b'[') ≡ false
    → IsTrimmed value
    → read_line in_peer n cfg raw ≡ proceed in_peer n (setting in_peer cfg (x ∷ name) value)
unfolding read_line read_named read_setting
read_line-setting in_peer n cfg raw pre name a b value c x e hp ha hb hc hn hq hx hv =
    let rest = b ++ (value ++ c) in
    let line = ap trim e ∙ line-shape pre name a rest x hp hn.0 in
    let no_equals = All-append NotEquals (x ∷ name) a hq (All-map blank-NotEquals a ha) in
    let cut : cut_at b'=' (x ∷ (name ++ (a ++ (b'=' ∷ trim_end rest))))
        ≡ ((x ∷ name) ++ a, some (trim_end rest)) =
      ap (cut_at b'=') (sym (append_assoc (x ∷ name) a (b'=' ∷ trim_end rest)))
      ∙ cut_at-equals ((x ∷ name) ++ a) (trim_end rest) no_equals in
    rw (read_line, line, hx, cut)
      (rw (name_trimmed a (x ∷ name) ha hn, value_trimmed b value c hb hc hv) refl)
