-- ===== src/Noise/Compare.antt =====
-- crypto_equal of source/crypto/crypto.c: the comparison that looks at every byte.
use sys_amneziawg.Common.{
  ℕ, ◌≤◌, ◌≡◌, refl, ap₂, subst, Bool, true, List, [], ◌∷◌, bit_or, bit_xor, u8, ◌==◌, ==_iff,
  length, All, IsByte, ◌↔◌, arith, sym, ◌∙◌,
}
use sys_amneziawg.Common.Bits.{le-bit_or, bit_xor-eq_zero, bit_xor_self, bit_xor-lt-pow}
use native.Mathlib.Nat.{mod-eq_of_lt}

-- The loop, over the bytes that are left of both arrays.
unfoldable pub byte_diff : ℕ → List ℕ → List ℕ → ℕ
byte_diff acc (x ∷ xs) (y ∷ ys) = byte_diff (bit_or acc (u8 (bit_xor x y))) xs ys
byte_diff acc _ _ = acc

unfoldable pub crypto_equal : List ℕ → List ℕ → Bool
unfolding byte_diff
crypto_equal a b = byte_diff 0 a b == 0

le-byte_diff : (acc : ℕ) (xs ys : List ℕ) → acc ≤ byte_diff acc xs ys
unfolding byte_diff
le-byte_diff acc [] ys = omega arith
le-byte_diff acc (x ∷ xs) [] = omega arith
le-byte_diff acc (x ∷ xs) (y ∷ ys) =
    omega
      (arith, le-byte_diff (bit_or acc (u8 (bit_xor x y))) xs ys, le-bit_or acc (u8 (bit_xor x y)))

u8-bit_xor : (x y : ℕ) → IsByte x → IsByte y → u8 (bit_xor x y) ≡ bit_xor x y
u8-bit_xor x y hx hy = mod-eq_of_lt (bit_xor-lt-pow 8 x y hx hy)

byte_diff_sound :
    (acc : ℕ) (xs ys : List ℕ)
    → All IsByte xs
    → All IsByte ys
    → length xs ≡ length ys
    → byte_diff acc xs ys ≡ 0
    → xs ≡ ys
unfolding byte_diff
byte_diff_sound acc [] [] hx hy e h = refl
byte_diff_sound acc [] (y ∷ ys) hx hy e h = absurd (omega arith)
byte_diff_sound acc (x ∷ xs) [] hx hy e h = absurd (omega arith)
byte_diff_sound acc (x ∷ xs) (y ∷ ys) hx hy e h =
    let acc' = bit_or acc (u8 (bit_xor x y)) in
    let none_differ : u8 (bit_xor x y) ≡ 0 =
      omega (arith, le-byte_diff acc' xs ys, le-bit_or acc (u8 (bit_xor x y)), h) in
    let same = bit_xor-eq_zero x y (sym (u8-bit_xor x y hx.0 hy.0) ∙ none_differ) in
    ap₂ ◌∷◌ same (byte_diff_sound acc' xs ys hx.1 hy.1 (omega arith) h)

byte_diff_self : (xs : List ℕ) → byte_diff 0 xs xs ≡ 0
unfolding byte_diff
byte_diff_self [] = refl
byte_diff_self (x ∷ xs) = rw (bit_xor_self x) (byte_diff_self xs)

pub crypto_equal_self : (xs : List ℕ) → crypto_equal xs xs ≡ true
unfolding crypto_equal
crypto_equal_self xs = rw (byte_diff_self xs)

-- On two arrays of bytes of one length the constant-time comparison answers true exactly when the
-- arrays are equal.
pub crypto_equal_iff :
    (xs ys : List ℕ)
    → All IsByte xs
    → All IsByte ys
    → length xs ≡ length ys
    → (crypto_equal xs ys ≡ true) ↔ (xs ≡ ys)
unfolding crypto_equal
crypto_equal_iff xs ys hx hy e = (
  λ h. byte_diff_sound 0 xs ys hx hy e ((==_iff (byte_diff 0 xs ys) 0).0 h),
  λ p. subst (λ zs. (byte_diff 0 xs zs == 0) ≡ true) p (rw (byte_diff_self xs)),
)
