-- ===== src/Common/Bits.antt =====
-- Single bits of a number, under `&`, `|` and shifts by one-bit masks.
use Prim.Native.Nat.{
  ℕ, zero, suc, ◌+◌, ◌-◌, ◌*◌, ◌/◌, ◌%◌, ◌^◌, ◌≤◌, ◌<◌, min, max, bit_and, bit_or, digits, bitwise,
  bit_and-bitwise, bit_or-bitwise, bit_xor-bitwise, bit_xor, differ,
}
use mathlib.Core.Path.{◌≡◌, refl, ◌∙◌, ap, sym}
use native.Mathlib.Nat.{
  le_refl, pow-suc, one-le-pow, div-add-mod, mod-lt, mod-eq_of_lt, add-mul-mod_self_left,
}
use native.Mathlib.Omega.{arith}
use sys_amneziawg.Common.Tests.{◌==◌, ltb, if◌then◌else◌, Bool-cases}
use mathlib.Core.Logic.{inl, inr}

-- The native operations are recursions on binary digits with fuel: spare fuel changes nothing.
module _ (z : ℕ → ℕ) (f : ℕ → ℕ → ℕ) where
  spare_at_zero : (fuel y : ℕ) → digits z f (suc fuel) 0 y ≡ digits z f fuel 0 y
  spare_at_zero zero y = refl
  spare_at_zero (suc fuel) y = refl

  one_more : (fuel x y : ℕ) → x ≤ fuel → digits z f (suc fuel) x y ≡ digits z f fuel x y
  one_more fuel zero y le = spare_at_zero fuel y
  one_more zero (suc x) y le = absurd (omega (arith, le))
  one_more (suc fuel) (suc x) y le =
      omega (arith, one_more fuel (suc x / 2) (y / 2) (omega (arith, le)))

  spare :
      (large small x y : ℕ)
      → small ≤ large
      → x ≤ small
      → digits z f large x y ≡ digits z f small x y
  spare zero small x y le fits =
      let e : 0 ≡ small = omega (arith, le) in ap (λ (n : ℕ). digits z f n x y) e
  spare (suc large) small x y le fits = elim (Bool-cases (ltb large small)) [
    | inl same ↦
        let e : suc large ≡ small = ground (arith, le) in ap (λ (n : ℕ). digits z f n x y) e
    | inr less ↦
        one_more large x y (ground (arith, fits)) ∙ spare large small x y (ground arith) fits
  ]

  lowest :
      (x y : ℕ)
      → bitwise z f (suc x) y ≡ bitwise z f (suc x / 2) (y / 2) * 2 + f (suc x % 2) (y % 2)
  lowest x y =
      let half : suc x / 2 ≤ x = omega arith in
      omega (arith, spare x (suc x / 2) (suc x / 2) (y / 2) half (omega arith))

-- Each operation by its lowest digit.
pub bit_xor_step : (x y : ℕ) → bit_xor x y ≡ bit_xor (x / 2) (y / 2) * 2 + differ (x % 2) (y % 2)
bit_xor_step zero y = simp bit_xor-bitwise (omega arith)
bit_xor_step (suc n) y = simp bit_xor-bitwise (lowest (λ d. d) differ n y)

pub bit_or_step : (x y : ℕ) → bit_or x y ≡ bit_or (x / 2) (y / 2) * 2 + max (x % 2) (y % 2)
bit_or_step zero y = simp bit_or-bitwise (omega arith)
bit_or_step (suc n) y = simp bit_or-bitwise (lowest (λ d. d) max n y)

pub bit_and_step : (x y : ℕ) → bit_and x y ≡ bit_and (x / 2) (y / 2) * 2 + min (x % 2) (y % 2)
bit_and_step zero y = simp bit_and-bitwise (omega arith)
bit_and_step (suc n) y = simp bit_and-bitwise (lowest (λ d. 0) min n y)

-- The k-th bit of x, 0 or 1.
abbrev pub bit_at : ℕ → ℕ → ℕ
bit_at x zero = x % 2
bit_at x (suc k) = bit_at (x / 2) k

pub bit_at-lt : (x k : ℕ) → bit_at x k < 2
bit_at-lt x zero = omega arith
bit_at-lt x (suc k) = bit_at-lt (x / 2) k

zero_right : (bound x : ℕ) → x ≤ bound → (bit_and x 0 ≡ 0) × (bit_or x 0 ≡ x)
zero_right bound zero le = (refl, refl)
zero_right zero (suc x) le = absurd (omega (arith, le))
zero_right (suc bound) (suc x) le =
    let (low, same) = zero_right bound (suc x / 2) (omega (arith, le)) in
    (omega (arith, low, bit_and_step (suc x) 0), omega (arith, same, bit_or_step (suc x) 0))

bit_and-zero : (x : ℕ) → bit_and x 0 ≡ 0
bit_and-zero x = (zero_right x x (le_refl x)).0

bit_or-zero : (x : ℕ) → bit_or x 0 ≡ x
bit_or-zero x = (zero_right x x (le_refl x)).1

pow_half : (k : ℕ) → 2 ^ suc k / 2 ≡ 2 ^ k
pow_half k = omega (arith, pow-suc 2 k)

pow_even : (k : ℕ) → 2 ^ suc k % 2 ≡ 0
pow_even k = omega (arith, pow-suc 2 k)

-- `x & (1 << k)` is the k-th bit in its place.
pub bit_and-pow : (x k : ℕ) → bit_and x (2 ^ k) ≡ bit_at x k * 2 ^ k
bit_and-pow x zero = omega (arith, bit_and_step x 1, bit_and-zero (x / 2))
bit_and-pow x (suc k) =
    bit_and_step x (2 ^ suc k)
    ∙ rw (pow_half k, pow_even k, bit_and-pow (x / 2) k, pow-suc 2 k) (grind arith)

-- `x | (1 << k)` sets that bit and no other.
pub bit_at-bit_or-pow :
    (x k j : ℕ) → bit_at (bit_or x (2 ^ k)) j ≡ (if j == k then 1 else bit_at x j)
bit_at-bit_or-pow x zero zero = omega (arith, bit_or_step x 1)
bit_at-bit_or-pow x zero (suc j) =
    let e : bit_or x 1 / 2 ≡ x / 2 = omega (arith, bit_or_step x 1, bit_or-zero (x / 2)) in
    ground (arith, ap (λ (y : ℕ). bit_at y j) e)
bit_at-bit_or-pow x (suc k) zero =
    let e : bit_or x (2 ^ suc k) % 2 ≡ x % 2 =
      omega (arith, bit_or_step x (2 ^ suc k), pow_even k) in
    ground (arith, e)
bit_at-bit_or-pow x (suc k) (suc j) =
    let e : bit_or x (2 ^ suc k) / 2 ≡ bit_or (x / 2) (2 ^ suc k / 2) =
      omega (arith, bit_or_step x (2 ^ suc k), pow_even k) in
    ap (λ (y : ℕ). bit_at y j) (e ∙ ap (bit_or (x / 2)) (pow_half k))
    ∙ ground (arith, bit_at-bit_or-pow (x / 2) k j)

-- A shift to the left moves every bit up.
pub bit_at-shl : (x s j : ℕ) → bit_at (x * 2 ^ s) j ≡ (if ltb j s then 0 else bit_at x (j - s))
bit_at-shl x zero j = let e : x * 2 ^ 0 ≡ x = omega arith in rw e (ground arith)
bit_at-shl x (suc s) zero =
    let e : x * 2 ^ suc s % 2 ≡ 0 = omega (arith, ap (λ (t : ℕ). x * t) (pow-suc 2 s)) in
    ground (arith, e)
bit_at-shl x (suc s) (suc j) =
    let e : x * 2 ^ suc s / 2 ≡ x * 2 ^ s = omega (arith, ap (λ (t : ℕ). x * t) (pow-suc 2 s)) in
    ap (λ (y : ℕ). bit_at y j) e ∙ ground (arith, bit_at-shl x s j)

-- The halves of a number cut to n + 1 bits.
mod-pow_halves : (n x : ℕ) → (x % 2 ^ suc n % 2 ≡ x % 2) × (x % 2 ^ suc n / 2 ≡ x / 2 % 2 ^ n)
mod-pow_halves n x = (low, high)
  where
    P : ℕ
    P = 2 ^ n

    double : 2 ^ suc n ≡ 2 * P
    double = omega (arith, pow-suc 2 n)

    positive : 0 < P
    positive = one-le-pow n 2 (omega arith)

    split : 2 * (P * (x / (2 * P))) + x % (2 * P) ≡ x
    split = omega (arith, div-add-mod x (2 * P))

    low : x % 2 ^ suc n % 2 ≡ x % 2
    low = rw double (omega (arith, split))

    half : x / 2 ≡ x % (2 * P) / 2 + P * (x / (2 * P))
    half = omega (arith, split)

    rest_lt : x % (2 * P) / 2 < P
    rest_lt = omega (arith, mod-lt x {m = 2 * P} (omega (arith, positive)))

    high : x % 2 ^ suc n / 2 ≡ x / 2 % 2 ^ n
    high =
        rw (double, half)
          (sym (add-mul-mod_self_left (x % (2 * P) / 2) P (x / (2 * P)) ∙ mod-eq_of_lt rest_lt))

-- Cutting a number to n bits keeps the lowest n.
pub bit_at-mod-pow : (n x j : ℕ) → j < n → bit_at (x % 2 ^ n) j ≡ bit_at x j
bit_at-mod-pow zero x j h = elim h [ ]
bit_at-mod-pow (suc n) x zero h = (mod-pow_halves n x).0
bit_at-mod-pow (suc n) x (suc j) h =
    ap (λ (y : ℕ). bit_at y j) (mod-pow_halves n x).1 ∙ bit_at-mod-pow n (x / 2) j (omega arith)

le-bit_or_fuel : (n a b : ℕ) → a ≤ n → (a ≤ bit_or a b) × (b ≤ bit_or a b)
le-bit_or_fuel n zero b h = simp bit_or-bitwise (omega arith)
le-bit_or_fuel zero (suc a) b h = absurd (omega arith)
le-bit_or_fuel (suc n) (suc a) b h =
    omega (arith, bit_or_step (suc a) b, le-bit_or_fuel n (suc a / 2) (b / 2) (omega arith))

-- `|` is at least each side.
pub le-bit_or : (a b : ℕ) → (a ≤ bit_or a b) × (b ≤ bit_or a b)
le-bit_or a b = le-bit_or_fuel a a b (le_refl _)

differ-eq_zero : (x y : ℕ) → differ x y ≡ 0 → x ≡ y
differ-eq_zero zero y h = sym h
differ-eq_zero (suc x) zero h = h
differ-eq_zero (suc x) (suc y) h = ap suc (differ-eq_zero x y h)

differ_self : (x : ℕ) → differ x x ≡ 0
differ_self zero = refl
differ_self (suc x) = differ_self x

differ-le : (x y : ℕ) → differ x y ≤ max x y
differ-le zero y = omega arith
differ-le (suc x) zero = omega arith
differ-le (suc x) (suc y) = omega (arith, differ-le x y)

bit_xor-eq_zero_fuel : (n a b : ℕ) → a ≤ n → bit_xor a b ≡ 0 → a ≡ b
bit_xor-eq_zero_fuel n zero b h e = sym (simp bit_xor-bitwise at e)
bit_xor-eq_zero_fuel zero (suc a) b h e = absurd (omega arith)
bit_xor-eq_zero_fuel (suc n) (suc a) b h e =
    let step = bit_xor_step (suc a) b in
    let low = differ-eq_zero (suc a % 2) (b % 2) (omega (arith, step, e)) in
    let high = bit_xor-eq_zero_fuel n (suc a / 2) (b / 2) (omega arith) (omega (arith, step, e)) in
    omega (arith, low, high)

-- The XOR of two numbers is 0 only if they are equal.
pub bit_xor-eq_zero : (a b : ℕ) → bit_xor a b ≡ 0 → a ≡ b
bit_xor-eq_zero a b e = bit_xor-eq_zero_fuel a a b (le_refl _) e

bit_xor_self_fuel : (n a : ℕ) → a ≤ n → bit_xor a a ≡ 0
bit_xor_self_fuel n zero h = refl
bit_xor_self_fuel zero (suc a) h = absurd (omega arith)
bit_xor_self_fuel (suc n) (suc a) h = omega (
  arith,
  bit_xor_step (suc a) (suc a),
  bit_xor_self_fuel n (suc a / 2) (omega arith),
  differ_self (suc a % 2),
)

pub bit_xor_self : (a : ℕ) → bit_xor a a ≡ 0
bit_xor_self a = bit_xor_self_fuel a a (le_refl _)

-- The XOR of two n-bit numbers has n bits.
pub bit_xor-lt-pow : (n a b : ℕ) → a < 2 ^ n → b < 2 ^ n → bit_xor a b < 2 ^ n
bit_xor-lt-pow zero a b ha hb =
    let ea : a ≡ 0 = omega arith in let eb : b ≡ 0 = omega arith in rw (ea, eb) (omega arith)
bit_xor-lt-pow (suc n) a b ha hb = omega (
  arith,
  bit_xor_step a b,
  pow-suc 2 n,
  differ-le (a % 2) (b % 2),
  bit_xor-lt-pow n (a / 2) (b / 2) (omega (arith, pow-suc 2 n)) (omega (arith, pow-suc 2 n)),
)

le-bit_and_fuel : (n a b : ℕ) → a ≤ n → bit_and a b ≤ a
le-bit_and_fuel n zero b h = simp bit_and-bitwise (omega arith)
le-bit_and_fuel zero (suc a) b h = absurd (omega arith)
le-bit_and_fuel (suc n) (suc a) b h =
    omega (arith, bit_and_step (suc a) b, le-bit_and_fuel n (suc a / 2) (b / 2) (omega arith))

-- `&` is at most its left side.
pub bit_and-le : (a b : ℕ) → bit_and a b ≤ a
bit_and-le a b = le-bit_and_fuel a a b (le_refl _)
