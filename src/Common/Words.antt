-- ===== src/Common/Words.antt =====
-- Machine words as native numbers, bytes in both orders, and the platform's entropy.
use Prim.Native.Nat.{ℕ, zero, suc, ◌+◌, ◌-◌, ◌%◌, ◌^◌, ◌<◌}
use mathlib.Core.Path.{◌≡◌, refl, ap}
use mathlib.Core.List.{List, [], ◌∷◌}
use sys_amneziawg.Common.Lists.{length, All}

abbrev pub u8 : ℕ → ℕ
u8 n = n % 2 ^ 8

abbrev pub u16 : ℕ → ℕ
u16 n = n % 2 ^ 16

abbrev pub u32 : ℕ → ℕ
u32 n = n % 2 ^ 32

abbrev pub u64 : ℕ → ℕ
u64 n = n % 2 ^ 64

-- An unsigned 32-bit or 64-bit difference, which wraps below zero.
abbrev pub sub32 : ℕ → ℕ → ℕ
sub32 a b = (a + 2 ^ 32 - b) % 2 ^ 32

abbrev pub sub64 : ℕ → ℕ → ℕ
sub64 a b = (a + 2 ^ 64 - b) % 2 ^ 64

-- `negsuc n` is -(n + 1).
pub data ℤ : Type 0 where
  pos : ℕ → ℤ
  negsuc : ℕ → ℤ

abbrev pub IsByte : ℕ → Type 0
IsByte b = b < 256

-- The bytes that the platform's generator will deliver, in order.
abbrev pub Entropy : Type 0
Entropy = ℕ → ℕ

-- awg_random_bytes: the next n bytes, and what comes after them.
unfoldable pub random_bytes : ℕ → Entropy → List ℕ × Entropy
random_bytes zero e = ([], e)
random_bytes (suc n) e = let rest = random_bytes n (λ i. e (suc i)) in (e 0 ∷ rest.0, rest.1)

pub length-random_bytes : (n : ℕ) (e : Entropy) → length (random_bytes n e).0 ≡ n
unfolding random_bytes
length-random_bytes zero e = refl
length-random_bytes (suc n) e = ap suc (length-random_bytes n (λ i. e (suc i)))

pub random_bytes-IsByte :
    (n : ℕ) (e : Entropy) → ((i : ℕ) → IsByte (e i)) → All IsByte (random_bytes n e).0
unfolding random_bytes
random_bytes-IsByte zero e h = tt
random_bytes-IsByte (suc n) e h = (h 0, random_bytes-IsByte n (λ i. e (suc i)) (λ i. h (suc i)))
