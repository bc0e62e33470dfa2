-- ===== src/Base/Int64.antt =====
-- Go's int64 with its wrap-around. `negsuc n` is -(n + 1).
use slot_golang.Base.{
  ℕ, zero, suc, ◌+◌, ◌-◌, ◌%◌, ◌^◌, ◌<◌, ◌≡◌, refl, Bool, true, false, arith, ltb, ◌==◌,
  if◌then◌else◌, ◌↔◌, ap,
}

pub data ℤ : Type 0 where
  pos : ℕ → ℤ
  negsuc : ℕ → ℤ

-- The values that fit 64 bits.
abbrev pub IsInt64 : ℤ → Type 0
IsInt64 (pos n) = n < 2 ^ 63
IsInt64 (negsuc n) = n < 2 ^ 63

-- `uint64(x)`
abbrev pub to_u64 : ℤ → ℕ
to_u64 (pos n) = n % 2 ^ 64
to_u64 (negsuc n) = 2 ^ 64 - 1 - n % 2 ^ 64

-- `int64(u)`
abbrev pub of_u64 : ℕ → ℤ
of_u64 u = if ltb u (2 ^ 63) then pos u else negsuc (2 ^ 64 - 1 - u)

-- `a + b`, `a - b` and `-a` in int64
unfoldable pub add64 : ℤ → ℤ → ℤ
add64 a b = of_u64 ((to_u64 a + to_u64 b) % 2 ^ 64)

unfoldable pub sub64 : ℤ → ℤ → ℤ
sub64 a b = of_u64 ((to_u64 a + 2 ^ 64 - to_u64 b) % 2 ^ 64)

unfoldable pub neg64 : ℤ → ℤ
neg64 a = of_u64 ((2 ^ 64 - to_u64 a) % 2 ^ 64)

abbrev pub neg_ℕ : ℕ → ℤ
neg_ℕ zero = pos 0
neg_ℕ (suc n) = negsuc n

-- `a % k` for a positive constant k: the sign is that of `a`.
unfoldable pub rem64 : ℤ → ℕ → ℤ
rem64 (pos n) k = pos (n % k)
rem64 (negsuc n) k = neg_ℕ ((n + 1) % k)

-- `x > 0`, `x < 0`, `x == 0`
abbrev pub is_pos : ℤ → Bool
is_pos (pos n) = ltb 0 n
is_pos (negsuc n) = false

abbrev pub is_neg : ℤ → Bool
is_neg (pos n) = false
is_neg (negsuc n) = true

abbrev pub is_zero : ℤ → Bool
is_zero (pos n) = n == 0
is_zero (negsuc n) = false

infix 50 ◌==ℤ◌
abbrev pub ◌==ℤ◌ : ℤ → ℤ → Bool
(pos m) ==ℤ (pos n) = m == n
(pos m) ==ℤ (negsuc n) = false
(negsuc m) ==ℤ (pos n) = false
(negsuc m) ==ℤ (negsuc n) = m == n

pub ==ℤ_iff : (a b : ℤ) → ((a ==ℤ b) ≡ true) ↔ (a ≡ b)
==ℤ_iff (pos m) (pos n) = (λ h. ap pos (ground arith), λ e. ground arith)
==ℤ_iff (pos m) (negsuc n) = (λ h. cc, λ e. cc)
==ℤ_iff (negsuc m) (pos n) = (λ h. cc, λ e. cc)
==ℤ_iff (negsuc m) (negsuc n) = (λ h. ap negsuc (ground arith), λ e. ground arith)

pub ==ℤ_refl : (a : ℤ) → (a ==ℤ a) ≡ true
==ℤ_refl a = (==ℤ_iff a a).1 refl

pub to_u64-lt : (a : ℤ) → to_u64 a < 2 ^ 64
to_u64-lt (pos n) = omega arith
to_u64-lt (negsuc n) = omega arith

pub of_u64-to_u64 : (a : ℤ) → IsInt64 a → of_u64 (to_u64 a) ≡ a
of_u64-to_u64 (pos n) h = ground arith
of_u64-to_u64 (negsuc n) h = ground arith

abbrev pub pos_part : ℤ → ℕ
pos_part (pos n) = n
pos_part (negsuc n) = 0
