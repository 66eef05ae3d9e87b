-- ===== src/Base/Integers.antt =====
-- The integers of the source that may be negative, over the native numbers.
use Prim.Native.Nat.{ℕ, zero, suc}
use mathlib.Core.Path.{◌≡◌}
use mathlib.Core.Bool.{Bool, true, false}
use native.Mathlib.Omega.{arith}
use personalisation_kings.Base.Tests.{ltb, ◌==◌}

-- `negsuc n` is -(n + 1).
pub data ℤ : Type 0 where
  pos negsuc : ℕ → ℤ

abbrev pub neg : ℕ → ℤ
neg zero = pos 0
neg (suc n) = negsuc n

abbrev pub absℤ : ℤ → ℕ
absℤ (pos n) = n
absℤ (negsuc n) = suc n

abbrev pub ltbℤ : ℤ → ℤ → Bool
ltbℤ (pos a) (pos b) = ltb a b
ltbℤ (pos a) (negsuc b) = false
ltbℤ (negsuc a) (pos b) = true
ltbℤ (negsuc a) (negsuc b) = ltb b a

abbrev pub eqℤ : ℤ → ℤ → Bool
eqℤ (pos a) (pos b) = a == b
eqℤ (negsuc a) (negsuc b) = a == b
eqℤ _ _ = false

pub eqℤ_sound : (a b : ℤ) → eqℤ a b ≡ true → a ≡ b
eqℤ_sound a b h = ground arith

pub eqℤ_refl : (a : ℤ) → eqℤ a a ≡ true
eqℤ_refl a = ground arith

abbrev pub maxℤ : ℤ → ℤ → ℤ
maxℤ a b = elim (ltbℤ a b) [ true ↦ b | false ↦ a ]

abbrev pub minℤ : ℤ → ℤ → ℤ
minℤ a b = elim (ltbℤ b a) [ true ↦ b | false ↦ a ]
