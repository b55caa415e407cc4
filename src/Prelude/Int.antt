-- ===== src/Prelude/Int.antt =====
-- The integers that an int32 or an int64 stands for, with their comparisons.
use Prim.Native.Nat.{ℕ, zero, suc, ◌+◌, ◌≤◌}
use mathlib.Core.Path.{◌≡◌}
use mathlib.Core.Bool.{Bool, true, false}
use native.Mathlib.Omega.{arith}
use mogenius_renovate_operat.Prelude.Tests.{ltb}

-- `negsuc n` is -(n + 1).
pub data ℤ : Type 0 where
  pos : ℕ → ℤ
  negsuc : ℕ → ℤ

abbrev pub pos_part : ℤ → ℕ
pos_part (pos n) = n
pos_part (negsuc n) = 0

abbrev pub neg_part : ℤ → ℕ
neg_part (pos n) = 0
neg_part (negsuc n) = suc n

infix 50 ◌≤ℤ◌
abbrev pub ◌≤ℤ◌ : ℤ → ℤ → Type 0
a ≤ℤ b = pos_part a + neg_part b ≤ pos_part b + neg_part a

-- a < b
abbrev pub ltb_ℤ : ℤ → ℤ → Bool
ltb_ℤ a b = ltb (pos_part a + neg_part b) (pos_part b + neg_part a)

pub ≤ℤ_of_not_ltb : (a b : ℤ) → ltb_ℤ a b ≡ false → b ≤ℤ a
≤ℤ_of_not_ltb a b h = ground arith

pub ≤ℤ_of_ltb : (a b : ℤ) → ltb_ℤ a b ≡ true → a ≤ℤ b
≤ℤ_of_ltb a b h = ground arith

-- p - n
abbrev pub of_parts : ℕ → ℕ → ℤ
of_parts p zero = pos p
of_parts zero (suc n) = negsuc n
of_parts (suc p) (suc n) = of_parts p n

infixl 55 ◌+ℤ◌
abbrev pub ◌+ℤ◌ : ℤ → ℤ → ℤ
a +ℤ b = of_parts (pos_part a + pos_part b) (neg_part a + neg_part b)
