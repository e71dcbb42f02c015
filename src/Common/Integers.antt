-- ===== src/Common/Integers.antt =====
-- Signed integers over the native numbers: the values of Go's `*big.Int`.
-- Sums and orders go through the two parts of an integer, which are numbers that `omega` reads.
use Prim.Native.Nat.{ℕ, suc, ◌+◌, ◌-◌, ◌*◌, ◌≤◌, compare, Ordering}
use mathlib.Core.Path.{◌≡◌}
use native.Mathlib.Omega.{arith}
use go_tools.Common.Tests.{leb, if◌then◌else◌}

-- `negsuc n` is -(n + 1).
pub data ℤ : Type 0 where
  pos : ℕ → ℤ
  negsuc : ℕ → ℤ

abbrev pub pos_part : ℤ → ℕ
pos_part (pos n) = n
pos_part (negsuc n) = 0

abbrev pub neg_part : ℤ → ℕ
neg_part (pos n) = 0
neg_part (negsuc n) = suc n

-- a - b, as an integer.
abbrev pub sub_ℕ : ℕ → ℕ → ℤ
sub_ℕ a b = if leb b a then pos (a - b) else negsuc (b - a - 1)

infixl 65 ◌+ℤ◌ ◌-ℤ◌
infixl 70 ◌*ℤ◌
infix 50 ◌≤ℤ◌
unfoldable pub ◌+ℤ◌ : ℤ → ℤ → ℤ
a +ℤ b = sub_ℕ (pos_part a + pos_part b) (neg_part a + neg_part b)

unfoldable pub ◌-ℤ◌ : ℤ → ℤ → ℤ
a -ℤ b = sub_ℕ (pos_part a + neg_part b) (neg_part a + pos_part b)

unfoldable pub neg_ℤ : ℤ → ℤ
neg_ℤ a = sub_ℕ (neg_part a) (pos_part a)

unfoldable pub ◌*ℤ◌ : ℤ → ℤ → ℤ
a *ℤ b =
    sub_ℕ (pos_part a * pos_part b + neg_part a * neg_part b)
      (pos_part a * neg_part b + neg_part a * pos_part b)

abbrev pub ◌≤ℤ◌ : ℤ → ℤ → Type 0
a ≤ℤ b = pos_part a + neg_part b ≤ pos_part b + neg_part a

abbrev pub compare_ℤ : ℤ → ℤ → Ordering
compare_ℤ a b = compare (pos_part a + neg_part b) (pos_part b + neg_part a)

pub +ℤ_parts :
    (a b : ℤ)
    → pos_part (a +ℤ b) + neg_part a + neg_part b ≡ neg_part (a +ℤ b) + pos_part a + pos_part b
unfolding ◌+ℤ◌
+ℤ_parts a b = ground arith

pub -ℤ_parts :
    (a b : ℤ)
    → pos_part (a -ℤ b) + neg_part a + pos_part b ≡ neg_part (a -ℤ b) + pos_part a + neg_part b
unfolding ◌-ℤ◌
-ℤ_parts a b = ground arith

pub neg_ℤ_parts : (a : ℤ) → pos_part (neg_ℤ a) + pos_part a ≡ neg_part (neg_ℤ a) + neg_part a
unfolding neg_ℤ
neg_ℤ_parts a = ground arith

pub *ℤ_parts :
    (a b : ℤ)
    → pos_part (a *ℤ b) + (pos_part a * neg_part b + neg_part a * pos_part b)
      ≡ neg_part (a *ℤ b) + (pos_part a * pos_part b + neg_part a * neg_part b)
unfolding ◌*ℤ◌
*ℤ_parts a b = ground arith

pub eq_of_parts : (a b : ℤ) → pos_part a + neg_part b ≡ pos_part b + neg_part a → a ≡ b
eq_of_parts a b h = ground arith

pub ruleset int_laws = (arith, +ℤ_parts, -ℤ_parts, neg_ℤ_parts, eq_of_parts)

pub -ℤ-neg_ℤ : (a b : ℤ) → a -ℤ neg_ℤ b ≡ a +ℤ b
-ℤ-neg_ℤ a b = omega int_laws

pub +ℤ-neg_ℤ : (a b : ℤ) → a +ℤ neg_ℤ b ≡ a -ℤ b
+ℤ-neg_ℤ a b = omega int_laws

module _ (a b : ℤ) where
  pub zero-*ℤ : compare_ℤ a (pos 0) ≡ Ordering.eq → a *ℤ b ≡ pos 0
  unfolding ◌*ℤ◌
  zero-*ℤ h = ground arith

  pub *ℤ-zero : compare_ℤ b (pos 0) ≡ Ordering.eq → a *ℤ b ≡ pos 0
  unfolding ◌*ℤ◌
  *ℤ-zero h = ground arith

  pub *ℤ_comm : a *ℤ b ≡ b *ℤ a
  *ℤ_comm = eq_of_parts _ _ (omega (arith, *ℤ_parts a b, *ℤ_parts b a))

le-mul_left : (k m n : ℕ) → m ≤ n → k * m ≤ k * n
le-mul_left k m n h = grind arith

module _ (n : ℕ) (b c : ℤ) (h : b ≤ℤ c) where
  pub *ℤ_mono : pos n *ℤ b ≤ℤ pos n *ℤ c
  *ℤ_mono = omega (arith, *ℤ_parts (pos n) b, *ℤ_parts (pos n) c, le-mul_left n _ _ h)

  pub *ℤ_anti : negsuc n *ℤ c ≤ℤ negsuc n *ℤ b
  *ℤ_anti = omega (arith, *ℤ_parts (negsuc n) b, *ℤ_parts (negsuc n) c, le-mul_left (suc n) _ _ h)
