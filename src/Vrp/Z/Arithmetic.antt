-- ===== src/Vrp/Z/Arithmetic.antt =====
-- `Add`, `Sub`, `Mul` and `Negate` of `Z` (staticcheck/vrp/int.go).
use go_tools.Common.{◌≡◌, refl, some, arith, ◌+ℤ◌, neg_ℤ, -ℤ-neg_ℤ, neg_ℤ_parts, +ℤ-neg_ℤ}
use go_tools.Vrp.Z.{Z, unset, n_infinity, p_infinity, finite, add, sub}
use go_tools.Vrp.Z.Order.{IsProper}

-- The sum that `Add` is to compute: an infinity wins over an integer, and the left one over the right.
abbrev pub sum : Z → Z → Z
sum unset z2 = unset
sum n_infinity z2 = n_infinity
sum p_infinity z2 = p_infinity
sum (finite a) (finite b) = finite (a +ℤ b)
sum (finite a) z2 = z2

abbrev pub opposite : Z → Z
opposite unset = unset
opposite n_infinity = p_infinity
opposite p_infinity = n_infinity
opposite (finite a) = finite (neg_ℤ a)

-- `Add` never panics on values other than the zero value of the struct, and is the extended sum.
pub add-eq-sum : (z1 z2 : Z) → IsProper z1 → IsProper z2 → add z1 z2 ≡ some (sum z1 z2)
unfolding add
add-eq-sum unset z2 p q = elim p [ ]
add-eq-sum z1 unset p q = elim q [ ]
add-eq-sum (finite a) (finite b) p q = ground (arith, neg_ℤ_parts b, -ℤ-neg_ℤ a b)
add-eq-sum _ (finite b) p q = ground (arith, neg_ℤ_parts b)
add-eq-sum _ _ p q = refl

-- `Sub` never panics on such values, and adds the opposite, but that an infinity less itself is that
-- infinity.
pub sub-eq-sum : (z1 z2 : Z) → IsProper z1 → IsProper z2 → sub z1 z2 ≡ some (sum z1 (opposite z2))
unfolding sub
sub-eq-sum unset z2 p q = elim p [ ]
sub-eq-sum z1 unset p q = elim q [ ]
sub-eq-sum (finite a) (finite b) p q = ground (arith, neg_ℤ_parts b, +ℤ-neg_ℤ a b)
sub-eq-sum _ (finite b) p q = ground (arith, neg_ℤ_parts b)
sub-eq-sum _ _ p q = refl
