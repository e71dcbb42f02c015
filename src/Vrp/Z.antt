-- ===== src/Vrp/Z.antt =====
-- `Z` of staticcheck/vrp/int.go: the integers with two infinities.
-- The struct `{infinity int8; integer *big.Int}` takes four forms in the program, one constructor
-- each; `unset` is the zero value, whose `integer` is nil. Reading through that nil pointer panics.
-- `Ordering.lt`, `eq` and `gt` are the ints -1, 0 and 1 that `Sign` and `Cmp` return, and the
-- values of the field `infinity`.
pub mod Order
pub mod Arithmetic
pub mod Product
use go_tools.Common.{
  ℕ, zero, suc, Ordering, Bool, true, false, not, ◌&&◌, ◌||◌, Option, none, some, List, [], ◌∷◌,
  if◌then◌else◌, ◌>>=◌, ℤ, pos, ◌+ℤ◌, ◌-ℤ◌, ◌*ℤ◌, neg_ℤ, compare_ℤ,
}

pub data Z : Type 0 where
  unset : Z
  n_infinity : Z
  p_infinity : Z
  finite : ℤ → Z

abbrev pub is_minus : Ordering → Bool
is_minus Ordering.lt = true
is_minus _ = false

abbrev pub is_null : Ordering → Bool
is_null Ordering.eq = true
is_null _ = false

abbrev pub is_plus : Ordering → Bool
is_plus Ordering.gt = true
is_plus _ = false

-- The field `infinity`.
abbrev pub infinity : Z → Ordering
infinity n_infinity = Ordering.lt
infinity p_infinity = Ordering.gt
infinity _ = Ordering.eq

-- The field `integer`; `none` is nil.
abbrev pub integer : Z → Option ℤ
integer (finite n) = some n
integer _ = none

abbrev pub new_z : ℤ → Z
new_z n = finite n

-- z.infinity != 0
abbrev pub infinite : Z → Bool
infinite z = not (is_null (infinity z))

-- z == NInfinity, z == PInfinity: the pointers of these two are nil, so that the comparison of
-- structs is one of forms.
abbrev pub is_n_infinity : Z → Bool
is_n_infinity n_infinity = true
is_n_infinity _ = false

abbrev pub is_p_infinity : Z → Bool
is_p_infinity p_infinity = true
is_p_infinity _ = false

-- (*big.Int).Sign
abbrev pub integer_sign : ℤ → Ordering
integer_sign n = compare_ℤ n (pos 0)

unfoldable pub sign : Z → Option Ordering
sign z = if infinite z then some (infinity z) else do n ← integer z; some (integer_sign n)

unfoldable pub negate : Z → Option Z
negate z =
    if is_plus (infinity z)
    then some n_infinity
    else if is_minus (infinity z)
    then some p_infinity
    else do n ← integer z; some (finite (neg_ℤ n))

-- `Add` after its test on the sign of `z2`.
unfoldable pub add_rest : Z → Z → Option Z
add_rest z1 z2 =
    if is_n_infinity z1
    then some n_infinity
    else if is_p_infinity z1
    then some p_infinity
    else if is_p_infinity z2
    then some p_infinity
    else if not (infinite z1) && not (infinite z2)
    then (do n1 ← integer z1; n2 ← integer z2; some (finite (n1 +ℤ n2)))
    else none

-- Z{infinity: s}
abbrev pub of_infinity : Ordering → Z
of_infinity Ordering.lt = n_infinity
of_infinity Ordering.eq = unset
of_infinity Ordering.gt = p_infinity

-- `Sub` after its test on the sign of `z2`.
unfoldable pub sub_rest : Z → Z → Option Z
sub_rest z1 z2 =
    if not (infinite z1) && not (infinite z2)
    then (do n1 ← integer z1; n2 ← integer z2; some (finite (n1 -ℤ n2)))
    else if not (is_p_infinity z1) && is_p_infinity z2
    then some n_infinity
    else if infinite z1 && not (infinite z2)
    then some (of_infinity (infinity z1))
    else if is_p_infinity z1 && is_p_infinity z2
    then some p_infinity
    else none

-- `Add` and `Sub` call each other on the negated operand. The fuel is the depth of calls; that two
-- are enough is shown by the theorems that the sums are defined.
mutual
  add_fuel : ℕ → Z → Z → Option Z
  add_fuel zero z1 z2 = none
  add_fuel (suc fuel) z1 z2 = do
    s ← sign z2
    if is_minus s then (do n ← negate z2; sub_fuel fuel z1 n) else add_rest z1 z2

  sub_fuel : ℕ → Z → Z → Option Z
  sub_fuel zero z1 z2 = none
  sub_fuel (suc fuel) z1 z2 = do
    s ← sign z2
    if is_minus s then (do n ← negate z2; add_fuel fuel z1 n) else sub_rest z1 z2

unfoldable pub add : Z → Z → Option Z
unfolding add_fuel sub_fuel add_rest sub_rest sign negate
add z1 z2 = add_fuel 2 z1 z2

unfoldable pub sub : Z → Z → Option Z
unfolding add_fuel sub_fuel add_rest sub_rest sign negate
sub z1 z2 = sub_fuel 2 z1 z2

-- z.integer != nil && z.integer.Sign() == 0
abbrev pub is_integer_zero : Z → Bool
is_integer_zero (finite n) = is_null (integer_sign n)
is_integer_zero _ = false

-- The product of two signs, as ints.
abbrev pub sign_mul : Ordering → Ordering → Ordering
sign_mul Ordering.eq _ = Ordering.eq
sign_mul _ Ordering.eq = Ordering.eq
sign_mul Ordering.lt Ordering.lt = Ordering.gt
sign_mul Ordering.gt Ordering.gt = Ordering.gt
sign_mul _ _ = Ordering.lt

unfoldable pub mul : Z → Z → Option Z
unfolding sign
mul z1 z2 =
    if is_integer_zero z1 || is_integer_zero z2
    then some (finite (pos 0))
    else if infinite z1 || infinite z2
    then (do s1 ← sign z1; s2 ← sign z2; some (of_infinity (sign_mul s1 s2)))
    else do n1 ← integer z1; n2 ← integer z2; some (finite (n1 *ℤ n2))

-- z1.infinity == z2.infinity
abbrev pub same_infinity : Z → Z → Bool
same_infinity n_infinity n_infinity = true
same_infinity p_infinity p_infinity = true
same_infinity z1 z2 = not (infinite z1) && not (infinite z2)

unfoldable pub cmp : Z → Z → Option Ordering
cmp z1 z2 =
    if same_infinity z1 z2 && infinite z1
    then some Ordering.eq
    else if is_p_infinity z1
    then some Ordering.gt
    else if is_n_infinity z1
    then some Ordering.lt
    else if is_n_infinity z2
    then some Ordering.gt
    else if is_p_infinity z2
    then some Ordering.lt
    else do n1 ← integer z1; n2 ← integer z2; some (compare_ℤ n1 n2)

-- The loop of `MaxZ`.
unfoldable pub max_z_from : Z → List Z → Option Z
unfolding cmp
max_z_from ret [] = some ret
max_z_from ret (z ∷ zs) = do c ← cmp z ret; max_z_from (if is_plus c then z else ret) zs

unfoldable pub max_z : List Z → Option Z
unfolding max_z_from
max_z [] = none
max_z (z ∷ zs) = max_z_from z zs

-- The loop of `MinZ`.
unfoldable pub min_z_from : Z → List Z → Option Z
unfolding cmp
min_z_from ret [] = some ret
min_z_from ret (z ∷ zs) = do c ← cmp z ret; min_z_from (if is_minus c then z else ret) zs

unfoldable pub min_z : List Z → Option Z
unfolding min_z_from
min_z [] = none
min_z (z ∷ zs) = min_z_from z zs
