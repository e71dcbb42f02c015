-- ===== src/Vrp/Interval/Sound.antt =====
-- The arithmetic of intervals holds every result of the arithmetic of integers.
use go_tools.Common.{
  ◌≡◌, subst, inl, inr, some, List, [], ◌∷◌, All, arith, ℤ, ◌+ℤ◌, ◌-ℤ◌, ◌*ℤ◌, neg_ℤ, int_laws,
  +ℤ-neg_ℤ,
}
use go_tools.Vrp.Z.{Z, unset, finite, n_infinity, p_infinity}
use go_tools.Vrp.Z.Order.{IsProper, ◌≤Z◌, ≤Z_trans, max_z-min_z-IsMax}
use go_tools.Vrp.Z.Arithmetic.{sum, opposite, add-eq-sum, sub-eq-sum}
use go_tools.Vrp.Z.Product.{product, Between, product-Between, product_comm, mul-eq-product}
use go_tools.Vrp.Interval.{IntInterval, add, sub, mul, corner_products}
use go_tools.Vrp.Interval.Set.{IsValid, Covers, Covers-span}

pub sum-IsProper : (z1 z2 : Z) → IsProper z1 → IsProper z2 → IsProper (sum z1 z2)
sum-IsProper unset z2 p q = p
sum-IsProper n_infinity z2 p q = tt
sum-IsProper p_infinity z2 p q = tt
sum-IsProper (finite a) (finite b) p q = tt
sum-IsProper (finite a) _ p q = q

pub opposite-IsProper : (z : Z) → IsProper z → IsProper (opposite z)
opposite-IsProper unset p = p
opposite-IsProper n_infinity p = tt
opposite-IsProper _ p = tt

pub sum_lower :
    (l1 l2 : Z) (a b : ℤ) → l1 ≤Z finite a → l2 ≤Z finite b → sum l1 l2 ≤Z finite (a +ℤ b)
sum_lower unset l2 a b h k = h
sum_lower n_infinity l2 a b h k = tt
sum_lower p_infinity l2 a b h k = h
sum_lower (finite c) (finite d) a b h k = omega int_laws
sum_lower (finite c) n_infinity a b h k = tt
sum_lower (finite c) _ a b h k = k

pub sum_upper :
    (u1 u2 : Z) (a b : ℤ) → finite a ≤Z u1 → finite b ≤Z u2 → finite (a +ℤ b) ≤Z sum u1 u2
sum_upper unset u2 a b h k = h
sum_upper n_infinity u2 a b h k = h
sum_upper p_infinity u2 a b h k = tt
sum_upper (finite c) (finite d) a b h k = omega int_laws
sum_upper (finite c) p_infinity a b h k = tt
sum_upper (finite c) _ a b h k = k

pub opposite_lower : (u : Z) (b : ℤ) → finite b ≤Z u → opposite u ≤Z finite (neg_ℤ b)
opposite_lower unset b h = h
opposite_lower n_infinity b h = h
opposite_lower p_infinity b h = tt
opposite_lower (finite c) b h = omega int_laws

pub opposite_upper : (l : Z) (b : ℤ) → l ≤Z finite b → finite (neg_ℤ b) ≤Z opposite l
opposite_upper unset b h = h
opposite_upper n_infinity b h = tt
opposite_upper p_infinity b h = h
opposite_upper (finite c) b h = omega int_laws

module _ (i1 i2 : IntInterval) (v1 : IsValid i1) (v2 : IsValid i2) where
  -- `Add` of two valid intervals returns a valid interval that holds the sum of every two integers of
  -- theirs.
  pub add-Covers : (i : IntInterval) × (add i1 i2 ≡ some i) × Covers ◌+ℤ◌ i1 i2 i
  unfolding add
  add-Covers =
      rw
        (
          add-eq-sum i1.lower i2.lower v1.lower_proper v2.lower_proper,
          add-eq-sum i1.upper i2.upper v1.upper_proper v2.upper_proper,
        )
        (Covers-span ◌+ℤ◌ i1 i2 (sum i1.lower i2.lower) (sum i1.upper i2.upper)
          (sum-IsProper i1.lower i2.lower v1.lower_proper v2.lower_proper)
          (sum-IsProper i1.upper i2.upper v1.upper_proper v2.upper_proper)
          λ a b k1 k2. (
            sum_lower i1.lower i2.lower a b k1.above k2.above,
            sum_upper i1.upper i2.upper a b k1.below k2.below,
          ))

  -- `Sub` of two valid intervals returns a valid interval that holds the difference of every two
  -- integers of theirs.
  pub sub-Covers : (i : IntInterval) × (sub i1 i2 ≡ some i) × Covers ◌-ℤ◌ i1 i2 i
  unfolding sub
  sub-Covers =
      let l2 = opposite i2.upper in
      let u2 = opposite i2.lower in
      let l2_proper = opposite-IsProper i2.upper v2.upper_proper in
      let u2_proper = opposite-IsProper i2.lower v2.lower_proper in
      rw
        (
          sub-eq-sum i1.lower i2.upper v1.lower_proper v2.upper_proper,
          sub-eq-sum i1.upper i2.lower v1.upper_proper v2.lower_proper,
        )
        (Covers-span ◌-ℤ◌ i1 i2 (sum i1.lower l2) (sum i1.upper u2)
          (sum-IsProper i1.lower l2 v1.lower_proper l2_proper)
          (sum-IsProper i1.upper u2 v1.upper_proper u2_proper)
          λ a b k1 k2. (
            subst (λ n. sum i1.lower l2 ≤Z finite n) (+ℤ-neg_ℤ a b)
                (sum_lower i1.lower l2 a (neg_ℤ b) k1.above (opposite_lower i2.upper b k2.below)),
            subst (λ n. finite n ≤Z sum i1.upper u2) (+ℤ-neg_ℤ a b)
                (sum_upper i1.upper u2 a (neg_ℤ b) k1.below (opposite_upper i2.lower b k2.above)),
          ))

product-IsProper : (z1 z2 : Z) → IsProper z1 → IsProper z2 → IsProper (product z1 z2)
product-IsProper unset z2 p q = p
product-IsProper z1 unset p q = absurd q
product-IsProper _ _ p q = ground arith

-- What lies between two values is below what is above both, and above what is below both.
Between_bounds :
    (l z u m : Z) → Between l z u → (m ≤Z l → m ≤Z u → m ≤Z z) × (l ≤Z m → u ≤Z m → z ≤Z m)
Between_bounds l z u m (inl h) = (λ p q. ≤Z_trans m l z p h.0, λ p q. ≤Z_trans z u m h.1 q)
Between_bounds l z u m (inr h) = (λ p q. ≤Z_trans m u z q h.0, λ p q. ≤Z_trans z l m h.1 p)

-- A product of two inner values lies within bounds of the four products of the outer ones.
corner_bounds :
    (x1 x2 y1 y2 : Z) (a b : ℤ) (m : Z)
    → IsProper y1
    → IsProper y2
    → x1 ≤Z finite a
    → finite a ≤Z x2
    → y1 ≤Z finite b
    → finite b ≤Z y2
    → let corners = product x1 y1 ∷ product x1 y2 ∷ product x2 y1 ∷ product x2 y2 ∷ [] in
      (All (λ z. m ≤Z z) corners → m ≤Z finite (a *ℤ b))
      × (All (λ z. z ≤Z m) corners → finite (a *ℤ b) ≤Z m)
corner_bounds x1 x2 y1 y2 a b m q1 q2 h1 h2 k1 k2 =
    let inner =
      Between_bounds (product (finite a) y1) (finite (a *ℤ b)) (product (finite a) y2) m
        (product-Between (finite a) y1 (finite b) y2 tt k1 k2) in
    let at_y1 = edge y1 q1 in
    let at_y2 = edge y2 q2 in
    (
      λ c. inner.0 (at_y1.0 c.0 c.1.1.0) (at_y2.0 c.1.0 c.1.1.1.0),
      λ c. inner.1 (at_y1.1 c.0 c.1.1.0) (at_y2.1 c.1.0 c.1.1.1.0),
    )
  where
    edge :
        (y : Z)
        → IsProper y
        → (m ≤Z product x1 y → m ≤Z product x2 y → m ≤Z product (finite a) y)
          × (product x1 y ≤Z m → product x2 y ≤Z m → product (finite a) y ≤Z m)
    edge y q =
        rw (product_comm x1 y, product_comm x2 y, product_comm (finite a) y)
          (Between_bounds (product y x1) (product y (finite a)) (product y x2) m
            (product-Between y x1 (finite a) x2 q h1 h2))

abbrev corners : IntInterval → IntInterval → List Z
corners i1 i2 =
    product i1.lower i2.lower
    ∷ product i1.lower i2.upper
    ∷ product i1.upper i2.lower
    ∷ product i1.upper i2.upper
    ∷ []

module _ (i1 i2 : IntInterval) (v1 : IsValid i1) (v2 : IsValid i2) where
  corner_products-eq-corners : corner_products i1 i2 ≡ some (corners i1 i2)
  unfolding corner_products
  corner_products-eq-corners = rw (
    mul-eq-product i1.lower i2.lower v1.lower_proper v2.lower_proper,
    mul-eq-product i1.lower i2.upper v1.lower_proper v2.upper_proper,
    mul-eq-product i1.upper i2.lower v1.upper_proper v2.lower_proper,
    mul-eq-product i1.upper i2.upper v1.upper_proper v2.upper_proper,
  )

  corners-IsProper : All IsProper (corners i1 i2)
  corners-IsProper = (
    product-IsProper i1.lower i2.lower v1.lower_proper v2.lower_proper,
    (
      product-IsProper i1.lower i2.upper v1.lower_proper v2.upper_proper,
      (
        product-IsProper i1.upper i2.lower v1.upper_proper v2.lower_proper,
        (product-IsProper i1.upper i2.upper v1.upper_proper v2.upper_proper, tt),
      ),
    ),
  )

  -- `Mul` of two valid intervals returns a valid interval that holds the product of every two integers
  -- of theirs.
  pub mul-Covers : (i : IntInterval) × (mul i1 i2 ≡ some i) × Covers ◌*ℤ◌ i1 i2 i
  unfolding mul
  mul-Covers =
      let ((u, eu, hu), (l, el, hl)) =
        max_z-min_z-IsMax (product i1.lower i2.lower)
          (product i1.lower i2.upper ∷ product i1.upper i2.lower ∷ product i1.upper i2.upper ∷ [])
          corners-IsProper in
      rw (corner_products-eq-corners, el, eu)
        (Covers-span ◌*ℤ◌ i1 i2 l u hl.0 hu.0 λ a b k1 k2.
          let at = λ (m : Z).
            corner_bounds i1.lower i1.upper i2.lower i2.upper a b m v2.lower_proper v2.upper_proper
              k1.above k1.below k2.above k2.below in
          ((at l).0 hl.2, (at u).1 hu.2))
