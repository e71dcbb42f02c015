-- ===== src/Vrp/Z/Product.antt =====
-- `Mul` of `Z` (staticcheck/vrp/int.go).
use go_tools.Common.{
  ℕ, zero, suc, ◌≡◌, refl, ap, ◌⊎◌, inl, inr, Ordering, some, arith, ℤ, pos, negsuc, ◌*ℤ◌, pos_part,
  neg_part, zero-*ℤ, *ℤ-zero, *ℤ_comm, *ℤ_mono, *ℤ_anti,
}
use go_tools.Vrp.Z.{Z, unset, n_infinity, p_infinity, finite, mul, of_infinity, sign_mul}
use go_tools.Vrp.Z.Order.{IsProper, ◌≤Z◌}

-- An integer times an infinity whose sign is `s`.
abbrev pub scale : ℤ → Ordering → Z
scale (pos zero) s = finite (pos 0)
scale (pos (suc n)) s = of_infinity s
scale (negsuc n) s = of_infinity (sign_mul Ordering.lt s)

-- The product that `Mul` is to compute, in which 0 times an infinity is 0.
abbrev pub product : Z → Z → Z
product unset z2 = unset
product z1 unset = unset
product (finite a) (finite b) = finite (a *ℤ b)
product (finite a) n_infinity = scale a Ordering.lt
product (finite a) p_infinity = scale a Ordering.gt
product n_infinity (finite b) = scale b Ordering.lt
product p_infinity (finite b) = scale b Ordering.gt
product n_infinity n_infinity = p_infinity
product n_infinity p_infinity = n_infinity
product p_infinity n_infinity = n_infinity
product p_infinity p_infinity = p_infinity

-- `Mul` never panics on values other than the zero value of the struct, and is the extended product.
pub mul-eq-product : (z1 z2 : Z) → IsProper z1 → IsProper z2 → mul z1 z2 ≡ some (product z1 z2)
unfolding mul
mul-eq-product unset z2 p q = elim p [ ]
mul-eq-product z1 unset p q = elim q [ ]
mul-eq-product (finite a) (finite b) p q = ground (arith, zero-*ℤ a b, *ℤ-zero a b)
mul-eq-product _ _ p q = ground arith

pub product_comm : (z1 z2 : Z) → product z1 z2 ≡ product z2 z1
product_comm (finite a) (finite b) = ap finite (*ℤ_comm a b)
product_comm unset unset = refl
product_comm n_infinity n_infinity = refl
product_comm p_infinity p_infinity = refl
product_comm n_infinity unset = refl
product_comm _ _ = ground arith

-- `z` lies between `l` and `u`, in one order or the other.
abbrev pub Between : Z → Z → Z → Type 0
Between l z u = ((l ≤Z z) × (z ≤Z u)) ⊎ ((u ≤Z z) × (z ≤Z l))

pos-product_mono :
    (n : ℕ) (l u : Z) → l ≤Z u → product (finite (pos n)) l ≤Z product (finite (pos n)) u
pos-product_mono n unset u h = elim h [ ]
pos-product_mono n l unset h = ground arith
pos-product_mono n (finite b) (finite c) h = *ℤ_mono n b c h
pos-product_mono zero n_infinity (finite c) h = omega (arith, ap neg_part (zero-*ℤ (pos 0) c refl))
pos-product_mono zero (finite b) p_infinity h = omega (arith, ap pos_part (zero-*ℤ (pos 0) b refl))
pos-product_mono zero _ _ h = ground arith
pos-product_mono (suc n) _ _ h = ground arith

negsuc-product_anti :
    (n : ℕ) (l u : Z) → l ≤Z u → product (finite (negsuc n)) u ≤Z product (finite (negsuc n)) l
negsuc-product_anti n unset u h = elim h [ ]
negsuc-product_anti n l unset h = ground arith
negsuc-product_anti n (finite b) (finite c) h = *ℤ_anti n b c h
negsuc-product_anti n _ _ h = ground arith

p_infinity-product_mono : (l u : Z) → l ≤Z u → product p_infinity l ≤Z product p_infinity u
p_infinity-product_mono unset u h = elim h [ ]
p_infinity-product_mono l unset h = ground arith
p_infinity-product_mono _ _ h = ground arith

n_infinity-product_anti : (l u : Z) → l ≤Z u → product n_infinity u ≤Z product n_infinity l
n_infinity-product_anti unset u h = elim h [ ]
n_infinity-product_anti l unset h = ground arith
n_infinity-product_anti _ _ h = ground arith

-- Multiplication by a fixed value keeps the order, or reverses it.
pub product-Between :
    (c l z u : Z) → IsProper c → l ≤Z z → z ≤Z u → Between (product c l) (product c z) (product c u)
product-Between unset l z u p h k = elim p [ ]
product-Between (finite (pos n)) l z u p h k =
    inl (pos-product_mono n l z h, pos-product_mono n z u k)
product-Between (finite (negsuc n)) l z u p h k =
    inr (negsuc-product_anti n z u k, negsuc-product_anti n l z h)
product-Between n_infinity l z u p h k =
    inr (n_infinity-product_anti z u k, n_infinity-product_anti l z h)
product-Between p_infinity l z u p h k =
    inl (p_infinity-product_mono l z h, p_infinity-product_mono z u k)
