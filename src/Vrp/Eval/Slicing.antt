-- ===== src/Vrp/Eval/Slicing.antt =====
-- The lengths of slices of strings, slices and arrays (staticcheck/vrp/string.go and slice.go).
use go_tools.Common.{
  ◌≡◌, refl, subst, some, List, [], ◌∷◌, map, All, arith, ℤ, pos, negsuc, ◌-ℤ◌, ◌≤ℤ◌, neg_ℤ,
  +ℤ-neg_ℤ, int_laws,
}
use go_tools.Vrp.Z.{Z, unset, finite, n_infinity, p_infinity}
use go_tools.Vrp.Z.Order.{IsProper, ◌≤Z◌, ≤Z_trans, max_z-min_z-IsMax}
use go_tools.Vrp.Z.Arithmetic.{sum, opposite, sub-eq-sum}
use go_tools.Vrp.Interval.{IntInterval}
use go_tools.Vrp.Interval.Set.{Contains, IsValid, new_int_interval-IsSpan}
use go_tools.Vrp.Interval.Sound.{
  sum-IsProper, opposite-IsProper, sum_lower, sum_upper, opposite_lower, opposite_upper,
}
use go_tools.Vrp.Eval.{truncate, sliced}

-- The value, or 0 if that is greater.
abbrev pub at_least_0 : Z → Z
at_least_0 unset = unset
at_least_0 p_infinity = p_infinity
at_least_0 (finite (pos n)) = finite (pos n)
at_least_0 _ = finite (pos 0)

pub truncate-eq-map : (ls : List Z) → All IsProper ls → truncate ls ≡ some (map at_least_0 ls)
unfolding truncate
truncate-eq-map [] p = refl
truncate-eq-map (unset ∷ ls) p = absurd p.0
truncate-eq-map (finite (pos n) ∷ ls) p = rw (truncate-eq-map ls p.1) (ground arith)
truncate-eq-map (finite (negsuc n) ∷ ls) p = rw (truncate-eq-map ls p.1) (ground arith)
truncate-eq-map (_ ∷ ls) p = rw (truncate-eq-map ls p.1) refl

pub at_least_0-IsProper : (z : Z) → IsProper z → IsProper (at_least_0 z)
at_least_0-IsProper unset p = p
at_least_0-IsProper p_infinity p = tt
at_least_0-IsProper (finite (pos n)) p = tt
at_least_0-IsProper _ p = tt

le-at_least_0 : (w z : Z) → w ≤Z z → w ≤Z at_least_0 z
le-at_least_0 unset z h = h
le-at_least_0 w unset h = h
le-at_least_0 w (finite (negsuc n)) h = ground arith
le-at_least_0 w n_infinity h = ground arith
le-at_least_0 w (finite (pos n)) h = h
le-at_least_0 w p_infinity h = h

pub at_least_0-le : (z : Z) (n : ℤ) → z ≤Z finite n → pos 0 ≤ℤ n → at_least_0 z ≤Z finite n
at_least_0-le unset n h k = h
at_least_0-le (finite (negsuc m)) n h k = k
at_least_0-le n_infinity n h k = k
at_least_0-le (finite (pos m)) n h k = h
at_least_0-le p_infinity n h k = h

module _ (lr ur : IntInterval) (v : IsValid lr) (w : IsValid ur) where
  abbrev corner : Z → Z → Z
  corner hi lo = sum hi (opposite lo)

  corner-IsProper : (hi lo : Z) → IsProper hi → IsProper lo → IsProper (at_least_0 (corner hi lo))
  corner-IsProper hi lo p q =
      at_least_0-IsProper (corner hi lo) (sum-IsProper hi (opposite lo) p (opposite-IsProper lo q))

  abbrev raw : List Z
  raw =
      corner ur.lower lr.lower
      ∷ corner ur.upper lr.lower
      ∷ corner ur.lower lr.upper
      ∷ corner ur.upper lr.upper
      ∷ []

  raw-IsProper : All IsProper raw
  raw-IsProper = (
    sum-IsProper ur.lower (opposite lr.lower) w.lower_proper
        (opposite-IsProper lr.lower v.lower_proper),
    (
      sum-IsProper ur.upper (opposite lr.lower) w.upper_proper
          (opposite-IsProper lr.lower v.lower_proper),
      (
        sum-IsProper ur.lower (opposite lr.upper) w.lower_proper
            (opposite-IsProper lr.upper v.upper_proper),
        (
          sum-IsProper ur.upper (opposite lr.upper) w.upper_proper
              (opposite-IsProper lr.upper v.upper_proper),
          tt,
        ),
      ),
    ),
  )

  cut-IsProper : All IsProper (map at_least_0 raw)
  cut-IsProper = (
    corner-IsProper ur.lower lr.lower w.lower_proper v.lower_proper,
    (
      corner-IsProper ur.upper lr.lower w.upper_proper v.lower_proper,
      (
        corner-IsProper ur.lower lr.upper w.lower_proper v.upper_proper,
        (corner-IsProper ur.upper lr.upper w.upper_proper v.upper_proper, tt),
      ),
    ),
  )

  -- the extreme corners bound the length
  lower_corner :
      (lo hi : ℤ)
      → Contains lr lo
      → Contains ur hi
      → lo ≤ℤ hi
      → at_least_0 (corner ur.lower lr.upper) ≤Z finite (hi -ℤ lo)
  lower_corner lo hi k1 k2 h =
      at_least_0-le (corner ur.lower lr.upper) (hi -ℤ lo)
        (subst (λ n. corner ur.lower lr.upper ≤Z finite n) (+ℤ-neg_ℤ hi lo)
          (sum_lower ur.lower (opposite lr.upper) hi (neg_ℤ lo) k2.above
            (opposite_lower lr.upper lo k1.below)))
        (omega int_laws)

  upper_corner :
      (lo hi : ℤ)
      → Contains lr lo
      → Contains ur hi
      → finite (hi -ℤ lo) ≤Z at_least_0 (corner ur.upper lr.lower)
  upper_corner lo hi k1 k2 = le-at_least_0 (finite (hi -ℤ lo)) (corner ur.upper lr.lower) (
      subst (λ n. finite n ≤Z corner ur.upper lr.lower) (+ℤ-neg_ℤ hi lo)
        (sum_upper ur.upper (opposite lr.lower) hi (neg_ℤ lo) k2.below
          (opposite_upper lr.lower lo k1.above)))

  -- The lengths of the slices of a sequence: for known ranges of the two bounds, a valid interval that
  -- holds the length of every slice whose bounds lie in the ranges and are in order.
  pub sliced_sound :
      (i : IntInterval) × (sliced lr ur ≡ some i)
      × IsValid i
      × ((lo hi : ℤ) → Contains lr lo → Contains ur hi → lo ≤ℤ hi → Contains i (hi -ℤ lo))
  unfolding sliced
  sliced_sound =
      let ((u, eu, hu), (l, el, hl)) =
        max_z-min_z-IsMax (at_least_0 (corner ur.lower lr.lower))
          (map at_least_0
            (corner ur.upper lr.lower ∷ corner ur.lower lr.upper ∷ corner ur.upper lr.upper ∷ []))
          cut-IsProper in
      let (i, e, s) = new_int_interval-IsSpan l u hl.0 hu.0 in
      (
        i,
        rw
            (
              sub-eq-sum ur.lower lr.lower w.lower_proper v.lower_proper,
              sub-eq-sum ur.upper lr.lower w.upper_proper v.lower_proper,
              sub-eq-sum ur.lower lr.upper w.lower_proper v.upper_proper,
              sub-eq-sum ur.upper lr.upper w.upper_proper v.upper_proper,
              truncate-eq-map raw raw-IsProper,
              el,
              eu,
            )
            e,
        s.valid,
        λ lo hi k1 k2 h.
            s.inside (hi -ℤ lo)
              (≤Z_trans l (at_least_0 (corner ur.lower lr.upper)) (finite (hi -ℤ lo)) hl.2.1.1.0
                (lower_corner lo hi k1 k2 h))
              (≤Z_trans (finite (hi -ℤ lo)) (at_least_0 (corner ur.upper lr.lower)) u
                (upper_corner lo hi k1 k2) hu.2.1.0),
      )
