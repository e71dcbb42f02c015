-- ===== src/Vrp/Sigma/Slices.antt =====
-- The constraint of a slice on one branch of a comparison of its length (staticcheck/vrp/vrp.go).
use go_tools.Common.{
  ◌≡◌, refl, sym, subst, ◌⊎◌, inl, inr, some, none, Option, Bool, true, false, not, ℤ, pos, negsuc,
  ◌≤ℤ◌, arith, if◌then◌else◌, ◌>>=◌, ◌+ℤ◌, +ℤ_parts, eq_of_parts, eq_of_some,
}
use go_tools.Vrp.Z
use go_tools.Vrp.Z.{Z, finite, n_infinity, p_infinity}
use go_tools.Vrp.Z.Arithmetic.{add-eq-sum}
use go_tools.Vrp.Interval.{IntInterval, new_int_interval}
use go_tools.Vrp.Interval.Set.{Contains, IsValid}
use go_tools.Vrp.Token.{Token, lss, gtr, eql, neq, geq, leq, compares, invert_token}
use go_tools.Vrp.Constraint.{Constraint, slice_intersection}
use go_tools.Vrp.Range.{Value}
use go_tools.Vrp.Future.Resolved.{spanning}
use go_tools.Vrp.Sigma.{Sigma, BinOp, Values, branch_op, slice_bound, sigma_slice}
use go_tools.Vrp.Sigma.Sound.{branch_op_lem}

-- No interval, or a valid one that holds `n`.
abbrev pub Bounded : ℤ → Option (Option IntInterval) → Type 0
Bounded n m = (m ≡ some none) ⊎ ((i : IntInterval) × (m ≡ some (some i)) × IsValid i × Contains i n)

-- the two forms of interval, with the offset `k`
abbrev from_offset : ℤ → ℤ → Option (Option IntInterval)
from_offset v k = do
  l ← Z.add (finite v) (finite k)
  i ← new_int_interval l p_infinity
  some (some i)

abbrev up_to_offset : ℤ → ℤ → Option (Option IntInterval)
up_to_offset v k = do
  u ← Z.add (finite v) (finite k)
  i ← new_int_interval n_infinity u
  some (some i)

from_offset-Bounded : (n v k : ℤ) → v +ℤ k ≤ℤ n → Bounded n (from_offset v k)
from_offset-Bounded n v k h =
    let (i, e, w, c) = spanning (finite (v +ℤ k)) p_infinity n tt tt h tt in
    inr (i, rw (add-eq-sum (finite v) (finite k) tt tt, e), w, c)

up_to_offset-Bounded : (n v k : ℤ) → n ≤ℤ v +ℤ k → Bounded n (up_to_offset v k)
up_to_offset-Bounded n v k h =
    let (i, e, w, c) = spanning n_infinity (finite (v +ℤ k)) n tt tt tt h in
    inr (i, rw (add-eq-sum (finite v) (finite k) tt tt, e), w, c)

exact-Bounded :
    (n v : ℤ) → n ≡ v → Bounded n (do i ← new_int_interval (finite v) (finite v); some (some i))
exact-Bounded n v h =
    let (i, e, w, c) =
      spanning (finite v) (finite v) n tt tt (subst (λ x. v ≤ℤ x) (sym h) (omega arith))
        (subst (λ x. x ≤ℤ v) (sym h) (omega arith)) in
    inr (i, rw e, w, c)

slice_bound-Bounded :
    (branch : Bool) (cond_op op : Token) (n v : ℤ)
    → (if not branch then invert_token cond_op else some cond_op) ≡ some op
    → compares cond_op n v ≡ some branch
    → Bounded n (slice_bound cond_op op v)
unfolding invert_token slice_bound
slice_bound-Bounded true lss op n v e h =
    rw (← eq_of_some e)
      (up_to_offset-Bounded n v (negsuc 0) (ground (arith, +ℤ_parts v (negsuc 0))))
slice_bound-Bounded true gtr op n v e h =
    rw (← eq_of_some e) (from_offset-Bounded n v (pos 1) (ground (arith, +ℤ_parts v (pos 1))))
slice_bound-Bounded true eql op n v e h =
    rw (← eq_of_some e) (exact-Bounded n v (eq_of_parts n v (ground arith)))
slice_bound-Bounded true neq op n v e h = rw (← eq_of_some e) (inl refl)
slice_bound-Bounded true geq op n v e h =
    rw (← eq_of_some e) (from_offset-Bounded n v (pos 0) (ground (arith, +ℤ_parts v (pos 0))))
slice_bound-Bounded true leq op n v e h =
    rw (← eq_of_some e) (up_to_offset-Bounded n v (pos 0) (ground (arith, +ℤ_parts v (pos 0))))
slice_bound-Bounded false lss op n v e h =
    rw (← eq_of_some e) (from_offset-Bounded n v (pos 0) (ground (arith, +ℤ_parts v (pos 0))))
slice_bound-Bounded false gtr op n v e h =
    rw (← eq_of_some e) (up_to_offset-Bounded n v (pos 0) (ground (arith, +ℤ_parts v (pos 0))))
slice_bound-Bounded false eql op n v e h = rw (← eq_of_some e) (inl refl)
slice_bound-Bounded false neq op n v e h =
    rw (← eq_of_some e) (exact-Bounded n v (eq_of_parts n v (ground arith)))
slice_bound-Bounded false geq op n v e h =
    rw (← eq_of_some e) (up_to_offset-Bounded n v (pos 0) (ground (arith, +ℤ_parts v (pos 0))))
slice_bound-Bounded false leq op n v e h =
    rw (← eq_of_some e) (from_offset-Bounded n v (pos 0) (ground (arith, +ℤ_parts v (pos 0))))
slice_bound-Bounded true _ op n v e h = cc
slice_bound-Bounded false _ op n v e h = cc

module _ (vs : Values) (ins : Sigma) (cond : BinOp) (n : ℤ) where
  -- There is no constraint, or one on the slice `s` by a valid interval that holds `n`.
  pub data SliceBound (s : Value) (answer : Option (Option Constraint)) : Type 0 where
    free : answer ≡ some none → SliceBound s answer
    bound :
        (i : IntInterval)
        → answer ≡ some (some (slice_intersection s i ins.y))
        → IsValid i
        → Contains i n
        → SliceBound s answer

  -- On the branch that a comparison of the length `n` of a slice with a constant takes, the constraint
  -- of the slice, if there is one, is a valid interval that holds `n`.
  pub sigma_slice_sound :
      (s : Value) (v : ℤ)
      → vs.constant cond.right ≡ some v
      → vs.len_argument cond.left ≡ some s
      → compares cond.op n v ≡ some ins.branch
      → SliceBound s (sigma_slice vs ins cond)
  unfolding sigma_slice branch_op
  sigma_slice_sound s v ec es h =
      let (op, e, t) = branch_op_lem ins cond n v h in
      elim (slice_bound-Bounded ins.branch cond.op op n v e h) [
        | inl f ↦ free (rw (e, ec, es, f, sigma_slice))
        | inr b ↦ bound b.0 (rw (e, ec, es, b.1, sigma_slice)) b.2 b.3
      ]

-- On the branch where `len(s) <= v` is false, the interval of the constraint still holds `v`, at which
-- the comparison is true: the offset is that of `<=`, not that of the branch's `>`.
pub sigma_slice_loose :
    (vs : Values) (x y left right : Value) (s : Value) (v : ℤ)
    → vs.constant right ≡ some v
    → vs.len_argument left ≡ some s
    → (compares leq v v ≡ some true)
      × ((i : IntInterval) × (sigma_slice vs
              (record { x = x; branch = false; y = y })
              (record { op = leq; left = left; right = right })
            ≡ some (some (slice_intersection s i y)))
          × Contains i v)
unfolding sigma_slice invert_token
sigma_slice_loose vs x y left right s v ec es =
    let (i, e, w, c) =
      spanning (finite (v +ℤ pos 0)) p_infinity v tt tt (ground (arith, +ℤ_parts v (pos 0))) tt in
    (ground arith, (i, rw (ec, es, add-eq-sum (finite v) (finite (pos 0)) tt tt, e), c))
