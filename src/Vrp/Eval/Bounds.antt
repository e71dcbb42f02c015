-- ===== src/Vrp/Eval/Bounds.antt =====
-- What `Eval` of the slicing and making constraints of staticcheck/vrp answers.
use go_tools.Common.{◌≡◌, refl, inr, some, none, Option, ℤ, pos, ◌≤ℤ◌, ◌-ℤ◌, arith, ℕ, subst, sym}
use go_tools.Vrp.Z.{finite, sign}
use go_tools.Vrp.Z.Order.{≤Z_trans, IsProper}
use go_tools.Vrp.Interval.{IntInterval, new_int_interval}
use go_tools.Vrp.Interval.Set.{Contains, IsValid, new_int_interval-IsSpan}
use go_tools.Vrp.Range.{Shape, int_shape, slice_shape, Value, Ranges, Types}
use go_tools.Vrp.Eval.{
  slice_of_bounds, eval_slicing, eval_array_slice, eval_make, at_least_zero, lower_bound,
  upper_bound, array_length,
}
use go_tools.Vrp.Eval.Slicing.{sliced_sound, at_least_0, at_least_0-le, at_least_0-IsProper}
use go_tools.Vrp.Eval.Transfer.{Reads, Yields}

-- A valid interval that holds `n`.
abbrev pub Holding : ℤ → Option IntInterval → Type 0
Holding n m = (i : IntInterval) × (m ≡ some i) × IsValid i × Contains i n

-- `NewIntInterval(NewZ(n), NewZ(n))`
pub singleton-Holding : (n : ℤ) → Holding n (new_int_interval (finite n) (finite n))
singleton-Holding n =
    let (i, e, s) = new_int_interval-IsSpan (finite n) (finite n) tt tt in
    (i, e, s.valid, s.inside n (omega arith) (omega arith))

slice_of_bounds_sound :
    (lr ur : IntInterval) (lo hi : ℤ)
    → IsValid lr
    → IsValid ur
    → Contains lr lo
    → Contains ur hi
    → lo ≤ℤ hi
    → Holding (hi -ℤ lo) (slice_of_bounds lr ur)
unfolding slice_of_bounds
slice_of_bounds_sound lr ur lo hi v w k1 k2 h =
    let (i, e, valid, image) = sliced_sound lr ur v w in
    (i, ground (arith, v.is_known, w.is_known, e), valid, image lo hi k1 k2 h)

module _ (ts : Types) (r : Ranges) where
  -- The bound `Lower` of a slice expression has the value `lo`; without it that is 0.
  abbrev pub LowerIs : Option Value → ℤ → Type 0
  LowerIs none lo = lo ≡ pos 0
  LowerIs (some v) lo = Reads ts r int_shape v lo

  -- The bound `Upper` has the value `hi`; without it that is the length `n` of the operand.
  abbrev pub UpperIs : ℤ → Option Value → ℤ → Type 0
  UpperIs n none hi = hi ≡ n
  UpperIs n (some v) hi = Reads ts r int_shape v hi

  lower_bound_sound : (l : Option Value) (lo : ℤ) → LowerIs l lo → Holding lo (lower_bound ts r l)
  unfolding lower_bound
  lower_bound_sound none lo e =
      subst (λ n. Holding n (new_int_interval (finite (pos 0)) (finite (pos 0)))) (sym e)
        (singleton-Holding (pos 0))
  lower_bound_sound (some v) lo x = (x.i, x.found, x.valid, x.holds)

  upper_bound_sound :
      (whole : IntInterval) (n : ℤ) (u : Option Value) (hi : ℤ)
      → IsValid whole
      → Contains whole n
      → UpperIs n u hi
      → Holding hi (upper_bound ts r whole u)
  unfolding upper_bound
  upper_bound_sound whole n none hi v k e =
      subst (λ m. Holding m (some whole)) (sym e) (whole, refl, v, k)
  upper_bound_sound whole n (some w) hi v k x = (x.i, x.found, x.valid, x.holds)

  pub eval_slicing_sound :
      (s : Shape) (x : Value) (l u : Option Value) (n lo hi : ℤ)
      → Reads ts r s x n
      → LowerIs l lo
      → UpperIs n u hi
      → lo ≤ℤ hi
      → Yields s (hi -ℤ lo) (eval_slicing ts r s x l u)
  unfolding eval_slicing
  eval_slicing_sound s x l u n lo hi y bl bu h =
      let (lr, el, vl, kl) = lower_bound_sound l lo bl in
      let (ur, eu, vu, ku) = upper_bound_sound y.i n u hi y.valid y.holds bu in
      let (i, e, v, k) = slice_of_bounds_sound lr ur lo hi vl vu kl ku h in
      (i, rw (el, y.found, eu, e), v, k)

  -- Of an array whose length the constraint finds.
  pub eval_array_slice_sound :
      (x : Value) (l u : Option Value) (n : ℕ) (lo hi : ℤ)
      → array_length ts x ≡ some n
      → LowerIs l lo
      → UpperIs (pos n) u hi
      → lo ≤ℤ hi
      → Yields slice_shape (hi -ℤ lo) (eval_array_slice ts r x l u)
  unfolding eval_array_slice
  eval_array_slice_sound x l u n lo hi a bl bu h =
      let (lr, el, vl, kl) = lower_bound_sound l lo bl in
      let (whole, ew, vw, kw) = singleton-Holding (pos n) in
      let (ur, eu, vu, ku) = upper_bound_sound whole (pos n) u hi vw kw bu in
      let (i, e, v, k) = slice_of_bounds_sound lr ur lo hi vl vu kl ku h in
      (i, rw (el, a, ew, eu, e), v, k)

at_least_zero-eq :
    (i : IntInterval)
    → IsProper i.lower
    → at_least_zero i ≡ some (record i { lower = at_least_0 i.lower })
unfolding at_least_zero sign
at_least_zero-eq i p = ground arith

at_least_zero_sound :
    (i : IntInterval) (n : ℤ) → IsValid i → Contains i n → pos 0 ≤ℤ n → Holding n (at_least_zero i)
at_least_zero_sound i n v k h =
    let above = at_least_0-le i.lower n k.above h in
    (
      record i { lower = at_least_0 i.lower },
      at_least_zero-eq i v.lower_proper,
      record {
        is_known = v.is_known;
        lower_proper = at_least_0-IsProper i.lower v.lower_proper;
        upper_proper = v.upper_proper;
        ordered = inr (≤Z_trans (at_least_0 i.lower) (finite n) i.upper above k.below);
      },
      record { is_known = v.is_known; above = above; below = k.below },
    )

module _ (ts : Types) (r : Ranges) where
  -- `make` with a known size that is not negative.
  pub eval_make_sound :
      (s : Shape) (size : Value) (n : ℤ)
      → Reads ts r int_shape size n
      → pos 0 ≤ℤ n
      → Yields s n (eval_make ts r s size)
  unfolding eval_make
  eval_make_sound s size n x h =
      let (i, e, v, k) = at_least_zero_sound x.i n x.valid x.holds h in
      (i, ground (arith, x.found, e), v, k)
