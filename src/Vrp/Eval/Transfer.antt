-- ===== src/Vrp/Eval/Transfer.antt =====
-- What each `Eval` of staticcheck/vrp answers on operands whose ranges are known.
use go_tools.Common.{◌≡◌, ◌⊎◌, inl, inr, some, Option, ℤ, ◌+ℤ◌, arith}
use go_tools.Vrp.Interval.{IntInterval}
use go_tools.Vrp.Interval.Set.{Contains, IsValid, Covers}
use go_tools.Vrp.Interval.Lattice.{intersection-IsMeet}
use go_tools.Vrp.Interval.Sound.{add-Covers}
use go_tools.Vrp.Constraint.{Meet}
use go_tools.Vrp.Range.{
  Range, Shape, int_shape, string_shape, slice_shape, make, Value, Ranges, Types,
}
use go_tools.Vrp.Eval.{
  range_as, eval_arithmetic, eval_concat, eval_append, eval_length, eval_int_intersection,
  eval_slice_intersection, eval_string_intersection,
}

-- The answer is a range of the given type, valid, that holds `n`.
abbrev pub Yields : Shape → ℤ → Option (Option Range) → Type 0
Yields s n answer = (i : IntInterval) × (answer ≡ some (some (make s i))) × IsValid i × Contains i n

module _ (ts : Types) (r : Ranges) where
  -- The range of `v` is of the given type and known, and holds `n`.
  pub record Reads (s : Shape) (v : Value) (n : ℤ) : Type 0 where
    pub i : IntInterval
    pub found : range_as ts r s v ≡ some i
    pub valid : IsValid i
    pub holds : Contains i n

  pub eval_arithmetic_sound :
      (fn : IntInterval → IntInterval → Option IntInterval) (op : ℤ → ℤ → ℤ)
      (covers : (i1 i2 : IntInterval)
        → IsValid i1
        → IsValid i2
        → (i : IntInterval) × (fn i1 i2 ≡ some i) × Covers op i1 i2 i)
      (a b : Value) (m n : ℤ)
      → Reads int_shape a m
      → Reads int_shape b n
      → Yields int_shape (op m n) (eval_arithmetic ts r fn a b)
  unfolding eval_arithmetic
  eval_arithmetic_sound fn op covers a b m n x y =
      let (i, e, c) = covers x.i y.i x.valid y.valid in
      (
        i,
        rw (x.found, y.found) (ground (arith, x.valid.is_known, y.valid.is_known, e)),
        c.valid,
        c.image m n x.holds y.holds,
      )

  pub eval_concat_sound :
      (a b : Value) (m n : ℤ)
      → Reads string_shape a m
      → Reads string_shape b n
      → Yields string_shape (m +ℤ n) (eval_concat ts r a b)
  unfolding eval_concat
  eval_concat_sound a b m n x y =
      let (i, e, c) = add-Covers x.i y.i x.valid y.valid in
      (
        i,
        rw (x.found, y.found) (ground (arith, x.valid.is_known, y.valid.is_known, e)),
        c.valid,
        c.image m n x.holds y.holds,
      )

  -- What is appended is a slice or a string.
  pub eval_append_sound :
      (a b : Value) (m n : ℤ)
      → Reads slice_shape a m
      → Reads slice_shape b n ⊎ Reads string_shape b n
      → Yields slice_shape (m +ℤ n) (eval_append ts r a b)
  unfolding eval_append
  eval_append_sound a b m n x (inl y) =
      let (i, e, c) = add-Covers x.i y.i x.valid y.valid in
      (
        i,
        rw (x.found) (ground (arith, x.valid.is_known, y.valid.is_known, y.found, e)),
        c.valid,
        c.image m n x.holds y.holds,
      )
  eval_append_sound a b m n x (inr y) =
      let (i, e, c) = add-Covers x.i y.i x.valid y.valid in
      (
        i,
        rw (x.found) (ground (arith, x.valid.is_known, y.valid.is_known, y.found, e)),
        c.valid,
        c.image m n x.holds y.holds,
      )

  pub eval_length_sound :
      (s : Shape) (x : Value) (n : ℤ) → Reads s x n → Yields int_shape n (eval_length ts r s x)
  unfolding eval_length
  eval_length_sound s x n y =
      (y.i, rw (y.found) (ground (arith, y.valid.is_known)), y.valid, y.holds)

  pub eval_int_intersection_sound :
      (m : Meet) (n : ℤ)
      → Reads int_shape m.a n
      → IsValid m.i
      → Contains m.i n
      → Yields int_shape n (eval_int_intersection ts r m)
  unfolding eval_int_intersection
  eval_int_intersection_sound m n x v k =
      let (i, e, h) = intersection-IsMeet x.i m.i x.valid v in
      (i, rw (x.found) (ground (arith, x.valid.is_known, e)), h.valid, h.inside n x.holds k)

  -- The value that is compared may be the string itself or its length.
  pub eval_string_intersection_sound :
      (m : Meet) (n : ℤ)
      → Reads string_shape m.a n ⊎ Reads int_shape m.a n
      → IsValid m.i
      → Contains m.i n
      → Yields string_shape n (eval_string_intersection ts r m)
  unfolding eval_string_intersection range_as
  eval_string_intersection_sound m n (inl x) v k =
      let (i, e, h) = intersection-IsMeet x.i m.i x.valid v in
      (i, ground (arith, x.found, x.valid.is_known, e), h.valid, h.inside n x.holds k)
  eval_string_intersection_sound m n (inr x) v k =
      let (i, e, h) = intersection-IsMeet x.i m.i x.valid v in
      (i, ground (arith, x.found, x.valid.is_known, e), h.valid, h.inside n x.holds k)

  pub eval_slice_intersection_sound :
      (x : Value) (j : IntInterval) (n : ℤ)
      → Reads slice_shape x n
      → IsValid j
      → Contains j n
      → Yields slice_shape n (eval_slice_intersection ts r x j)
  unfolding eval_slice_intersection
  eval_slice_intersection_sound x j n y v k =
      let (i, e, h) = intersection-IsMeet y.i j y.valid v in
      (i, rw (y.found) (ground (arith, y.valid.is_known, e)), h.valid, h.inside n y.holds k)
