-- ===== src/Vrp/Range/Hull.antt =====
-- `Union` of ranges of one type, unknown ones among them (staticcheck/vrp).
use go_tools.Common.{
  ◌≡◌, refl, ◌∙◌, ◌⊎◌, inl, inr, some, none, Option, true, false, ℤ, arith, Bool-cases,
}
use mathlib.Core.Option
use go_tools.Vrp.Interval
use go_tools.Vrp.Interval.{IntInterval, empty, empty_int_interval}
use go_tools.Vrp.Interval.Set.{Contains, IsValid, empty_int_interval-IsValid, not-Contains-empty}
use go_tools.Vrp.Interval.Lattice.{union-IsHull}
use go_tools.Vrp.Range.{
  Range, Shape, int_shape, string_shape, slice_shape, channel_shape, make, operand, union,
  union_inside,
}

-- An interval that the program may have in a range: an unknown one, or a valid one.
abbrev pub IsRange : IntInterval → Type 0
IsRange i = (i.known ≡ false) ⊎ IsValid i

pub IsRange-Contains : (i : IntInterval) {n : ℤ} → IsRange i → Contains i n → IsValid i
IsRange-Contains i (inl u) k = cc (k.is_known)
IsRange-Contains i (inr v) k = v

-- An interval that holds all that `i` and `j` hold.
pub record IsJoin (i j k : IntInterval) : Type 0 where
  pub range : IsRange k
  pub left : (n : ℤ) → Contains i n → Contains k n
  pub right : (n : ℤ) → Contains j n → Contains k n

not-Contains_unknown : (i : IntInterval) (n : ℤ) → i.known ≡ false → Contains i n → ⊥
not-Contains_unknown i n u k = cc (k.is_known)

module _ (i j : IntInterval) where
  union_left_unknown : i.known ≡ false → Interval.union i j ≡ some j
  unfolding Interval.union
  union_left_unknown u = ground arith

  union_right_unknown :
      i.known ≡ true → empty i ≡ false → j.known ≡ false → Interval.union i j ≡ some i
  unfolding Interval.union
  union_right_unknown k e u = ground arith

  union_left_empty : empty i ≡ true → Interval.union i j ≡ some j
  unfolding Interval.union
  union_left_empty e = ground arith

  -- On unknown intervals too, `Union` holds all that its operands hold.
  pub interval-union-IsJoin :
      IsRange i → IsRange j → (k : IntInterval) × (Interval.union i j ≡ some k) × IsJoin i j k
  interval-union-IsJoin (inl u) rj = (
    j,
    union_left_unknown u,
    record { range = rj; left = λ n k. absurd (not-Contains_unknown i n u k); right = λ n k. k },
  )
  interval-union-IsJoin (inr v) (inl u) = elim (Bool-cases (empty i)) [
    | inl e ↦ (
      j,
      union_left_empty e,
      record { range = inl u; left = λ n k. absurd (not-Contains-empty i n e k); right = λ n k. k },
    )
    | inr e ↦ (
      i,
      union_right_unknown v.is_known e u,
      record {
        range = inr v;
        left = λ n k. k;
        right = λ n k. absurd (not-Contains_unknown j n u k);
      },
    )
  ]
  interval-union-IsJoin (inr v) (inr w) =
      let (k, e, h) = union-IsHull i j v w in
      (k, e, record { range = inr h.valid; left = h.left; right = h.right })

  -- The tests of the other types are those that `Union` of intervals makes again.
  union_inside-eq-union : union_inside i j ≡ Interval.union i j
  unfolding union_inside Interval.union
  union_inside-eq-union = ground arith

pub union-make :
    (s : Shape) (i : IntInterval) (other : Option Range)
    → union (make s i) other ≡ Option.map (make s) (Interval.union i (operand s other))
unfolding union
union-make int_shape i other = ground arith
union-make string_shape i other =
    rw (union_inside-eq-union i (operand string_shape other)) (ground arith)
union-make slice_shape i other =
    rw (union_inside-eq-union i (operand slice_shape other)) (ground arith)
union-make channel_shape i other =
    rw (union_inside-eq-union i (operand channel_shape other)) (ground arith)

operand-make : (s : Shape) (j : IntInterval) → operand s (some (make s j)) ≡ j
operand-make int_shape j = refl
operand-make string_shape j = refl
operand-make slice_shape j = refl
operand-make channel_shape j = refl

operand-none : (s : Shape) → operand s none ≡ empty_int_interval
operand-none int_shape = refl
operand-none string_shape = refl
operand-none slice_shape = refl
operand-none channel_shape = refl

module _ (s : Shape) (i : IntInterval) (ri : IsRange i) where
  -- The union of a range with one of the same type does not panic, and holds what both hold.
  pub union-IsJoin :
      (j : IntInterval)
      → IsRange j
      → (k : IntInterval) × (union (make s i) (some (make s j)) ≡ some (make s k)) × IsJoin i j k
  union-IsJoin j rj =
      let (k, e, h) = interval-union-IsJoin i j ri rj in
      (k, union-make s i (some (make s j)) ∙ rw (operand-make s j, e), h)

  -- The union with nil is the union with the empty interval.
  pub union-none :
      (k : IntInterval) × (union (make s i) none ≡ some (make s k)) × IsJoin i empty_int_interval k
  union-none =
      let (k, e, h) =
        interval-union-IsJoin i empty_int_interval ri (inr empty_int_interval-IsValid) in
      (k, union-make s i none ∙ rw (operand-none s, e), h)
