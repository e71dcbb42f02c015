-- ===== src/Vrp/Eval.antt =====
-- `Eval` of the constraints of staticcheck/vrp. The outer `none` is a panic, the inner one the nil
-- range.
pub mod Slicing
pub mod Transfer
pub mod Bounds
pub mod Phi
pub mod Conversion
pub mod Sound
pub mod Answers
pub mod Typed
use go_tools.Common.{
  ℕ, ◌^◌, ◌*◌, ◌-◌, Bool, true, false, not, ◌&&◌, ◌||◌, Option, none, some, List, [], ◌∷◌,
  if◌then◌else◌, ltb, ◌>>=◌, pos,
}
use go_tools.Vrp.Z
use go_tools.Vrp.Z.{Z, finite, n_infinity, p_infinity, is_minus, sign, max_z, min_z}
use go_tools.Vrp.Interval
use go_tools.Vrp.Interval.{IntInterval, unknown, new_int_interval, intersection}
use go_tools.Vrp.Constraint.{
  Constraint, Meet, phi, int_add, int_sub, int_mul, int_conversion, int_intersection,
  string_intersection, int_interval, string_interval, slice_interval, string_slice, slice_slice,
  array_slice, string_concat, slice_append, string_length, slice_length, slice_intersection,
  make_slice, make_channel, channel_change_type, copy,
}
use go_tools.Vrp.Range.{
  Range, int_range, string_range, slice_range, channel_range, Shape, int_shape, string_shape,
  slice_shape, channel_shape, make, as_shape, union, BasicType, GoType, basic, array_type,
  pointer_to_array, other_pointer, Value, Ranges, Types, get,
}

-- `[0, ∞]`
abbrev pub naturals : Option IntInterval
naturals = new_int_interval (finite (pos 0)) p_infinity

-- The loop over `ls` that sets negative lengths to 0.
unfoldable pub truncate : List Z → Option (List Z)
unfolding sign
truncate [] = some []
truncate (l ∷ ls) = do
  s ← sign l
  rest ← truncate ls
  some ((if is_minus s then finite (pos 0) else l) ∷ rest)

-- The lengths of `x[lo:hi]` with `lo` in `lr` and `hi` in `ur`: the tail of the three slicing
-- constraints' `Eval`.
unfoldable pub sliced : IntInterval → IntInterval → Option IntInterval
sliced lr ur = do
  a ← Z.sub ur.lower lr.lower
  b ← Z.sub ur.upper lr.lower
  c ← Z.sub ur.lower lr.upper
  d ← Z.sub ur.upper lr.upper
  ls ← truncate (a ∷ b ∷ c ∷ d ∷ [])
  l ← min_z ls
  u ← max_z ls
  new_int_interval l u

-- A slice's length, `unknown` if a bound is unknown.
slice_of_bounds : IntInterval → IntInterval → Option IntInterval
slice_of_bounds lr ur = if not lr.known || not ur.known then some unknown else sliced lr ur

-- The largest value of an unsigned type of so many bytes, 1 << (bytes * 8) - 1.
abbrev pub all_ones : ℕ → Z
all_ones bytes = finite (pos (2 ^ (bytes * 8) - 1))

-- The body of `IntConversionConstraint.Eval`, after the ranges, types and sizes are read.
unfoldable pub convert_interval :
    BasicType → BasicType → IntInterval → IntInterval → Option IntInterval
convert_interval from to from_i to_i =
    if not from_i.known
    then some to_i
    else if not to_i.known
    then some from_i
    else if from.is_unsigned && ltb from.size to.size
    then (do
      l ← max_z (finite (pos 0) ∷ from_i.lower ∷ [])
      u ← min_z (all_ones from.size ∷ to_i.upper ∷ [])
      new_int_interval l u)
    else if not from.is_unsigned && not to.is_unsigned && ltb from.size to.size
    then (do
      l ← max_z (n_infinity ∷ from_i.lower ∷ [])
      u ← min_z (all_ones from.size ∷ to_i.upper ∷ [])
      new_int_interval l u)
    else some from_i

abbrev pub as_basic : GoType → Option BasicType
as_basic (basic t) = some t
as_basic _ = none

-- The length that the type switch of `ArraySliceConstraint.Eval` finds: it looks at `X.Type()`, so a
-- named type has none of its cases.
unfoldable pub array_length : Types → Value → Option ℕ
array_length ts x = if ts.is_named x then some 0 else elim (ts.type_of x) [
  | array_type n ↦ some n
  | pointer_to_array n ↦ some n
  | other_pointer ↦ none
  | _ ↦ some 0
]

-- `switch r := g.Range(c.A).(type)` of a string or an integer
length_or_int : Option Range → IntInterval
length_or_int (some (string_range l)) = l
length_or_int (some (int_range l)) = l
length_or_int _ = unknown

-- what `append` adds: the length of a slice or of a string
appended : Option Range → Option IntInterval
appended (some (slice_range l)) = some l
appended (some (string_range l)) = some l
appended _ = none

-- A size that is not negative: `i.Lower` raised to 0, by way of `Sign`.
at_least_zero : IntInterval → Option IntInterval
at_least_zero i = do
  s ← sign i.lower
  some (if is_minus s then record i { lower = finite (pos 0) } else i)

module _ (ts : Types) (r : Ranges) where
  -- g.Range(x).(T)
  unfoldable pub range_as : Shape → Value → Option IntInterval
  unfolding get
  range_as s x = as_shape s (get ts.type_of r (some x))

  -- the bound `Lower` of a slice expression
  lower_bound : Option Value → Option IntInterval
  lower_bound none = new_int_interval (finite (pos 0)) (finite (pos 0))
  lower_bound (some v) = range_as int_shape v

  -- the bound `Upper`, whose default is the length of the operand
  upper_bound : IntInterval → Option Value → Option IntInterval
  upper_bound whole none = some whole
  upper_bound whole (some v) = range_as int_shape v

  -- `Eval` of `PhiConstraint`, from the union so far
  unfoldable pub eval_phi : Option Range → List Value → Option (Option Range)
  unfolding get
  eval_phi i [] = some i
  eval_phi i (v ∷ vars) = do
    range ← get ts.type_of r (some v)
    next ← union range i
    eval_phi (some next) vars

  -- `Eval` of `IntArithmeticConstraint`, with its `Fn`
  unfoldable pub eval_arithmetic :
      (IntInterval → IntInterval → Option IntInterval) → Value → Value → Option (Option Range)
  unfolding range_as
  eval_arithmetic fn a b = do
    i1 ← range_as int_shape a
    i2 ← range_as int_shape b
    if not i1.known || not i2.known
        then some (some (int_range unknown))
        else do i ← fn i1 i2; some (some (int_range i))

  unfoldable pub eval_conversion : Value → Value → Option (Option Range)
  unfolding range_as
  eval_conversion x y = do
    from_i ← range_as int_shape x
    to_i ← range_as int_shape y
    from ← as_basic (ts.type_of x)
    to ← as_basic (ts.type_of y)
    i ← convert_interval from to from_i to_i
    some (some (int_range i))

  unfoldable pub eval_int_intersection : Meet → Option (Option Range)
  unfolding range_as
  eval_int_intersection m = do
    xi ← range_as int_shape m.a
    if not xi.known
        then some (some (int_range m.i))
        else do i ← intersection xi m.i; some (some (int_range i))

  unfoldable pub eval_string_intersection : Meet → Option (Option Range)
  unfolding length_or_int get
  eval_string_intersection m =
      let l = length_or_int (get ts.type_of r (some m.a)) in
      if not l.known
      then some (some (string_range m.i))
      else do i ← intersection l m.i; some (some (string_range i))

  -- `Eval` of `StringSliceConstraint` and `SliceSliceConstraint`
  unfoldable pub eval_slicing : Shape → Value → Option Value → Option Value → Option (Option Range)
  unfolding lower_bound upper_bound slice_of_bounds range_as
  eval_slicing s x l u = do
    lr ← lower_bound l
    whole ← range_as s x
    ur ← upper_bound whole u
    i ← slice_of_bounds lr ur
    some (some (make s i))

  unfoldable pub eval_array_slice : Value → Option Value → Option Value → Option (Option Range)
  unfolding lower_bound upper_bound slice_of_bounds range_as array_length
  eval_array_slice x l u = do
    lr ← lower_bound l
    n ← array_length ts x
    whole ← new_int_interval (finite (pos n)) (finite (pos n))
    ur ← upper_bound whole u
    i ← slice_of_bounds lr ur
    some (some (slice_range i))

  unfoldable pub eval_concat : Value → Value → Option (Option Range)
  unfolding range_as
  eval_concat a b = do
    i1 ← range_as string_shape a
    i2 ← range_as string_shape b
    if not i1.known || not i2.known
        then some (some (string_range unknown))
        else do i ← Interval.add i1 i2; some (some (string_range i))

  -- `Eval` of `StringLengthConstraint` and `SliceLengthConstraint`
  unfoldable pub eval_length : Shape → Value → Option (Option Range)
  unfolding range_as
  eval_length s x = do
    i ← range_as s x
    if not i.known then (do n ← naturals; some (some (int_range n))) else some (some (int_range i))

  unfoldable pub eval_append : Value → Value → Option (Option Range)
  unfolding range_as appended get
  eval_append a b = do
    l1 ← range_as slice_shape a
    elim (appended (get ts.type_of r (some b))) [
      | none ↦ some (some (slice_range unknown))
      | some l2 ↦
          if not l1.known || not l2.known
          then some (some (slice_range unknown))
          else do i ← Interval.add l1 l2; some (some (slice_range i))
    ]

  -- With an unknown range of `X` the answer is an `IntInterval`.
  unfoldable pub eval_slice_intersection : Value → IntInterval → Option (Option Range)
  unfolding range_as
  eval_slice_intersection x i = do
    xi ← range_as slice_shape x
    if not xi.known
        then some (some (int_range i))
        else do j ← intersection xi i; some (some (slice_range j))

  -- `Eval` of `MakeSliceConstraint` and `MakeChannelConstraint`
  unfoldable pub eval_make : Shape → Value → Option (Option Range)
  unfolding range_as at_least_zero
  eval_make s size = elim (range_as int_shape size) [
    | none ↦ do n ← naturals; some (some (make s n))
    | some i ↦ do j ← at_least_zero i; some (some (make s j))
  ]

  unfoldable pub eval : Constraint → Option (Option Range)
  eval (phi vars y) = eval_phi none vars
  eval (int_add a b y) = eval_arithmetic Interval.add a b
  eval (int_sub a b y) = eval_arithmetic Interval.sub a b
  eval (int_mul a b y) = eval_arithmetic Interval.mul a b
  eval (int_conversion x y) = eval_conversion x y
  eval (int_intersection m y) = eval_int_intersection m
  eval (string_intersection m y) = eval_string_intersection m
  eval (int_interval i y) = some (some (int_range i))
  eval (string_interval i y) = some (some (string_range i))
  eval (slice_interval i y) = some (some (slice_range i))
  eval (string_slice x l u y) = eval_slicing string_shape x l u
  eval (slice_slice x l u y) = eval_slicing slice_shape x l u
  eval (array_slice x l u y) = eval_array_slice x l u
  eval (string_concat a b y) = eval_concat a b
  eval (slice_append a b y) = eval_append a b
  eval (string_length x y) = eval_length string_shape x
  eval (slice_length x y) = eval_length slice_shape x
  eval (slice_intersection x i y) = eval_slice_intersection x i
  eval (make_slice size y) = eval_make slice_shape size
  eval (make_channel buffer y) = eval_make channel_shape buffer
  eval (channel_change_type x y) = some (get ts.type_of r (some x))
  eval (copy x y) = some (get ts.type_of r (some x))
