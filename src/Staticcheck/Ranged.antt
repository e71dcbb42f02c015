-- ===== src/Staticcheck/Ranged.antt =====
-- The checks that ask the ranges of package vrp: `CheckSliceOutOfBounds` and `CheckDiffSizeComparison`
-- of staticcheck/lint.go, `IntValue` and `UnbufferedChannel` of staticcheck/rules.go.
pub mod Sound
pub mod Rules
use go_tools.Common.{
  ◌≡◌, Option, none, some, Bool, true, false, not, ◌||◌, ◌&&◌, pos, if◌then◌else◌, ◌>>=◌,
}
use go_tools.Vrp.Z.{Z, cmp, finite, is_minus, is_null, infinite, same_infinity}
use go_tools.Vrp.Interval.{IntInterval, empty, intersection}
use go_tools.Vrp.Range.{
  Range, GoType, Value, Ranges, as_shape, int_shape, slice_shape, string_shape, channel_shape, find,
  get,
}
use go_tools.Vrp.Token.{Token, eql, neq}

-- The tests behind the type assertions of `CheckSliceOutOfBounds`, for the length and the index.
unfoldable pub past_end : IntInterval → IntInterval → Option Bool
past_end length index =
    if not length.known || not index.known || empty length || empty index
    then some false
    else do c ← cmp index.lower length.upper; some (not (is_minus c))

-- r[x] of a map of interfaces, where a missing key is nil
abbrev pub range_at : Ranges → Value → Option Range
range_at r x = elim (find r x) [ none ↦ none | some i ↦ i ]

-- Whether an IndexAddr of `x` is reported; `is_slice` says that the type of `x` is a slice.
unfoldable pub check_index : Ranges → Bool → Value → Value → Option Bool
unfolding past_end
check_index r is_slice x index =
    if not is_slice then some false else elim (as_shape slice_shape (range_at r x)) [
      | none ↦ some false
      | some sr ↦ elim (as_shape int_shape (range_at r index)) [
        | none ↦ some false
        | some idxr ↦ past_end sr idxr
      ]
    ]

abbrev pub is_equality : Token → Bool
is_equality eql = true
is_equality neq = true
is_equality _ = false

unfoldable pub disjoint : IntInterval → IntInterval → Option Bool
disjoint i1 i2 = do i ← intersection i1 i2; some (empty i)

-- Whether a BinOp of `x` and `y` is reported; `sliced1` and `sliced2` say which operand is an ssa.Slice.
unfoldable pub check_sizes :
    (Value → GoType) → Ranges → Token → Bool → Bool → Value → Value → Option Bool
unfolding disjoint
check_sizes type_of r op sliced1 sliced2 x y =
    if not (is_equality op) || (not sliced1 && not sliced2)
    then some false
    else elim (as_shape string_shape (get type_of r (some x))) [
      | none ↦ some false
      | some r1 ↦ elim (as_shape string_shape (get type_of r (some y))) [
        | none ↦ some false
        | some r2 ↦ disjoint r1 r2
      ]
    ]

-- Go's `!=` on two values of type Z, which compares the pointers to their integers: `shared` says that
-- these are the same pointer.
abbrev pub differ : Bool → Z → Z → Bool
differ shared z1 z2 = not (same_infinity z1 z2) || (not (infinite z1) && not shared)

unfoldable pub int_value : Bool → Option Range → Z → Option Bool
int_value shared range z = elim (as_shape int_shape range) [
  | none ↦ some false
  | some r ↦
      if not r.known || differ shared r.lower r.upper
      then some false
      else do c ← cmp r.lower z; some (is_null c)
]

unfoldable pub unbuffered_channel : Option Range → Option Bool
unbuffered_channel range = elim (as_shape channel_shape range) [
  | none ↦ some false
  | some r ↦ if not r.known then some false else do
    c ← cmp r.lower (finite (pos 0))
    if is_null c then (do d ← cmp r.upper (finite (pos 0)); some (is_null d)) else some false
]
