-- ===== src/Vrp/Range.antt =====
-- `Range` and `Ranges` of staticcheck/vrp/vrp.go, with the intervals of string.go, slice.go and
-- channel.go, which are an interval under another name.
pub mod Hull
use go_tools.Common.{
  ℕ, Bool, true, false, not, ◌||◌, Option, none, some, List, [], ◌∷◌, if◌then◌else◌, ◌==◌, ◌>>=◌,
}
use go_tools.Vrp.Interval
use go_tools.Vrp.Interval.{IntInterval, unknown, empty_int_interval, empty}

-- A Go interface value that may be nil is an `Option Range`.
pub data Range : Type 0 where
  int_range string_range slice_range channel_range : IntInterval → Range

-- The interval inside: the value itself, `Length` or `Size`.
abbrev pub interval : Range → IntInterval
interval (int_range i) = i
interval (string_range i) = i
interval (slice_range i) = i
interval (channel_range i) = i

-- The dynamic type of a range.
pub data Shape : Type 0 where
  int_shape string_shape slice_shape channel_shape : Shape

abbrev pub shape : Range → Shape
shape (int_range i) = int_shape
shape (string_range i) = string_shape
shape (slice_range i) = slice_shape
shape (channel_range i) = channel_shape

-- A range of a given dynamic type.
abbrev pub make : Shape → IntInterval → Range
make int_shape i = int_range i
make string_shape i = string_range i
make slice_shape i = slice_range i
make channel_shape i = channel_range i

-- The type assertion `r.(T)` as an interval; `none` is its failure.
abbrev pub as_shape : Shape → Option Range → Option IntInterval
as_shape int_shape (some (int_range i)) = some i
as_shape string_shape (some (string_range i)) = some i
as_shape slice_shape (some (slice_range i)) = some i
as_shape channel_shape (some (channel_range i)) = some i
as_shape _ _ = none

-- `IsKnown` of the four types.
abbrev pub is_known : Range → Bool
is_known r = (interval r).known

-- `i, ok := other.(T); if !ok { i = EmptyIntInterval }`
abbrev pub operand : Shape → Option Range → IntInterval
operand s other = elim (as_shape s other) [ none ↦ empty_int_interval | some i ↦ i ]

-- `Union` of a `StringInterval`, `SliceInterval` or `ChannelInterval`, on the intervals inside.
unfoldable pub union_inside : IntInterval → IntInterval → Option IntInterval
union_inside s i =
    if empty s || not s.known
    then some i
    else if empty i || not i.known
    then some s
    else Interval.union s i

unfoldable pub union : Range → Option Range → Option Range
union (int_range i) other = do u ← Interval.union i (operand int_shape other); some (int_range u)
union (string_range i) other = do
  u ← union_inside i (operand string_shape other)
  some (string_range u)
union (slice_range i) other = do
  u ← union_inside i (operand slice_shape other)
  some (slice_range u)
union (channel_range i) other = do
  u ← union_inside i (operand channel_shape other)
  some (channel_range u)

-- What the package reads of a basic type: which case of its switches over `Kind()` takes it, its
-- flags, and its size in bytes. The flags and the size are go/types', so a value carries its own.
-- `listed_int` is one of `Int, Int8, ..., Uint64, UntypedInt`, `text` is `String` or `UntypedString`.
pub data BasicKind : Type 0 where
  listed_int text other_kind : BasicKind

pub record BasicType : Type 0 where
  pub kind : BasicKind
  pub is_integer : Bool
  pub is_unsigned : Bool
  pub is_string : Bool
  pub size : ℕ

-- `v.Type().Underlying()`; `other_pointer` points to no array.
pub data GoType : Type 0 where
  basic : BasicType → GoType
  chan_type slice_type other_pointer other_type : GoType
  array_type pointer_to_array : ℕ → GoType

-- A value of package ssa is its identity.
abbrev pub Value : Type 0
Value = ℕ

-- `map[ssa.Value]Range`
abbrev pub Ranges : Type 0
Ranges = List (Value × Option Range)

-- r[x], with `none` for a missing key
unfoldable pub find : Ranges → Value → Option (Option Range)
find [] x = none
find ((y, r) ∷ rest) x = if y == x then some r else find rest x

-- r[x] = v
unfoldable pub store : Ranges → Value → Option Range → Ranges
store [] x v = (x, v) ∷ []
store ((y, r) ∷ rest) x v = if y == x then (x, v) ∷ rest else (y, r) ∷ store rest x v

-- The zero value that `Get` answers for a value that is not in the map, by its type.
abbrev pub zero_range : GoType → Option Range
zero_range (basic t) = elim t.kind [
  | text ↦ some (string_range unknown)
  | _ ↦ some (int_range unknown)
]
zero_range chan_type = some (channel_range unknown)
zero_range slice_type = some (slice_range unknown)
zero_range _ = none

module _ (type_of : Value → GoType) where
  -- `Ranges.Get`; the argument `none` is a nil value.
  unfoldable pub get : Ranges → Option Value → Option Range
  unfolding find
  get r none = none
  get r (some x) = elim (find r x) [ none ↦ zero_range (type_of x) | some i ↦ i ]

-- What the package reads of the types of values: the underlying type, and whether the type itself is
-- a named one, which a type switch on `v.Type()` does not look through.
pub record Types : Type 0 where
  pub type_of : Value → GoType
  pub is_named : Value → Bool
