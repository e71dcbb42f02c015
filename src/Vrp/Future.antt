-- ===== src/Vrp/Future.antt =====
-- The futures of staticcheck/vrp: `Resolve` of `IntIntersectionConstraint` (int.go) and of
-- `StringIntersectionConstraint` (string.go), which read the range of the other operand of a
-- comparison once it is there.
pub mod Resolved
pub mod Strings
use go_tools.Common.{
  Bool, true, false, Option, none, some, if◌then◌else◌, ◌>>=◌, pos, negsuc, Ordering,
}
use go_tools.Vrp.Z
use go_tools.Vrp.Z.{Z, finite, n_infinity, p_infinity}
use go_tools.Vrp.Interval.{IntInterval, new_int_interval, infinity_for}
use go_tools.Vrp.Token.{Token, lss, gtr, eql, neq, geq, leq}
use go_tools.Vrp.Constraint.{Constraint, Meet, int_intersection, string_intersection}
use go_tools.Vrp.Eval.{naturals, as_basic}
use go_tools.Vrp.Range.{
  Range, Shape, int_shape, string_shape, as_shape, GoType, basic, Value, Ranges, Types, find,
}

-- `v.Type().Underlying()` is an unsigned basic type, as `InfinityFor` reads it.
abbrev pub is_unsigned_type : GoType → Bool
is_unsigned_type (basic t) = t.is_unsigned
is_unsigned_type _ = false

-- The values that compare by `op` to a member of `r`: the `switch` of `IntIntersectionConstraint`,
-- with the answer for `!=` as an argument.
unfoldable pub admitted : Option IntInterval → Token → IntInterval → Option IntInterval
admitted other eql r = some r
admitted other gtr r = do l ← Z.add r.lower (finite (pos 1)); new_int_interval l p_infinity
admitted other geq r = new_int_interval r.lower p_infinity
admitted other lss r = do u ← Z.sub r.upper (finite (pos 1)); new_int_interval n_infinity u
admitted other leq r = new_int_interval n_infinity r.upper
admitted other neq r = other
admitted other _ r = none

-- The lengths of strings that are taken to compare by `op` to a string whose length is in `r`: the
-- first `switch` of `StringIntersectionConstraint`; `old` is the field before the call.
unfoldable pub admitted_strings : IntInterval → Token → IntInterval → Option IntInterval
admitted_strings old eql r = some r
admitted_strings old gtr r = new_int_interval r.lower p_infinity
admitted_strings old geq r = new_int_interval r.lower p_infinity
admitted_strings old lss r = new_int_interval (finite (pos 0)) r.upper
admitted_strings old leq r = new_int_interval (finite (pos 0)) r.upper
admitted_strings old neq r = some old
admitted_strings old _ r = none

module _ (ts : Types) (r : Ranges) where
  -- c.ranges[c.B].(T)
  unfoldable pub range_at : Shape → Value → Option IntInterval
  unfolding find
  range_at s b = elim (find r b) [ none ↦ none | some range ↦ as_shape s range ]

  -- the field `I` that `IntIntersectionConstraint.Resolve` sets
  unfoldable pub resolve_int : Meet → Value → Option IntInterval
  unfolding range_at
  resolve_int m y =
      let otherwise = infinity_for (is_unsigned_type (ts.type_of y)) in
      elim (range_at int_shape m.b) [ none ↦ otherwise | some i ↦ admitted otherwise m.op i ]

  -- the field `I` that `StringIntersectionConstraint.Resolve` sets
  unfoldable pub resolve_string : Meet → Option IntInterval
  unfolding range_at
  resolve_string m = do
    t ← as_basic (ts.type_of m.a)
    if t.is_string
        then (elim (range_at string_shape m.b) [
          | none ↦ naturals
          | some i ↦ admitted_strings m.i m.op i
        ])
        else elim (range_at int_shape m.b) [ none ↦ naturals | some i ↦ admitted (some m.i) m.op i ]

  -- `Resolve` of a constraint that is a future; another is left alone.
  unfoldable pub resolve : Constraint → Option Constraint
  unfolding resolve_int resolve_string
  resolve (int_intersection m y) = do
    i ← resolve_int m y
    some (int_intersection (record m { i = i }) y)
  resolve (string_intersection m y) = do
    i ← resolve_string m
    some (string_intersection (record m { i = i }) y)
  resolve c = some c

-- `MarkResolved` and `MarkUnresolved`
unfoldable pub mark : Bool → Constraint → Constraint
mark b (int_intersection m y) = int_intersection (record m { resolved = b }) y
mark b (string_intersection m y) = string_intersection (record m { resolved = b }) y
mark b c = c

-- `IsKnown` and `IsResolved` of a future
unfoldable pub future_is_known : Constraint → Bool
future_is_known (int_intersection m y) = m.i.known
future_is_known (string_intersection m y) = m.i.known
future_is_known _ = true

unfoldable pub is_resolved : Constraint → Bool
is_resolved (int_intersection m y) = m.resolved
is_resolved (string_intersection m y) = m.resolved
is_resolved _ = true
