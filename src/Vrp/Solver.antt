-- ===== src/Vrp/Solver.antt =====
-- The solver of staticcheck/vrp/vrp.go: `widen` and `narrow`, the loops of `Solve` that call them, the
-- default for a component of one value, and the check for values that leave their type.
pub mod Step
pub mod Ends
pub mod Settle
pub mod Overflow
use go_tools.Common.{
  ℕ, zero, suc, ◌+◌, ◌-◌, ◌*◌, ◌^◌, Bool, true, false, not, ◌&&◌, Option, none, some, List, [], ◌∷◌,
  ◌++◌, if◌then◌else◌, ◌==◌, ◌>>=◌, get_elem?, set, length, ℤ, pos, neg_ℤ, Ordering,
}
use mathlib.Core.List.{reverse}
use go_tools.Vrp.Z
use go_tools.Vrp.Z.{Z, finite, n_infinity, p_infinity, is_plus, is_minus, is_p_infinity, cmp}
use go_tools.Vrp.Interval.{IntInterval, new_int_interval, infinity_for}
use go_tools.Vrp.Constraint.{Constraint, result, operands, futures}
use go_tools.Vrp.Range.{
  Range, int_range, string_range, slice_range, channel_range, Shape, int_shape, string_shape,
  slice_shape, channel_shape, make, as_shape, is_known, BasicKind, text, BasicType, GoType, basic,
  chan_type, slice_type, Value, Ranges, Types, get, store,
}
use go_tools.Vrp.Eval.{eval, range_as, naturals, as_basic}
use go_tools.Vrp.Future.{resolve, mark, future_is_known, is_resolved, is_unsigned_type}
use go_tools.Vrp.Widen.{widen_int_interval, narrow_int_interval}

-- The local function of `widen` or of `narrow`: the next interval from the old and the new one.
abbrev pub Next : Type 0
Next = IntInterval → IntInterval → Option (IntInterval × Bool)

module _ (ts : Types) where
  -- `if changed { g.SetRange(c.Y(), si); return true }; return false`
  abbrev set_if_changed : Ranges → Value → Shape → IntInterval × Bool → Option (Ranges × Bool)
  set_if_changed r y s (si, true) = some (store r y (some (make s si)), true)
  set_if_changed r y s (si, false) = some (r, false)

  -- A case of the `switch` on the range of `c.Y()`
  refine_as : Next → Ranges → Constraint → Shape → IntInterval → Option (Ranges × Bool)
  refine_as next r c s oi = do
    answer ← eval ts r c
    ni ← as_shape s answer
    si ← next oi ni
    set_if_changed r (result c) s si

  -- `widen` and `narrow`
  unfoldable pub refine : Next → Ranges → Constraint → Option (Ranges × Bool)
  unfolding refine_as
  refine next r c = elim (get ts.type_of r (some (result c))) [
    | none ↦ some (r, false)
    | some range ↦ elim range [
      | int_range oi ↦ refine_as next r c int_shape oi
      | string_range oi ↦ refine_as next r c string_shape oi
      | slice_range oi ↦ refine_as next r c slice_shape oi
      | channel_range oi ↦ some (r, false)
    ]
  ]

  unfoldable pub widen : List Z → Ranges → Constraint → Option (Ranges × Bool)
  widen consts r c = refine (widen_int_interval consts) r c

  unfoldable pub narrow : Ranges → Constraint → Option (Ranges × Bool)
  narrow r c = refine narrow_int_interval r c

  -- The loop over the uses of a value: the ranges after it, and the values to visit, the last first.
  refine_uses : Next → Ranges → List Constraint → List Value → Option (Ranges × List Value)
  refine_uses next r [] stack = some (r, stack)
  refine_uses next r (use' ∷ uses) stack = do
    (r', changed) ← refine next r use'
    refine_uses next r' uses (if changed then result use' ∷ stack else stack)

  -- The loop over `entries`, or over `actives`, whose last element is the head of `stack`. The fuel is
  -- the number of rounds; `none` is a panic, or that the fuel ran out.
  unfoldable pub refine_loop :
      Next → (Value → List Constraint) → ℕ → Ranges → List Value → Option Ranges
  unfolding refine_uses
  refine_loop next uses zero r stack = none
  refine_loop next uses (suc fuel) r [] = some r
  refine_loop next uses (suc fuel) r (v ∷ stack) = do
    (r', stack') ← refine_uses next r (uses v) stack
    refine_loop next uses fuel r' stack'

  -- `if !g.Range(v).(T).IsKnown() { g.SetRange(v, T{default}) }`
  settle_as : Ranges → Value → Shape → Option IntInterval → Option Ranges
  settle_as r v s default = do
    i ← range_as ts r s v
    if not i.known then (do d ← default; some (store r v (some (make s d)))) else some r

  -- The first `switch` of `Solve`, for a component of one value: an unknown range gets a default by the
  -- type of the value.
  unfoldable pub settle : Ranges → Value → Option Ranges
  unfolding settle_as
  settle r v = elim (ts.type_of v) [
    | basic t ↦ elim t.kind [
      | text ↦ settle_as r v string_shape naturals
      | _ ↦ settle_as r v int_shape (infinity_for t.is_unsigned)
    ]
    | chan_type ↦ settle_as r v channel_shape naturals
    | slice_type ↦ settle_as r v slice_shape naturals
    | _ ↦ some r
  ]

-- The range of a value of a signed type, at the end of `Solve`: all integers if a bound lies outside of
-- the type, but for an interval that has no upper bound.
unfoldable pub check_overflow : BasicType → IntInterval → Option IntInterval
check_overflow t i =
    if not t.is_unsigned && not (is_p_infinity i.upper)
    then (do
      let n = 2 ^ (t.size * 8 - 1)
      c1 ← cmp i.upper (finite (pos (n - 1)))
      c2 ← cmp i.lower (finite (neg_ℤ (pos n)))
      if is_plus c1
          then new_int_interval n_infinity p_infinity
          else if is_minus c2
          then new_int_interval n_infinity p_infinity
          else some i)
    else some i

module _ (ts : Types) where
  -- The last loop of `Solve`. The order in which it visits the map does not matter: each entry is
  -- replaced by itself.
  unfoldable pub finish : Ranges → Option Ranges
  finish [] = some []
  finish ((v, range) ∷ r) = do
    rest ← finish r
    elim (as_shape int_shape range) [
      | none ↦ some ((v, range) ∷ rest)
      | some i ↦ do
        t ← as_basic (ts.type_of v)
        j ← check_overflow t i
        some ((v, some (int_range j)) ∷ rest)
    ]
