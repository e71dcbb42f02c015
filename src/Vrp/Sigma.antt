-- ===== src/Vrp/Sigma.antt =====
-- `sigmaInteger`, `sigmaString` and `sigmaSlice` of staticcheck/vrp/vrp.go: the constraint of a value
-- on one branch of a comparison. The outer `none` is a panic, the inner one the nil constraint.
pub mod Sound
pub mod Slices
use go_tools.Common.{
  ℕ, Bool, true, false, not, Option, none, some, if◌then◌else◌, ◌==◌, ◌>>=◌, ℤ, pos, negsuc,
}
use go_tools.Vrp.Z
use go_tools.Vrp.Z.{finite, n_infinity, p_infinity}
use go_tools.Vrp.Interval.{IntInterval, new_int_interval}
use go_tools.Vrp.Token.{Token, lss, gtr, eql, neq, geq, leq, invert_token, flip_token}
use go_tools.Vrp.Constraint.{
  Constraint, int_intersection, string_intersection, slice_intersection, new_meet,
}
use go_tools.Vrp.Range.{Value, Types, BasicType}
use go_tools.Vrp.Eval.{as_basic}

-- `*ssa.Sigma`: the value `X` on the branch that is taken if the comparison is `Branch`.
pub record Sigma : Type 0 where
  pub x : Value
  pub branch : Bool
  pub y : Value

-- `*ssa.BinOp`, with its two operands
pub record BinOp : Type 0 where
  pub op : Token
  pub left : Value
  pub right : Value

-- What the functions read of values of package ssa: the first argument of a call, the argument of a
-- call of the builtin `len`, and the integer of a constant, as `ConstantToZ` reads it.
pub record Values : Type 0 where
  pub call_argument : Value → Option Value
  pub len_argument : Value → Option Value
  pub constant : Value → Option ℤ

-- The operator that holds on the branch.
unfoldable pub branch_op : Sigma → BinOp → Option Token
branch_op ins cond = if not ins.branch then invert_token cond.op else some cond.op

-- The `switch` that lets the five operators through.
unfoldable pub is_supported : Token → Bool
is_supported eql = true
is_supported gtr = true
is_supported geq = true
is_supported lss = true
is_supported leq = true
is_supported _ = false

unfoldable pub sigma_integer : Sigma → BinOp → Option (Option Constraint)
unfolding branch_op is_supported
sigma_integer ins cond = do
  op ← branch_op ins cond
  if not (is_supported op)
      then some none
      else if cond.left == ins.x
      then some (some (int_intersection (new_meet cond.left cond.right op) ins.y))
      else do
        flipped ← flip_token op
        some (some (int_intersection (new_meet cond.right cond.left flipped) ins.y))

-- `ok && call.Common().Args[0] == ins.X`
abbrev calls_with : Option Value → Value → Bool
calls_with none x = false
calls_with (some a) x = a == x

unfoldable pub sigma_string : Types → Values → Sigma → BinOp → Option (Option Constraint)
unfolding branch_op is_supported
sigma_string ts vs ins cond = do
  op ← branch_op ins cond
  if not (is_supported op) then some none else do
    t ← as_basic (ts.type_of cond.left)
    if (if not t.is_string
          then calls_with (vs.call_argument cond.left) ins.x
          else cond.left == ins.x)
        then some (some (string_intersection (new_meet cond.left cond.right op) ins.y))
        else do
          flipped ← flip_token op
          some (some (string_intersection (new_meet cond.right cond.left flipped) ins.y))

abbrev is_gtr : Token → Bool
is_gtr gtr = true
is_gtr _ = false

abbrev is_lss : Token → Bool
is_lss lss = true
is_lss _ = false

-- The `switch op` of `sigmaSlice`: its cases for `>` and `>=`, and for `<` and `<=`, take the offset
-- from the operator of the comparison, not from that of the branch.
unfoldable pub slice_bound : Token → Token → ℤ → Option (Option IntInterval)
slice_bound cond_op eql v = do i ← new_int_interval (finite v) (finite v); some (some i)
slice_bound cond_op gtr v = do
  l ← Z.add (finite v) (finite (if is_gtr cond_op then pos 1 else pos 0))
  i ← new_int_interval l p_infinity
  some (some i)
slice_bound cond_op geq v = do
  l ← Z.add (finite v) (finite (if is_gtr cond_op then pos 1 else pos 0))
  i ← new_int_interval l p_infinity
  some (some i)
slice_bound cond_op lss v = do
  u ← Z.add (finite v) (finite (if is_lss cond_op then negsuc 0 else pos 0))
  i ← new_int_interval n_infinity u
  some (some i)
slice_bound cond_op leq v = do
  u ← Z.add (finite v) (finite (if is_lss cond_op then negsuc 0 else pos 0))
  i ← new_int_interval n_infinity u
  some (some i)
slice_bound cond_op _ v = some none

unfoldable pub sigma_slice : Values → Sigma → BinOp → Option (Option Constraint)
unfolding branch_op slice_bound
sigma_slice vs ins cond = do
  op ← branch_op ins cond
  elim (vs.constant cond.right) [
    | none ↦ some none
    | some v ↦ elim (vs.len_argument cond.left) [
      | none ↦ some none
      | some s ↦ do
        bound ← slice_bound cond.op op v
        elim bound [ none ↦ some none | some i ↦ some (some (slice_intersection s i ins.y)) ]
    ]
  ]
