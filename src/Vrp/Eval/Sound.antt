-- ===== src/Vrp/Eval/Sound.antt =====
-- `Eval` of every constraint of staticcheck/vrp against the instruction that the constraint stands for.
use go_tools.Common.{
  ◌≡◌, false, arith, ◌⊎◌, inl, inr, some, Option, ℕ, ℤ, pos, ◌≤ℤ◌, ◌+ℤ◌, ◌-ℤ◌, ◌*ℤ◌, List, All,
}
use go_tools.Vrp.Interval
use go_tools.Vrp.Interval.{IntInterval}
use go_tools.Vrp.Interval.Set.{Contains, IsValid}
use go_tools.Vrp.Constraint.{
  Constraint, Meet, phi, int_add, int_sub, int_mul, int_conversion, int_intersection,
  string_intersection, int_interval, string_interval, slice_interval, string_slice, slice_slice,
  array_slice, string_concat, slice_append, string_length, slice_length, slice_intersection,
  make_slice, make_channel, channel_change_type, copy,
}
use go_tools.Vrp.Range.{
  Range, Shape, int_shape, string_shape, slice_shape, channel_shape, BasicType, basic, Value,
  Ranges, Types, array_type, pointer_to_array,
}
use go_tools.Vrp.Eval.{array_length}
use go_tools.Vrp.Eval.Transfer.{Reads}
use go_tools.Vrp.Eval.Bounds.{LowerIs, UpperIs}
use go_tools.Vrp.Eval.Phi.{HasRange, SomeHolds}
use go_tools.Vrp.Eval.Conversion.{IsOf, IsOpen}

-- `x` is an array of length `n` or points to one, by a type that has no name.
pub record IsArray (ts : Types) (x : Value) (n : ℕ) : Type 0 where
  pub plain : ts.is_named x ≡ false
  pub array : (ts.type_of x ≡ array_type n) ⊎ (ts.type_of x ≡ pointer_to_array n)

pub array_length-IsArray :
    (ts : Types) (x : Value) (n : ℕ) → IsArray ts x n → array_length ts x ≡ some n
unfolding array_length
array_length-IsArray ts x n h = elim h.array [
  | inl e ↦ ground (arith, h.plain, e)
  | inr e ↦ ground (arith, h.plain, e)
]

-- `ρ v` is what `v` holds in a run of the analysed program: an integer, or the length of a string or
-- slice, or the size of a channel. `Runs s c`: the instruction of `c` has run on operands whose ranges
-- are known, of the types that it wants, and hold the operands; it makes a value of type `s`. A run in
-- which an operation on integers overflows, a conversion changes the value, or a copy (such as a call of
-- strings.ToLower) changes the length has no rule.
module _ (ts : Types) (r : Ranges) (ρ : Value → ℤ) where
  abbrev pub At : Shape → Value → Type 0
  At s v = Reads ts r s v (ρ v)

  pub data Runs : Shape → Constraint → Type 0 where
    run_phi :
        (s : Shape) (vars : List Value) (y : Value) (hs : All (HasRange ts r s) vars)
        → SomeHolds ts r s (ρ y) vars hs
        → Runs s (phi vars y)
    -- sums, differences and products that do not overflow
    run_add :
        (a b y : Value)
        → At int_shape a
        → At int_shape b
        → ρ y ≡ ρ a +ℤ ρ b
        → Runs int_shape (int_add a b y)
    run_sub :
        (a b y : Value)
        → At int_shape a
        → At int_shape b
        → ρ y ≡ ρ a -ℤ ρ b
        → Runs int_shape (int_sub a b y)
    run_mul :
        (a b y : Value)
        → At int_shape a
        → At int_shape b
        → ρ y ≡ ρ a *ℤ ρ b
        → Runs int_shape (int_mul a b y)
    -- a conversion that keeps the value
    run_conversion :
        (x y : Value) (from to : BasicType)
        → ts.type_of x ≡ basic from
        → ts.type_of y ≡ basic to
        → IsOf from (ρ x)
        → At int_shape x
        → IsOpen ts r y (ρ x)
        → ρ y ≡ ρ x
        → Runs int_shape (int_conversion x y)
    -- a branch on which the value satisfies the comparison of the constraint
    run_int_intersection :
        (m : Meet) (y : Value)
        → At int_shape m.a
        → IsValid m.i
        → Contains m.i (ρ m.a)
        → ρ y ≡ ρ m.a
        → Runs int_shape (int_intersection m y)
    run_string_intersection :
        (m : Meet) (y : Value)
        → At string_shape m.a ⊎ At int_shape m.a
        → IsValid m.i
        → Contains m.i (ρ m.a)
        → ρ y ≡ ρ m.a
        → Runs string_shape (string_intersection m y)
    run_slice_intersection :
        (x : Value) (i : IntInterval) (y : Value)
        → At slice_shape x
        → IsValid i
        → Contains i (ρ x)
        → ρ y ≡ ρ x
        → Runs slice_shape (slice_intersection x i y)
    run_int_interval :
        (i : IntInterval) (y : Value)
        → IsValid i
        → Contains i (ρ y)
        → Runs int_shape (int_interval i y)
    run_string_interval :
        (i : IntInterval) (y : Value)
        → IsValid i
        → Contains i (ρ y)
        → Runs string_shape (string_interval i y)
    run_slice_interval :
        (i : IntInterval) (y : Value)
        → IsValid i
        → Contains i (ρ y)
        → Runs slice_shape (slice_interval i y)
    -- slices whose bounds are in order
    run_string_slice :
        (x : Value) (l u : Option Value) (y : Value) (lo hi : ℤ)
        → At string_shape x
        → LowerIs ts r l lo
        → UpperIs ts r (ρ x) u hi
        → lo ≤ℤ hi
        → ρ y ≡ hi -ℤ lo
        → Runs string_shape (string_slice x l u y)
    run_slice_slice :
        (x : Value) (l u : Option Value) (y : Value) (lo hi : ℤ)
        → At slice_shape x
        → LowerIs ts r l lo
        → UpperIs ts r (ρ x) u hi
        → lo ≤ℤ hi
        → ρ y ≡ hi -ℤ lo
        → Runs slice_shape (slice_slice x l u y)
    run_array_slice :
        (x : Value) (l u : Option Value) (y : Value) (n : ℕ) (lo hi : ℤ)
        → IsArray ts x n
        → LowerIs ts r l lo
        → UpperIs ts r (pos n) u hi
        → lo ≤ℤ hi
        → ρ y ≡ hi -ℤ lo
        → Runs slice_shape (array_slice x l u y)
    run_concat :
        (a b y : Value)
        → At string_shape a
        → At string_shape b
        → ρ y ≡ ρ a +ℤ ρ b
        → Runs string_shape (string_concat a b y)
    run_append :
        (a b y : Value)
        → At slice_shape a
        → At slice_shape b ⊎ At string_shape b
        → ρ y ≡ ρ a +ℤ ρ b
        → Runs slice_shape (slice_append a b y)
    run_string_length :
        (x y : Value) → At string_shape x → ρ y ≡ ρ x → Runs int_shape (string_length x y)
    run_slice_length :
        (x y : Value) → At slice_shape x → ρ y ≡ ρ x → Runs int_shape (slice_length x y)
    run_make_slice :
        (size y : Value)
        → At int_shape size
        → pos 0 ≤ℤ ρ size
        → ρ y ≡ ρ size
        → Runs slice_shape (make_slice size y)
    run_make_channel :
        (size y : Value)
        → At int_shape size
        → pos 0 ≤ℤ ρ size
        → ρ y ≡ ρ size
        → Runs channel_shape (make_channel size y)
    -- copies that keep the integer, or the length
    run_copy : (s : Shape) (x y : Value) → At s x → ρ y ≡ ρ x → Runs s (copy x y)
    run_change_type :
        (s : Shape) (x y : Value) → At s x → ρ y ≡ ρ x → Runs s (channel_change_type x y)
