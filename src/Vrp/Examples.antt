-- ===== src/Vrp/Examples.antt =====
-- Runs of the value range propagation (staticcheck/vrp), and its theorems at concrete inputs.
mod Building
mod Solving
mod Widening
use go_tools.Common.{
  ◌≡◌, refl, ◌⊎◌, inl, inr, some, none, Bool, true, false, List, [], ◌∷◌, All, ℕ, zero, suc, ℤ, pos,
  negsuc, ◌≤ℤ◌, ◌+ℤ◌, ◌-ℤ◌, ◌*ℤ◌, arith, Returns, length, ◌≤◌, ◌+◌, ◌*◌,
}
use mathlib.Core.Option
use go_tools.Vrp.Z
use go_tools.Vrp.Z.{Z, n_infinity, p_infinity, finite, cmp, max_z, min_z}
use go_tools.Vrp.Z.Order.{Compares, cmp-Compares, IsMax, IsMin, max_z-min_z-IsMax}
use go_tools.Vrp.Z.Arithmetic.{add-eq-sum, sub-eq-sum}
use go_tools.Vrp.Z.Product.{mul-eq-product}
use go_tools.Vrp.Interval
use go_tools.Vrp.Interval.{IntInterval, intersection, union, empty_int_interval}
use go_tools.Vrp.Interval.Set.{Contains, IsValid, Covers}
use go_tools.Vrp.Interval.Sound.{add-Covers, sub-Covers, mul-Covers}
use go_tools.Vrp.Interval.Lattice.{IsMeet, intersection-IsMeet, IsHull, union-IsHull}
use go_tools.Vrp.Token.{
  lss, gtr, compares, invert_token, flip_token, invert_token_lem, flip_token_lem,
}
use go_tools.Vrp.Constraint.{Meet, new_meet}
use go_tools.Vrp.Range.{
  int_range, int_shape, BasicType, listed_int, basic, Value, Ranges, Types, get,
}
use go_tools.Vrp.Eval.{eval_phi, sliced}
use go_tools.Vrp.Eval.Slicing.{sliced_sound}
use go_tools.Vrp.Eval.Bounds.{Holding}
use go_tools.Vrp.Future.{range_at, resolve_int, resolve_string, admitted_strings}
use go_tools.Vrp.Future.Resolved.{resolve_int_sound, resolve_length_sound}
use go_tools.Vrp.Future.Strings.{string_less, exactly, gtr_strings_unsound}
use go_tools.Vrp.Widen.{
  first_at_most, first_at_least, widen_bounds, widen_int_interval, narrow_int_interval,
}
use go_tools.Vrp.Widen.Sound.{widen_int_interval_sound}
use go_tools.Vrp.Widen.Terminates.{count_changes, count_changes-bounded}
use go_tools.Vrp.Widen.Narrow.{IsNarrower, narrow_int_interval_sound}

abbrev from_to : ℤ → ℤ → IntInterval
from_to l u = record { known = true; lower = finite l; upper = finite u }

-- [-2, 3], [1, 5] and [0, ∞]
abbrev pub small : IntInterval
small = from_to (negsuc 1) (pos 3)

abbrev pub positive : IntInterval
positive = from_to (pos 1) (pos 5)

abbrev natural : IntInterval
natural = record { known = true; lower = finite (pos 0); upper = p_infinity }

pub small-IsValid : IsValid small
small-IsValid = record {
  is_known = refl;
  lower_proper = tt;
  upper_proper = tt;
  ordered = inr (omega arith);
}

pub positive-IsValid : IsValid positive
positive-IsValid = record {
  is_known = refl;
  lower_proper = tt;
  upper_proper = tt;
  ordered = inr (omega arith);
}

natural-IsValid : IsValid natural
natural-IsValid = record { is_known = refl; lower_proper = tt; upper_proper = tt; ordered = inr tt }

positive-Contains : Contains positive (pos 4)
positive-Contains = record { is_known = refl; above = omega arith; below = omega arith }

-- Runs on concrete values.
mul_test : Interval.mul small positive ≡ some (from_to (negsuc 9) (pos 15))
unfolding Interval.mul Z.mul max_z min_z Interval.new_int_interval cmp ◌*ℤ◌
mul_test = refl

sub_test :
    Interval.sub small natural
    ≡ some (record { known = true; lower = n_infinity; upper = finite (pos 3) })
unfolding Interval.sub Z.sub Interval.new_int_interval cmp ◌-ℤ◌
sub_test = refl

add-Covers_example :
    (i : IntInterval) × (Interval.add small positive ≡ some i) × Covers ◌+ℤ◌ small positive i
add-Covers_example = add-Covers small positive small-IsValid positive-IsValid

sub-Covers_example :
    (i : IntInterval) × (Interval.sub small natural ≡ some i) × Covers ◌-ℤ◌ small natural i
sub-Covers_example = sub-Covers small natural small-IsValid natural-IsValid

mul-Covers_example :
    (i : IntInterval) × (Interval.mul small positive ≡ some i) × Covers ◌*ℤ◌ small positive i
mul-Covers_example = mul-Covers small positive small-IsValid positive-IsValid

intersection-IsMeet_example :
    (i : IntInterval) × (intersection small natural ≡ some i) × IsMeet small natural i
intersection-IsMeet_example = intersection-IsMeet small natural small-IsValid natural-IsValid

union-IsHull_example : (i : IntInterval) × (union small positive ≡ some i) × IsHull small positive i
union-IsHull_example = union-IsHull small positive small-IsValid positive-IsValid

sliced_sound_example :
    (i : IntInterval) × (sliced positive natural ≡ some i)
    × IsValid i
    × ((lo hi : ℤ) → Contains positive lo → Contains natural hi → lo ≤ℤ hi → Contains i (hi -ℤ lo))
sliced_sound_example = sliced_sound positive natural positive-IsValid natural-IsValid

-- Three variables of type int32: 1 has the range [-2, 3], 2 has [1, 5], and 3 is not in the map.
abbrev pub int32 : BasicType
int32 = record {
  kind = listed_int;
  is_integer = true;
  is_unsigned = false;
  is_string = false;
  size = 4;
}

abbrev pub all_int32 : Types
all_int32 = record { type_of = λ v. basic int32; is_named = λ v. false }

abbrev pub two_ranges : Ranges
two_ranges = (1, some (int_range small)) ∷ (2, some (int_range positive)) ∷ []

-- In a run, 1 holds -1 and 2 holds 4.
abbrev pub values : Value → ℤ
values zero = pos 0
values (suc zero) = negsuc 0
values (suc (suc zero)) = pos 4
values (suc (suc (suc v))) = negsuc 3

-- x < y, of which y is 4
abbrev less_than_two : Meet
less_than_two = new_meet 1 2 lss

two_found : Holding (pos 4) (range_at all_int32 two_ranges int_shape 2)
unfolding range_at
two_found = (positive, refl, positive-IsValid, positive-Contains)

resolve_int_sound_example : Holding (negsuc 0) (resolve_int all_int32 two_ranges less_than_two 3)
resolve_int_sound_example =
    resolve_int_sound all_int32 two_ranges less_than_two 3 (negsuc 0) (pos 4) refl (inr two_found)
      (λ e. cc)

resolve_length_sound_example : Holding (pos 2) (resolve_string all_int32 two_ranges less_than_two)
resolve_length_sound_example =
    resolve_length_sound all_int32 two_ranges less_than_two int32 (pos 2) (pos 4) refl refl
      (omega arith) refl (λ e. cc) (inr two_found)

gtr_strings_unsound_example :
    (string_less (b'a' ∷ b'z' ∷ []) (b'b' ∷ []) ≡ true)
    × ((i : IntInterval) × (admitted_strings Interval.unknown gtr (exactly 2) ≡ some i)
        × ¬ Contains i (pos 1))
gtr_strings_unsound_example = gtr_strings_unsound Interval.unknown b'b' b'a' b'z' [] (omega arith)

abbrev pub constants : List Z
constants = finite (pos 0) ∷ finite (pos 10) ∷ []

widen_int_interval_sound_example :
    (i : IntInterval) × (changed : Bool) × (widen_int_interval constants small positive
      ≡ some (i, changed))
    × IsValid i
    × ((n : ℤ) → Contains small n ⊎ Contains positive n → Contains i n)
    × (changed ≡ false → i ≡ small)
widen_int_interval_sound_example =
    widen_int_interval_sound constants small positive (tt, (tt, tt)) small-IsValid positive-IsValid

widen_test : widen_int_interval constants small positive ≡ some (from_to (negsuc 1) (pos 10), true)
unfolding widen_int_interval first_at_most first_at_least widen_bounds Interval.new_int_interval cmp
widen_test = refl

count_changes-bounded_example :
    (n : ℕ) × (count_changes constants small (positive ∷ natural ∷ []) ≡ some n)
    × (n ≤ 2 * length constants + 2)
count_changes-bounded_example =
    count_changes-bounded constants small (positive ∷ natural ∷ []) (tt, (tt, tt)) small-IsValid
      (positive-IsValid, (natural-IsValid, tt))

narrow_int_interval_sound_example :
    (i : IntInterval) × (c : Bool) × (narrow_int_interval natural positive ≡ some (i, c))
    × IsNarrower natural positive i c
narrow_int_interval_sound_example =
    narrow_int_interval_sound natural positive natural-IsValid positive-IsValid (omega arith) tt
