-- ===== src/Vrp/Examples/Solving.antt =====
-- The theorems about sigma constraints and the solver at concrete inputs.
use go_tools.Common.{◌≡◌, refl, ◌⊎◌, inl, inr, some, none, Bool, true, false, ℤ, pos, negsuc}
use go_tools.Vrp.Interval.{IntInterval, unknown}
use go_tools.Vrp.Interval
use go_tools.Vrp.Interval.Set.{IsValid, Contains}
use go_tools.Vrp.Token.{lss, gtr, leq, neq, compares}
use go_tools.Vrp.Constraint.{Meet, copy, result, slice_intersection}
use go_tools.Vrp.Range.{Ranges, int_shape, make, get}
use go_tools.Vrp.Eval.{eval}
use go_tools.Vrp.Sigma.{Sigma, BinOp, Values, branch_op, sigma_integer, sigma_slice}
use go_tools.Vrp.Sigma.Sound.{IsTrue, sigma_integer_sound}
use go_tools.Vrp.Sigma.Slices.{SliceBound, sigma_slice_sound, sigma_slice_loose}
use go_tools.Vrp.Solver.{widen, settle, check_overflow}
use go_tools.Vrp.Solver.Step.{IsStep, widen-IsStep}
use go_tools.Vrp.Solver.Settle.{IsSettled, settle-IsSettled}
use go_tools.Vrp.Solver.Overflow.{IsChecked, check_overflow_sound}
use go_tools.Vrp.Examples.{
  small, small-IsValid, positive, positive-IsValid, int32, all_int32, two_ranges, values, constants,
}

-- `if x < y`, on the branch where it is true: 1 is x, 2 is y, 5 is x on the branch.
abbrev taken : Sigma
taken = record { x = 1; branch = true; y = 5 }

abbrev less : BinOp
less = record { op = lss; left = 1; right = 2 }

sigma_integer_sound_example :
    ((sigma_integer taken less ≡ some none) × (branch_op taken less ≡ some neq))
    ⊎ ((m : Meet) × IsTrue taken less values m)
sigma_integer_sound_example = sigma_integer_sound taken less values refl (inl refl)

-- `len(s) > 3`: 8 is `len(s)`, 9 is 3, 7 is s.
abbrev pub call_of_len : Values
call_of_len = record {
  call_argument = λ v. some 7;
  len_argument = λ v. some 7;
  constant = λ v. some (pos 3);
}

abbrev longer : BinOp
longer = record { op = gtr; left = 8; right = 9 }

sigma_slice_sound_example :
    SliceBound call_of_len taken longer (pos 5) 7 (sigma_slice call_of_len taken longer)
sigma_slice_sound_example =
    sigma_slice_sound call_of_len taken longer (pos 5) 7 (pos 3) refl refl refl

sigma_slice_loose_example :
    (compares leq (pos 3) (pos 3) ≡ some true)
    × ((i : IntInterval) × (sigma_slice call_of_len
            (record { x = 7; branch = false; y = 5 })
            (record { op = leq; left = 8; right = 9 })
          ≡ some (some (slice_intersection 7 i 5)))
        × Contains i (pos 3))
sigma_slice_loose_example = sigma_slice_loose call_of_len 7 5 8 9 7 (pos 3) refl refl

range_of_one :
    get all_int32.type_of two_ranges (some (result (copy 2 1))) ≡ some (make int_shape small)
unfolding get result
range_of_one = refl

copy_of_two : eval all_int32 two_ranges (copy 2 1) ≡ some (some (make int_shape positive))
unfolding eval get
copy_of_two = refl

widen-IsStep_example :
    (r' : Ranges) × (changed : Bool) × (widen all_int32 constants two_ranges (copy 2 1)
      ≡ some (r', changed))
    × IsStep all_int32 two_ranges (copy 2 1) int_shape small positive r' changed
widen-IsStep_example =
    widen-IsStep all_int32 constants two_ranges (copy 2 1) int_shape small positive (tt, (tt, tt))
      (λ e. cc) range_of_one (inr small-IsValid) copy_of_two positive-IsValid

check_overflow_sound_example :
    (j : IntInterval) × (check_overflow int32 small ≡ some j)
    × IsValid j
    × ((n : ℤ) → Contains small n → Contains j n)
    × IsChecked int32 small j
check_overflow_sound_example = check_overflow_sound int32 small refl small-IsValid

range_of_three : get all_int32.type_of two_ranges (some 3) ≡ some (make int_shape Interval.unknown)
unfolding get
range_of_three = refl

settle-IsSettled_example :
    (r' : Ranges) × (settle all_int32 two_ranges 3 ≡ some r')
    × IsSettled all_int32 two_ranges 3 int_shape Interval.unknown (negsuc 3) r'
settle-IsSettled_example =
    settle-IsSettled all_int32 two_ranges 3 int_shape Interval.unknown (negsuc 3) refl (λ e. cc)
      range_of_three (inl refl)
