-- ===== src/Vrp/Widen.antt =====
-- The widening and narrowing of intervals in `widen` and `narrow` of staticcheck/vrp/vrp.go.
pub mod Steps
pub mod Sound
pub mod Terminates
pub mod Narrow
use go_tools.Common.{
  Bool, true, false, not, ◌&&◌, ◌||◌, Option, none, some, List, [], ◌∷◌, if◌then◌else◌, ◌>>=◌,
}
use go_tools.Vrp.Z.{Z, n_infinity, p_infinity, is_plus, is_minus, is_n_infinity, is_p_infinity, cmp}
use go_tools.Vrp.Interval.{IntInterval, new_int_interval}

-- The first loop over `consts`: the first one that is at most `l`.
unfoldable pub first_at_most : Z → List Z → Option Z
first_at_most l [] = some n_infinity
first_at_most l (co ∷ consts) = do
  c ← cmp co l
  rest ← first_at_most l consts
  some (if not (is_plus c) then co else rest)

-- The second loop: the first one that is at least `u`.
unfoldable pub first_at_least : Z → List Z → Option Z
first_at_least u [] = some p_infinity
first_at_least u (co ∷ consts) = do
  c ← cmp co u
  rest ← first_at_least u consts
  some (if not (is_minus c) then co else rest)

-- `return NewIntInterval(...), true`
abbrev pub changed : Option IntInterval → Option (IntInterval × Bool)
changed m = do i ← m; some (i, true)

-- The tests of `widenIntInterval` after its loops, on the answers of its comparisons.
unfoldable pub widen_bounds : Z → Z → IntInterval → Bool → Bool → Option (IntInterval × Bool)
widen_bounds nlc nuc oi lower upper =
    if lower && upper
    then changed (new_int_interval nlc nuc)
    else if lower
    then changed (new_int_interval nlc oi.upper)
    else if upper
    then changed (new_int_interval oi.lower nuc)
    else some (oi, false)

-- `widenIntInterval`: the new interval, and whether it changed.
unfoldable pub widen_int_interval : List Z → IntInterval → IntInterval → Option (IntInterval × Bool)
widen_int_interval consts oi ni = if not ni.known then some (oi, false) else do
  nlc ← first_at_most ni.lower consts
  nuc ← first_at_least ni.upper consts
  if not oi.known then some (ni, true) else do
    c1 ← cmp ni.lower oi.lower
    c2 ← cmp ni.upper oi.upper
    widen_bounds nlc nuc oi (is_minus c1) (is_plus c2)

-- `narrowIntInterval`
unfoldable pub narrow_int_interval : IntInterval → IntInterval → Option (IntInterval × Bool)
narrow_int_interval oi ni =
    if is_n_infinity oi.lower && not (is_n_infinity ni.lower)
    then changed (new_int_interval ni.lower oi.upper)
    else if is_p_infinity oi.upper && not (is_p_infinity ni.upper)
    then changed (new_int_interval oi.lower ni.upper)
    else do
      c1 ← cmp oi.lower ni.lower
      if is_plus c1 then changed (new_int_interval ni.lower oi.upper) else do
        c2 ← cmp oi.upper ni.upper
        if is_minus c2 then changed (new_int_interval oi.lower ni.upper) else some (oi, false)
