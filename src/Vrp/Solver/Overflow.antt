-- ===== src/Vrp/Solver/Overflow.antt =====
-- The last loop of `Solve` (staticcheck/vrp/vrp.go): ranges that leave their type.
use go_tools.Common.{
  ◌≡◌, refl, inl, inr, some, Option, true, false, ℕ, ◌-◌, ◌*◌, ◌^◌, ℤ, pos, neg_ℤ, arith, Ordering,
  Bool-cases, if◌then◌else◌, subst,
}
use go_tools.Vrp.Z.{Z, finite, n_infinity, p_infinity, is_plus, is_minus, is_p_infinity}
use go_tools.Vrp.Z.Order.{◌≤Z◌, ≤Z_refl, Compares, cmp_returns}
use go_tools.Vrp.Interval.{IntInterval, new_int_interval}
use go_tools.Vrp.Interval.Set.{IsValid, Contains}
use go_tools.Vrp.Range.{BasicType}
use go_tools.Vrp.Widen.Steps.{new_int_interval-ordered}
use go_tools.Vrp.Solver.{check_overflow}

-- All integers.
abbrev pub max_range : IntInterval
max_range = record { known = true; lower = n_infinity; upper = p_infinity }

-- The greatest and the least value of a signed type of so many bytes.
abbrev pub greatest : ℕ → Z
greatest bytes = finite (pos (2 ^ (bytes * 8 - 1) - 1))

abbrev pub least : ℕ → Z
least bytes = finite (neg_ℤ (pos (2 ^ (bytes * 8 - 1))))

-- The three results: all integers, an interval within the type, and one with no upper bound as it was.
pub data IsChecked (t : BasicType) (i : IntInterval) : IntInterval → Type 0 where
  widest : IsChecked t i max_range
  within : least t.size ≤Z i.lower → i.upper ≤Z greatest t.size → IsChecked t i i
  unbounded : i.upper ≡ p_infinity → IsChecked t i i

abbrev Checked : BasicType → IntInterval → Option IntInterval → Type 0
Checked t i m =
    (j : IntInterval) × (m ≡ some j)
    × IsValid j
    × ((n : ℤ) → Contains i n → Contains j n)
    × IsChecked t i j

max_range-Checked :
    (t : BasicType) (i : IntInterval)
    → IsValid i
    → Checked t i (new_int_interval n_infinity p_infinity)
max_range-Checked t i v = (
  max_range,
  new_int_interval-ordered n_infinity p_infinity tt tt tt,
  record { is_known = refl; lower_proper = tt; upper_proper = tt; ordered = inr tt },
  λ n k. record { is_known = refl; above = tt; below = tt },
  widest,
)

-- the two tests, on the answers of the comparisons
tests-Checked :
    (t : BasicType) (i : IntInterval) (c1 c2 : Ordering)
    → IsValid i
    → Compares i.upper (greatest t.size) c1
    → Compares i.lower (least t.size) c2
    → Checked t i (
        if is_plus c1
        then new_int_interval n_infinity p_infinity
        else if is_minus c2
        then new_int_interval n_infinity p_infinity
        else some i)
tests-Checked t i Ordering.gt c2 v h k = max_range-Checked t i v
tests-Checked t i Ordering.lt Ordering.lt v h k = max_range-Checked t i v
tests-Checked t i Ordering.eq Ordering.lt v h k = max_range-Checked t i v
tests-Checked t i Ordering.lt Ordering.gt v h k = (i, refl, v, λ n c. c, within k.0 h.0)
tests-Checked t i Ordering.lt Ordering.eq v h k = (
  i,
  refl,
  v,
  λ n c. c,
  within (subst (λ z. z ≤Z i.lower) k (≤Z_refl i.lower v.lower_proper)) h.0,
)
tests-Checked t i Ordering.eq Ordering.gt v h k = (
  i,
  refl,
  v,
  λ n c. c,
  within k.0 (subst (λ z. i.upper ≤Z z) h (≤Z_refl i.upper v.upper_proper)),
)
tests-Checked t i Ordering.eq Ordering.eq v h k = (
  i,
  refl,
  v,
  λ n c. c,
  within (subst (λ z. z ≤Z i.lower) k (≤Z_refl i.lower v.lower_proper))
      (subst (λ z. i.upper ≤Z z) h (≤Z_refl i.upper v.upper_proper)),
)

is_p_infinity_lem : (z : Z) → is_p_infinity z ≡ true → z ≡ p_infinity
is_p_infinity_lem z h = ground arith

-- The last loop of `Solve` replaces the valid range of a value of a signed type by a valid range that
-- holds as much: all integers, or the old range, which then lies within the type or has no upper bound.
pub check_overflow_sound :
    (t : BasicType) (i : IntInterval)
    → t.is_unsigned ≡ false
    → IsValid i
    → (j : IntInterval) × (check_overflow t i ≡ some j)
      × IsValid j
      × ((n : ℤ) → Contains i n → Contains j n)
      × IsChecked t i j
unfolding check_overflow
check_overflow_sound t i u v = elim (Bool-cases (is_p_infinity i.upper)) [
  | inl e ↦ (i, simp (u, e), v, λ n c. c, unbounded (is_p_infinity_lem i.upper e))
  | inr e ↦
      let (c1, e1, h1) = cmp_returns i.upper (greatest t.size) v.upper_proper tt in
      let (c2, e2, h2) = cmp_returns i.lower (least t.size) v.lower_proper tt in
      simp (u, e, e1, e2) (tests-Checked t i c1 c2 v h1 h2)
]
