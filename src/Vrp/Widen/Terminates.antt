-- ===== src/Vrp/Widen/Terminates.antt =====
-- Widening by `widenIntInterval` of staticcheck/vrp/vrp.go comes to an end.
use go_tools.Common.{
  ◌≡◌, refl, sym, subst, inl, inr, some, Option, Bool, true, false, List, [], ◌∷◌, All, arith,
  ◌>>=◌, not, ◌||◌, ℕ, ◌+◌, ◌*◌, ◌≤◌, ◌<◌, length, Bool-cases, compare_ℤ,
}
use go_tools.Vrp.Z.{Z, unset, n_infinity, p_infinity, finite, is_plus}
use go_tools.Vrp.Z.Order.{IsProper, ◌≤Z◌, ≤Z_trans, ≤Z_refl, Among}
use go_tools.Vrp.Interval.{IntInterval}
use go_tools.Vrp.Interval.Set.{IsValid}
use go_tools.Vrp.Widen.{widen_int_interval}
use go_tools.Vrp.Widen.Steps.{le-p_infinity, n_infinity-le}
use go_tools.Vrp.Widen.Sound.{LowerStep, UpperStep, IsWider, widen_int_interval-IsWider}

-- The order as a test.
abbrev le_z : Z → Z → Bool
le_z unset z2 = false
le_z n_infinity unset = false
le_z n_infinity z2 = true
le_z p_infinity p_infinity = true
le_z p_infinity z2 = false
le_z (finite a) p_infinity = true
le_z (finite a) (finite b) = not (is_plus (compare_ℤ a b))
le_z (finite a) z2 = false

le_z_sound : (a b : Z) → le_z a b ≡ true → a ≤Z b
le_z_sound a b h = ground arith

le_z_complete : (a b : Z) → a ≤Z b → le_z a b ≡ true
le_z_complete a b h = ground arith

-- How many of the values are less than `z`, and how many are greater.
abbrev pub one_if : Bool → ℕ
one_if true = 1
one_if false = 0

count_below : Z → List Z → ℕ
count_below z [] = 0
count_below z (c ∷ cs) = one_if (not (le_z z c)) + count_below z cs

count_above : Z → List Z → ℕ
count_above z [] = 0
count_above z (c ∷ cs) = one_if (not (le_z c z)) + count_above z cs

count_below-le-length : (z : Z) (cs : List Z) → count_below z cs ≤ length cs
unfolding count_below
count_below-le-length z [] = omega arith
count_below-le-length z (c ∷ cs) = ground (arith, count_below-le-length z cs)

count_above-le-length : (z : Z) (cs : List Z) → count_above z cs ≤ length cs
unfolding count_above
count_above-le-length z [] = omega arith
count_above-le-length z (c ∷ cs) = ground (arith, count_above-le-length z cs)

-- the share of one value in the two counts
one_if_mono : (b b' : Bool) → (b' ≡ true → b ≡ true) → one_if (not b) ≤ one_if (not b')
one_if_mono true b' h = ground arith
one_if_mono false true h = cc (h refl)
one_if_mono false false h = omega arith

count_below_mono : (z z' : Z) (cs : List Z) → z ≤Z z' → count_below z cs ≤ count_below z' cs
unfolding count_below
count_below_mono z z' [] h = omega arith
count_below_mono z z' (c ∷ cs) h = omega (
  arith,
  count_below_mono z z' cs h,
  one_if_mono (le_z z c) (le_z z' c)
      (λ k. le_z_complete z c (≤Z_trans z z' c h (le_z_sound z' c k))),
)

count_above_mono : (z z' : Z) (cs : List Z) → z' ≤Z z → count_above z cs ≤ count_above z' cs
unfolding count_above
count_above_mono z z' [] h = omega arith
count_above_mono z z' (c ∷ cs) h = omega (
  arith,
  count_above_mono z z' cs h,
  one_if_mono (le_z c z) (le_z c z')
      (λ k. le_z_complete c z (≤Z_trans c z' z (le_z_sound c z' k) h)),
)

le_z-false : (a b : Z) → ¬ (a ≤Z b) → le_z a b ≡ false
le_z-false a b h = elim (Bool-cases (le_z a b)) [
  | inl e ↦ absurd (h (le_z_sound a b e))
  | inr e ↦ e
]

-- a listed value that is less counts for the greater one only
count_below-lt :
    (z z' : Z) (cs : List Z)
    → IsProper z'
    → z' ≤Z z
    → ¬ (z ≤Z z')
    → Among z' cs
    → count_below z' cs < count_below z cs
unfolding count_below
count_below-lt z z' [] p h n a = elim a [ ]
count_below-lt z z' (c ∷ cs) p h n (inl e) =
    let above : le_z z' c ≡ true = le_z_complete z' c (subst (λ x. z' ≤Z x) e (≤Z_refl z' p)) in
    let less : le_z z c ≡ false = le_z-false z c (λ k. n (subst (λ x. z ≤Z x) (sym e) k)) in
    rw (above, less) (omega (arith, count_below_mono z' z cs h))
count_below-lt z z' (c ∷ cs) p h n (inr a) = omega (
  arith,
  count_below-lt z z' cs p h n a,
  one_if_mono (le_z z' c) (le_z z c)
      (λ k. le_z_complete z' c (≤Z_trans z' z c h (le_z_sound z c k))),
)

count_above-lt :
    (z z' : Z) (cs : List Z)
    → IsProper z'
    → z ≤Z z'
    → ¬ (z' ≤Z z)
    → Among z' cs
    → count_above z' cs < count_above z cs
unfolding count_above
count_above-lt z z' [] p h n a = elim a [ ]
count_above-lt z z' (c ∷ cs) p h n (inl e) =
    let below : le_z c z' ≡ true = le_z_complete c z' (subst (λ x. x ≤Z z') e (≤Z_refl z' p)) in
    let more : le_z c z ≡ false = le_z-false c z (λ k. n (subst (λ x. x ≤Z z) (sym e) k)) in
    rw (below, more) (omega (arith, count_above_mono z' z cs h))
count_above-lt z z' (c ∷ cs) p h n (inr a) = omega (
  arith,
  count_above-lt z z' cs p h n a,
  one_if_mono (le_z c z') (le_z c z)
      (λ k. le_z_complete c z' (≤Z_trans c z z' (le_z_sound c z k) h)),
)

-- How many values a bound can still move to: the constants on its side, and the infinity.
lower_rank : List Z → Z → ℕ
lower_rank cs z = one_if (not (le_z z n_infinity)) + count_below z cs

upper_rank : List Z → Z → ℕ
upper_rank cs z = one_if (not (le_z p_infinity z)) + count_above z cs

module _ (cs : List Z) (o n z : Z) where
  lower_rank-lt : IsProper n → LowerStep cs o n z true → lower_rank cs z < lower_rank cs o
  unfolding lower_rank
  lower_rank-lt p (a, b, c, f) =
      let down = ≤Z_trans z n o a c in
      elim f.origin [
        | inl e ↦
            let here : le_z z n_infinity ≡ true =
              le_z_complete z n_infinity (subst (λ x. x ≤Z n_infinity) (sym e) tt) in
            let there : le_z o n_infinity ≡ false =
              le_z-false o n_infinity (λ k. b (≤Z_trans o n_infinity n k (n_infinity-le n p))) in
            rw (here, there) (omega (arith, count_below_mono z o cs down))
        | inr m ↦ omega (
          arith,
          count_below-lt o z cs f.proper down (λ k. b (≤Z_trans o z n k a)) m,
          one_if_mono (le_z z n_infinity) (le_z o n_infinity) (λ k.
              le_z_complete z n_infinity
                (≤Z_trans z o n_infinity down (le_z_sound o n_infinity k))),
        )
      ]

  upper_rank-lt : IsProper n → UpperStep cs o n z true → upper_rank cs z < upper_rank cs o
  unfolding upper_rank
  upper_rank-lt p (a, b, c, f) =
      let up = ≤Z_trans o n z c a in
      elim f.origin [
        | inl e ↦
            let here : le_z p_infinity z ≡ true =
              le_z_complete p_infinity z (subst (λ x. p_infinity ≤Z x) (sym e) tt) in
            let there : le_z p_infinity o ≡ false =
              le_z-false p_infinity o (λ k. b (≤Z_trans n p_infinity o (le-p_infinity n p) k)) in
            rw (here, there) (omega (arith, count_above_mono z o cs up))
        | inr m ↦ omega (
          arith,
          count_above-lt o z cs f.proper up (λ k. b (≤Z_trans n z o a k)) m,
          one_if_mono (le_z p_infinity z) (le_z p_infinity o) (λ k.
              le_z_complete p_infinity z (≤Z_trans p_infinity o z (le_z_sound p_infinity o k) up)),
        )
      ]

pub rank : List Z → IntInterval → ℕ
rank cs i = lower_rank cs i.lower + upper_rank cs i.upper

pub rank-le : (cs : List Z) (i : IntInterval) → rank cs i ≤ 2 * length cs + 2
unfolding rank lower_rank upper_rank
rank-le cs i = ground (arith, count_below-le-length i.lower cs, count_above-le-length i.upper cs)

-- Each change of an interval by widening lowers its rank.
pub rank-lt :
    (cs : List Z) (oi ni i : IntInterval) (lower upper : Bool)
    → IsValid ni
    → IsWider cs oi ni i lower upper
    → one_if (lower || upper) + rank cs i ≤ rank cs oi
unfolding rank
rank-lt cs oi ni i true true w h = omega (
  arith,
  lower_rank-lt cs oi.lower ni.lower i.lower w.lower_proper h.lower_step,
  upper_rank-lt cs oi.upper ni.upper i.upper w.upper_proper h.upper_step,
)
rank-lt cs oi ni i true false w h =
    rw (h.upper_step.0)
      (omega (arith, lower_rank-lt cs oi.lower ni.lower i.lower w.lower_proper h.lower_step))
rank-lt cs oi ni i false true w h =
    rw (h.lower_step.0)
      (omega (arith, upper_rank-lt cs oi.upper ni.upper i.upper w.upper_proper h.upper_step))
rank-lt cs oi ni i false false w h = rw (h.lower_step.0, h.upper_step.0) (omega arith)

-- An interval that is widened by one new interval after another: how often a change is reported.
abbrev pub count_changes : List Z → IntInterval → List IntInterval → Option ℕ
count_changes consts oi [] = some 0
count_changes consts oi (ni ∷ nis) = do
  (i, changed) ← widen_int_interval consts oi ni
  n ← count_changes consts i nis
  some (one_if changed + n)

count_changes-le-rank :
    (consts : List Z) (oi : IntInterval) (nis : List IntInterval)
    → All IsProper consts
    → IsValid oi
    → All IsValid nis
    → (n : ℕ) × (count_changes consts oi nis ≡ some n) × (n ≤ rank consts oi)
count_changes-le-rank consts oi [] ps v ws = (0, refl, omega arith)
count_changes-le-rank consts oi (ni ∷ nis) ps v ws =
    let (lower, upper, i, e, h) = widen_int_interval-IsWider consts oi ni v ws.0 ps in
    let (n, f, b) = count_changes-le-rank consts i nis ps h.valid ws.1 in
    (
      one_if (lower || upper) + n,
      rw (e, f),
      omega (arith, rank-lt consts oi ni i lower upper ws.0 h),
    )

-- Whatever valid intervals come, widening changes a valid interval at most twice for each entry of the
-- list of constants that it is given, and twice more. `Solve` makes three entries for each integer
-- constant of the program.
pub count_changes-bounded :
    (consts : List Z) (oi : IntInterval) (nis : List IntInterval)
    → All IsProper consts
    → IsValid oi
    → All IsValid nis
    → (n : ℕ) × (count_changes consts oi nis ≡ some n) × (n ≤ 2 * length consts + 2)
count_changes-bounded consts oi nis ps v ws =
    let (n, e, h) = count_changes-le-rank consts oi nis ps v ws in
    (n, e, omega (arith, rank-le consts oi))
