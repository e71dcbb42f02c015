-- ===== src/Vrp/Widen/Narrow.antt =====
-- `narrowIntInterval` of staticcheck/vrp/vrp.go.
use go_tools.Common.{
  ◌≡◌, refl, ◌∙◌, inl, inr, some, Bool, true, false, Ordering, arith, ℕ, ◌+◌, ◌<◌, if◌then◌else◌,
  ◌>>=◌, not, ◌&&◌, Bool-cases, ℤ,
}
use go_tools.Vrp.Z.{Z, finite, is_plus, is_minus, is_n_infinity, is_p_infinity, cmp}
use go_tools.Vrp.Z.Order.{◌≤Z◌, ≤Z_trans, Compares, cmp_returns}
use go_tools.Vrp.Interval.{IntInterval, new_int_interval}
use go_tools.Vrp.Interval.Set.{IsValid, Contains, new_int_interval-IsSpan}
use go_tools.Vrp.Widen.{changed, narrow_int_interval}

-- How many bounds of an interval are infinite.
abbrev one_if : Bool → ℕ
one_if true = 1
one_if false = 0

abbrev pub open_ends : IntInterval → ℕ
open_ends i = one_if (is_n_infinity i.lower) + one_if (is_p_infinity i.upper)

-- What narrowing makes of an interval `oi` and a new one inside it.
pub record IsNarrower (oi ni i : IntInterval) (change : Bool) : Type 0 where
  pub valid : IsValid i
  pub keeps_new : (n : ℤ) → Contains ni n → Contains i n
  pub inside_old : (n : ℤ) → Contains i n → Contains oi n
  pub still : change ≡ false → i ≡ oi
  pub closes : change ≡ true → open_ends i < open_ends oi

-- the bounds that `NewIntInterval` stores
stored :
    (l u : Z) (i : IntInterval)
    → new_int_interval l u ≡ some i
    → (is_n_infinity i.lower ≡ true → is_n_infinity l ≡ true)
      × (is_p_infinity i.upper ≡ true → is_p_infinity u ≡ true)
unfolding new_int_interval
stored l u i e = ground arith

module _ (oi ni : IntInterval) (v : IsValid oi) (w : IsValid ni) (a : oi.lower ≤Z ni.lower)
    (b : ni.upper ≤Z oi.upper) where
  close_lower :
      is_n_infinity oi.lower ≡ true
      → is_n_infinity ni.lower ≡ false
      → (i : IntInterval) × (changed (new_int_interval ni.lower oi.upper) ≡ some (i, true))
        × IsNarrower oi ni i true
  close_lower o n =
      let (i, e, s) = new_int_interval-IsSpan ni.lower oi.upper w.lower_proper v.upper_proper in
      let kept = stored ni.lower oi.upper i e in
      (
        i,
        rw e,
        record {
          valid = s.valid;
          keeps_new = λ m k. s.inside m k.above (≤Z_trans (finite m) ni.upper oi.upper k.below b);
          inside_old = λ m k.
              let c = s.outside m k in
              record {
                is_known = v.is_known;
                above = ≤Z_trans oi.lower ni.lower (finite m) a c.0;
                below = c.1;
              };
          still = λ f. cc;
          closes = λ _. ground (arith, o, n, kept);
        },
      )

  close_upper :
      is_p_infinity oi.upper ≡ true
      → is_p_infinity ni.upper ≡ false
      → (i : IntInterval) × (changed (new_int_interval oi.lower ni.upper) ≡ some (i, true))
        × IsNarrower oi ni i true
  close_upper o n =
      let (i, e, s) = new_int_interval-IsSpan oi.lower ni.upper v.lower_proper w.upper_proper in
      let kept = stored oi.lower ni.upper i e in
      (
        i,
        rw e,
        record {
          valid = s.valid;
          keeps_new = λ m k. s.inside m (≤Z_trans oi.lower ni.lower (finite m) a k.above) k.below;
          inside_old = λ m k.
              let c = s.outside m k in
              record {
                is_known = v.is_known;
                above = c.0;
                below = ≤Z_trans (finite m) ni.upper oi.upper c.1 b;
              };
          still = λ f. cc;
          closes = λ _. ground (arith, o, n, kept);
        },
      )

  -- neither bound becomes finite: the comparisons find nothing to move
  leave :
      (narrow_int_interval oi ni ≡ (do
        c1 ← cmp oi.lower ni.lower
        if is_plus c1 then changed (new_int_interval ni.lower oi.upper) else do
          c2 ← cmp oi.upper ni.upper
          if is_minus c2 then changed (new_int_interval oi.lower ni.upper) else some (oi, false)))
      → (i : IntInterval) × (c : Bool) × (narrow_int_interval oi ni ≡ some (i, c))
        × IsNarrower oi ni i c
  leave e =
      let (c1, e1, h1) = cmp_returns oi.lower ni.lower v.lower_proper w.lower_proper in
      let (c2, e2, h2) = cmp_returns oi.upper ni.upper v.upper_proper w.upper_proper in
      (
        oi,
        false,
        e ∙ rw (e1, not_plus c1 h1, e2, not_minus c2 h2),
        record {
          valid = v;
          keeps_new = λ m k. record {
            is_known = v.is_known;
            above = ≤Z_trans oi.lower ni.lower (finite m) a k.above;
            below = ≤Z_trans (finite m) ni.upper oi.upper k.below b;
          };
          inside_old = λ m k. k;
          still = λ _. refl;
          closes = λ f. cc;
        },
      )
    where
      not_plus : (c : Ordering) → Compares oi.lower ni.lower c → is_plus c ≡ false
      not_plus Ordering.gt h = absurd (h.1 a)
      not_plus _ h = refl

      not_minus : (c : Ordering) → Compares oi.upper ni.upper c → is_minus c ≡ false
      not_minus Ordering.lt h = absurd (h.1 b)
      not_minus _ h = refl

  -- Narrowing of a valid interval by a valid one whose bounds lie inside never panics. What it returns is
  -- valid, lies inside the old interval, and holds the new one; it is the old interval if no change is
  -- reported, and has fewer infinite bounds if one is, so that at most two changes follow one another.
  pub narrow_int_interval_sound :
      (i : IntInterval) × (c : Bool) × (narrow_int_interval oi ni ≡ some (i, c))
      × IsNarrower oi ni i c
  unfolding narrow_int_interval
  narrow_int_interval_sound =
      elim (Bool-cases (is_n_infinity oi.lower && not (is_n_infinity ni.lower))) [
        | inl e ↦
            let (i, f, h) = close_lower (ground (arith, e)) (ground (arith, e)) in
            (i, true, rw e f, h)
        | inr e ↦ elim (Bool-cases (is_p_infinity oi.upper && not (is_p_infinity ni.upper))) [
          | inl g ↦
              let (i, f, h) = close_upper (ground (arith, g)) (ground (arith, g)) in
              (i, true, rw (e, g) f, h)
          | inr g ↦ leave (rw (e, g))
        ]
      ]
