-- ===== src/Vrp/Widen/Sound.antt =====
-- `widenIntInterval` of staticcheck/vrp/vrp.go keeps what it had and takes in what is new.
use go_tools.Common.{
  ◌≡◌, refl, sym, subst, ◌⊎◌, inl, inr, some, Bool, true, false, List, All, Ordering, arith, ◌||◌,
  ℤ, ap,
}
use go_tools.Vrp.Z.{Z, n_infinity, p_infinity, finite, is_plus, is_minus}
use go_tools.Vrp.Z.Order.{IsProper, ◌≤Z◌, ≤Z_trans, ≤Z_refl, Compares, cmp_returns}
use go_tools.Vrp.Interval.{IntInterval, new_int_interval}
use go_tools.Vrp.Interval.Set.{IsValid, Contains}
use go_tools.Vrp.Widen.{changed, widen_bounds, widen_int_interval}
use go_tools.Vrp.Widen.Steps.{
  n_infinity-le, le-p_infinity, IsFound, first_at_most_sound, first_at_least_sound,
  new_int_interval-ordered,
}

-- A lower bound `o` stays if `n` is above it, and otherwise falls to a constant or to -∞.
abbrev pub LowerStep : List Z → Z → Z → Z → Bool → Type 0
LowerStep consts o n z true = (z ≤Z n) × ¬ (o ≤Z n) × (n ≤Z o) × IsFound n_infinity consts z
LowerStep consts o n z false = (z ≡ o) × (o ≤Z n)

abbrev pub UpperStep : List Z → Z → Z → Z → Bool → Type 0
UpperStep consts o n z true = (n ≤Z z) × ¬ (n ≤Z o) × (o ≤Z n) × IsFound p_infinity consts z
UpperStep consts o n z false = (z ≡ o) × (n ≤Z o)

-- What widening makes of a known interval `oi` and a new one, `ni`: the flags say which bounds move.
pub record IsWider (consts : List Z) (oi ni i : IntInterval) (lower upper : Bool) : Type 0 where
  pub valid : IsValid i
  pub lower_step : LowerStep consts oi.lower ni.lower i.lower lower
  pub upper_step : UpperStep consts oi.upper ni.upper i.upper upper

-- The comparison that decides whether a bound moves.
abbrev LowerMoves : Z → Z → Bool → Type 0
LowerMoves o n true = ¬ (o ≤Z n) × (n ≤Z o)
LowerMoves o n false = o ≤Z n

abbrev UpperMoves : Z → Z → Bool → Type 0
UpperMoves o n true = ¬ (n ≤Z o) × (o ≤Z n)
UpperMoves o n false = n ≤Z o

lower_moves : (c : Ordering) (o n : Z) → IsProper o → Compares n o c → LowerMoves o n (is_minus c)
lower_moves Ordering.lt o n p h = (h.1, h.0)
lower_moves Ordering.eq o n p h = subst (λ z. o ≤Z z) (sym h) (≤Z_refl o p)
lower_moves Ordering.gt o n p h = h.0

upper_moves : (c : Ordering) (o n : Z) → IsProper o → Compares n o c → UpperMoves o n (is_plus c)
upper_moves Ordering.gt o n p h = (h.1, h.0)
upper_moves Ordering.eq o n p h = subst (λ z. z ≤Z o) (sym h) (≤Z_refl o p)
upper_moves Ordering.lt o n p h = h.0

-- a new interval that moves a bound is not the empty one
moving_lower_ordered :
    (oi ni : IntInterval)
    → IsProper oi.lower
    → IsValid ni
    → ¬ (oi.lower ≤Z ni.lower)
    → ni.lower ≤Z ni.upper
moving_lower_ordered oi ni p w h = elim w.ordered [
  | inl e ↦ absurd (
      h (
        subst (λ z. oi.lower ≤Z z) (sym (ap (λ (j : IntInterval). j.lower) e))
          (le-p_infinity oi.lower p)))
  | inr o ↦ o
]

moving_upper_ordered :
    (oi ni : IntInterval)
    → IsProper oi.upper
    → IsValid ni
    → ¬ (ni.upper ≤Z oi.upper)
    → ni.lower ≤Z ni.upper
moving_upper_ordered oi ni p w h = elim w.ordered [
  | inl e ↦ absurd (
      h (
        subst (λ z. z ≤Z oi.upper) (sym (ap (λ (j : IntInterval). j.upper) e))
          (n_infinity-le oi.upper p)))
  | inr o ↦ o
]

module _ (consts : List Z) (oi ni : IntInterval) (v : IsValid oi) (w : IsValid ni) where
  -- an interval of moved bounds that are in order
  build :
      (l u : Z) (lower upper : Bool)
      → IsProper l
      → IsProper u
      → l ≤Z u
      → LowerStep consts oi.lower ni.lower l lower
      → UpperStep consts oi.upper ni.upper u upper
      → (i : IntInterval) × (changed (new_int_interval l u) ≡ some (i, true))
        × IsWider consts oi ni i lower upper
  build l u lower upper p q o sl su = (
    record { known = true; lower = l; upper = u },
    rw (new_int_interval-ordered l u p q o),
    record {
      valid = record { is_known = refl; lower_proper = p; upper_proper = q; ordered = inr o };
      lower_step = sl;
      upper_step = su;
    },
  )

  widen_bounds-IsWider :
      (nlc nuc : Z) (lower upper : Bool)
      → IsFound n_infinity consts nlc
      → nlc ≤Z ni.lower
      → IsFound p_infinity consts nuc
      → ni.upper ≤Z nuc
      → LowerMoves oi.lower ni.lower lower
      → UpperMoves oi.upper ni.upper upper
      → (i : IntInterval) × (widen_bounds nlc nuc oi lower upper ≡ some (i, lower || upper))
        × IsWider consts oi ni i lower upper
  unfolding widen_bounds
  widen_bounds-IsWider nlc nuc true true fl a fu b ml mu =
      build nlc nuc true true fl.proper fu.proper
        (≤Z_trans nlc ni.lower nuc a
          (≤Z_trans ni.lower ni.upper nuc (moving_lower_ordered oi ni v.lower_proper w ml.0) b))
        (a, ml.0, ml.1, fl) (b, mu.0, mu.1, fu)
  widen_bounds-IsWider nlc nuc true false fl a fu b ml mu =
      build nlc oi.upper true false fl.proper v.upper_proper
        (≤Z_trans nlc ni.lower oi.upper a (
          ≤Z_trans ni.lower ni.upper oi.upper (moving_lower_ordered oi ni v.lower_proper w ml.0)
            mu))
        (a, ml.0, ml.1, fl) (refl, mu)
  widen_bounds-IsWider nlc nuc false true fl a fu b ml mu =
      build oi.lower nuc false true v.lower_proper fu.proper
        (≤Z_trans oi.lower ni.lower nuc ml
          (≤Z_trans ni.lower ni.upper nuc (moving_upper_ordered oi ni v.upper_proper w mu.0) b))
        (refl, ml) (b, mu.0, mu.1, fu)
  widen_bounds-IsWider nlc nuc false false fl a fu b ml mu =
      (oi, refl, record { valid = v; lower_step = (refl, ml); upper_step = (refl, mu) })

  -- Widening of a valid interval by a valid one never panics. It tells whether a bound has moved; a bound
  -- that moves takes in the new interval's, and is an entry of the list of constants or an infinity.
  pub widen_int_interval-IsWider :
      All IsProper consts
      → (lower : Bool) × (upper : Bool) × (i : IntInterval) × (widen_int_interval consts oi ni
          ≡ some (i, lower || upper))
        × IsWider consts oi ni i lower upper
  unfolding widen_int_interval
  widen_int_interval-IsWider ps =
      let (nlc, el, fl, a) = first_at_most_sound ni.lower consts w.lower_proper ps in
      let (nuc, eu, fu, b) = first_at_least_sound ni.upper consts w.upper_proper ps in
      let (c1, e1, h1) = cmp_returns ni.lower oi.lower w.lower_proper v.lower_proper in
      let (c2, e2, h2) = cmp_returns ni.upper oi.upper w.upper_proper v.upper_proper in
      let (i, e, h) =
        widen_bounds-IsWider nlc nuc (is_minus c1) (is_plus c2) fl a fu b
          (lower_moves c1 oi.lower ni.lower v.lower_proper h1)
          (upper_moves c2 oi.upper ni.upper v.upper_proper h2) in
      (is_minus c1, is_plus c2, i, simp (w.is_known, v.is_known, el, eu, e1, e2) e, h)

lower_step-le :
    (consts : List Z) (o n z : Z) (b : Bool)
    → IsProper o
    → LowerStep consts o n z b
    → (z ≤Z o) × (z ≤Z n)
lower_step-le consts o n z true p h = (≤Z_trans z n o h.0 h.2, h.0)
lower_step-le consts o n z false p h =
    (subst (λ x. x ≤Z o) (sym h.0) (≤Z_refl o p), subst (λ x. x ≤Z n) (sym h.0) h.1)

upper_step-le :
    (consts : List Z) (o n z : Z) (b : Bool)
    → IsProper o
    → UpperStep consts o n z b
    → (o ≤Z z) × (n ≤Z z)
upper_step-le consts o n z true p h = (≤Z_trans o n z h.2 h.0, h.0)
upper_step-le consts o n z false p h =
    (subst (λ x. o ≤Z x) (sym h.0) (≤Z_refl o p), subst (λ x. n ≤Z x) (sym h.0) h.1)

-- Neither bound has moved.
IsWider-still :
    (consts : List Z) (oi ni i : IntInterval) (lower upper : Bool)
    → IsValid oi
    → IsWider consts oi ni i lower upper
    → (lower || upper) ≡ false
    → i ≡ oi
IsWider-still consts oi ni i true upper v h e = cc
IsWider-still consts oi ni i false true v h e = cc
IsWider-still consts oi ni i false false v h e =
    ground (arith, h.valid.is_known, v.is_known, h.lower_step, h.upper_step)

-- Widening of a valid interval by a valid one never panics. The interval that it returns is valid and
-- holds all that the two hold; where no change is reported, it is the old interval.
pub widen_int_interval_sound :
    (consts : List Z) (oi ni : IntInterval)
    → All IsProper consts
    → IsValid oi
    → IsValid ni
    → (i : IntInterval) × (changed : Bool) × (widen_int_interval consts oi ni ≡ some (i, changed))
      × IsValid i
      × ((n : ℤ) → Contains oi n ⊎ Contains ni n → Contains i n)
      × (changed ≡ false → i ≡ oi)
widen_int_interval_sound consts oi ni ps v w =
    let (lower, upper, i, e, h) = widen_int_interval-IsWider consts oi ni v w ps in
    let l = lower_step-le consts oi.lower ni.lower i.lower lower v.lower_proper h.lower_step in
    let u = upper_step-le consts oi.upper ni.upper i.upper upper v.upper_proper h.upper_step in
    (
      i,
      lower || upper,
      e,
      h.valid,
      λ n c. elim c [
        | inl k ↦ record {
          is_known = h.valid.is_known;
          above = ≤Z_trans i.lower oi.lower (finite n) l.0 k.above;
          below = ≤Z_trans (finite n) oi.upper i.upper k.below u.0;
        }
        | inr k ↦ record {
          is_known = h.valid.is_known;
          above = ≤Z_trans i.lower ni.lower (finite n) l.1 k.above;
          below = ≤Z_trans (finite n) ni.upper i.upper k.below u.1;
        }
      ],
      IsWider-still consts oi ni i lower upper v h,
    )
