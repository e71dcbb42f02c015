-- ===== src/Vrp/Solver/Ends.antt =====
-- The worklist loop of `Solve` with `widen` (staticcheck/vrp/vrp.go): one step, and how it lowers a
-- measure of the ranges.
pub mod Frame
pub mod Loop
pub mod Rounds
use go_tools.Common.{
  ◌≡◌, ◌≢◌, refl, sym, ◌∙◌, ap, subst, inl, inr, some, none, Option, Bool, true, false, not, ◌||◌,
  List, [], ◌∷◌, All, Any, ℤ, ℕ, zero, suc, ◌+◌, ◌*◌, ◌≤◌, ◌<◌, arith, ◌==◌, ==_iff, if◌then◌else◌,
  Bool-cases, length, ◌>>=◌, eq_of_some,
}
use go_tools.Common.Search.{member}
use go_tools.Vrp.Z.{Z}
use go_tools.Vrp.Z.Order.{IsProper}
use go_tools.Vrp.Interval.{IntInterval}
use go_tools.Vrp.Interval.Set.{IsValid, Contains}
use go_tools.Vrp.Constraint.{Constraint, result}
use go_tools.Vrp.Range.{
  Range, Shape, int_shape, string_shape, slice_shape, channel_shape, make, as_shape, GoType, Value,
  Ranges, Types, get, store,
}
use go_tools.Vrp.Range.Hull.{IsRange}
use go_tools.Vrp.Eval.{eval}
use go_tools.Vrp.Widen.{widen_int_interval}
use go_tools.Vrp.Widen.Sound.{widen_int_interval_sound, widen_int_interval-IsWider}
use go_tools.Vrp.Widen.Terminates.{one_if, rank, rank-le, rank-lt}
use go_tools.Vrp.Solver.{refine, refine_as, widen, set_if_changed}
use go_tools.Vrp.Solver.Step.{widen_unknown, as_shape-make, get-store_self, get-store_ne}

-- The rank of an interval, one above all others for an unknown one.
abbrev pub weight : List Z → IntInterval → ℕ
weight consts i = if i.known then rank consts i else 2 * length consts + 3

-- What a change of an interval does.
pub record IsGrowth (consts : List Z) (i j : IntInterval) (k : IntInterval) (changed : Bool)
    : Type 0 where
  pub range : IsRange k
  pub old : (n : ℤ) → Contains i n → Contains k n
  pub new : (n : ℤ) → Contains j n → Contains k n
  pub still : changed ≡ false → k ≡ i
  pub lighter : one_if changed + weight consts k ≤ weight consts i

widen-nothing :
    (consts : List Z) (i j : IntInterval)
    → j.known ≡ false
    → widen_int_interval consts i j ≡ some (i, false)
unfolding widen_int_interval
widen-nothing consts i j u = rw u refl

pub widen-IsGrowth :
    (consts : List Z) (i j : IntInterval)
    → All IsProper consts
    → IsRange i
    → IsRange j
    → (k : IntInterval) × (changed : Bool) × (widen_int_interval consts i j ≡ some (k, changed))
      × IsGrowth consts i j k changed
widen-IsGrowth consts i j ps ri (inl u) = (
  i,
  false,
  widen-nothing consts i j u,
  record {
    range = ri;
    old = λ n c. c;
    new = λ n c. cc (c.is_known);
    still = λ e. refl;
    lighter = omega arith;
  },
)
widen-IsGrowth consts i j ps (inl u) (inr w) = (
  j,
  true,
  widen_unknown consts i j ps u w,
  record {
    range = inr w;
    old = λ n c. cc (c.is_known);
    new = λ n c. c;
    still = λ e. cc;
    lighter = ground (arith, rank-le consts j, w.is_known);
  },
)
widen-IsGrowth consts i j ps (inr v) (inr w) =
    let (lower, upper, i', e', h) = widen_int_interval-IsWider consts i j v w ps in
    let (k, changed, e, valid, holds, still) = widen_int_interval_sound consts i j ps v w in
    let q = eq_of_some (sym e' ∙ e) in
    (
      k,
      changed,
      e,
      record {
        range = inr valid;
        old = λ n c. holds n (inl c);
        new = λ n c. holds n (inr c);
        still = still;
        lighter = ground (
          arith,
          rank-lt consts i j i' lower upper w h,
          ap (λ p. rank consts p.0) q,
          ap (λ p. one_if p.1) q,
          v.is_known,
          valid.is_known,
        );
      },
    )

-- What a call of `widen` makes of the ranges.
module _ (ts : Types) (consts : List Z) where
  pub record IsRefined (c : Constraint) (s : Shape) (i j : IntInterval) (r r' : Ranges)
      (changed : Bool) : Type 0 where
    pub k : IntInterval
    pub found : get ts.type_of r' (some (result c)) ≡ some (make s k)
    pub growth : IsGrowth consts i j k changed
    pub others : (v : Value) → result c ≢ v → get ts.type_of r' (some v) ≡ get ts.type_of r (some v)
    pub same : changed ≡ false → r' ≡ r

  set_if_changed-IsRefined :
      (c : Constraint) (s : Shape) (i j k : IntInterval) (changed : Bool) (r : Ranges)
      → get ts.type_of r (some (result c)) ≡ some (make s i)
      → IsGrowth consts i j k changed
      → (r' : Ranges) × (changed' : Bool) × (set_if_changed ts r (result c) s (k, changed)
          ≡ some (r', changed'))
        × IsRefined c s i j r r' changed'
  set_if_changed-IsRefined c s i j k true r e g = (
    store r (result c) (some (make s k)),
    true,
    refl,
    record {
      k = k;
      found = get-store_self ts.type_of r (result c) (some (make s k));
      growth = g;
      others = λ w h. get-store_ne ts.type_of r (result c) w (some (make s k)) h;
      same = λ f. cc;
    },
  )
  set_if_changed-IsRefined c s i j k false r e g = (
    r,
    false,
    refl,
    record {
      k = k;
      found = e ∙ ap (λ x. some (make s x)) (sym (g.still refl));
      growth = g;
      others = λ w h. refl;
      same = λ f. refl;
    },
  )

  widen-refine_as :
      (c : Constraint) (s : Shape) (i : IntInterval) (r : Ranges)
      → s ≢ channel_shape
      → get ts.type_of r (some (result c)) ≡ some (make s i)
      → widen ts consts r c ≡ refine_as ts (λ oi ni. widen_int_interval consts oi ni) r c s i
  unfolding widen refine
  widen-refine_as c int_shape i r n e = rw (e, widen, refine) refl
  widen-refine_as c string_shape i r n e = rw (e, widen, refine) refl
  widen-refine_as c slice_shape i r n e = rw (e, widen, refine) refl
  widen-refine_as c channel_shape i r n e = absurd (n refl)

  refine_as-IsRefined :
      (c : Constraint) (s : Shape) (i j k : IntInterval) (changed : Bool) (r : Ranges)
      → eval ts r c ≡ some (some (make s j))
      → widen_int_interval consts i j ≡ some (k, changed)
      → refine_as ts (λ oi ni. widen_int_interval consts oi ni) r c s i
        ≡ set_if_changed ts r (result c) s (k, changed)
  unfolding refine_as
  refine_as-IsRefined c s i j k changed r e w = rw (e, as_shape-make s j, w) refl

  pub widen-IsRefined :
      (c : Constraint) (s : Shape) (i j : IntInterval) (r : Ranges)
      → All IsProper consts
      → s ≢ channel_shape
      → get ts.type_of r (some (result c)) ≡ some (make s i)
      → IsRange i
      → eval ts r c ≡ some (some (make s j))
      → IsRange j
      → (r' : Ranges) × (changed : Bool) × (widen ts consts r c ≡ some (r', changed))
        × IsRefined c s i j r r' changed
  widen-IsRefined c s i j r ps n e ri a rj =
      let (k, changed, w, g) = widen-IsGrowth consts i j ps ri rj in
      let (r', changed', q, h) = set_if_changed-IsRefined c s i j k changed r e g in
      (
        r',
        changed',
        widen-refine_as c s i r n e ∙ (refine_as-IsRefined c s i j k changed r a w ∙ q),
        h,
      )
