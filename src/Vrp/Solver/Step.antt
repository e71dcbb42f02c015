-- ===== src/Vrp/Solver/Step.antt =====
-- One call of `widen` (staticcheck/vrp/vrp.go).
use go_tools.Common.{
  ◌≡◌, ◌≢◌, refl, ◌∙◌, ap, sym, inl, inr, some, Option, Bool, true, false, List, [], ◌∷◌, All, ℤ,
  arith, ◌==◌, ==_iff, if◌then◌else◌,
}
use go_tools.Vrp.Z.{Z}
use go_tools.Vrp.Z.Order.{IsProper}
use go_tools.Vrp.Interval.{IntInterval}
use go_tools.Vrp.Interval.Set.{IsValid, Contains}
use go_tools.Vrp.Constraint.{Constraint, result}
use go_tools.Vrp.Range.{
  Range, Shape, int_shape, string_shape, slice_shape, channel_shape, make, as_shape, GoType, Value,
  Ranges, Types, get, find, store,
}
use go_tools.Vrp.Range.Hull.{IsRange}
use go_tools.Vrp.Eval.{eval}
use go_tools.Vrp.Widen.{widen_int_interval}
use go_tools.Vrp.Widen.Steps.{first_at_most_sound, first_at_least_sound}
use go_tools.Vrp.Widen.Sound.{widen_int_interval_sound}
use go_tools.Vrp.Solver.{Next, refine, refine_as, widen, set_if_changed}

pub find-store :
    (r : Ranges) (x y : Value) (v : Option Range)
    → find (store r x v) y ≡ (if x == y then some v else find r y)
unfolding find store
find-store [] x y v = refl
find-store ((z, w) ∷ r) x y v =
    ground (arith, find-store r x y v, ==_iff z x, ==_iff z y, ==_iff x y)

pub get-store_self :
    (type_of : Value → GoType) (r : Ranges) (x : Value) (v : Option Range)
    → get type_of (store r x v) (some x) ≡ v
unfolding get
get-store_self type_of r x v = ground (arith, find-store r x x v, ==_iff x x)

pub get-store_ne :
    (type_of : Value → GoType) (r : Ranges) (x y : Value) (v : Option Range)
    → x ≢ y
    → get type_of (store r x v) (some y) ≡ get type_of r (some y)
unfolding get
get-store_ne type_of r x y v h = ground (arith, find-store r x y v, ==_iff x y)

-- What a function that chooses the next interval does with an old and a new one.
pub record IsGrown (i j : IntInterval) (answer : Option (IntInterval × Bool)) : Type 0 where
  pub k : IntInterval
  pub changed : Bool
  pub found : answer ≡ some (k, changed)
  pub range : IsValid k
  pub old : (n : ℤ) → Contains i n → Contains k n
  pub new : (n : ℤ) → Contains j n → Contains k n
  pub still : changed ≡ false → k ≡ i

-- An interval that is not yet known is replaced by the new one.
pub widen_unknown :
    (consts : List Z) (i j : IntInterval)
    → All IsProper consts
    → i.known ≡ false
    → IsValid j
    → widen_int_interval consts i j ≡ some (j, true)
unfolding widen_int_interval
widen_unknown consts i j ps u w =
    let (nlc, el, _, _) = first_at_most_sound j.lower consts w.lower_proper ps in
    let (nuc, eu, _, _) = first_at_least_sound j.upper consts w.upper_proper ps in
    simp (w.is_known, el, eu, u)

widen-IsGrown :
    (consts : List Z) (i j : IntInterval)
    → All IsProper consts
    → IsRange i
    → IsValid j
    → IsGrown i j (widen_int_interval consts i j)
widen-IsGrown consts i j ps (inl u) w = record {
  k = j;
  changed = true;
  found = widen_unknown consts i j ps u w;
  range = w;
  old = λ n c. cc (c.is_known);
  new = λ n c. c;
  still = λ e. cc;
}
widen-IsGrown consts i j ps (inr v) w =
    let (k, c, e, valid, holds, still) = widen_int_interval_sound consts i j ps v w in
    record {
      k = k;
      changed = c;
      found = e;
      range = valid;
      old = λ n m. holds n (inl m);
      new = λ n m. holds n (inr m);
      still = still;
    }

pub as_shape-make : (s : Shape) (j : IntInterval) → as_shape s (some (make s j)) ≡ some j
as_shape-make int_shape j = refl
as_shape-make string_shape j = refl
as_shape-make slice_shape j = refl
as_shape-make channel_shape j = refl

module _ (ts : Types) (r : Ranges) (c : Constraint) (s : Shape) (i j : IntInterval) where
  -- What one call of `widen` does to the ranges: the range of the result holds what it held and what
  -- `Eval` answered, no other range changes, and none does if no change is reported.
  pub record IsStep (r' : Ranges) (changed : Bool) : Type 0 where
    pub k : IntInterval
    pub found : get ts.type_of r' (some (result c)) ≡ some (make s k)
    pub valid : IsValid k
    pub old : (n : ℤ) → Contains i n → Contains k n
    pub new : (n : ℤ) → Contains j n → Contains k n
    pub others : (v : Value) → result c ≢ v → get ts.type_of r' (some v) ≡ get ts.type_of r (some v)
    pub still : changed ≡ false → r' ≡ r

  abbrev Stepped : Option (Ranges × Bool) → Type 0
  Stepped answer =
      (r' : Ranges) × (changed : Bool) × (answer ≡ some (r', changed)) × IsStep r' changed

  set_if_changed-Stepped :
      (k : IntInterval) (changed : Bool)
      → get ts.type_of r (some (result c)) ≡ some (make s i)
      → IsValid k
      → ((n : ℤ) → Contains i n → Contains k n)
      → ((n : ℤ) → Contains j n → Contains k n)
      → (changed ≡ false → k ≡ i)
      → Stepped (set_if_changed ts r (result c) s (k, changed))
  set_if_changed-Stepped k true e v o n st = (
    store r (result c) (some (make s k)),
    true,
    refl,
    record {
      k = k;
      found = get-store_self ts.type_of r (result c) (some (make s k));
      valid = v;
      old = o;
      new = n;
      others = λ w h. get-store_ne ts.type_of r (result c) w (some (make s k)) h;
      still = λ f. cc;
    },
  )
  set_if_changed-Stepped k false e v o n st = (
    r,
    false,
    refl,
    record {
      k = k;
      found = e ∙ ap (λ x. some (make s x)) (sym (st refl));
      valid = v;
      old = o;
      new = n;
      others = λ w h. refl;
      still = λ f. refl;
    },
  )

  refine_as-Stepped :
      (next : Next)
      → IsGrown i j (next i j)
      → get ts.type_of r (some (result c)) ≡ some (make s i)
      → eval ts r c ≡ some (some (make s j))
      → Stepped (refine_as ts next r c s i)
  unfolding refine_as
  refine_as-Stepped next g e a =
      rw (a, as_shape-make s j, g.found)
        (set_if_changed-Stepped g.k g.changed e g.range g.old g.new g.still)

-- A call of `widen` on a constraint of integers, strings or slices, whose result has an unknown or a
-- valid range, where `Eval` answers a valid one of the same type: it never panics, the range of the
-- result is valid afterwards and holds what it held and what `Eval` answered, no other range changes,
-- and none does if no change is reported.
pub widen-IsStep :
    (ts : Types) (consts : List Z) (r : Ranges) (c : Constraint) (s : Shape) (i j : IntInterval)
    → All IsProper consts
    → s ≢ channel_shape
    → get ts.type_of r (some (result c)) ≡ some (make s i)
    → IsRange i
    → eval ts r c ≡ some (some (make s j))
    → IsValid j
    → (r' : Ranges) × (changed : Bool) × (widen ts consts r c ≡ some (r', changed))
      × IsStep ts r c s i j r' changed
unfolding widen refine
widen-IsStep ts consts r c int_shape i j ps n e ri a w =
    rw (e, widen, refine)
      (refine_as-Stepped ts r c int_shape i j (widen_int_interval consts)
        (widen-IsGrown consts i j ps ri w) e a)
widen-IsStep ts consts r c string_shape i j ps n e ri a w =
    rw (e, widen, refine)
      (refine_as-Stepped ts r c string_shape i j (widen_int_interval consts)
        (widen-IsGrown consts i j ps ri w) e a)
widen-IsStep ts consts r c slice_shape i j ps n e ri a w =
    rw (e, widen, refine)
      (refine_as-Stepped ts r c slice_shape i j (widen_int_interval consts)
        (widen-IsGrown consts i j ps ri w) e a)
widen-IsStep ts consts r c channel_shape i j ps n e ri a w = absurd (n refl)
