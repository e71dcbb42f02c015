-- ===== src/Vrp/Solver/Settle.antt =====
-- The components of one value in `Solve` (staticcheck/vrp/vrp.go).
use go_tools.Common.{
  ◌≡◌, ◌≢◌, refl, ◌⊎◌, inl, inr, some, none, Option, Bool, true, false, ℤ, pos, ◌≤ℤ◌, eq_of_some,
}
use go_tools.Vrp.Z.{finite, p_infinity}
use go_tools.Vrp.Interval.{IntInterval, infinity_for}
use go_tools.Vrp.Interval.Set.{IsValid, Contains}
use go_tools.Vrp.Range.{
  Shape, int_shape, string_shape, slice_shape, channel_shape, make, BasicKind, text, listed_int,
  other_kind, BasicType, GoType, basic, chan_type, slice_type, Value, Ranges, Types, get, store,
}
use go_tools.Vrp.Eval.{naturals, range_as}
use go_tools.Vrp.Eval.Bounds.{Holding}
use go_tools.Vrp.Future.Resolved.{infinity_for-Holding, spanning}
use go_tools.Vrp.Solver.{settle, settle_as}
use go_tools.Vrp.Solver.Step.{get-store_self, get-store_ne, as_shape-make}

-- The dynamic type of the ranges of a type, if it has any.
abbrev basic_shape : BasicKind → Shape
basic_shape text = string_shape
basic_shape _ = int_shape

abbrev pub shape_of : GoType → Option Shape
shape_of (basic t) = some (basic_shape t.kind)
shape_of chan_type = some channel_shape
shape_of slice_type = some slice_shape
shape_of _ = none

-- The integers that a value of a type can hold: not negative, but for signed basic types that are not
-- strings.
abbrev IsPossibleBasic : BasicKind → Bool → ℤ → Type 0
IsPossibleBasic text unsigned n = pos 0 ≤ℤ n
IsPossibleBasic _ unsigned n = unsigned ≡ true → pos 0 ≤ℤ n

abbrev pub IsPossible : GoType → ℤ → Type 0
IsPossible (basic t) n = IsPossibleBasic t.kind t.is_unsigned n
IsPossible _ n = pos 0 ≤ℤ n

module _ (ts : Types) (r : Ranges) (v : Value) (s : Shape) (i : IntInterval) (n : ℤ) where
  -- After the step the range of the value is known and holds `n`, and the other ranges are as before.
  pub record IsSettled (r' : Ranges) : Type 0 where
    pub k : IntInterval
    pub found : get ts.type_of r' (some v) ≡ some (make s k)
    pub valid : IsValid k
    pub holds : Contains k n
    pub others : (w : Value) → v ≢ w → get ts.type_of r' (some w) ≡ get ts.type_of r (some w)

  settle_as-IsSettled :
      (default : Option IntInterval)
      → get ts.type_of r (some v) ≡ some (make s i)
      → (i.known ≡ false) ⊎ (IsValid i × Contains i n)
      → Holding n default
      → (r' : Ranges) × (settle_as ts r v s default ≡ some r') × IsSettled r'
  unfolding settle_as range_as
  settle_as-IsSettled default e (inl u) (d, ed, vd, kd) = (
    store r v (some (make s d)),
    rw (e, as_shape-make s i, u, ed),
    record {
      k = d;
      found = get-store_self ts.type_of r v (some (make s d));
      valid = vd;
      holds = kd;
      others = λ w h. get-store_ne ts.type_of r v w (some (make s d)) h;
    },
  )
  settle_as-IsSettled default e (inr (vi, ki)) h = (
    r,
    rw (e, as_shape-make s i, vi.is_known),
    record { k = i; found = e; valid = vi; holds = ki; others = λ w h. refl },
  )

  from_default :
      (s' : Shape) (default : Option IntInterval)
      → settle ts r v ≡ settle_as ts r v s' default
      → s' ≡ s
      → Holding n default
      → get ts.type_of r (some v) ≡ some (make s i)
      → (i.known ≡ false) ⊎ (IsValid i × Contains i n)
      → (r' : Ranges) × (settle ts r v ≡ some r') × IsSettled r'
  from_default s' default f es h e u = rw (f, es) (settle_as-IsSettled default e u h)

  default_of_basic :
      (t : BasicType) (k : BasicKind)
      → t.kind ≡ k
      → basic_shape k ≡ s
      → IsPossibleBasic k t.is_unsigned n
      → ts.type_of v ≡ basic t
      → get ts.type_of r (some v) ≡ some (make s i)
      → (i.known ≡ false) ⊎ (IsValid i × Contains i n)
      → (r' : Ranges) × (settle ts r v ≡ some r') × IsSettled r'
  unfolding settle
  default_of_basic t text ek es h et =
      from_default string_shape naturals (rw (et, ek, settle) refl) es
        (spanning (finite (pos 0)) p_infinity n tt tt h tt)
  default_of_basic t listed_int ek es h et =
      from_default int_shape (infinity_for t.is_unsigned) (rw (et, ek, settle) refl) es
        (infinity_for-Holding t.is_unsigned n h)
  default_of_basic t other_kind ek es h et =
      from_default int_shape (infinity_for t.is_unsigned) (rw (et, ek, settle) refl) es
        (infinity_for-Holding t.is_unsigned n h)

  default_of_type :
      (t : GoType)
      → shape_of t ≡ some s
      → IsPossible t n
      → ts.type_of v ≡ t
      → get ts.type_of r (some v) ≡ some (make s i)
      → (i.known ≡ false) ⊎ (IsValid i × Contains i n)
      → (r' : Ranges) × (settle ts r v ≡ some r') × IsSettled r'
  unfolding settle
  default_of_type (basic t) es h et e u = default_of_basic t t.kind refl (eq_of_some es) h et e u
  default_of_type chan_type es h et e u =
      from_default channel_shape naturals (rw (et, settle) refl) (eq_of_some es)
        (spanning (finite (pos 0)) p_infinity n tt tt h tt) e u
  default_of_type slice_type es h et e u =
      from_default slice_shape naturals (rw (et, settle) refl) (eq_of_some es)
        (spanning (finite (pos 0)) p_infinity n tt tt h tt) e u
  default_of_type _ es h et e u = cc

  -- For a component of one value, whose range is there with the type of the value, `Solve` sets a
  -- default if the range is unknown: the range is then valid and holds every integer `n` that the type
  -- allows, if the range, where it is known, was valid and held `n`. No other range changes.
  pub settle-IsSettled :
      shape_of (ts.type_of v) ≡ some s
      → IsPossible (ts.type_of v) n
      → get ts.type_of r (some v) ≡ some (make s i)
      → (i.known ≡ false) ⊎ (IsValid i × Contains i n)
      → (r' : Ranges) × (settle ts r v ≡ some r') × IsSettled r'
  settle-IsSettled es h e u = default_of_type (ts.type_of v) es h refl e u
