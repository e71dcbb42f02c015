-- ===== src/Vrp/Eval/Typed.antt =====
-- The constraints of staticcheck/vrp whose `Eval` answers whatever the ranges are, as long as these have
-- the types of their values.
use go_tools.Common.{
  ◌≡◌, refl, subst, ap, inl, inr, some, none, Option, true, not, ◌&&◌, ◌⊎◌, List, [], ◌∷◌, arith,
  ◌>>=◌, ℕ, pos, ◌+ℤ◌, ◌-ℤ◌, ◌*ℤ◌, ltb, Bool-cases,
}
use go_tools.Common.Search.{member}
use go_tools.Vrp.Z.{Z, finite, n_infinity, max_z, min_z}
use go_tools.Vrp.Z.Order.{IsProper, max_z-min_z-IsMax}
use go_tools.Vrp.Interval
use go_tools.Vrp.Interval.{IntInterval, unknown, new_int_interval}
use go_tools.Vrp.Interval.Set.{IsValid, new_int_interval-IsSpan}
use go_tools.Vrp.Interval.Sound.{add-Covers, sub-Covers, mul-Covers}
use go_tools.Vrp.Constraint.{
  Constraint, Meet, phi, int_add, int_sub, int_mul, int_conversion, int_intersection,
  string_intersection, int_interval, string_interval, slice_interval, string_slice, slice_slice,
  array_slice, string_concat, slice_append, string_length, slice_length, copy,
}
use go_tools.Vrp.Range.{
  Shape, int_shape, string_shape, slice_shape, BasicType, basic, Value, Ranges, Types,
}
use go_tools.Vrp.Range.Hull.{IsRange}
use go_tools.Vrp.Eval.{eval, eval_conversion, convert_interval, range_as, all_ones}
use go_tools.Vrp.Eval.Sound.{IsArray, array_length-IsArray}
use go_tools.Vrp.Eval.Answers.{
  HasShape, HasBound, Answers, phi-Answers, arithmetic-Answers, concat-Answers, append-Answers,
  int_intersection-Answers, string_intersection-Answers, string_length-Answers,
  slice_length-Answers, slicing-Answers, array_slice-Answers,
}

cut :
    (i j : IntInterval) (low high : Z)
    → IsValid i
    → IsValid j
    → IsProper low
    → IsProper high
    → (k : IntInterval) × ((do
      l ← max_z (low ∷ i.lower ∷ [])
      u ← min_z (high ∷ j.upper ∷ [])
      new_int_interval l u)
        ≡ some k)
      × IsRange k
cut i j low high v w p q =
    let ((l, el, hl), _) = max_z-min_z-IsMax low (i.lower ∷ []) (p, (v.lower_proper, tt)) in
    let (_, (u, eu, hu)) = max_z-min_z-IsMax high (j.upper ∷ []) (q, (w.upper_proper, tt)) in
    let (k, e, s) = new_int_interval-IsSpan l u hl.0 hu.0 in (k, rw (el, eu) e, inr s.valid)

convert_interval-IsRange :
    (from to : BasicType) (i j : IntInterval)
    → IsRange i
    → IsRange j
    → (k : IntInterval) × (convert_interval from to i j ≡ some k) × IsRange k
unfolding convert_interval
convert_interval-IsRange from to i j (inl u) rj = (j, rw u refl, rj)
convert_interval-IsRange from to i j (inr v) (inl u) = (i, ground (arith, v.is_known, u), inr v)
convert_interval-IsRange from to i j (inr v) (inr w) =
    elim (Bool-cases (from.is_unsigned && ltb from.size to.size)) [
      | inl e ↦
          let (k, q, rk) = cut i j (finite (pos 0)) (all_ones from.size) v w tt tt in
          (k, ground (arith, v.is_known, w.is_known, e, q), rk)
      | inr e ↦
          elim (Bool-cases (not from.is_unsigned && not to.is_unsigned && ltb from.size to.size)) [
            | inl f ↦
                let (k, q, rk) = cut i j n_infinity (all_ones from.size) v w tt tt in
                (k, ground (arith, v.is_known, w.is_known, e, f, q), rk)
            | inr f ↦ (i, ground (arith, v.is_known, w.is_known, e, f), inr v)
          ]
    ]

-- `shape_of` gives the values of `vs` the types of their ranges.
module _ (ts : Types) (vs : List Value) (shape_of : Value → Shape) where
  abbrev pub IsValue : Shape → Value → Type 0
  IsValue s v = (member v vs ≡ true) × (shape_of v ≡ s)

  abbrev pub IsBound : Option Value → Type 0
  IsBound none = Unit
  IsBound (some v) = IsValue int_shape v

  -- The operands are values with ranges of the types that the constraint wants, and its intervals are
  -- valid. There is no rule for the constraints of `make`, whose `Eval` panics on an unknown size, for the
  -- meet of a slice, whose `Eval` answers an integer interval for an unknown length, and for channels.
  pub data IsTyped : Shape → Constraint → Type 0 where
    typed_phi :
        (s : Shape) (v : Value) (vars : List Value) (y : Value)
        → ((x : Value) → member x (v ∷ vars) ≡ true → IsValue s x)
        → IsTyped s (phi (v ∷ vars) y)
    typed_add :
        (a b y : Value)
        → IsValue int_shape a
        → IsValue int_shape b
        → IsTyped int_shape (int_add a b y)
    typed_sub :
        (a b y : Value)
        → IsValue int_shape a
        → IsValue int_shape b
        → IsTyped int_shape (int_sub a b y)
    typed_mul :
        (a b y : Value)
        → IsValue int_shape a
        → IsValue int_shape b
        → IsTyped int_shape (int_mul a b y)
    typed_conversion :
        (x y : Value) (from to : BasicType)
        → ts.type_of x ≡ basic from
        → ts.type_of y ≡ basic to
        → IsValue int_shape x
        → IsValue int_shape y
        → IsTyped int_shape (int_conversion x y)
    typed_int_intersection :
        (m : Meet) (y : Value)
        → IsValue int_shape m.a
        → IsValid m.i
        → IsTyped int_shape (int_intersection m y)
    typed_string_intersection :
        (m : Meet) (y : Value)
        → IsValue string_shape m.a ⊎ IsValue int_shape m.a
        → IsValid m.i
        → IsTyped string_shape (string_intersection m y)
    typed_int_interval :
        (i : IntInterval) (y : Value) → IsRange i → IsTyped int_shape (int_interval i y)
    typed_string_interval :
        (i : IntInterval) (y : Value) → IsRange i → IsTyped string_shape (string_interval i y)
    typed_slice_interval :
        (i : IntInterval) (y : Value) → IsRange i → IsTyped slice_shape (slice_interval i y)
    typed_string_slice :
        (x : Value) (l u : Option Value) (y : Value)
        → IsValue string_shape x
        → IsBound l
        → IsBound u
        → IsTyped string_shape (string_slice x l u y)
    typed_slice_slice :
        (x : Value) (l u : Option Value) (y : Value)
        → IsValue slice_shape x
        → IsBound l
        → IsBound u
        → IsTyped slice_shape (slice_slice x l u y)
    typed_array_slice :
        (x : Value) (l u : Option Value) (y : Value) (n : ℕ)
        → IsArray ts x n
        → IsBound l
        → IsBound u
        → IsTyped slice_shape (array_slice x l u y)
    typed_concat :
        (a b y : Value)
        → IsValue string_shape a
        → IsValue string_shape b
        → IsTyped string_shape (string_concat a b y)
    typed_append :
        (a b y : Value)
        → IsValue slice_shape a
        → IsValue slice_shape b ⊎ IsValue string_shape b
        → IsTyped slice_shape (slice_append a b y)
    typed_string_length :
        (x y : Value) → IsValue string_shape x → IsTyped int_shape (string_length x y)
    typed_slice_length :
        (x y : Value) → IsValue slice_shape x → IsTyped int_shape (slice_length x y)
    typed_copy : (s : Shape) (x y : Value) → IsValue s x → IsTyped s (copy x y)

  module _ (r : Ranges) (h : (v : Value) → member v vs ≡ true → HasShape ts r (shape_of v) v) where
    value-HasShape : (s : Shape) (v : Value) → IsValue s v → HasShape ts r s v
    value-HasShape s v (m, e) = subst (λ t. HasShape ts r t v) e (h v m)

    bound-HasBound : (l : Option Value) → IsBound l → HasBound ts r l
    bound-HasBound none b = tt
    bound-HasBound (some v) b = value-HasShape int_shape v b

    conversion-Answers :
        (x y : Value) (from to : BasicType)
        → ts.type_of x ≡ basic from
        → ts.type_of y ≡ basic to
        → HasShape ts r int_shape x
        → HasShape ts r int_shape y
        → Answers ts r int_shape (eval_conversion ts r x y)
    unfolding eval_conversion range_as
    conversion-Answers x y from to ex ey (i, e, ri) (j, f, rj) =
        let (k, q, rk) = convert_interval-IsRange from to i j ri rj in
        (k, rw (e, f, ex, ey, q) refl, rk)

    -- `Eval` of a typed constraint does not panic, and answers a range of its type.
    pub typed-Answers : (s : Shape) (c : Constraint) → IsTyped s c → Answers ts r s (eval ts r c)
    unfolding eval
    typed-Answers s c (typed_phi _ v vars y f) =
        phi-Answers ts r s v vars (λ x m. value-HasShape s x (f x m))
    typed-Answers s c (typed_add a b y p q) =
        arithmetic-Answers ts r Interval.add ◌+ℤ◌ add-Covers a b (value-HasShape int_shape a p)
          (value-HasShape int_shape b q)
    typed-Answers s c (typed_sub a b y p q) =
        arithmetic-Answers ts r Interval.sub ◌-ℤ◌ sub-Covers a b (value-HasShape int_shape a p)
          (value-HasShape int_shape b q)
    typed-Answers s c (typed_mul a b y p q) =
        arithmetic-Answers ts r Interval.mul ◌*ℤ◌ mul-Covers a b (value-HasShape int_shape a p)
          (value-HasShape int_shape b q)
    typed-Answers s c (typed_conversion x y from to ex ey p q) =
        conversion-Answers x y from to ex ey (value-HasShape int_shape x p)
          (value-HasShape int_shape y q)
    typed-Answers s c (typed_int_intersection m y p v) =
        int_intersection-Answers ts r m (value-HasShape int_shape m.a p) v
    typed-Answers s c (typed_string_intersection m y (inl p) v) =
        string_intersection-Answers ts r m (inl (value-HasShape string_shape m.a p)) v
    typed-Answers s c (typed_string_intersection m y (inr p) v) =
        string_intersection-Answers ts r m (inr (value-HasShape int_shape m.a p)) v
    typed-Answers s c (typed_int_interval i y v) = (i, refl, v)
    typed-Answers s c (typed_string_interval i y v) = (i, refl, v)
    typed-Answers s c (typed_slice_interval i y v) = (i, refl, v)
    typed-Answers s c (typed_string_slice x l u y p bl bu) =
        slicing-Answers ts r s x l u (value-HasShape string_shape x p) (bound-HasBound l bl)
          (bound-HasBound u bu)
    typed-Answers s c (typed_slice_slice x l u y p bl bu) =
        slicing-Answers ts r s x l u (value-HasShape slice_shape x p) (bound-HasBound l bl)
          (bound-HasBound u bu)
    typed-Answers s c (typed_array_slice x l u y n a bl bu) =
        array_slice-Answers ts r x l u n (array_length-IsArray ts x n a) (bound-HasBound l bl)
          (bound-HasBound u bu)
    typed-Answers s c (typed_concat a b y p q) =
        concat-Answers ts r a b (value-HasShape string_shape a p) (value-HasShape string_shape b q)
    typed-Answers s c (typed_append a b y p (inl q)) =
        append-Answers ts r a b (value-HasShape slice_shape a p)
          (inl (value-HasShape slice_shape b q))
    typed-Answers s c (typed_append a b y p (inr q)) =
        append-Answers ts r a b (value-HasShape slice_shape a p)
          (inr (value-HasShape string_shape b q))
    typed-Answers s c (typed_string_length x y p) =
        string_length-Answers ts r x (value-HasShape string_shape x p)
    typed-Answers s c (typed_slice_length x y p) =
        slice_length-Answers ts r x (value-HasShape slice_shape x p)
    typed-Answers s c (typed_copy _ x y p) =
        let (i, e, ri) = value-HasShape s x p in (i, ap some e, ri)
