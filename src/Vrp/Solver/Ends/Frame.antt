-- ===== src/Vrp/Solver/Ends/Frame.antt =====
-- What the constraints of staticcheck/vrp read of the ranges when they are evaluated.
use go_tools.Common.{◌≡◌, refl, ap, some, none, Option, true, List, [], ◌∷◌, ==_iff, arith, ◌>>=◌}
use go_tools.Common.Search.{member}
use go_tools.Vrp.Constraint.{
  Constraint, operands, phi, int_add, int_sub, int_mul, int_conversion, int_intersection,
  string_intersection, int_interval, string_interval, slice_interval, string_slice, slice_slice,
  array_slice, string_concat, slice_append, string_length, slice_length, slice_intersection,
  make_slice, make_channel, channel_change_type, copy,
}
use go_tools.Vrp.Range.{
  Range, union, Shape, string_shape, slice_shape, channel_shape, Value, Ranges, Types, get,
}
use go_tools.Vrp.Eval.{
  eval, eval_phi, eval_arithmetic, eval_int_intersection, eval_string_intersection, eval_slicing,
  eval_array_slice, eval_concat, eval_length, eval_append, eval_slice_intersection, eval_make,
}

-- Not a conversion, whose evaluation reads the range of its own result.
abbrev pub IsLocal : Constraint → Type 0
IsLocal (int_conversion x y) = ⊥
IsLocal _ = Unit

bind_same :
    {A B : Type 0} (m : Option A) (f g : A → Option B)
    → ((a : A) → f a ≡ g a)
    → (do a ← m; f a) ≡ (do a ← m; g a)
bind_same none f g h = refl
bind_same (some a) f g h = h a

module _ (ts : Types) (r r' : Ranges) where
  abbrev pub Same : List Value → Type 0
  Same vs =
      (v : Value) → member v vs ≡ true → get ts.type_of r' (some v) ≡ get ts.type_of r (some v)

  head-Same :
      (v : Value) (vs : List Value)
      → Same (v ∷ vs)
      → get ts.type_of r' (some v) ≡ get ts.type_of r (some v)
  head-Same v vs h = h v (ground (arith, ==_iff v v))

  tail-Same : (v : Value) (vs : List Value) → Same (v ∷ vs) → Same vs
  tail-Same v vs h x m = h x (ground arith)

  phi-Same :
      (vs : List Value) (i : Option Range) → Same vs → eval_phi ts r' i vs ≡ eval_phi ts r i vs
  unfolding eval_phi
  phi-Same [] i h = refl
  phi-Same (v ∷ vs) i h = rw (head-Same v vs h) (
      bind_same (get ts.type_of r (some v)) _ _ (λ range.
        bind_same (union range i) _ _ (λ next. phi-Same vs (some next) (tail-Same v vs h))))

  slicing-Same :
      (s : Shape) (x : Value) (b u : Option Value) (y : Value)
      → Same (operands (string_slice x b u y))
      → eval_slicing ts r' s x b u ≡ eval_slicing ts r s x b u
  unfolding eval_slicing operands
  slicing-Same s x none none y h = rw (head-Same x [] h) refl
  slicing-Same s x none (some u) y h =
      rw (head-Same x (u ∷ []) h, head-Same u [] (tail-Same x (u ∷ []) h)) refl
  slicing-Same s x (some b) none y h =
      rw (head-Same x (b ∷ []) h, head-Same b [] (tail-Same x (b ∷ []) h)) refl
  slicing-Same s x (some b) (some u) y h =
      let t = tail-Same x (b ∷ u ∷ []) h in
      rw
        (
          head-Same x (b ∷ u ∷ []) h,
          head-Same b (u ∷ []) t,
          head-Same u [] (tail-Same b (u ∷ []) t),
        )
        refl

  array_slice-Same :
      (x : Value) (b u : Option Value) (y : Value)
      → Same (operands (array_slice x b u y))
      → eval_array_slice ts r' x b u ≡ eval_array_slice ts r x b u
  unfolding eval_array_slice operands
  array_slice-Same x none none y h = refl
  array_slice-Same x none (some u) y h = rw (head-Same u [] (tail-Same x (u ∷ []) h)) refl
  array_slice-Same x (some b) none y h = rw (head-Same b [] (tail-Same x (b ∷ []) h)) refl
  array_slice-Same x (some b) (some u) y h =
      let t = tail-Same x (b ∷ u ∷ []) h in
      rw (head-Same b (u ∷ []) t, head-Same u [] (tail-Same b (u ∷ []) t)) refl

  make_same :
      (s : Shape) (size : Value)
      → get ts.type_of r' (some size) ≡ get ts.type_of r (some size)
      → eval_make ts r' s size ≡ eval_make ts r s size
  unfolding eval_make
  make_same s size h = ground (arith, h)

  pub eval-Same : (c : Constraint) → IsLocal c → Same (operands c) → eval ts r' c ≡ eval ts r c
  unfolding eval operands eval_arithmetic eval_int_intersection eval_string_intersection eval_concat
      eval_length eval_append eval_slice_intersection eval_make
  eval-Same (phi vs y) l h = phi-Same vs none h
  eval-Same (int_add a b y) l h =
      rw (head-Same a (b ∷ []) h, head-Same b [] (tail-Same a (b ∷ []) h)) refl
  eval-Same (int_sub a b y) l h =
      rw (head-Same a (b ∷ []) h, head-Same b [] (tail-Same a (b ∷ []) h)) refl
  eval-Same (int_mul a b y) l h =
      rw (head-Same a (b ∷ []) h, head-Same b [] (tail-Same a (b ∷ []) h)) refl
  eval-Same (int_conversion x y) l h = absurd l
  eval-Same (int_intersection m y) l h = rw (head-Same m.a [] h) refl
  eval-Same (string_intersection m y) l h = rw (head-Same m.a [] h) refl
  eval-Same (int_interval i y) l h = refl
  eval-Same (string_interval i y) l h = refl
  eval-Same (slice_interval i y) l h = refl
  eval-Same (string_slice x b u y) l h = slicing-Same string_shape x b u y h
  eval-Same (slice_slice x b u y) l h = slicing-Same slice_shape x b u y h
  eval-Same (array_slice x b u y) l h = array_slice-Same x b u y h
  eval-Same (string_concat a b y) l h =
      rw (head-Same a (b ∷ []) h, head-Same b [] (tail-Same a (b ∷ []) h)) refl
  eval-Same (slice_append a b y) l h =
      rw (head-Same a (b ∷ []) h, head-Same b [] (tail-Same a (b ∷ []) h)) refl
  eval-Same (string_length x y) l h = rw (head-Same x [] h) refl
  eval-Same (slice_length x y) l h = rw (head-Same x [] h) refl
  eval-Same (slice_intersection x i y) l h = rw (head-Same x [] h) refl
  eval-Same (make_slice size y) l h = make_same slice_shape size (head-Same size [] h)
  eval-Same (make_channel buffer y) l h = make_same channel_shape buffer (head-Same buffer [] h)
  eval-Same (channel_change_type x y) l h = ap some (head-Same x [] h)
  eval-Same (copy x y) l h = ap some (head-Same x [] h)
