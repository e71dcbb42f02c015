-- ===== src/Vrp/Eval/Answers.antt =====
-- What `Eval` of constraints of staticcheck/vrp answers on ranges of the types of their values, unknown
-- ones among them.
use go_tools.Common.{
  ◌≡◌, refl, inl, inr, some, none, Option, true, not, ◌||◌, ◌⊎◌, List, [], ◌∷◌, ==_iff, arith,
  ◌>>=◌, ℕ, ℤ, pos, ◌+ℤ◌, if◌then◌else◌,
}
use go_tools.Common.Search.{member}
use go_tools.Vrp.Z.{finite, p_infinity}
use go_tools.Vrp.Interval
use go_tools.Vrp.Interval.{IntInterval, unknown, new_int_interval, intersection}
use go_tools.Vrp.Interval.Set.{IsValid, Covers, new_int_interval-IsSpan}
use go_tools.Vrp.Interval.Lattice.{intersection-IsMeet}
use go_tools.Vrp.Interval.Sound.{add-Covers}
use go_tools.Vrp.Constraint.{Meet}
use go_tools.Vrp.Range.{
  Range, Shape, int_shape, string_shape, slice_shape, channel_shape, int_range, make, as_shape,
  Value, Ranges, Types, get,
}
use go_tools.Vrp.Range.Hull.{IsRange, union-IsJoin, union-none}
use go_tools.Vrp.Eval.Slicing.{sliced_sound}
use go_tools.Vrp.Eval.{
  eval_phi, eval_arithmetic, eval_concat, eval_append, appended, eval_int_intersection,
  eval_string_intersection, length_or_int, eval_length, naturals, lower_bound, upper_bound,
  slice_of_bounds, eval_slicing, eval_array_slice, array_length, range_as,
}

as_shape-make : (s : Shape) (i : IntInterval) → as_shape s (some (make s i)) ≡ some i
as_shape-make int_shape i = refl
as_shape-make string_shape i = refl
as_shape-make slice_shape i = refl
as_shape-make channel_shape i = refl

module _ (ts : Types) (r : Ranges) where
  abbrev pub HasShape : Shape → Value → Type 0
  HasShape s v = (i : IntInterval) × (get ts.type_of r (some v) ≡ some (make s i)) × IsRange i

  abbrev pub Answers : Shape → Option (Option Range) → Type 0
  Answers s answer = (j : IntInterval) × (answer ≡ some (some (make s j))) × IsRange j

  -- `Eval` of a phi, from a union so far
  phi_rest :
      (s : Shape) (vs : List Value) (i : IntInterval)
      → ((v : Value) → member v vs ≡ true → HasShape s v)
      → IsRange i
      → Answers s (eval_phi ts r (some (make s i)) vs)
  unfolding eval_phi
  phi_rest s [] i h ri = (i, refl, ri)
  phi_rest s (v ∷ vs) i h ri =
      let (j, e, rj) = h v (ground (arith, ==_iff v v)) in
      let (k, u, join) = union-IsJoin s j rj i ri in
      let (l, q, rl) = phi_rest s vs k (λ x m. h x (ground arith)) join.range in
      (l, rw (e, u) q, rl)

  pub phi-Answers :
      (s : Shape) (v : Value) (vs : List Value)
      → ((x : Value) → member x (v ∷ vs) ≡ true → HasShape s x)
      → Answers s (eval_phi ts r none (v ∷ vs))
  unfolding eval_phi
  phi-Answers s v vs h =
      let (j, e, rj) = h v (ground (arith, ==_iff v v)) in
      let (k, u, join) = union-none s j rj in
      let (l, q, rl) = phi_rest s vs k (λ x m. h x (ground arith)) join.range in
      (l, rw (e, u) q, rl)

  -- An operation on two known ranges, and `unknown` if one is not.
  known_both :
      (s : Shape) (fn : IntInterval → IntInterval → Option IntInterval) (op : ℤ → ℤ → ℤ)
      → ((i1 i2 : IntInterval)
          → IsValid i1
          → IsValid i2
          → (i : IntInterval) × (fn i1 i2 ≡ some i) × Covers op i1 i2 i)
      → (i j : IntInterval) → IsRange i
      → IsRange j
      → Answers s (
          if not i.known || not j.known
          then some (some (make s unknown))
          else do k ← fn i j; some (some (make s k)))
  known_both s fn op h i j (inl u) rj = (unknown, rw u refl, inl refl)
  known_both s fn op h i j (inr v) (inl u) = (unknown, rw (v.is_known, u) refl, inl refl)
  known_both s fn op h i j (inr v) (inr w) =
      let (k, e, c) = h i j v w in (k, ground (arith, v.is_known, w.is_known, e), inr c.valid)

  pub arithmetic-Answers :
      (fn : IntInterval → IntInterval → Option IntInterval) (op : ℤ → ℤ → ℤ)
      → ((i1 i2 : IntInterval)
          → IsValid i1
          → IsValid i2
          → (i : IntInterval) × (fn i1 i2 ≡ some i) × Covers op i1 i2 i)
      → (a b : Value) → HasShape int_shape a
      → HasShape int_shape b
      → Answers int_shape (eval_arithmetic ts r fn a b)
  unfolding eval_arithmetic
  arithmetic-Answers fn op h a b (i, e, ri) (j, f, rj) =
      let (k, q, rk) = known_both int_shape fn op h i j ri rj in (k, rw (e, f) q, rk)

  pub concat-Answers :
      (a b : Value)
      → HasShape string_shape a
      → HasShape string_shape b
      → Answers string_shape (eval_concat ts r a b)
  unfolding eval_concat
  concat-Answers a b (i, e, ri) (j, f, rj) =
      let (k, q, rk) = known_both string_shape Interval.add ◌+ℤ◌ add-Covers i j ri rj in
      (k, rw (e, f) q, rk)

  pub append-Answers :
      (a b : Value)
      → HasShape slice_shape a
      → HasShape slice_shape b ⊎ HasShape string_shape b
      → Answers slice_shape (eval_append ts r a b)
  unfolding eval_append appended
  append-Answers a b (i, e, ri) (inl (j, f, rj)) =
      let (k, q, rk) = known_both slice_shape Interval.add ◌+ℤ◌ add-Covers i j ri rj in
      (k, rw (e, f) q, rk)
  append-Answers a b (i, e, ri) (inr (j, f, rj)) =
      let (k, q, rk) = known_both slice_shape Interval.add ◌+ℤ◌ add-Covers i j ri rj in
      (k, rw (e, f) q, rk)

  -- A meet with a valid interval, which is the answer if the range is unknown.
  met :
      (s : Shape) (i j : IntInterval)
      → IsRange i
      → IsValid j
      → Answers s (
          if not i.known
          then some (some (make s j))
          else do k ← intersection i j; some (some (make s k)))
  met s i j (inl u) w = (j, rw u refl, inr w)
  met s i j (inr v) w =
      let (k, e, m) = intersection-IsMeet i j v w in (k, ground (arith, v.is_known, e), inr m.valid)

  pub int_intersection-Answers :
      (m : Meet)
      → HasShape int_shape m.a
      → IsValid m.i
      → Answers int_shape (eval_int_intersection ts r m)
  unfolding eval_int_intersection
  int_intersection-Answers m (i, e, ri) w =
      let (k, q, rk) = met int_shape i m.i ri w in (k, rw e q, rk)

  pub string_intersection-Answers :
      (m : Meet)
      → HasShape string_shape m.a ⊎ HasShape int_shape m.a
      → IsValid m.i
      → Answers string_shape (eval_string_intersection ts r m)
  unfolding eval_string_intersection length_or_int
  string_intersection-Answers m (inl (i, e, ri)) w =
      let (k, q, rk) = met string_shape i m.i ri w in (k, rw e q, rk)
  string_intersection-Answers m (inr (i, e, ri)) w =
      let (k, q, rk) = met string_shape i m.i ri w in (k, rw e q, rk)

  length_known :
      (i : IntInterval)
      → IsRange i
      → Answers int_shape (
          if not i.known
          then (do n ← naturals; some (some (int_range n)))
          else some (some (int_range i)))
  length_known i (inr v) = (i, rw (v.is_known) refl, inr v)
  length_known i (inl u) =
      let (n, e, s) = new_int_interval-IsSpan (finite (pos 0)) p_infinity tt tt in
      (n, rw (u, e) refl, inr s.valid)

  pub string_length-Answers :
      (x : Value) → HasShape string_shape x → Answers int_shape (eval_length ts r string_shape x)
  unfolding eval_length
  string_length-Answers x (i, e, ri) = let (k, q, rk) = length_known i ri in (k, rw e q, rk)

  pub slice_length-Answers :
      (x : Value) → HasShape slice_shape x → Answers int_shape (eval_length ts r slice_shape x)
  unfolding eval_length
  slice_length-Answers x (i, e, ri) = let (k, q, rk) = length_known i ri in (k, rw e q, rk)

  -- A bound of a slice expression is missing or an integer.
  abbrev pub HasBound : Option Value → Type 0
  HasBound none = Unit
  HasBound (some v) = HasShape int_shape v

  Bound : Option IntInterval → Type 0
  Bound m = (i : IntInterval) × (m ≡ some i) × IsRange i

  exactly-Bound : (n : ℤ) → Bound (new_int_interval (finite n) (finite n))
  unfolding Bound
  exactly-Bound n =
      let (i, e, s) = new_int_interval-IsSpan (finite n) (finite n) tt tt in (i, e, inr s.valid)

  lower_bound-Bound : (l : Option Value) → HasBound l → Bound (lower_bound ts r l)
  unfolding lower_bound range_as Bound
  lower_bound-Bound none h = unfold Bound in exactly-Bound (pos 0)
  lower_bound-Bound (some v) (i, e, ri) = (i, rw e refl, ri)

  upper_bound-Bound :
      (whole : IntInterval) (l : Option Value)
      → IsRange whole
      → HasBound l
      → Bound (upper_bound ts r whole l)
  unfolding upper_bound range_as Bound
  upper_bound-Bound whole none rw' h = (whole, refl, rw')
  upper_bound-Bound whole (some v) rw' (i, e, ri) = (i, rw e refl, ri)

  slice_of_bounds-Bound :
      (lr ur : IntInterval) → IsRange lr → IsRange ur → Bound (slice_of_bounds lr ur)
  unfolding slice_of_bounds Bound
  slice_of_bounds-Bound lr ur (inl u) rj = (unknown, rw u refl, inl refl)
  slice_of_bounds-Bound lr ur (inr v) (inl u) = (unknown, rw (v.is_known, u) refl, inl refl)
  slice_of_bounds-Bound lr ur (inr v) (inr w) =
      let (i, e, s, _) = sliced_sound lr ur v w in
      (i, ground (arith, v.is_known, w.is_known, e), inr s)

  pub slicing-Answers :
      (s : Shape) (x : Value) (l u : Option Value)
      → HasShape s x
      → HasBound l
      → HasBound u
      → Answers s (eval_slicing ts r s x l u)
  unfolding eval_slicing range_as Bound
  slicing-Answers s x l u (i, e, ri) hl hu =
      let (lr, el, rl) = lower_bound-Bound l hl in
      let (ur, eu, ru) = upper_bound-Bound i u ri hu in
      let (k, q, rk) = slice_of_bounds-Bound lr ur rl ru in
      (k, rw (el, e, as_shape-make s i, eu, q) refl, rk)

  pub array_slice-Answers :
      (x : Value) (l u : Option Value) (n : ℕ)
      → array_length ts x ≡ some n
      → HasBound l
      → HasBound u
      → Answers slice_shape (eval_array_slice ts r x l u)
  unfolding eval_array_slice Bound
  array_slice-Answers x l u n e hl hu =
      let (lr, el, rl) = lower_bound-Bound l hl in
      let (whole, ew, wr) = exactly-Bound (pos n) in
      let (ur, eu, ru) = upper_bound-Bound whole u wr hu in
      let (k, q, rk) = slice_of_bounds-Bound lr ur rl ru in (k, rw (el, e, ew, eu, q) refl, rk)
