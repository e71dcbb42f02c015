-- ===== src/Vrp/Eval/Conversion.antt =====
-- `IntConversionConstraint.Eval` of staticcheck/vrp/int.go.
use go_tools.Common.{
  ◌≡◌, refl, ◌⊎◌, inl, inr, some, Option, Bool, true, false, ℤ, pos, ◌≤ℤ◌, [], ◌∷◌, arith, ◌>>=◌,
  if◌then◌else◌, ltb, ◌&&◌,
}
use go_tools.Vrp.Z.{Z, finite, n_infinity, max_z, min_z}
use go_tools.Vrp.Z.Order.{IsProper, ◌≤Z◌, max_z-min_z-IsMax}
use go_tools.Vrp.Interval.{IntInterval, new_int_interval}
use go_tools.Vrp.Interval.Set.{Contains, IsValid, new_int_interval-IsSpan}
use go_tools.Vrp.Interval.Lattice.{Among_pair}
use go_tools.Vrp.Range.{BasicType, int_shape, basic, Value, Ranges, Types}
use go_tools.Vrp.Eval.{range_as, convert_interval, eval_conversion, all_ones}
use go_tools.Vrp.Eval.Transfer.{Reads, Yields}
use go_tools.Vrp.Eval.Bounds.{Holding}

-- Bounds that are taken as the maximum and the minimum of two each.
clamped :
    (n : ℤ) (l1 l2 u1 u2 : Z)
    → IsProper l1
    → IsProper l2
    → IsProper u1
    → IsProper u2
    → l1 ≤Z finite n
    → l2 ≤Z finite n
    → finite n ≤Z u1
    → finite n ≤Z u2
    → Holding n (do l ← max_z (l1 ∷ l2 ∷ []); u ← min_z (u1 ∷ u2 ∷ []); new_int_interval l u)
clamped n l1 l2 u1 u2 p1 p2 q1 q2 a1 a2 b1 b2 =
    let ((l, el, hl), _) = max_z-min_z-IsMax l1 (l2 ∷ []) (p1, (p2, tt)) in
    let (_, (u, eu, hu)) = max_z-min_z-IsMax u1 (u2 ∷ []) (q1, (q2, tt)) in
    let (i, e, s) = new_int_interval-IsSpan l u hl.0 hu.0 in
    (
      i,
      rw (el, eu) e,
      s.valid,
      s.inside n (Among_pair (λ z. z ≤Z finite n) l l1 l2 hl.1 a1 a2)
          (Among_pair (λ z. finite n ≤Z z) u u1 u2 hu.1 b1 b2),
    )

-- `n` is a value of an integer type: at most the largest number of its size, and not negative if the
-- type is unsigned.
pub record IsOf (t : BasicType) (n : ℤ) : Type 0 where
  pub at_most : finite n ≤Z all_ones t.size
  pub unsigned : t.is_unsigned ≡ true → pos 0 ≤ℤ n

-- Holding under the two tests of the conversion
branches :
    (n : ℤ) (g1 g2 : Bool) (a b c : Option IntInterval)
    → (g1 ≡ true → Holding n a)
    → Holding n b
    → Holding n c
    → Holding n (if g1 then a else if g2 then b else c)
branches n true g2 a b c x y z = x refl
branches n false true a b c x y z = y
branches n false false a b c x y z = z

and_left : (a b : Bool) → (a && b) ≡ true → a ≡ true
and_left true b h = refl
and_left false b h = cc

module _ (from to : BasicType) (i j : IntInterval) (n : ℤ) where
  -- A conversion that keeps the value `n`.
  convert_interval_sound :
      IsOf from n
      → IsValid i
      → Contains i n
      → (j.known ≡ false) ⊎ (IsValid j × Contains j n)
      → Holding n (convert_interval from to i j)
  unfolding convert_interval
  convert_interval_sound t v k (inl u) = (i, ground (arith, v.is_known, u), v, k)
  convert_interval_sound t v k (inr (w, m)) =
      simp (v.is_known, w.is_known)
        (branches n (from.is_unsigned && ltb from.size to.size) _ _ _ _
          (λ g.
            clamped n (finite (pos 0)) i.lower (all_ones from.size) j.upper tt v.lower_proper tt
              w.upper_proper (t.unsigned (and_left from.is_unsigned _ g)) k.above t.at_most m.below)
          (clamped n n_infinity i.lower (all_ones from.size) j.upper tt v.lower_proper tt
            w.upper_proper tt k.above t.at_most m.below)
          (i, refl, v, k))

module _ (ts : Types) (r : Ranges) where
  -- The range of the result so far is unknown, or holds the value.
  pub record IsOpen (y : Value) (n : ℤ) : Type 0 where
    pub i : IntInterval
    pub found : range_as ts r int_shape y ≡ some i
    pub range : (i.known ≡ false) ⊎ (IsValid i × Contains i n)

  pub eval_conversion_sound :
      (x y : Value) (n : ℤ) (from to : BasicType)
      → ts.type_of x ≡ basic from
      → ts.type_of y ≡ basic to
      → IsOf from n
      → Reads ts r int_shape x n
      → IsOpen y n
      → Yields int_shape n (eval_conversion ts r x y)
  unfolding eval_conversion
  eval_conversion_sound x y n from to ex ey t a b =
      let (i, e, v, k) = convert_interval_sound from to a.i b.i n t a.valid a.holds b.range in
      (i, rw (a.found, b.found, ex, ey, e), v, k)
