-- ===== src/Vrp/Interval/Lattice.antt =====
-- `Intersection` and `Union` of intervals.
use go_tools.Common.{
  ◌≡◌, refl, sym, subst, ◌⊎◌, inl, inr, some, [], ◌∷◌, arith, ℤ, Bool-cases, true, false, Ordering,
  eq_of_some, if◌then◌else◌, ◌||◌,
}
use go_tools.Vrp.Z.{Z, finite, is_plus, is_minus}
use go_tools.Vrp.Z.Order.{
  IsProper, ◌≤Z◌, ≤Z_trans, IsMax, IsMin, max_z-min_z-IsMax, Compares, cmp_returns, Among,
}
use go_tools.Vrp.Interval.{
  IntInterval, empty_int_interval, new_int_interval, empty, clip, intersection, union,
}
use go_tools.Vrp.Interval.Set.{
  Contains, IsValid, new_int_interval-IsSpan, empty_int_interval-IsValid, not-Contains-either,
  not-Contains-empty, IsSpan,
}

-- The integers of `i` are those that lie in both operands.
pub record IsMeet (i1 i2 i : IntInterval) : Type 0 where
  pub valid : IsValid i
  pub inside : (n : ℤ) → Contains i1 n → Contains i2 n → Contains i n
  pub outside : (n : ℤ) → Contains i n → Contains i1 n × Contains i2 n

pub Among_pair : (P : Z → Type 0) (m x y : Z) → Among m (x ∷ y ∷ []) → P x → P y → P m
Among_pair P m x y (inl e) p q = subst P (sym e) p
Among_pair P m x y (inr (inl e)) p q = subst P (sym e) q
Among_pair P m x y (inr (inr n)) p q = elim n [ ]

module _ (i1 i2 i3 : IntInterval) (m : IsMeet i1 i2 i3) where
  -- the last test of `Intersection`
  checked :
      (c : Ordering)
      → Compares i3.lower i3.upper c
      → (i : IntInterval) × ((if is_plus c then some empty_int_interval else some i3) ≡ some i)
        × IsMeet i1 i2 i
  checked Ordering.gt h = (
    empty_int_interval,
    refl,
    record {
      valid = empty_int_interval-IsValid;
      inside = λ n a b.
          let k = m.inside n a b in
          absurd (h.1 (≤Z_trans i3.lower (finite n) i3.upper k.above k.below));
      outside = λ n k. absurd k.above;
    },
  )
  checked Ordering.lt h = (i3, refl, m)
  checked Ordering.eq h = (i3, refl, m)

module _ (i1 i2 : IntInterval) (v1 : IsValid i1) (v2 : IsValid i2) where
  meet :
      (l u : Z) (i3 : IntInterval)
      → IsMax (i1.lower ∷ i2.lower ∷ []) l
      → IsMin (i1.upper ∷ i2.upper ∷ []) u
      → IsSpan l u i3
      → IsMeet i1 i2 i3
  meet l u i3 hl hu s = record {
    valid = s.valid;
    inside = λ n k1 k2.
        s.inside n (Among_pair (λ z. z ≤Z finite n) l i1.lower i2.lower hl.1 k1.above k2.above)
          (Among_pair (λ z. finite n ≤Z z) u i1.upper i2.upper hu.1 k1.below k2.below);
    outside = λ n k.
        let b = s.outside n k in
        (
          record {
            is_known = v1.is_known;
            above = ≤Z_trans i1.lower l (finite n) hl.2.0 b.0;
            below = ≤Z_trans (finite n) u i1.upper b.1 hu.2.0;
          },
          record {
            is_known = v2.is_known;
            above = ≤Z_trans i2.lower l (finite n) hl.2.1.0 b.0;
            below = ≤Z_trans (finite n) u i2.upper b.1 hu.2.1.0;
          },
        );
  }

  clip-IsMeet : (i : IntInterval) × (clip i1 i2 ≡ some i) × IsMeet i1 i2 i
  unfolding clip
  clip-IsMeet =
      let ((l, el, hl), _) =
        max_z-min_z-IsMax i1.lower (i2.lower ∷ []) (v1.lower_proper, (v2.lower_proper, tt)) in
      let (_, (u, eu, hu)) =
        max_z-min_z-IsMax i1.upper (i2.upper ∷ []) (v1.upper_proper, (v2.upper_proper, tt)) in
      let (i3, e3, s3) = new_int_interval-IsSpan l u hl.0 hu.0 in
      let (c, ec, hc) = cmp_returns i3.lower i3.upper s3.valid.lower_proper s3.valid.upper_proper in
      rw (el, eu, e3, ec) (checked i1 i2 i3 (meet l u i3 hl hu s3) c hc)

  -- `Intersection` of two valid intervals returns a valid interval, of the integers that lie in both.
  pub intersection-IsMeet : (i : IntInterval) × (intersection i1 i2 ≡ some i) × IsMeet i1 i2 i
  unfolding intersection
  intersection-IsMeet = both (Bool-cases (empty i1 || empty i2))
    where
      both :
          ((empty i1 || empty i2) ≡ true) ⊎ ((empty i1 || empty i2) ≡ false)
          → (i : IntInterval) × (intersection i1 i2 ≡ some i) × IsMeet i1 i2 i
      both (inl e) = (
        empty_int_interval,
        ground (arith, v1.is_known, v2.is_known, e),
        record {
          valid = empty_int_interval-IsValid;
          inside = λ n k1 k2. absurd (not-Contains-either i1 i2 n n e k1 k2);
          outside = λ n k. absurd k.above;
        },
      )
      both (inr e) =
          let (i, f, h) = clip-IsMeet in (i, ground (arith, v1.is_known, v2.is_known, e, f), h)

-- `i` lies between the bounds `l` and `u`.
abbrev pub Within : Z → Z → IntInterval → Type 0
Within l u i = (l ≤Z i.lower) × (i.upper ≤Z u)

-- The least interval that holds both.
pub record IsHull (i1 i2 i : IntInterval) : Type 0 where
  pub valid : IsValid i
  pub left : (n : ℤ) → Contains i1 n → Contains i n
  pub right : (n : ℤ) → Contains i2 n → Contains i n
  pub least : (l u : Z) → Within l u i1 → Within l u i2 → Within l u i

-- A valid interval that is not the empty one has its bounds in order.
pub nonempty_ordered : (i : IntInterval) → IsValid i → empty i ≡ false → i.lower ≤Z i.upper
nonempty_ordered i v e = elim v.ordered [
  | inl h ↦ absurd (subst (λ j. empty j ≡ false → ⊥) (sym h) (λ f. cc) e)
  | inr h ↦ h
]

span-Within :
    (l u l' u' : Z) (i : IntInterval)
    → new_int_interval l u ≡ some i
    → IsProper l
    → IsProper u
    → l ≤Z u
    → Within l' u' (record { known = true; lower = l; upper = u })
    → Within l' u' i
unfolding new_int_interval
span-Within l u l' u' i e p q o w =
    let (c, ec, hc) = cmp_returns u l q p in by_answer c hc (rw ec at e)
  where
    by_answer :
        (c : Ordering)
        → Compares u l c
        → ((if is_minus c
              then some empty_int_interval
              else some (record { known = true; lower = l; upper = u }))
            ≡ some i)
        → Within l' u' i
    by_answer Ordering.lt h f = absurd (h.1 o)
    by_answer Ordering.eq h f = subst (λ j. Within l' u' j) (eq_of_some f) w
    by_answer Ordering.gt h f = subst (λ j. Within l' u' j) (eq_of_some f) w

module _ (i1 i2 : IntInterval) (v1 : IsValid i1) (v2 : IsValid i2) where
  -- `Union` of two valid intervals returns the least valid interval that holds both.
  pub union-IsHull : (i : IntInterval) × (union i1 i2 ≡ some i) × IsHull i1 i2 i
  unfolding union
  union-IsHull = first (Bool-cases (empty i1)) (Bool-cases (empty i2))
    where
      first :
          (empty i1 ≡ true) ⊎ (empty i1 ≡ false)
          → (empty i2 ≡ true) ⊎ (empty i2 ≡ false)
          → (i : IntInterval) × (union i1 i2 ≡ some i) × IsHull i1 i2 i
      first (inl e1) _ = (
        i2,
        ground (arith, e1),
        record {
          valid = v2;
          left = λ n k. absurd (not-Contains-empty i1 n e1 k);
          right = λ n k. k;
          least = λ l u h k. k;
        },
      )
      first (inr e1) (inl e2) = (
        i1,
        ground (arith, e1, e2, v1.is_known),
        record {
          valid = v1;
          left = λ n k. k;
          right = λ n k. absurd (not-Contains-empty i2 n e2 k);
          least = λ l u h k. h;
        },
      )
      first (inr e1) (inr e2) =
          let (_, (l, el, hl)) =
            max_z-min_z-IsMax i1.lower (i2.lower ∷ []) (v1.lower_proper, (v2.lower_proper, tt)) in
          let ((u, eu, hu), _) =
            max_z-min_z-IsMax i1.upper (i2.upper ∷ []) (v1.upper_proper, (v2.upper_proper, tt)) in
          let (i, f, s) = new_int_interval-IsSpan l u hl.0 hu.0 in
          let o =
            ≤Z_trans l i1.lower u hl.2.0
              (≤Z_trans i1.lower i1.upper u (nonempty_ordered i1 v1 e1) hu.2.0) in
          (
            i,
            ground (arith, e1, e2, v1.is_known, v2.is_known, el, eu, f),
            record {
              valid = s.valid;
              left = λ n k.
                  s.inside n (≤Z_trans l i1.lower (finite n) hl.2.0 k.above)
                    (≤Z_trans (finite n) i1.upper u k.below hu.2.0);
              right = λ n k.
                  s.inside n (≤Z_trans l i2.lower (finite n) hl.2.1.0 k.above)
                    (≤Z_trans (finite n) i2.upper u k.below hu.2.1.0);
              least = λ l' u' h k. span-Within l u l' u' i f hl.0 hu.0 o (
                Among_pair (λ z. l' ≤Z z) l i1.lower i2.lower hl.1 h.0 k.0,
                Among_pair (λ z. z ≤Z u') u i1.upper i2.upper hu.1 h.1 k.1,
              );
            },
          )
