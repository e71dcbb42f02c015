-- ===== src/Vrp/Interval/Set.antt =====
-- The set of integers that an `IntInterval` stands for, and the intervals that the program builds.
use go_tools.Common.{
  true, Ordering, some, ◌≡◌, refl, sym, subst, ◌||◌, ◌⊎◌, inl, inr, ℤ, Bool-cases, ◌&&◌,
  if◌then◌else◌,
}
use go_tools.Vrp.Z.{Z, finite, p_infinity, unset, is_minus, is_p_infinity, is_n_infinity}
use go_tools.Vrp.Z.Order.{IsProper, ◌≤Z◌, ≤Z_trans, Compares, cmp_returns, ≤Z_refl}
use go_tools.Vrp.Interval.{IntInterval, empty_int_interval, new_int_interval, empty}

-- The integer lies in the interval, which is known.
pub record Contains (i : IntInterval) (n : ℤ) : Type 0 where
  pub is_known : i.known ≡ true
  pub above : i.lower ≤Z finite n
  pub below : finite n ≤Z i.upper

-- A known interval: two bounds in order, or the empty interval.
pub record IsValid (i : IntInterval) : Type 0 where
  pub is_known : i.known ≡ true
  pub lower_proper : IsProper i.lower
  pub upper_proper : IsProper i.upper
  pub ordered : (i ≡ empty_int_interval) ⊎ (i.lower ≤Z i.upper)

pub empty_int_interval-IsValid : IsValid empty_int_interval
empty_int_interval-IsValid = record {
  is_known = refl;
  lower_proper = tt;
  upper_proper = tt;
  ordered = inl refl;
}

-- What `NewIntInterval(l, u)` is to be: valid, and the integers from `l` to `u`.
pub record IsSpan (l u : Z) (i : IntInterval) : Type 0 where
  pub valid : IsValid i
  pub inside : (n : ℤ) → l ≤Z finite n → finite n ≤Z u → Contains i n
  pub outside : (n : ℤ) → Contains i n → (l ≤Z finite n) × (finite n ≤Z u)

span : (c : Ordering) (l u : Z) → IntInterval
span c l u =
    if is_minus c then empty_int_interval else record { known = true; lower = l; upper = u }

span-IsSpan :
    (c : Ordering) (l u : Z) → IsProper l → IsProper u → Compares u l c → IsSpan l u (span c l u)
unfolding span
span-IsSpan Ordering.lt l u p q h = record {
  valid = empty_int_interval-IsValid;
  inside = λ n a b. absurd (h.1 (≤Z_trans l (finite n) u a b));
  outside = λ n k. absurd k.above;
}
span-IsSpan Ordering.eq l u p q h = record {
  valid = record {
    is_known = refl;
    lower_proper = p;
    upper_proper = q;
    ordered = inr (subst (λ w. l ≤Z w) (sym h) (≤Z_refl l p));
  };
  inside = λ n a b. record { is_known = refl; above = a; below = b };
  outside = λ n k. (k.above, k.below);
}
span-IsSpan Ordering.gt l u p q h = record {
  valid = record { is_known = refl; lower_proper = p; upper_proper = q; ordered = inr h.0 };
  inside = λ n a b. record { is_known = refl; above = a; below = b };
  outside = λ n k. (k.above, k.below);
}

span-some :
    (c : Ordering) (l u : Z)
    → (if is_minus c
        then some empty_int_interval
        else some (record { known = true; lower = l; upper = u }))
      ≡ some (span c l u)
unfolding span
span-some Ordering.lt l u = refl
span-some _ l u = refl

-- `NewIntInterval` of two bounds that are set returns the interval of the integers between them.
pub new_int_interval-IsSpan :
    (l u : Z)
    → IsProper l
    → IsProper u
    → (i : IntInterval) × (new_int_interval l u ≡ some i) × IsSpan l u i
unfolding new_int_interval span
new_int_interval-IsSpan l u p q =
    let (c, e, h) = cmp_returns u l q p in
    (span c l u, rw e (span-some c l u), span-IsSpan c l u p q h)

pub not-Contains-empty : (i : IntInterval) (n : ℤ) → empty i ≡ true → Contains i n → ⊥
not-Contains-empty i n e k = empty_bounds i.lower i.upper e k.above
  where
    empty_bounds : (l u : Z) → (is_p_infinity l && is_n_infinity u) ≡ true → l ≤Z finite n → ⊥
    empty_bounds p_infinity u e h = h
    empty_bounds unset u e h = h
    empty_bounds _ u e h = cc

pub not-Contains-either :
    (i1 i2 : IntInterval) (a b : ℤ)
    → (empty i1 || empty i2) ≡ true
    → Contains i1 a
    → Contains i2 b
    → ⊥
not-Contains-either i1 i2 a b e k1 k2 = elim (Bool-cases (empty i1)) [
  | inl h ↦ not-Contains-empty i1 a h k1
  | inr h ↦ not-Contains-empty i2 b (rw h at e) k2
]

-- The program's operation `op` on integers, seen on intervals: a valid result that holds every
-- result of `op`.
pub record Covers (op : ℤ → ℤ → ℤ) (i1 i2 i : IntInterval) : Type 0 where
  pub valid : IsValid i
  pub image : (a b : ℤ) → Contains i1 a → Contains i2 b → Contains i (op a b)

-- An operation that returns the empty interval on an empty operand, and otherwise `NewIntInterval`
-- of bounds that hold every result.
pub Covers-span :
    (op : ℤ → ℤ → ℤ) (i1 i2 : IntInterval) (l u : Z)
    → IsProper l
    → IsProper u
    → ((a b : ℤ) → Contains i1 a → Contains i2 b → (l ≤Z finite (op a b)) × (finite (op a b) ≤Z u))
    → (i : IntInterval) × ((if empty i1 || empty i2
          then some empty_int_interval
          else new_int_interval l u)
        ≡ some i)
      × Covers op i1 i2 i
Covers-span op i1 i2 l u p q bounds = elim (Bool-cases (empty i1 || empty i2)) [
  | inl e ↦ (
    empty_int_interval,
    rw e,
    record {
      valid = empty_int_interval-IsValid;
      image = λ a b k1 k2. absurd (not-Contains-either i1 i2 a b e k1 k2);
    },
  )
  | inr e ↦
      let (i, f, s) = new_int_interval-IsSpan l u p q in
      (
        i,
        rw e f,
        record {
          valid = s.valid;
          image = λ a b k1 k2. let h = bounds a b k1 k2 in s.inside (op a b) h.0 h.1;
        },
      )
]
