-- ===== src/Vrp/Z/Order.antt =====
-- The order that `Cmp` of staticcheck/vrp/int.go computes, and the extrema over it.
use go_tools.Common.{
  ◌+◌, ◌≡◌, refl, sym, subst, ◌∙◌, ◌⊎◌, inl, inr, Ordering, some, List, [], ◌∷◌, arith,
  if◌then◌else◌, Returns, All, ℤ, ◌≤ℤ◌, compare_ℤ, compare-cases, Returns-elim, ap, pos_part,
  neg_part, eq_of_parts,
}
use go_tools.Vrp.Z.{
  Z, unset, n_infinity, p_infinity, finite, cmp, max_z, max_z_from, min_z, min_z_from, is_plus,
  is_minus,
}

-- A value that some operation of the program built: not the zero value of the struct.
abbrev pub IsProper : Z → Type 0
IsProper unset = ⊥
IsProper _ = Unit

infix 50 ◌≤Z◌
abbrev pub ◌≤Z◌ : Z → Z → Type 0
unset ≤Z _ = ⊥
n_infinity ≤Z unset = ⊥
n_infinity ≤Z _ = Unit
p_infinity ≤Z p_infinity = Unit
p_infinity ≤Z _ = ⊥
finite a ≤Z p_infinity = Unit
finite a ≤Z finite b = a ≤ℤ b
finite a ≤Z _ = ⊥

-- What an answer of `Cmp` says of its arguments.
abbrev pub Compares : Z → Z → Ordering → Type 0
Compares z1 z2 Ordering.lt = (z1 ≤Z z2) × ¬ (z2 ≤Z z1)
Compares z1 z2 Ordering.eq = z1 ≡ z2
Compares z1 z2 Ordering.gt = (z2 ≤Z z1) × ¬ (z1 ≤Z z2)

compare_ℤ-Compares : (a b : ℤ) → Compares (finite a) (finite b) (compare_ℤ a b)
compare_ℤ-Compares a b = elim (compare-cases (pos_part a + neg_part b) (pos_part b + neg_part a)) [
  | inl (e, h) ↦ rw e (ground arith, ground arith)
  | inr (inl (e, h)) ↦ rw e (ap finite (eq_of_parts a b h))
  | inr (inr (e, h)) ↦ rw e (ground arith, ground arith)
]

-- `Cmp` answers on all values but the zero value of the struct, and its answer is the order's.
pub cmp-Compares : (z1 z2 : Z) → IsProper z1 → IsProper z2 → Returns (Compares z1 z2) (cmp z1 z2)
unfolding cmp
cmp-Compares unset z2 p q = elim p [ ]
cmp-Compares z1 unset p q = elim q [ ]
cmp-Compares (finite a) (finite b) p q = compare_ℤ-Compares a b
cmp-Compares n_infinity n_infinity p q = refl
cmp-Compares p_infinity p_infinity p q = refl
cmp-Compares _ _ p q = (tt, λ h. h)

pub cmp_returns :
    (z1 z2 : Z)
    → IsProper z1
    → IsProper z2
    → (c : Ordering) × (cmp z1 z2 ≡ some c) × Compares z1 z2 c
cmp_returns z1 z2 p q = Returns-elim (cmp z1 z2) (cmp-Compares z1 z2 p q)

pub ≤Z_refl : (z : Z) → IsProper z → z ≤Z z
≤Z_refl unset p = elim p [ ]
≤Z_refl n_infinity p = tt
≤Z_refl p_infinity p = tt
≤Z_refl (finite n) p = omega arith

pub ≤Z_trans : (z1 z2 z3 : Z) → z1 ≤Z z2 → z2 ≤Z z3 → z1 ≤Z z3
≤Z_trans unset z2 z3 p q = elim p [ ]
≤Z_trans n_infinity unset z3 p q = elim p [ ]
≤Z_trans n_infinity n_infinity z3 p q = q
≤Z_trans n_infinity p_infinity z3 p q = ground arith
≤Z_trans _ _ _ p q = ground arith

-- `m` is one of the listed values.
abbrev pub Among : Z → List Z → Type 0
Among m [] = ⊥
Among m (z ∷ zs) = (m ≡ z) ⊎ Among m zs

abbrev pub IsMax : List Z → Z → Type 0
IsMax zs m = IsProper m × Among m zs × All (λ z. z ≤Z m) zs

abbrev pub IsMin : List Z → Z → Type 0
IsMin zs m = IsProper m × Among m zs × All (λ z. m ≤Z z) zs

All-≤Z-trans : (m m' : Z) (zs : List Z) → m ≤Z m' → All (λ z. z ≤Z m) zs → All (λ z. z ≤Z m') zs
All-≤Z-trans m m' [] h k = tt
All-≤Z-trans m m' (z ∷ zs) h k = (≤Z_trans z m m' k.0 h, All-≤Z-trans m m' zs h k.1)

-- What one round of a loop keeps of the two values that it compares.
abbrev larger : Ordering → Z → Z → Z
larger c z ret = if is_plus c then z else ret

abbrev smaller : Ordering → Z → Z → Z
smaller c z ret = if is_minus c then z else ret

larger-IsMax :
    (c : Ordering) (z ret : Z)
    → IsProper z
    → IsProper ret
    → Compares z ret c
    → IsMax (ret ∷ z ∷ []) (larger c z ret)
larger-IsMax Ordering.lt z ret p q h = (q, inl refl, (≤Z_refl ret q, (h.0, tt)))
larger-IsMax Ordering.eq z ret p q h =
    (q, inl refl, (≤Z_refl ret q, (subst (λ w. w ≤Z ret) (sym h) (≤Z_refl ret q), tt)))
larger-IsMax Ordering.gt z ret p q h = (p, inr (inl refl), (h.0, (≤Z_refl z p, tt)))

smaller-IsMin :
    (c : Ordering) (z ret : Z)
    → IsProper z
    → IsProper ret
    → Compares z ret c
    → IsMin (ret ∷ z ∷ []) (smaller c z ret)
smaller-IsMin Ordering.gt z ret p q h = (q, inl refl, (≤Z_refl ret q, (h.0, tt)))
smaller-IsMin Ordering.eq z ret p q h =
    (q, inl refl, (≤Z_refl ret q, (subst (λ w. ret ≤Z w) (sym h) (≤Z_refl ret q), tt)))
smaller-IsMin Ordering.lt z ret p q h = (p, inr (inl refl), (h.0, (≤Z_refl z p, tt)))

-- The rest of the loop, after a round that kept `m'` of `ret` and `z`.
IsMax-cons :
    (m m' ret z : Z) (zs : List Z)
    → IsMax (ret ∷ z ∷ []) m'
    → IsMax (m' ∷ zs) m
    → IsMax (ret ∷ z ∷ zs) m
IsMax-cons m m' ret z zs h k =
    (k.0, among h.1 k.1, (≤Z_trans ret m' m h.2.0 k.2.0, (≤Z_trans z m' m h.2.1.0 k.2.0, k.2.1)))
  where
    among : Among m' (ret ∷ z ∷ []) → Among m (m' ∷ zs) → Among m (ret ∷ z ∷ zs)
    among (inl e) (inl d) = inl (d ∙ e)
    among (inr (inl e)) (inl d) = inr (inl (d ∙ e))
    among (inr (inr n)) _ = elim n [ ]
    among _ (inr d) = inr (inr d)

IsMin-cons :
    (m m' ret z : Z) (zs : List Z)
    → IsMin (ret ∷ z ∷ []) m'
    → IsMin (m' ∷ zs) m
    → IsMin (ret ∷ z ∷ zs) m
IsMin-cons m m' ret z zs h k =
    (k.0, among h.1 k.1, (≤Z_trans m m' ret k.2.0 h.2.0, (≤Z_trans m m' z k.2.0 h.2.1.0, k.2.1)))
  where
    among : Among m' (ret ∷ z ∷ []) → Among m (m' ∷ zs) → Among m (ret ∷ z ∷ zs)
    among (inl e) (inl d) = inl (d ∙ e)
    among (inr (inl e)) (inl d) = inr (inl (d ∙ e))
    among (inr (inr n)) _ = elim n [ ]
    among _ (inr d) = inr (inr d)

max_z_from-IsMax :
    (ret : Z) (zs : List Z)
    → IsProper ret
    → All IsProper zs
    → (m : Z) × (max_z_from ret zs ≡ some m) × IsMax (ret ∷ zs) m
unfolding max_z_from
max_z_from-IsMax ret [] p ps = (ret, refl, (p, inl refl, (≤Z_refl ret p, tt)))
max_z_from-IsMax ret (z ∷ zs) p ps =
    let (c, e, h) = cmp_returns z ret ps.0 p in
    let step = larger-IsMax c z ret ps.0 p h in
    let (m, f, k) = max_z_from-IsMax (larger c z ret) zs step.0 ps.1 in
    (m, rw e f, IsMax-cons m (larger c z ret) ret z zs step k)

min_z_from-IsMin :
    (ret : Z) (zs : List Z)
    → IsProper ret
    → All IsProper zs
    → (m : Z) × (min_z_from ret zs ≡ some m) × IsMin (ret ∷ zs) m
unfolding min_z_from
min_z_from-IsMin ret [] p ps = (ret, refl, (p, inl refl, (≤Z_refl ret p, tt)))
min_z_from-IsMin ret (z ∷ zs) p ps =
    let (c, e, h) = cmp_returns z ret ps.0 p in
    let step = smaller-IsMin c z ret ps.0 p h in
    let (m, f, k) = min_z_from-IsMin (smaller c z ret) zs step.0 ps.1 in
    (m, rw e f, IsMin-cons m (smaller c z ret) ret z zs step k)

-- `MaxZ` and `MinZ` of one or more values other than the zero value of the struct return, without a
-- panic, one of the values: the greatest and the least.
pub max_z-min_z-IsMax :
    (z : Z) (zs : List Z)
    → All IsProper (z ∷ zs)
    → ((m : Z) × (max_z (z ∷ zs) ≡ some m) × IsMax (z ∷ zs) m)
      × ((m : Z) × (min_z (z ∷ zs) ≡ some m) × IsMin (z ∷ zs) m)
unfolding max_z min_z
max_z-min_z-IsMax z zs p = (max_z_from-IsMax z zs p.0 p.1, min_z_from-IsMin z zs p.0 p.1)
