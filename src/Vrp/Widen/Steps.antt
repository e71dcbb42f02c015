-- ===== src/Vrp/Widen/Steps.antt =====
-- One step of a bound under widening (staticcheck/vrp/vrp.go).
use go_tools.Common.{
  ◌≡◌, refl, subst, ◌⊎◌, inl, inr, some, true, List, [], ◌∷◌, All, Ordering, if◌then◌else◌,
}
use go_tools.Vrp.Z.{Z, n_infinity, p_infinity, unset, is_minus, cmp}
use go_tools.Vrp.Z.Order.{IsProper, ◌≤Z◌, ≤Z_refl, Compares, cmp_returns, Among}
use go_tools.Vrp.Interval.{new_int_interval, empty_int_interval}
use go_tools.Vrp.Widen.{first_at_most, first_at_least}

pub n_infinity-le : (z : Z) → IsProper z → n_infinity ≤Z z
n_infinity-le unset p = p
n_infinity-le _ p = tt

pub le-p_infinity : (z : Z) → IsProper z → z ≤Z p_infinity
le-p_infinity unset p = p
le-p_infinity n_infinity p = tt
le-p_infinity _ p = tt

-- The bound that a loop finds: a constant, or the infinity.
pub record IsFound (inf : Z) (consts : List Z) (z : Z) : Type 0 where
  pub proper : IsProper z
  pub origin : (z ≡ inf) ⊎ Among z consts

IsFound-later :
    (inf co : Z) (consts : List Z) (z : Z) → IsFound inf consts z → IsFound inf (co ∷ consts) z
IsFound-later inf co consts z f = record {
  proper = f.proper;
  origin = elim f.origin [ inl e ↦ inl e | inr a ↦ inr (inr a) ];
}

pub first_at_most_sound :
    (l : Z) (consts : List Z)
    → IsProper l
    → All IsProper consts
    → (z : Z) × (first_at_most l consts ≡ some z) × IsFound n_infinity consts z × (z ≤Z l)
unfolding first_at_most
first_at_most_sound l [] p ps =
    (n_infinity, refl, record { proper = tt; origin = inl refl }, n_infinity-le l p)
first_at_most_sound l (co ∷ consts) p ps =
    let (c, e, h) = cmp_returns co l ps.0 p in
    let (z, f, k, o) = first_at_most_sound l consts p ps.1 in pick c e h z f k o
  where
    pick :
        (c : Ordering)
        → cmp co l ≡ some c
        → Compares co l c
        → (z : Z) → first_at_most l consts ≡ some z
        → IsFound n_infinity consts z
        → z ≤Z l
        → (w : Z) × (first_at_most l (co ∷ consts) ≡ some w)
          × IsFound n_infinity (co ∷ consts) w
          × (w ≤Z l)
    pick Ordering.gt e h z f k o = (z, rw (e, f), IsFound-later n_infinity co consts z k, o)
    pick Ordering.eq e h z f k o = (
      co,
      rw (e, f),
      record { proper = ps.0; origin = inr (inl refl) },
      subst (λ w. co ≤Z w) h (≤Z_refl co ps.0),
    )
    pick Ordering.lt e h z f k o =
        (co, rw (e, f), record { proper = ps.0; origin = inr (inl refl) }, h.0)

pub first_at_least_sound :
    (u : Z) (consts : List Z)
    → IsProper u
    → All IsProper consts
    → (z : Z) × (first_at_least u consts ≡ some z) × IsFound p_infinity consts z × (u ≤Z z)
unfolding first_at_least
first_at_least_sound u [] p ps =
    (p_infinity, refl, record { proper = tt; origin = inl refl }, le-p_infinity u p)
first_at_least_sound u (co ∷ consts) p ps =
    let (c, e, h) = cmp_returns co u ps.0 p in
    let (z, f, k, o) = first_at_least_sound u consts p ps.1 in pick c e h z f k o
  where
    pick :
        (c : Ordering)
        → cmp co u ≡ some c
        → Compares co u c
        → (z : Z) → first_at_least u consts ≡ some z
        → IsFound p_infinity consts z
        → u ≤Z z
        → (w : Z) × (first_at_least u (co ∷ consts) ≡ some w)
          × IsFound p_infinity (co ∷ consts) w
          × (u ≤Z w)
    pick Ordering.lt e h z f k o = (z, rw (e, f), IsFound-later p_infinity co consts z k, o)
    pick Ordering.eq e h z f k o = (
      co,
      rw (e, f),
      record { proper = ps.0; origin = inr (inl refl) },
      subst (λ w. w ≤Z co) h (≤Z_refl co ps.0),
    )
    pick Ordering.gt e h z f k o =
        (co, rw (e, f), record { proper = ps.0; origin = inr (inl refl) }, h.0)

-- `NewIntInterval` of bounds in order keeps them.
pub new_int_interval-ordered :
    (l u : Z)
    → IsProper l
    → IsProper u
    → l ≤Z u
    → new_int_interval l u ≡ some (record { known = true; lower = l; upper = u })
unfolding new_int_interval
new_int_interval-ordered l u p q o = let (c, e, h) = cmp_returns u l q p in rw e (answer c h)
  where
    answer :
        (c : Ordering)
        → Compares u l c
        → (if is_minus c
            then some empty_int_interval
            else some (record { known = true; lower = l; upper = u }))
          ≡ some (record { known = true; lower = l; upper = u })
    answer Ordering.lt h = absurd (h.1 o)
    answer Ordering.eq h = refl
    answer Ordering.gt h = refl
