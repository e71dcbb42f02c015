-- ===== src/Vrp/Examples/Widening.antt =====
-- The theorem about the worklist loop at the loop `x := φ(1, y); y := x + 3`.
use go_tools.Common.{
  In, ◌≡◌, refl, inl, inr, some, Bool, true, false, List, [], ◌∷◌, ◌==◌, ==_iff, arith,
  if◌then◌else◌, subst, sym, Bool-cases,
}
use go_tools.Common.Search.{member}
use go_tools.Vrp.Interval.{unknown}
use go_tools.Vrp.Constraint.{Constraint, result, operands, phi, int_add}
use go_tools.Vrp.Range.{Shape, int_shape, int_range, Value, Ranges, get}
use go_tools.Vrp.Widen.{widen_int_interval}
use go_tools.Vrp.Eval.{eval}
use go_tools.Vrp.Solver.{refine_loop}
use go_tools.Vrp.Eval.Typed.{IsTyped, typed_phi, typed_add}
use go_tools.Vrp.Solver.Ends.Frame.{IsLocal}
use go_tools.Vrp.Solver.Ends.Loop.{HasShapes, Keeps, IsMet}
use go_tools.Vrp.Solver.Ends.Rounds.{IsComponent, IsTracked, refine_loop-ends}
use go_tools.Vrp.Examples.{all_int32, positive, positive-IsValid}

-- 1 has the range [1, 5], 2 is x and 4 is y.
abbrev vs : List Value
vs = 1 ∷ 2 ∷ 4 ∷ []

abbrev cs : List Constraint
cs = phi (1 ∷ 4 ∷ []) 2 ∷ int_add 2 1 4 ∷ []

abbrev uses : Value → List Constraint
uses v =
    if v == 1
    then cs
    else if v == 2
    then int_add 2 1 4 ∷ []
    else if v == 4
    then phi (1 ∷ 4 ∷ []) 2 ∷ []
    else []

abbrev all_integers : Value → Shape
all_integers v = int_shape

abbrev first_ranges : Ranges
first_ranges = (1, some (int_range positive)) ∷ []

first_ranges-HasShapes : HasShapes all_int32 vs all_integers first_ranges
unfolding get
first_ranges-HasShapes v m = elim (Bool-cases (1 == v)) [
  | inl q ↦ (positive, ground (arith, ==_iff 1 v), inr positive-IsValid)
  | inr q ↦ (unknown, ground (arith, ==_iff 1 v), inl refl)
]

phi_listed : (v : Value) → member v (1 ∷ 4 ∷ []) ≡ true → In (phi (1 ∷ 4 ∷ []) 2) (uses v)
phi_listed v o = elim (Bool-cases (v == 1)) [
  | inl q ↦ rw q (inl refl)
  | inr n ↦
      let two : (v == 2) ≡ false = ground (arith, ==_iff v 2, ==_iff v 4) in
      let four : (v == 4) ≡ true = ground arith in rw (n, two, four) (inl refl)
]

add_listed : (v : Value) → member v (2 ∷ 1 ∷ []) ≡ true → In (int_add 2 1 4) (uses v)
add_listed v o = elim (Bool-cases (v == 1)) [
  | inl q ↦ rw q (inr (inl refl))
  | inr n ↦ let two : (v == 2) ≡ true = ground arith in rw (n, two) (inl refl)
]

uses_drawn :
    (c : Constraint) (one two four : Bool)
    → In c (
        if one
        then cs
        else if two
        then int_add 2 1 4 ∷ []
        else if four
        then phi (1 ∷ 4 ∷ []) 2 ∷ []
        else [])
    → In c cs
uses_drawn c true two four m = m
uses_drawn c false true four (inl e) = inr (inl e)
uses_drawn c false true four (inr n) = absurd n
uses_drawn c false false true (inl e) = inl e
uses_drawn c false false true (inr n) = absurd n
uses_drawn c false false false m = absurd m

loop-IsComponent : IsComponent all_int32 vs all_integers cs uses
unfolding result operands eval
loop-IsComponent = record {
  inside = λ c m. elim m [
    | inl e ↦ subst (λ d. member (result d) vs ≡ true) e refl
    | inr n ↦ elim n [ inl e ↦ subst (λ d. member (result d) vs ≡ true) e refl | inr n ↦ absurd n ]
  ];
  refinable = λ c m q. cc;
  listed = λ c v m o. elim m [
    | inl e ↦
        subst (λ d. In d (uses v)) e
          (phi_listed v (subst (λ d. member v (operands d) ≡ true) (sym e) o))
    | inr n ↦ elim n [
      | inl e ↦
          subst (λ d. In d (uses v)) e
            (add_listed v (subst (λ d. member v (operands d) ≡ true) (sym e) o))
      | inr n ↦ absurd n
    ]
  ];
  drawn = λ c v m. uses_drawn c (v == 1) (v == 2) (v == 4) m;
  typed = λ c m. elim m [
    | inl e ↦
        subst (λ d. IsTyped all_int32 vs all_integers int_shape d) e
          (typed_phi int_shape 1 (4 ∷ []) 2 (λ x n. (ground arith, refl)))
    | inr n ↦ elim n [
      | inr n ↦ absurd n
      | inl e ↦
          subst (λ d. IsTyped all_int32 vs all_integers int_shape d) e
            (typed_add 2 1 4 (refl, refl) (refl, refl))
    ]
  ];
}

first-IsTracked :
    IsTracked all_int32 [] tt vs all_integers cs uses loop-IsComponent (1 ∷ []) first_ranges []
unfolding operands
first-IsTracked c m l = elim m [
  | inl e ↦ inl (1, subst (λ d. member 1 (operands d) ≡ true) e refl, refl)
  | inr n ↦ elim n [
    | inl e ↦ inl (1, subst (λ d. member 1 (operands d) ≡ true) e refl, refl)
    | inr n ↦ absurd n
  ]
]

refine_loop-ends_example :
    (r' : Ranges) × (refine_loop all_int32
        (λ oi ni. widen_int_interval [] oi ni)
        uses
        11
        first_ranges
        (1 ∷ [])
      ≡ some r')
    × HasShapes all_int32 vs all_integers r'
    × Keeps all_int32 vs all_integers first_ranges r'
    × ((c : Constraint) → In c cs → IsLocal c → IsMet all_int32 vs all_integers r' c)
refine_loop-ends_example =
    refine_loop-ends all_int32 [] tt vs all_integers cs uses loop-IsComponent 11 first_ranges
      (1 ∷ []) (omega arith) first_ranges-HasShapes first-IsTracked
